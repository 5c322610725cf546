-- ===== src/Patches/Overlap.antt =====
-- `overlaps_live_patch` of src/transaction.rs with `armed_in_range` of src/int3.rs.
use neohook.Base.{
  ℕ, ◌+◌, ◌^◌, ◌≤◌, ◌<◌, ◌≡◌, ◌≢◌, ◌↔◌, ◌⊎◌, inl, inr, true, refl, List, [], ◌∷◌, Bool-cases, arith,
}
use neohook.Patches.{LivePatches, ranges_overlap, any_overlap, armed_in_range, overlaps_live_patch}
use neohook.Patches.Tables.{ranges_overlap_iff}

-- The byte of an armed slot.
abbrev pub SlotByte : List ℕ → ℕ → Type 0
SlotByte [] x = ⊥
SlotByte (addr ∷ targets) x = ((addr ≢ 0) × (addr ≡ x)) ⊎ SlotByte targets x

-- A byte of a live inline patch.
abbrev pub PatchByte : LivePatches → ℕ → Type 0
PatchByte [] x = ⊥
PatchByte ((start, len) ∷ patches) x = ((start ≤ x) × (x < start + len)) ⊎ PatchByte patches x

-- The patches are not empty and end before the last address.
abbrev pub AllInside : LivePatches → Type 0
AllInside [] = Unit
AllInside ((start, len) ∷ patches) = (0 < len) × (start + len < 2 ^ 64) × AllInside patches

armed-SlotByte :
    (targets : List ℕ) (target len : ℕ)
    → armed_in_range targets target len ≡ true
    → (x : ℕ) × (target ≤ x) × (x < target + len) × SlotByte targets x
unfolding armed_in_range
armed-SlotByte [] target len h = ground arith
armed-SlotByte (addr ∷ targets) target len h =
    elim (Bool-cases (armed_in_range targets target len)) [
      | inl later ↦
          (let (x, lo, hi, at) = armed-SlotByte targets target len later in (x, lo, hi, inr at))
      | inr nothing ↦ (addr, ground arith, ground arith, inl (ground arith, refl))
    ]

SlotByte-armed :
    (targets : List ℕ) (target len x : ℕ)
    → target ≤ x
    → x < target + len
    → SlotByte targets x
    → armed_in_range targets target len ≡ true
unfolding armed_in_range
SlotByte-armed [] target len x lo hi at = absurd at
SlotByte-armed (addr ∷ targets) target len x lo hi (inl (d, e)) = ground arith
SlotByte-armed (addr ∷ targets) target len x lo hi (inr at) =
    ground (arith, SlotByte-armed targets target len x lo hi at)

any-PatchByte :
    (patches : LivePatches) (target len : ℕ)
    → AllInside patches
    → 0 < len
    → target + len < 2 ^ 64
    → any_overlap target len patches ≡ true
    → (x : ℕ) × (target ≤ x) × (x < target + len) × PatchByte patches x
unfolding any_overlap
any-PatchByte [] target len ok pos fits h = ground arith
any-PatchByte ((start, size) ∷ patches) target len (p, f, ok) pos fits h =
    elim (Bool-cases (ranges_overlap start size target len)) [
      | inl here ↦
          (let (x, h1, h2, h3, h4) =
              (ranges_overlap_iff start size target len p pos f fits).0 here in
            (x, h3, h4, inl (h1, h2)))
      | inr nothing ↦
          (let (x, lo, hi, at) = any-PatchByte patches target len ok pos fits (ground arith) in
            (x, lo, hi, inr at))
    ]

PatchByte-any :
    (patches : LivePatches) (target len x : ℕ)
    → AllInside patches
    → 0 < len
    → target + len < 2 ^ 64
    → target ≤ x
    → x < target + len
    → PatchByte patches x
    → any_overlap target len patches ≡ true
unfolding any_overlap
PatchByte-any [] target len x ok pos fits lo hi at = absurd at
PatchByte-any ((start, size) ∷ patches) target len x (p, f, ok) pos fits lo hi (inl (h1, h2)) =
    ground (arith, (ranges_overlap_iff start size target len p pos f fits).1 (x, h1, h2, lo, hi))
PatchByte-any ((start, size) ∷ patches) target len x (p, f, ok) pos fits lo hi (inr at) =
    ground (arith, PatchByte-any patches target len x ok pos fits lo hi at)

-- A range that is not empty overlaps a live patch exactly when an armed INT3 slot or a live inline
-- patch covers one of its bytes. The range and the patches end before the last address.
pub overlaps_live_patch_iff :
    (targets : List ℕ) (patches : LivePatches) (target len : ℕ)
    → AllInside patches
    → 0 < len
    → target + len < 2 ^ 64
    → (overlaps_live_patch targets patches target len ≡ true)
      ↔ ((x : ℕ) × (target ≤ x) × (x < target + len) × (SlotByte targets x ⊎ PatchByte patches x))
unfolding overlaps_live_patch
overlaps_live_patch_iff targets patches target len ok pos fits = (
  λ h. elim (Bool-cases (armed_in_range targets target len)) [
    | inl armed ↦
        (let (x, lo, hi, at) = armed-SlotByte targets target len armed in (x, lo, hi, inl at))
    | inr nothing ↦
        (let (x, lo, hi, at) = any-PatchByte patches target len ok pos fits (ground arith) in
          (x, lo, hi, inr at))
  ],
  λ (x, lo, hi, at). elim at [
    | inl slot ↦ ground (arith, SlotByte-armed targets target len x lo hi slot)
    | inr patch ↦ ground (arith, PatchByte-any patches target len x ok pos fits lo hi patch)
  ],
)
