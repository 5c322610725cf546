-- ===== src/Scan/CodeStyle.antt =====
-- `Pattern::from_code_style` of src/scan.rs.
use neohook.Base.{
  ℕ, suc, ◌<◌, ◌≡◌, refl, ap, ◌⊎◌, Bool, ◌||◌, List, [], ◌∷◌, ◌++◌, map, length, All, arith, ◌==◌,
  if◌then◌else◌,
}
use neohook.Base.Results.{ok, err}
use neohook.Scan.{
  Pattern, empty, invalid_mask_char, mask_length_mismatch, mask_flags, from_code_style,
}
use neohook.Scan.Match.{IsWellFormed}
use neohook.Scan.Match.{IsWellFormed}

abbrev pub IsMaskChar : ℕ → Type 0
IsMaskChar c = (c ≡ b'x') ⊎ (c ≡ b'X') ⊎ (c ≡ b'?')

abbrev pub is_fixed : ℕ → Bool
is_fixed c = c == b'x' || c == b'X'

mask_flags-ok : (cs : List ℕ) → All IsMaskChar cs → mask_flags cs ≡ ok (map is_fixed cs)
unfolding mask_flags
mask_flags-ok [] h = refl
mask_flags-ok (c ∷ cs) h = ground (arith, mask_flags-ok cs h.1)

-- The loop stops at the first character that is no mask character.
mask_flags-err :
    (good : List ℕ) (c : ℕ) (rest : List ℕ)
    → All IsMaskChar good
    → ¬ IsMaskChar c
    → mask_flags (good ++ c ∷ rest) ≡ err (invalid_mask_char c)
unfolding mask_flags
mask_flags-err [] c rest h bad = ground arith
mask_flags-err (g ∷ good) c rest h bad = ground (arith, mask_flags-err good c rest h.1 bad)

length-map : (cs : List ℕ) → length (map is_fixed cs) ≡ length cs
length-map [] = refl
length-map (c ∷ cs) = ap suc (length-map cs)

-- A byte array and a mask of the same positive length over `x`, `X` and `?` give the pattern of
-- those bytes in which exactly `x` and `X` are fixed, and it is well formed.
pub code_style-ok :
    (bytes mask : List ℕ)
    → 0 < length bytes
    → length bytes ≡ length mask
    → All IsMaskChar mask
    → (p : Pattern) × (from_code_style bytes mask ≡ ok p)
      × (p.bytes ≡ bytes)
      × (p.mask ≡ map is_fixed mask)
      × IsWellFormed p
unfolding from_code_style
code_style-ok bytes mask pos same h = (
  record { bytes = bytes; mask = map is_fixed mask },
  ground (arith, mask_flags-ok mask h),
  refl,
  refl,
  record { same_length = omega (arith, length-map mask); not_empty = pos },
)

-- A mask with a character that is none of these is refused: for want of bytes, else because the
-- lengths differ, else with the first such character.
pub code_style-err :
    (bytes good rest : List ℕ) (c : ℕ)
    → All IsMaskChar good
    → ¬ IsMaskChar c
    → let mask = good ++ c ∷ rest in
      from_code_style bytes mask ≡ (
        if length bytes == 0
        then err empty
        else if length bytes == length mask
        then err (invalid_mask_char c)
        else err (mask_length_mismatch (length bytes) (length mask)))
unfolding from_code_style
code_style-err bytes good rest c h bad = ground (arith, mask_flags-err good c rest h bad)
