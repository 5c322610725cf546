-- ===== src/Code/Follow.antt =====
-- What following jumps in src/code.rs arrives at, and that it reads only what it may.
use neohook.Base.{
  ℕ, zero, suc, ◌+◌, ◌^◌, ◌≤◌, ◌<◌, ◌≡◌, ◌≢◌, ◌⊎◌, refl, sym, ap, subst, ◌∙◌, inl, inr, Bool, true,
  false, ◌&&◌, Option, none, some, List, [], ◌∷◌, length, bit_and, Bool-cases, Option-cases, ◌==◌,
  if_true, if_false, arith,
}
use neohook.Base.Maps.{member}
use neohook.Base.Regions.{Region, is_committed, page_noaccess_or_guard}
use neohook.Base.Words.{checked_add}
use neohook.Code.{
  Space, in_region, region_allows, is_readable_range, detour_code_from_pointer_once, follow,
  follow_next, detour_code_from_pointer,
}

-- A chain of jumps, each to an address that is not null, with the addresses that they stand at.
pub data Leads (m : Space) : List ℕ → ℕ → ℕ → Type 0 where
  here : (a : ℕ) → Leads m [] a a
  jump :
      (passed : List ℕ) (a b c : ℕ)
      → detour_code_from_pointer_once m a ≡ some b
      → b ≢ 0
      → Leads m passed b c
      → Leads m (a ∷ passed) a c

-- The addresses passed are all different, and none of them is among `seen`.
abbrev pub Fresh : List ℕ → List ℕ → Type 0
Fresh seen [] = Unit
Fresh seen (a ∷ passed) = (member a seen ≡ false) × Fresh (a ∷ seen) passed

-- The addresses passed, the latest first, before those seen.
abbrev pub onto : List ℕ → List ℕ → List ℕ
onto seen [] = seen
onto seen (a ∷ passed) = onto (a ∷ seen) passed

-- At the end no jump is recognised, or one to null is, or the address was passed before.
abbrev pub IsEnd : Space → List ℕ → ℕ → Type 0
IsEnd m passed c =
    (detour_code_from_pointer_once m c ≡ none)
    ⊎ (detour_code_from_pointer_once m c ≡ some 0)
    ⊎ (member c passed ≡ true)

-- What `rounds` rounds from `current` arrive at.
Follows : Space → ℕ → List ℕ → ℕ → ℕ → Type 0
Follows m rounds seen current goal =
    (passed : List ℕ) × Leads m passed current goal
    × Fresh seen passed
    × (length passed ≤ rounds)
    × (IsEnd m (onto seen passed) goal ⊎ (length passed ≡ rounds))

null_test : (a : ℕ) → a ≢ 0 → (a == 0) ≡ false
null_test a nz = ground arith

next-Follows :
    (m : Space) (rounds current : ℕ) (seen : List ℕ) (go_on : ℕ → ℕ) (o : Option ℕ)
    → detour_code_from_pointer_once m current ≡ o
    → member current seen ≡ false
    → ((next : ℕ) → Follows m rounds (current ∷ seen) next (go_on next))
    → Follows m (suc rounds) seen current (follow_next go_on current o)
unfolding follow_next Follows
next-Follows m rounds current seen go_on none e new later =
    ([], here current, tt, omega arith, inl (inl e))
next-Follows m rounds current seen go_on (some zero) e new later =
    ([], here current, tt, omega arith, inl (inr (inl e)))
next-Follows m rounds current seen go_on (some (suc next)) e new later =
    let (passed, path, fresh, le, end) = later (suc next) in
    (
      current ∷ passed,
      jump passed current (suc next) (go_on (suc next)) e (λ z. omega arith) path,
      (new, fresh),
      omega arith,
      elim end [ inl stop ↦ inl stop | inr all ↦ inr (omega arith) ],
    )

follow-Follows :
    (m : Space) (rounds : ℕ) (seen : List ℕ) (current : ℕ)
    → Follows m rounds seen current (follow m rounds seen current)
unfolding follow Follows
follow-Follows m zero seen current = ([], here current, tt, omega arith, inr refl)
follow-Follows m (suc rounds) seen current =
    let step = detour_code_from_pointer_once m current in
    elim (Bool-cases (member current seen)) [
      | inl cycle ↦
          subst (Follows m (suc rounds) seen current) (sym (if_true _ _ cycle))
            ([], here current, tt, omega arith, inl (inr (inr cycle)))
      | inr fresh ↦ subst (Follows m (suc rounds) seen current) (sym (if_false _ _ fresh)) (
          next-Follows m rounds current seen (follow m rounds (current ∷ seen)) step refl fresh
            (λ next. follow-Follows m rounds (current ∷ seen) next))
    ]

Leads-not_null : (m : Space) (passed : List ℕ) (a b : ℕ) → a ≢ 0 → Leads m passed a b → b ≢ 0
Leads-not_null m _ _ _ nz (here a) = nz
Leads-not_null m _ _ _ nz (jump passed a b c e bz rest) = Leads-not_null m passed b c bz rest

-- From a pointer that is not null, the result is not null, and recognised jumps that stand at different
-- addresses, 32 at most, lead from the pointer to it. Where they are fewer than 32, no jump is
-- recognised at the result, or one to null is, or the result is one of the addresses passed.
pub detour_code_follows :
    (m : Space) (pointer : ℕ)
    → pointer ≢ 0
    → let goal = detour_code_from_pointer m pointer in
      (goal ≢ 0)
      × ((passed : List ℕ) × Leads m passed pointer goal
          × Fresh [] passed
          × (length passed ≤ 32)
          × (IsEnd m (onto [] passed) goal ⊎ (length passed ≡ 32)))
unfolding detour_code_from_pointer Follows
detour_code_follows m pointer nz =
    let shape = if_false 0 (follow m 32 [] pointer) (null_test pointer nz) in
    let whole = subst (Follows m 32 [] pointer) (sym shape) (follow-Follows m 32 [] pointer) in
    let (passed, path, fresh, le, end) = whole in (Leads-not_null m passed pointer _ nz path, whole)

in_region_bounds :
    (base size ptr len : ℕ)
    → in_region base (checked_add base size) (checked_add ptr len) ptr ≡ true
    → (base ≤ ptr) × (ptr + len ≤ base + size) × (base + size < 2 ^ 64)
unfolding in_region
in_region_bounds base size ptr len h = (ground arith, ground arith, ground arith)

false-true : false ≡ true → ⊥
false-true e = cc

both_true : (a b : Bool) → (a && b) ≡ true → (a ≡ true) × (b ≡ true)
both_true a b h = (ground arith, ground arith)

-- A range that counts as readable is not empty, does not begin at null, and lies whole in one
-- committed region, which is neither a guard page nor without access.
pub readable_in_region :
    (m : Space) (ptr len : ℕ)
    → is_readable_range m ptr len ≡ true
    → (r : Region) × (m.query ptr ≡ some r)
      × (is_committed r.state ≡ true)
      × (bit_and r.protect page_noaccess_or_guard ≡ 0)
      × (ptr ≢ 0)
      × (0 < len)
      × (r.base ≤ ptr)
      × (ptr + len ≤ r.base + r.size)
      × (r.base + r.size < 2 ^ 64)
unfolding is_readable_range region_allows
readable_in_region m ptr len h = elim (Option-cases (m.query ptr)) [
  | inl nothing ↦
      let (given, allowed) = both_true _ _ h in
      absurd (false-true (sym (ap (λ q. region_allows q ptr len) nothing) ∙ allowed))
  | inr (r, found) ↦
      let (given, allowed) = both_true _ _ h in
      let (first, inside) =
        both_true _ _ (sym (ap (λ q. region_allows q ptr len) found) ∙ allowed) in
      let (committed, usable) = both_true _ _ first in
      let (low, high, fits) = in_region_bounds r.base r.size ptr len inside in
      (r, found, committed, ground (arith, usable), ground arith, ground arith, low, high, fits)
]
