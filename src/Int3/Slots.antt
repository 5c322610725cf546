-- ===== src/Int3/Slots.antt =====
-- The slot tables of src/int3.rs: the search for a slot, and what a write at a slot changes.
use neohook.Base.{
  ℕ, zero, suc, ◌+◌, ◌<◌, ◌≡◌, ◌≢◌, refl, ap, ◌⊎◌, inl, inr, true, false, none, some, List, [], ◌∷◌,
  length, get_elem?, set, Bool-cases, ◌==◌, arith,
}
use neohook.Base.Maps.{member}
use neohook.Base.Results.{ok, err}
use neohook.Int3.{already_hooked, first_of, find_slot, find_detour, any_live, zeros}

-- No slot is free.
abbrev pub AllTaken : List ℕ → Type 0
AllTaken [] = Unit
AllTaken (x ∷ xs) = (x ≢ 0) × AllTaken xs

find_slot-some :
    (t : ℕ) (xs : List ℕ) (i j : ℕ)
    → ((member t xs ≡ true) × (find_slot t xs i (some j) ≡ err already_hooked))
      ⊎ ((member t xs ≡ false) × (find_slot t xs i (some j) ≡ ok (some j)))
unfolding find_slot first_of
find_slot-some t [] i j = inr (refl, refl)
find_slot-some t (x ∷ xs) i j = ground (arith, find_slot-some t xs (i + 1) j)

pub find_slot_cases :
    (t : ℕ) (xs : List ℕ) (i : ℕ)
    → ((member t xs ≡ true) × (find_slot t xs i none ≡ err already_hooked))
      ⊎ ((member t xs ≡ false) × AllTaken xs × (find_slot t xs i none ≡ ok none))
      ⊎ ((member t xs ≡ false)
          × ((k : ℕ) × (get_elem? xs k ≡ some 0) × (find_slot t xs i none ≡ ok (some (i + k)))))
unfolding find_slot first_of
find_slot_cases t [] i = inr (inl (refl, tt, refl))
find_slot_cases t (x ∷ xs) i = elim (Bool-cases (x == t)) [
  | inl hit ↦ inl (ground (arith, hit), ground (arith, hit))
  | inr miss ↦ elim (Bool-cases (x == 0)) [
    | inl free ↦ elim (find_slot-some t xs (i + 1) i) [
      | inl (m, e) ↦ inl (ground (arith, m), ground (arith, miss, free, e))
      | inr (m, e) ↦
          inr (inr (ground (arith, miss, m), (0, ground arith, ground (arith, miss, free, e))))
    ]
    | inr taken ↦ elim (find_slot_cases t xs (i + 1)) [
      | inl (m, e) ↦ inl (ground (arith, m), ground (arith, miss, taken, e))
      | inr (inl (m, all, e)) ↦
          inr (inl (ground (arith, miss, m), (ground arith, all), ground (arith, miss, taken, e)))
      | inr (inr (m, (k, at, e))) ↦
          inr (inr (ground (arith, miss, m), (suc k, at, ground (arith, miss, taken, e))))
    ]
  ]
]

pub set-set : (xs : List ℕ) (k v w : ℕ) → set (set xs k v) k w ≡ set xs k w
set-set [] k v w = refl
set-set (x ∷ xs) zero v w = refl
set-set (x ∷ xs) (suc k) v w = ap (λ ys. x ∷ ys) (set-set xs k v w)

pub set-get_elem : (xs : List ℕ) (k v : ℕ) → get_elem? xs k ≡ some v → set xs k v ≡ xs
set-get_elem [] k v h = refl
set-get_elem (x ∷ xs) zero v h = cc
set-get_elem (x ∷ xs) (suc k) v h = ap (λ ys. x ∷ ys) (set-get_elem xs k v h)

pub length-set : (xs : List ℕ) (k v : ℕ) → length (set xs k v) ≡ length xs
length-set [] k v = refl
length-set (x ∷ xs) zero v = refl
length-set (x ∷ xs) (suc k) v = ap suc (length-set xs k v)

pub length-zeros : (xs : List ℕ) → length (zeros xs) ≡ length xs
unfolding zeros
length-zeros [] = refl
length-zeros (x ∷ xs) = ap suc (length-zeros xs)

pub member-set : (xs : List ℕ) (k v : ℕ) → k < length xs → member v (set xs k v) ≡ true
member-set [] k v h = absurd (omega arith)
member-set (x ∷ xs) zero v h = ground arith
member-set (x ∷ xs) (suc k) v h = ground (arith, member-set xs k v (omega arith))

pub find_detour-set :
    (ts ds : List ℕ) (k t d : ℕ)
    → length ts ≡ length ds
    → get_elem? ts k ≡ some 0
    → member t ts ≡ false
    → d ≢ 0
    → find_detour (set ts k t) (set ds k d) t ≡ some d
unfolding find_detour
find_detour-set [] ds k t d len free absent nz = ground arith
find_detour-set (x ∷ ts) [] k t d len free absent nz = ground arith
find_detour-set (x ∷ ts) (y ∷ ds) zero t d len free absent nz = ground arith
find_detour-set (x ∷ ts) (y ∷ ds) (suc k) t d len free absent nz =
    let later = find_detour-set ts ds k t d (omega arith) free (ground arith) nz in
    ground (arith, later)

pub find_detour-set_other :
    (ts ds : List ℕ) (k t d addr : ℕ)
    → get_elem? ts k ≡ some 0
    → addr ≢ t
    → addr ≢ 0
    → find_detour (set ts k t) (set ds k d) addr ≡ find_detour ts ds addr
unfolding find_detour
find_detour-set_other [] ds k t d addr free other nz = refl
find_detour-set_other (x ∷ ts) [] zero t d addr free other nz = refl
find_detour-set_other (x ∷ ts) [] (suc k) t d addr free other nz = refl
find_detour-set_other (x ∷ ts) (y ∷ ds) zero t d addr free other nz = ground arith
find_detour-set_other (x ∷ ts) (y ∷ ds) (suc k) t d addr free other nz =
    ground (arith, find_detour-set_other ts ds k t d addr free other nz)

pub find_detour-absent :
    (ts ds : List ℕ) (addr : ℕ) → member addr ts ≡ false → find_detour ts ds addr ≡ none
unfolding find_detour
find_detour-absent [] ds addr h = refl
find_detour-absent (x ∷ ts) [] addr h = refl
find_detour-absent (x ∷ ts) (y ∷ ds) addr h =
    ground (arith, find_detour-absent ts ds addr (ground arith))

pub any_live-set : (xs : List ℕ) (k v : ℕ) → v ≢ 0 → k < length xs → any_live (set xs k v) ≡ true
unfolding any_live
any_live-set [] k v nz lt = absurd (omega arith)
any_live-set (x ∷ xs) zero v nz lt = ground arith
any_live-set (x ∷ xs) (suc k) v nz lt = ground (arith, any_live-set xs k v nz (omega arith))
