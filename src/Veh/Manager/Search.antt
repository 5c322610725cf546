-- ===== src/Veh/Manager/Search.antt =====
-- src/veh.rs: the search for a free slot, which refuses a target that has one.
use neohook.Base.{
  ℕ, zero, suc, ◌+◌, ◌<◌, ◌≤◌, ◌≡◌, ◌≢◌, sym, ap, ◌∙◌, ◌⊎◌, inl, inr, true, false, Option, none,
  some, ◌==◌, if_true, if_false, Bool-cases, arith,
}
use neohook.Base.Results.{Result, ok, err}
use neohook.Veh.{Slots}
use neohook.Veh.Manager.{VehHookError, find_slot}

find_slot_one_less :
    (s : Slots) (addr i rounds j : ℕ)
    → (s.target i == addr) ≡ false
    → ((j < i + 1) ⊎ (i + 1 + rounds ≤ j)) ⊎ (s.target j ≢ addr)
    → ((j < i) ⊎ (i + suc rounds ≤ j)) ⊎ (s.target j ≢ addr)
find_slot_one_less s addr i rounds j other (inr apart) = inr apart
find_slot_one_less s addr i rounds j other (inl (inr after)) = inl (inr (omega arith))
find_slot_one_less s addr i rounds j other (inl (inl before)) = elim (Bool-cases (j == i)) [
  | inl here ↦ inr (λ t. apart_of (s.target i) addr other (ap s.target (is_same i j here) ∙ t))
  | inr apart ↦ inl (inl (ground arith))
]
  where
    is_same : (i j : ℕ) → (j == i) ≡ true → i ≡ j
    is_same i j e = ground arith

    apart_of : (a b : ℕ) → (a == b) ≡ false → a ≢ b
    apart_of a b e = ground arith

not_ok : {e : VehHookError} {slot : ℕ} → ◌≡◌ {A = Result VehHookError ℕ} (err e) (ok slot) → ⊥
not_ok p = cc

-- No slot holds the address for which a slot was found.
pub find_slot_absent :
    (s : Slots) (addr i rounds : ℕ) (free : Option ℕ) (slot : ℕ)
    → find_slot s addr i rounds free ≡ ok slot
    → (j : ℕ) → ((j < i) ⊎ (i + rounds ≤ j)) ⊎ (s.target j ≢ addr)
unfolding find_slot
find_slot_absent s addr i zero free slot e j = inl (ground arith)
find_slot_absent s addr i (suc rounds) (some k) slot e j = elim (Bool-cases (s.target i == addr)) [
  | inl taken ↦ absurd (not_ok (sym (if_true _ _ taken) ∙ e))
  | inr other ↦
      find_slot_one_less s addr i rounds j other
        (find_slot_absent s addr (i + 1) rounds (some k) slot (sym (if_false _ _ other) ∙ e) j)
]
find_slot_absent s addr i (suc rounds) none slot e j = elim (Bool-cases (s.target i == addr)) [
  | inl taken ↦ absurd (not_ok (sym (if_true _ _ taken) ∙ e))
  | inr other ↦ elim (Bool-cases (s.target i == 0)) [
    | inl free ↦ find_slot_one_less s addr i rounds j other (
        find_slot_absent s addr (i + 1) rounds (some i) slot
          (sym (if_false _ _ other ∙ if_true _ _ free) ∙ e) j)
    | inr used ↦ find_slot_one_less s addr i rounds j other (
        find_slot_absent s addr (i + 1) rounds none slot
          (sym (if_false _ _ other ∙ if_false _ _ used) ∙ e) j)
  ]
]

ok_same : {a b : ℕ} → ◌≡◌ {A = Result VehHookError ℕ} (ok a) (ok b) → a ≡ b
ok_same p = cc

-- The slot that was found is free.
pub find_slot_free :
    (s : Slots) (addr i rounds : ℕ) (free : Option ℕ) (slot : ℕ)
    → find_slot s addr i rounds free ≡ ok slot
    → (free ≡ some slot) ⊎ ((slot < i + rounds) × (s.target slot ≡ 0))
unfolding find_slot
find_slot_free s addr i zero none slot e = absurd (not_ok e)
find_slot_free s addr i zero (some k) slot e = inl (ap (λ (n : ℕ). some n) (ok_same e))
find_slot_free s addr i (suc rounds) (some k) slot e = elim (Bool-cases (s.target i == addr)) [
  | inl taken ↦ absurd (not_ok (sym (if_true _ _ taken) ∙ e))
  | inr other ↦
      elim (find_slot_free s addr (i + 1) rounds (some k) slot (sym (if_false _ _ other) ∙ e)) [
        | inl found ↦ inl found
        | inr (lt, z) ↦ inr (omega arith, z)
      ]
]
find_slot_free s addr i (suc rounds) none slot e = elim (Bool-cases (s.target i == addr)) [
  | inl taken ↦ absurd (not_ok (sym (if_true _ _ taken) ∙ e))
  | inr other ↦ elim (Bool-cases (s.target i == 0)) [
    | inl free ↦
        elim (find_slot_free s addr (i + 1) rounds (some i) slot
          (sym (if_false _ _ other ∙ if_true _ _ free) ∙ e)) [
            | inl found ↦ inr (here found free)
            | inr (lt, z) ↦ inr (omega arith, z)
          ]
    | inr used ↦
        elim (find_slot_free s addr (i + 1) rounds none slot
          (sym (if_false _ _ other ∙ if_false _ _ used) ∙ e)) [
            | inl found ↦ cc
            | inr (lt, z) ↦ inr (omega arith, z)
          ]
  ]
]
  where
    some_same : {a b : ℕ} → ◌≡◌ {A = Option ℕ} (some a) (some b) → a ≡ b
    some_same p = cc

    here :
        ◌≡◌ {A = Option ℕ} (some i) (some slot)
        → (s.target i == 0) ≡ true
        → (slot < i + suc rounds) × (s.target slot ≡ 0)
    here found free =
        (omega (arith, some_same found), sym (ap s.target (some_same found)) ∙ (ground arith))
