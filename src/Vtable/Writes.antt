-- ===== src/Vtable/Writes.antt =====
-- src/vtable.rs: a write to a slot is made or leaves every word as it was.
use neohook.Base.{
  ℕ, ◌≡◌, ◌≢◌, refl, sym, ap, subst, ◌∙◌, ◌⊎◌, inl, inr, false, ◌==◌, if_true, if_false, Bool-cases,
  arith,
}
use neohook.Base.Assign.{assign}
use neohook.Base.Results.{ok, err}
use neohook.Vtable.{Os, Tables, VtableError, Answer, write_locked, written, write_slot}

pub same_or : (x y : ℕ) → (x ≡ y) ⊎ (x ≢ y)
same_or x y = ground arith

pub assign_at : (f : ℕ → ℕ) (at value x : ℕ) → x ≡ at → assign f at value x ≡ value
assign_at f at value x e = if_true {b = x == at} _ _ (ground arith)

pub assign_off : (f : ℕ → ℕ) (at value x : ℕ) → x ≢ at → assign f at value x ≡ f x
assign_off f at value x apart = if_false {b = x == at} _ _ (ground arith)

-- What a write leaves: the value in the slot, or every word as it was.
abbrev pub Writes : ℕ → ℕ → Tables → Answer × Tables → Type 0
Writes slot value t r =
    (((r.0 ≡ ok tt) × (r.1 ≡ record t { words = assign t.words slot value }))
      ⊎ ((e : VtableError) × (r.0 ≡ err e)
          × ((r.1).claimed_slots ≡ t.claimed_slots)
          × ((x : ℕ) → (r.1).words x ≡ t.words x)))

put_back :
    (t : Tables) (slot value x : ℕ)
    → assign (assign t.words slot value) slot (t.words slot) x ≡ t.words x
put_back t slot value x = elim (same_or x slot) [
  | inl here ↦
      assign_at (assign t.words slot value) slot (t.words slot) x here ∙ ap t.words (sym here)
  | inr apart ↦
      assign_off (assign t.words slot value) slot (t.words slot) x apart
      ∙ assign_off t.words slot value x apart
]

-- A write that is refused: to null, or where the protection cannot be lifted or put back.
abbrev pub IsRefused : Os → ℕ → Type 0
IsRefused os slot = (slot ≡ 0) ⊎ (os.lifts slot ≡ false) ⊎ (os.restores slot ≡ false)

pub write_slot_answer :
    (os : Os) (slot value : ℕ) (t : Tables)
    → ((write_slot os slot value t).0 ≡ ok tt) ⊎ IsRefused os slot
unfolding write_slot write_locked written
write_slot_answer os slot value t = elim (Bool-cases (slot == 0)) [
  | inl null ↦ inr (inl (ground arith))
  | inr there ↦ elim (Bool-cases (os.lifts slot)) [
    | inr kept ↦ inr (inr (inl kept))
    | inl lifted ↦ elim (Bool-cases (os.restores slot)) [
      | inr failed ↦ inr (inr (inr failed))
      | inl restored ↦ inl (
          ap (λ r. r.0)
            (if_false _ _ there ∙ if_true _ _ lifted ∙ ap written (if_true _ _ restored)))
    ]
  ]
]

pub write_slot-Writes :
    (os : Os) (slot value : ℕ) (t : Tables) → Writes slot value t (write_slot os slot value t)
unfolding write_slot write_locked written
write_slot-Writes os slot value t = elim (Bool-cases (slot == 0)) [
  | inl null ↦
      subst (Writes slot value t) (sym (if_true _ _ null))
        (inr (VtableError.null_vtable, refl, refl, λ x. refl))
  | inr there ↦ elim (Bool-cases (os.lifts slot)) [
    | inr kept ↦
        subst (Writes slot value t) (sym (if_false _ _ there ∙ if_false _ _ kept))
          (inr (VtableError.protect_failed, refl, refl, λ x. refl))
    | inl lifted ↦ elim (Bool-cases (os.restores slot)) [
      | inl restored ↦
          subst (Writes slot value t)
            (sym (if_false _ _ there ∙ if_true _ _ lifted ∙ ap written (if_true _ _ restored)))
            (inl (refl, refl))
      | inr failed ↦
          subst (Writes slot value t)
            (sym (if_false _ _ there ∙ if_true _ _ lifted ∙ ap written (if_false _ _ failed)))
            (inr (VtableError.protect_failed, refl, refl, put_back t slot value))
    ]
  ]
]
