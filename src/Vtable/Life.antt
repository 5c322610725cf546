-- ===== src/Vtable/Life.antt =====
-- src/vtable.rs: the life of a hook, from its install through any toggling to its end.
use neohook.Base.{
  ℕ, ◌+◌, ◌*◌, ◌≡◌, refl, sym, ap, subst, ◌∙◌, ◌⊎◌, inl, inr, Bool, true, false, not, List, [], ◌∷◌,
  ◌==◌, if◌then◌else◌, if_true, if_false, Bool-cases, arith,
}
use neohook.Base.Assign.{assign}
use neohook.Base.Maps.{member, erase}
use neohook.Base.Words.{wrap64}
use neohook.Base.Results.{Result, ok, err}
use neohook.Patches.{claim_table_slot, release_table_slot}
use neohook.Vtable.{
  Os, Tables, VtableHook, VtableError, Answer, write_locked, write_slot, installed, install_claimed,
  install, release, dropped_slot, drop_hook,
}
use neohook.Vtable.Writes.{
  same_or, assign_at, assign_off, Writes, IsRefused, write_slot_answer, write_slot-Writes,
}
use neohook.Vtable.Live.{IsLive, Toggle, toggle_all, toggle_all-IsLive, toggle_all_slot}

-- What the end of a hook leaves: the words of `first` and the slot free, or, where the write is refused,
-- all as it was.
abbrev Ended : Os → (ℕ → ℕ) → List ℕ → VtableHook → Tables → Tables → Type 0
Ended os first claims hook t u =
    (((x : ℕ) → u.words x ≡ first x) × (u.claimed_slots ≡ release_table_slot hook.slot claims))
    ⊎ (IsRefused os hook.slot × ((x : ℕ) → u.words x ≡ t.words x) × (u.claimed_slots ≡ claims))

dropped_slot-Ended :
    (os : Os) (first : ℕ → ℕ) (claims : List ℕ) (hook : VtableHook) (t : Tables)
    (r : Answer × Tables)
    → IsLive first claims hook t
    → (r.0 ≡ ok tt) ⊎ IsRefused os hook.slot
    → Writes hook.slot hook.original_ptr t r
    → Ended os first claims hook t (dropped_slot hook r)
unfolding dropped_slot release
dropped_slot-Ended os first claims hook t (ok done, u) live answer (inl (fine, wrote)) = inl (
  λ x. ap (λ (w : Tables). w.words x) wrote ∙ original_again x,
  ap (λ (w : Tables). release_table_slot hook.slot w.claimed_slots) wrote
      ∙ ap (release_table_slot hook.slot) live.claims_kept,
)
  where
    original_again : (x : ℕ) → assign t.words hook.slot hook.original_ptr x ≡ first x
    original_again x = elim (live.elsewhere x) [
      | inl here ↦
          assign_at t.words hook.slot hook.original_ptr x here ∙ live.original ∙ ap first (sym here)
      | inr same ↦ elim (same_or x hook.slot) [
        | inl here ↦
            assign_at t.words hook.slot hook.original_ptr x here
            ∙ live.original
            ∙ ap first (sym here)
        | inr apart ↦ assign_off t.words hook.slot hook.original_ptr x apart ∙ same
      ]
    ]
dropped_slot-Ended os first claims hook t (ok done, u) live answer (inr (e, failed, kept, same)) =
    absurd (ok_err failed)
  where
    ok_err : {d : Unit {0}} {f : VtableError} → ◌≡◌ {A = Answer} (ok d) (err f) → ⊥
    ok_err p = cc
dropped_slot-Ended os first claims hook t (err e, u) live answer (inl (fine, wrote)) =
    absurd (err_ok fine)
  where
    err_ok : {d : Unit {0}} {f : VtableError} → ◌≡◌ {A = Answer} (err f) (ok d) → ⊥
    err_ok p = cc
dropped_slot-Ended os first claims hook t (err e, u) live (inl fine) (inr (f, failed, kept, same)) =
    absurd (err_ok fine)
  where
    err_ok : {d : Unit {0}} {g : VtableError} → ◌≡◌ {A = Answer} (err g) (ok d) → ⊥
    err_ok p = cc
dropped_slot-Ended os first claims hook t (err e, u) live (inr why) (inr (f, failed, kept, same)) =
    inr (why, same, kept ∙ live.claims_kept)

drop_hook-Ended :
    (os : Os) (first : ℕ → ℕ) (claims : List ℕ) (hook : VtableHook) (t : Tables)
    → IsLive first claims hook t
    → Ended os first claims hook t (drop_hook os hook t)
unfolding drop_hook
drop_hook-Ended os first claims hook t live =
    subst (Ended os first claims hook t)
      (sym (if_false _ _ (ap not live.claimed) ∙ if_false _ _ (ap not live.active)))
      (dropped_slot-Ended os first claims hook t (write_slot os hook.slot hook.original_ptr t) live
        (write_slot_answer os hook.slot hook.original_ptr t)
        (write_slot-Writes os hook.slot hook.original_ptr t))

-- What an install leaves.
Started : Tables → Result VtableError VtableHook × Tables → Type 0
Started start (err e, t) = Unit
Started start (ok hook, t) =
    IsLive start.words (hook.slot ∷ start.claimed_slots) hook t
    × (member hook.slot start.claimed_slots ≡ false)

if-Started :
    (start : Tables) (b : Bool) (r q : Result VtableError VtableHook × Tables)
    → (b ≡ true → Started start r)
    → (b ≡ false → Started start q)
    → Started start (if b then r else q)
if-Started start true r q h k = h refl
if-Started start false r q h k = k refl

written-Started :
    (os : Os) (slot detour : ℕ) (start : Tables)
    → member slot start.claimed_slots ≡ false
    → Started start (
        installed slot (start.words slot) detour (
          write_locked os slot detour
            (record start { claimed_slots = slot ∷ start.claimed_slots })))
unfolding installed write_locked Started
written-Started os slot detour start fresh =
    let claimed : Tables = record start { claimed_slots = slot ∷ start.claimed_slots } in
    let after : Bool × Tables → Type 0 =
      λ r. Started start (installed slot (start.words slot) detour r) in
    elim (Bool-cases (os.restores slot)) [
      | inr failed ↦ subst after (sym (if_false _ _ failed)) tt
      | inl restored ↦ subst after (sym (if_true _ _ restored)) (
        record {
          claimed = refl;
          active = refl;
          claims_kept = refl;
          original = refl;
          at_slot = assign_at start.words slot detour slot refl;
          elsewhere = λ x. elim (same_or x slot) [
            | inl here ↦ inl here
            | inr apart ↦ inr (assign_off start.words slot detour x apart)
          ];
        },
        fresh,
      )
    ]

claimed-Started :
    (os : Os) (slot detour : ℕ) (start : Tables)
    → Started start
        (install_claimed os slot detour start (claim_table_slot slot start.claimed_slots))
unfolding install_claimed claim_table_slot Started installed
claimed-Started os slot detour start =
    let claimed : Tables = record start { claimed_slots = slot ∷ start.claimed_slots } in
    let after : Bool × List ℕ → Type 0 =
      λ c. Started start (install_claimed os slot detour start c) in
    elim (Bool-cases (member slot start.claimed_slots)) [
      | inl taken ↦ subst after (sym (if_true _ _ taken)) tt
      | inr fresh ↦ subst after (sym (if_false _ _ fresh)) (
          if-Started start (os.lifts slot)
            (installed slot (start.words slot) detour (write_locked os slot detour claimed))
            (installed slot (start.words slot) detour (false, claimed))
            (λ lifted. written-Started os slot detour start fresh) (λ kept. tt))
    ]

install-Started :
    (os : Os) (vtable index detour : ℕ) (start : Tables)
    → Started start (install os vtable index detour start)
unfolding install Started
install-Started os vtable index detour start =
    let slot = wrap64 (vtable + index * 8) in
    let rest = install_claimed os slot detour start (claim_table_slot slot start.claimed_slots) in
    if-Started start (vtable == 0) (err VtableError.null_vtable, start)
      (if detour == 0 then (err VtableError.null_detour, start) else rest) (λ null. tt)
      (λ there.
        if-Started start (detour == 0) (err VtableError.null_detour, start) rest (λ null. tt)
          (λ fine. claimed-Started os slot detour start))

found-Started :
    (start : Tables) (r : Result VtableError VtableHook × Tables) (hook : VtableHook) (t : Tables)
    → r ≡ (ok hook, t)
    → Started start r
    → IsLive start.words (hook.slot ∷ start.claimed_slots) hook t
      × (member hook.slot start.claimed_slots ≡ false)
unfolding Started
found-Started start r hook t e started =
    subst (λ (q : Result VtableError VtableHook × Tables). Started start q) e started

erase_absent : (k : ℕ) (ks : List ℕ) → member k ks ≡ false → erase k ks ≡ ks
erase_absent k [] e = refl
erase_absent k (j ∷ ks) e = elim (Bool-cases (j == k)) [
  | inl here ↦ absurd (cc (sym (if_true {b = j == k} true (member k ks) here) ∙ e))
  | inr apart ↦
      if_false _ _ apart
      ∙ ap (λ (t : List ℕ). j ∷ t)
          (erase_absent k ks (sym (if_false {b = j == k} true (member k ks) apart) ∙ e))
]

release_fresh :
    (slot : ℕ) (slots : List ℕ)
    → member slot slots ≡ false
    → release_table_slot slot (slot ∷ slots) ≡ slots
unfolding release_table_slot
release_fresh slot slots fresh =
    if_true {b = slot == slot} _ _ (ground arith) ∙ erase_absent slot slots fresh

-- A hook that was installed is then enabled and disabled in any order, each with success or not, and
-- dropped. Either every word of memory and the claimed slots are as before the install; or the slot is
-- null, or its protection can at the drop not be lifted or not be put back, and then memory is as before
-- the drop and the slot stays claimed.
pub drop_hook-install :
    (os last : Os) (vtable index detour : ℕ) (start after : Tables) (hook : VtableHook)
    (ts : List Toggle) (x : ℕ)
    → install os vtable index detour start ≡ (ok hook, after)
    → let (now, t) = toggle_all ts (hook, after) in
      (((drop_hook last now t).words x ≡ start.words x)
        × ((drop_hook last now t).claimed_slots ≡ start.claimed_slots))
      ⊎ (IsRefused last hook.slot
          × ((drop_hook last now t).words x ≡ t.words x)
          × (member hook.slot (drop_hook last now t).claimed_slots ≡ true))
drop_hook-install os last vtable index detour start after hook ts x installs =
    let (live, fresh) =
      found-Started start (install os vtable index detour start) hook after installs
        (install-Started os vtable index detour start) in
    let claims = hook.slot ∷ start.claimed_slots in
    let s = toggle_all ts (hook, after) in
    let now_live = toggle_all-IsLive start.words claims ts (hook, after) live in
    let same_slot = toggle_all_slot ts (hook, after) in
    elim (drop_hook-Ended last start.words claims (s.0) (s.1) now_live) [
      | inl (words, freed) ↦ inl (
        words x,
        freed
            ∙ ap (λ n. release_table_slot n claims) same_slot
            ∙ release_fresh hook.slot start.claimed_slots fresh,
      )
      | inr (why, words, kept) ↦ inr (
        subst (IsRefused last) same_slot why,
        words x,
        ap (member hook.slot) kept ∙ if_true {b = hook.slot == hook.slot} _ _ (ground arith),
      )
    ]
