-- ===== src/Veh/Handler.antt =====
-- src/veh.rs: what the exception handler does to the debug registers, and where it resumes.
use neohook.Base.{
  ℕ, zero, suc, ◌+◌, ◌<◌, ◌≤◌, ◌≡◌, ◌≢◌, refl, sym, ap, subst, ◌∙◌, ◌⊎◌, inl, inr, Bool, true,
  false, not, ◌&&◌, ◌||◌, Option, none, some, bit_and, ◌==◌, if_true, if_false, Bool-cases, arith,
}
use neohook.Veh.{
  Context, Slots, Verdict, Exception, debug_address, program_slot, slot_count, live_detour,
  is_stale, is_retired, dr6_single_step, retired_count, resync_slot, resync, resume, resync_retired,
  dispatch, veh_handler, status_single_step,
}

-- The register of a slot holds what it held, or the target of the slot.
abbrev pub Synced : Slots → Context → Context → ℕ → Type 0
Synced s before after j =
    (debug_address after j ≡ debug_address before j) ⊎ (debug_address after j ≡ s.target j)

Synced-later :
    (s : Slots) (a b c : Context) (j : ℕ) → Synced s a b j → Synced s b c j → Synced s a c j
Synced-later s a b c j p (inr e) = inr e
Synced-later s a b c j (inl e) (inl e') = inl (e' ∙ e)
Synced-later s a b c j (inr e) (inl e') = inr (e' ∙ e)

resync_slot-Synced :
    (s : Slots) (ctx : Context) (slot j : ℕ)
    → slot < slot_count
    → j < slot_count
    → Synced s ctx (resync_slot s ctx slot) j
unfolding resync_slot debug_address program_slot
resync_slot-Synced s ctx slot j lt le = elim (same_or j slot) [
  | inl here ↦ inr (here_lem (s.target slot) (s.target j) here (ap s.target here))
  | inr apart ↦ inl (ground arith)
]
  where
    same_or : (a b : ℕ) → (a ≡ b) ⊎ (a ≢ b)
    same_or a b = ground arith

    here_lem :
        (t u : ℕ) → j ≡ slot → u ≡ t → debug_address (program_slot ctx slot t (not (t == 0))) j ≡ u
    here_lem t u here e = ground arith

resync-Synced :
    (s : Slots) (only_armed : Bool) (addr hits i rounds j : ℕ) (handled : Bool) (ctx : Context)
    → i + rounds ≤ slot_count
    → j < slot_count
    → Synced s ctx ((resync s only_armed addr hits i rounds (handled, ctx)).1) j
unfolding resync
resync-Synced s only_armed addr hits i zero j handled ctx fits le = inl refl
resync-Synced s only_armed addr hits i (suc rounds) j handled ctx fits le =
    elim (Bool-cases (is_stale s only_armed addr hits ctx i)) [
      | inl stale ↦
          subst
            (λ (r : Bool × Context).
              Synced s ctx ((resync s only_armed addr hits (i + 1) rounds r).1) j)
            (sym (if_true _ _ stale))
            (Synced-later s ctx (resync_slot s ctx i) _ j
              (resync_slot-Synced s ctx i j (omega arith) le)
              (resync-Synced s only_armed addr hits (i + 1) rounds j true (resync_slot s ctx i)
                (omega arith) le))
      | inr other ↦
          subst
            (λ (r : Bool × Context).
              Synced s ctx ((resync s only_armed addr hits (i + 1) rounds r).1) j)
            (sym (if_false _ _ other))
            (resync-Synced s only_armed addr hits (i + 1) rounds j handled ctx (omega arith) le)
    ]

resync_retired-Synced :
    (s : Slots) (addr hits j : ℕ) (r : Bool × Context)
    → j < slot_count
    → Synced s (r.1) ((resync_retired s addr hits r).1) j
unfolding resync_retired resume debug_address
resync_retired-Synced s addr hits j (true, ctx) le = inl refl
resync_retired-Synced s addr hits j (false, ctx) le =
    elim (Bool-cases (bit_and ctx.dr6 dr6_single_step == 0 && is_retired s addr 0 retired_count)) [
      | inl known ↦
          subst (λ (q : Verdict × Context). Synced s ctx (q.1) j) (sym (if_true _ _ known))
            (resync-Synced s false addr hits 0 slot_count j true ctx (omega arith) le)
      | inr unknown ↦
          subst (λ (q : Verdict × Context). Synced s ctx (q.1) j) (sym (if_false _ _ unknown))
            (inl refl)
    ]

dispatch-Synced :
    (s : Slots) (addr j : ℕ) (ctx : Context) (o : Option ℕ)
    → j < slot_count
    → Synced s ctx ((dispatch s addr ctx o).1) j
unfolding dispatch debug_address
dispatch-Synced s addr j ctx (some detour) le = inl refl
dispatch-Synced s addr j ctx none le =
    let hits = bit_and ctx.dr6 0xf in
    let r = resync s true addr hits 0 slot_count (false, ctx) in
    Synced-later s ctx (r.1) ((resync_retired s addr hits r).1) j
      (resync-Synced s true addr hits 0 slot_count j false ctx (omega arith) le)
      (resync_retired-Synced s addr hits j r le)

pub veh_handler-Synced :
    (s : Slots) (e : Exception) (j : ℕ)
    → j < slot_count
    → Synced s e.context ((veh_handler s e).1) j
unfolding veh_handler
veh_handler-Synced s e j le =
    elim (Bool-cases (not (e.code == status_single_step) || e.address == 0)) [
      | inl other ↦
          subst (λ (q : Verdict × Context). Synced s e.context (q.1) j) (sym (if_true _ _ other))
            (inl refl)
      | inr ours ↦
          subst (λ (q : Verdict × Context). Synced s e.context (q.1) j) (sym (if_false _ _ ours))
            (dispatch-Synced s e.address j e.context (live_detour s e.address 0 slot_count) le)
    ]

-- Where one slot alone holds the address, its detour is found.
live_detour_found :
    (s : Slots) (addr i rounds j : ℕ)
    → ((j < i) → ⊥)
    → j < i + rounds
    → s.target j ≡ addr
    → 0 < s.detour j
    → i + rounds ≤ slot_count
    → ((k : ℕ) → (slot_count ≤ k) ⊎ ((k ≡ j) ⊎ (s.target k ≢ addr)))
    → live_detour s addr i rounds ≡ some (s.detour j)
unfolding live_detour
live_detour_found s addr i zero j from to at pos fits alone = absurd (omega arith)
live_detour_found s addr i (suc rounds) j from to at pos fits alone = elim (alone i) [
  | inl out ↦ absurd (omega arith)
  | inr (inl here) ↦
      if_true _ _ (
        holds (s.target i) (s.detour i) (ap s.target here ∙ at)
          (subst (λ k. 0 < s.detour k) (sym here) pos))
      ∙ ap (λ k. some (s.detour k)) here
  | inr (inr other) ↦
      if_false _ _ (lacks (s.target i) (s.detour i) other)
      ∙ live_detour_found s addr (i + 1) rounds j (after other) (omega arith) at pos (omega arith)
          alone
]
  where
    holds : (t d : ℕ) → t ≡ addr → 0 < d → (t == addr && not (d == 0)) ≡ true
    holds t d e p = ground arith

    lacks : (t d : ℕ) → t ≢ addr → (t == addr && not (d == 0)) ≡ false
    lacks t d apart = ground arith

    after : s.target i ≢ addr → j < i + 1 → ⊥
    after other lt = other (ap s.target (is_here lt) ∙ at)
      where
        is_here : j < i + 1 → i ≡ j
        is_here lt = omega arith

-- A single step at the target of a live slot resumes at the detour, and nothing else is changed.
pub veh_handler_redirects :
    (s : Slots) (e : Exception) (j : ℕ)
    → e.code ≡ status_single_step
    → s.target j ≡ e.address
    → 0 < e.address
    → 0 < s.detour j
    → j < slot_count
    → ((k : ℕ) → (slot_count ≤ k) ⊎ ((k ≡ j) ⊎ (s.target k ≢ e.address)))
    → veh_handler s e ≡ (Verdict.continue_execution, record e.context { rip = s.detour j })
unfolding veh_handler dispatch
veh_handler_redirects s e j code at there pos le alone =
    if_false _ _ (ours e.code e.address code there)
    ∙ ap (λ (o : Option ℕ). dispatch s e.address e.context o)
        (live_detour_found s e.address 0 slot_count j (λ lt. omega arith) (omega arith) at pos
          (omega arith) alone)
  where
    ours :
        (c a : ℕ)
        → c ≡ status_single_step
        → 0 < a
        → (not (c == status_single_step) || a == 0) ≡ false
    ours c a e lt = ground arith
