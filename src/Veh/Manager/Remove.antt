-- ===== src/Veh/Manager/Remove.antt =====
-- src/veh.rs: a removal keeps the invariant, and leaves the other hooks their slots.
use neohook.Base.{
  ℕ, zero, suc, ◌+◌, ◌<◌, ◌≤◌, ◌≡◌, ◌≢◌, refl, sym, ap, subst, ◌∙◌, ◌⊎◌, inl, inr, Bool, true,
  false, not, ◌||◌, ◌==◌, if_true, if_false, Bool-cases, arith,
}
use neohook.Veh.{Slots, debug_address, slot_count}
use neohook.Veh.Manager.{
  Os, Veh, VehHook, Contexts, any_target, release_rounds, release_attempts, release_idle_handler,
  retire, disarm, remove, set_breakpoint_on_all_threads,
}
use neohook.Veh.Manager.Threads.{
  IsHonest, set_breakpoint_on_all_threads-Touches, set_breakpoint_on_all_threads-Done,
}
use neohook.Veh.Manager.Invariant.{Clean, IsSound, Owns}
use neohook.Veh.Manager.Arm.{assign_at, assign_off, same_or}

any_target_none :
    (s : Slots) (i rounds j : ℕ)
    → any_target s i rounds ≡ false
    → ((j < i) ⊎ (i + rounds ≤ j)) ⊎ (s.target j ≡ 0)
unfolding any_target
any_target_none s i zero j e = inl (ground arith)
any_target_none s i (suc rounds) j e =
    elim (any_target_none s (i + 1) rounds j (second (not (s.target i == 0)) _ e)) [
      | inr free ↦ inr free
      | inl (inr after) ↦ inl (inr (omega arith))
      | inl (inl before) ↦ elim (same_or j i) [
        | inl here ↦
            inr (ap s.target here ∙ zero_of (s.target i) (first (not (s.target i == 0)) _ e))
        | inr apart ↦ inl (inl (ground arith))
      ]
    ]
  where
    first : (a b : Bool) → (a || b) ≡ false → a ≡ false
    first false b e = refl
    first true b e = e

    second : (a b : Bool) → (a || b) ≡ false → b ≡ false
    second false b e = e
    second true b e = cc

    zero_of : (t : ℕ) → not (t == 0) ≡ false → t ≡ 0
    zero_of t e = ground arith

-- The handler is unregistered only in a state in which no slot is in use and no disarm has failed.
unregistered-IsSound :
    (alive : ℕ → Bool) (v : Veh)
    → any_target v.slots 0 slot_count ≡ false
    → v.keep_handler ≡ false
    → IsSound alive v
    → IsSound alive (record v { handler = 0 })
unregistered-IsSound alive v idle free sound = record {
  served = λ i. inl (elim (any_target_none v.slots 0 slot_count i idle) [
    | inl (inl impossible) ↦ absurd (omega arith)
    | inl (inr out) ↦ inl (omega arith)
    | inr z ↦ inr z
  ]);
  distinct = sound.distinct;
  swept = elim (sound.swept) [
    | inl (keep, handler) ↦ absurd (cc (keep, free))
    | inr clean ↦ inr clean
  ];
}

module _ (alive : ℕ → Bool) (os : Os) where
  release_rounds-IsSound :
      (attempt rounds : ℕ) (v : Veh)
      → IsSound alive v
      → IsSound alive (record v { handler = 0 })
      → IsSound alive (release_rounds os attempt rounds v)
  unfolding release_rounds
  release_rounds-IsSound attempt zero v sound idle = sound
  release_rounds-IsSound attempt (suc rounds) v sound idle =
      elim (Bool-cases (os.in_flight v.slots attempt)) [
        | inl busy ↦
            subst (IsSound alive) (sym (if_true _ _ busy))
              (release_rounds-IsSound (attempt + 1) rounds v sound idle)
        | inr calm ↦ subst (IsSound alive) (sym (if_false _ _ calm)) idle
      ]

  release_idle_handler-IsSound :
      (v : Veh) → IsSound alive v → IsSound alive (release_idle_handler os v)
  unfolding release_idle_handler
  release_idle_handler-IsSound v sound =
      elim (Bool-cases (v.handler == 0 || v.keep_handler || any_target v.slots 0 slot_count)) [
        | inl kept ↦ subst (IsSound alive) (sym (if_true _ _ kept)) sound
        | inr idle ↦ subst (IsSound alive) (sym (if_false _ _ idle)) (
            release_rounds-IsSound 0 release_attempts v sound (
              unregistered-IsSound alive v (third _ v.keep_handler _ idle)
                (second (v.handler == 0) v.keep_handler _ idle) sound))
      ]
    where
      second : (a b c : Bool) → (a || b || c) ≡ false → b ≡ false
      second false false c e = refl
      second false true c e = e
      second true b c e = cc

      third : (a b c : Bool) → (a || b || c) ≡ false → c ≡ false
      third false false c e = e
      third false true c e = cc
      third true b c e = cc

  -- The slots are left as they are by the rounds.
  release_rounds_slots :
      (attempt rounds : ℕ) (v : Veh) → (release_rounds os attempt rounds v).slots ≡ v.slots
  unfolding release_rounds
  release_rounds_slots attempt zero v = refl
  release_rounds_slots attempt (suc rounds) v = elim (Bool-cases (os.in_flight v.slots attempt)) [
    | inl busy ↦
        ap (λ (w : Veh). w.slots) (if_true _ _ busy) ∙ release_rounds_slots (attempt + 1) rounds v
    | inr calm ↦ ap (λ (w : Veh). w.slots) (if_false _ _ calm)
  ]

  release_idle_handler_slots : (v : Veh) → (release_idle_handler os v).slots ≡ v.slots
  unfolding release_idle_handler
  release_idle_handler_slots v =
      elim (Bool-cases (v.handler == 0 || v.keep_handler || any_target v.slots 0 slot_count)) [
        | inl kept ↦ ap (λ (w : Veh). w.slots) (if_true _ _ kept)
        | inr idle ↦
            ap (λ (w : Veh). w.slots) (if_false _ _ idle)
            ∙ release_rounds_slots 0 release_attempts v
      ]

  module _ (hook : VehHook) (v : Veh) (owns : Owns v hook) (honest : IsHonest alive os)
      (sound : IsSound alive v) where
    abbrev pass : Bool × Contexts
    pass = set_breakpoint_on_all_threads os hook.slot 0 false v.contexts

    handler_there : 0 < v.handler
    handler_there = elim (sound.served hook.slot) [
      | inl (inl out) ↦ absurd (omega (arith, owns.in_range))
      | inl (inr free) ↦ absurd (omega (arith, owns.target, owns.target_pos))
      | inr (armed, some_detour, handler) ↦ handler
    ]

    retired-Clean :
        (h i : ℕ)
        → (pass.0) ≡ true
        → ((alive h ≡ false) ⊎ (slot_count ≤ i)) ⊎ Clean v h i
        → ((alive h ≡ false) ⊎ (slot_count ≤ i)) ⊎ Clean (disarm os hook v pass) h i
    unfolding disarm retire
    retired-Clean h i all (inl out) = inl out
    retired-Clean h i all (inr clean) = elim (same_or i hook.slot) [
      | inl here ↦ elim (Bool-cases (alive h)) [
        | inr dead ↦ inl (inl dead)
        | inl live ↦
            elim (set_breakpoint_on_all_threads-Done os hook.slot 0 false owns.in_range alive honest
              h v.contexts live) [
                | inl failed ↦ absurd (cc (all, failed))
                | inr done ↦ elim (zero_or (v.slots.armed i)) [
                  | inl never ↦ inr (inr (inl never))
                  | inr armed ↦ inr (
                      inr (
                        inr
                          (λ e. armed (sym e ∙ ap (λ k. debug_address (pass.1 h) k) here ∙ done))))
                ]
              ]
      ]
      | inr apart ↦
          let touches =
            set_breakpoint_on_all_threads-Touches os hook.slot 0 false owns.in_range alive honest
              v.contexts in
          elim (touches.0 h i) [
            | inl (inl out) ↦ inl (inr out)
            | inl (inr here) ↦ absurd (apart here)
            | inr same ↦ elim clean [
              | inl used ↦ inr (
                  inl
                    (subst (λ t. 0 < t) (sym (assign_off v.slots.target hook.slot 0 i apart)) used))
              | inr (inl never) ↦ inr (inr (inl never))
              | inr (inr off) ↦ inr (inr (inr (λ e. off (sym same ∙ e))))
            ]
          ]
    ]
      where
        zero_or : (n : ℕ) → (n ≡ 0) ⊎ (n ≢ 0)
        zero_or n = ground arith

    disarm-IsSound : IsSound alive (disarm os hook v pass)
    unfolding disarm retire
    disarm-IsSound = record {
      served = λ i. elim (same_or i hook.slot) [
        | inl here ↦ inl (inr (assign_at v.slots.target hook.slot 0 i here))
        | inr apart ↦ elim (sound.served i) [
          | inl (inl out) ↦ inl (inl out)
          | inl (inr free) ↦ inl (inr (assign_off v.slots.target hook.slot 0 i apart ∙ free))
          | inr (armed, some_detour, handler) ↦ inr (
            armed ∙ sym (assign_off v.slots.target hook.slot 0 i apart),
            subst (λ d. 0 < d) (sym (assign_off v.slots.detour hook.slot 0 i apart)) some_detour,
            handler,
          )
        ]
      ];
      distinct = λ i j. elim (same_or i hook.slot) [
        | inl here ↦ inr (inl (assign_at v.slots.target hook.slot 0 i here))
        | inr apart ↦
            let off = assign_off v.slots.target hook.slot 0 i apart in
            elim (sound.distinct i j) [
              | inl out ↦ inl out
              | inr (inl free) ↦ inr (inl (off ∙ free))
              | inr (inr (inl same)) ↦ inr (inr (inl same))
              | inr (inr (inr other)) ↦ elim (same_or j hook.slot) [
                | inl there ↦ elim (zero_or (v.slots.target i)) [
                  | inl z ↦ inr (inl (off ∙ z))
                  | inr used ↦ inr (
                      inr (
                        inr
                          (λ e. used (sym off ∙ e ∙ assign_at v.slots.target hook.slot 0 j there))))
                ]
                | inr far ↦ inr (
                    inr (
                      inr (λ e. other (sym off ∙ e ∙ assign_off v.slots.target hook.slot 0 j far))))
              ]
            ]
      ];
      swept = elim (Bool-cases (pass.0)) [
        | inr failed ↦ inl (either_true v.keep_handler (pass.0) failed, handler_there)
        | inl all ↦ elim (sound.swept) [
          | inl (keep, handler) ↦ inl (keep_true v.keep_handler (not (pass.0)) keep, handler)
          | inr clean ↦ inr (λ h i. retired-Clean h i all (clean h i))
        ]
      ];
    }
      where
        zero_or : (n : ℕ) → (n ≡ 0) ⊎ (n ≢ 0)
        zero_or n = ground arith

        either_true : (a b : Bool) → b ≡ false → (a || not b) ≡ true
        either_true true b e = refl
        either_true false b e = ap not e

        keep_true : (a b : Bool) → a ≡ true → (a || b) ≡ true
        keep_true a b e = rw e refl

    pub remove-IsSound : IsSound alive ((remove os hook v).1)
    unfolding remove
    remove-IsSound =
        subst (λ (r : VehHook × Veh). IsSound alive (r.1)) (sym (if_true _ _ owns.active))
          (release_idle_handler-IsSound (disarm os hook v pass) disarm-IsSound)

    -- A hook in another slot stays.
    pub remove_keeps :
        (other : VehHook)
        → other.slot ≢ hook.slot
        → Owns v other
        → Owns ((remove os hook v).1) other
    unfolding remove disarm retire
    remove_keeps other apart o =
        let slots =
          ap (λ (r : VehHook × Veh). (r.1).slots) (if_true _ _ owns.active)
          ∙ release_idle_handler_slots (disarm os hook v pass) in
        record {
          active = o.active;
          in_range = o.in_range;
          target =
              ap (λ (s : Slots). s.target other.slot) slots
              ∙ assign_off v.slots.target hook.slot 0 other.slot apart
              ∙ o.target;
          detour =
              ap (λ (s : Slots). s.detour other.slot) slots
              ∙ assign_off v.slots.detour hook.slot 0 other.slot apart
              ∙ o.detour;
          target_pos = o.target_pos;
          detour_pos = o.detour_pos;
        }
