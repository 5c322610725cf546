-- ===== src/Veh/Manager/Install.antt =====
-- src/veh.rs: an install keeps the invariant, and gives the hook a slot of its own.
use neohook.Base.{
  ℕ, ◌<◌, ◌≡◌, ◌≢◌, refl, sym, ap, subst, ◌∙◌, inl, inr, Bool, true, false, ◌||◌, Option, none,
  some, ◌==◌, if◌then◌else◌, if_true, if_false, Bool-cases, arith,
}
use neohook.Base.Results.{Result, ok, err}
use neohook.Veh.{slot_count}
use neohook.Veh.Manager.{
  Os, Veh, VehHook, VehHookError, find_slot, register_handler, publish, arm, install_slot,
  install_inner,
}
use neohook.Veh.Manager.Threads.{IsHonest}
use neohook.Veh.Manager.Search.{find_slot_absent, find_slot_free}
use neohook.Veh.Manager.Invariant.{IsSound, Owns}
use neohook.Veh.Manager.Arm.{
  assign_at, assign_off, armed_state, armed_state-IsSound, IsSound-handler,
}

-- The hook of an install, and the hooks that were there before, have their slots.
armed_state-Owns :
    (alive : ℕ → Bool) (os : Os) (slot target detour : ℕ) (lt : slot < slot_count)
    (target_pos : 0 < target) (detour_pos : 0 < detour) (v : Veh) (gateway : Option ℕ)
    → Owns
        (armed_state alive os slot target detour lt target_pos detour_pos v)
        (record { target = target; detour = detour; slot = slot; active = true; gateway = gateway })
unfolding publish
armed_state-Owns alive os slot target detour lt target_pos detour_pos v gateway = record {
  active = refl;
  in_range = lt;
  target = assign_at v.slots.target slot target slot refl;
  detour = assign_at v.slots.detour slot detour slot refl;
  target_pos = target_pos;
  detour_pos = detour_pos;
}

armed_state_keeps :
    (alive : ℕ → Bool) (os : Os) (slot target detour : ℕ) (lt : slot < slot_count)
    (target_pos : 0 < target) (detour_pos : 0 < detour) (v : Veh) (hook : VehHook)
    → v.slots.target slot ≡ 0
    → Owns v hook
    → Owns (armed_state alive os slot target detour lt target_pos detour_pos v) hook
unfolding publish
armed_state_keeps alive os slot target detour lt target_pos detour_pos v hook free owns = record {
  active = owns.active;
  in_range = owns.in_range;
  target = assign_off v.slots.target slot target hook.slot apart ∙ owns.target;
  detour = assign_off v.slots.detour slot detour hook.slot apart ∙ owns.detour;
  target_pos = owns.target_pos;
  detour_pos = owns.detour_pos;
}
  where
    apart : hook.slot ≢ slot
    apart e =
        let zero_target = sym (owns.target) ∙ ap v.slots.target e ∙ free in
        omega (arith, zero_target, owns.target_pos)

-- What an install leaves. A refused one changes nothing.
pub Installs : (ℕ → Bool) → Veh → ℕ → ℕ → Result VehHookError VehHook × Veh → Type 0
Installs alive v target detour (err e, w) = w ≡ v
Installs alive v target detour (ok hook, w) =
    IsSound alive w
    × Owns w hook
    × (hook.target ≡ target)
    × (hook.detour ≡ detour)
    × ((other : VehHook) → Owns v other → Owns w other)

-- The state with a registered handler.
Registered : Veh → Result VehHookError Veh → Type 0
Registered v (err e) = Unit
Registered v (ok w) = (w ≡ record v { handler = w.handler }) × (0 < w.handler)

register_handler-Registered : (os : Os) (v : Veh) → Registered v (register_handler os v)
unfolding register_handler Registered
register_handler-Registered os v = elim (Bool-cases (v.handler == 0)) [
  | inr there ↦ subst (Registered v) (sym (if_false _ _ there)) (refl, ground arith)
  | inl absent ↦ elim (Bool-cases (os.add_handler == 0)) [
    | inl failed ↦ subst (Registered v) (sym (if_true _ _ absent ∙ if_true _ _ failed)) tt
    | inr added ↦
        subst (Registered v) (sym (if_true _ _ absent ∙ if_false _ _ added)) (refl, ground arith)
  ]
]

module _ (alive : ℕ → Bool) (os : Os) (v : Veh) (target detour : ℕ) (honest : IsHonest alive os)
    (sound : IsSound alive v) (target_pos : 0 < target) (detour_pos : 0 < detour) where
  arm-Installs :
      (gateway : Option ℕ) (slot : ℕ) (r : Result VehHookError Veh)
      → Registered v r
      → find_slot v.slots target 0 slot_count none ≡ ok slot
      → slot < slot_count
      → v.slots.target slot ≡ 0
      → Installs alive v target detour (arm os target detour gateway slot r v)
  unfolding arm Installs Registered
  arm-Installs gateway slot (err e) registered found lt free = refl
  arm-Installs gateway slot (ok w) (same, pos) found lt free =
      let registered = record v { handler = w.handler } in
      subst
        (λ (u : Veh). Installs alive v target detour (arm os target detour gateway slot (ok u) v))
        (sym same)
        (
          armed_state-IsSound alive os slot target detour lt target_pos detour_pos registered honest
              (IsSound-handler alive v w.handler pos sound) pos
              (find_slot_absent v.slots target 0 slot_count none slot found),
          armed_state-Owns alive os slot target detour lt target_pos detour_pos registered gateway,
          refl,
          refl,
          λ other owns.
              armed_state_keeps alive os slot target detour lt target_pos detour_pos registered
                other free
                (record {
                  active = owns.active;
                  in_range = owns.in_range;
                  target = owns.target;
                  detour = owns.detour;
                  target_pos = owns.target_pos;
                  detour_pos = owns.detour_pos;
                }),
        )

  install_slot-Installs :
      (gateway : Option ℕ) (r : Result VehHookError ℕ)
      → find_slot v.slots target 0 slot_count none ≡ r
      → Installs alive v target detour (install_slot os target detour gateway v r)
  unfolding install_slot Installs
  install_slot-Installs gateway (err e) found = refl
  install_slot-Installs gateway (ok slot) found =
      elim (find_slot_free v.slots target 0 slot_count none slot found) [
        | inl impossible ↦ absurd (none_some impossible)
        | inr (lt, free) ↦
            arm-Installs gateway slot (register_handler os v) (register_handler-Registered os v)
              found (omega arith) free
      ]
    where
      none_some : {k : ℕ} → ◌≡◌ {A = Option ℕ} none (some k) → ⊥
      none_some e = cc

pub install_inner-Installs :
    (alive : ℕ → Bool) (os : Os) (target detour : ℕ) (want_gateway : Bool) (gateway : Option ℕ)
    (v : Veh)
    → IsHonest alive os
    → IsSound alive v
    → Installs alive v target detour (install_inner os target detour want_gateway gateway v)
unfolding install_inner Installs
install_inner-Installs alive os target detour want_gateway gateway v honest sound =
    let result = Installs alive v target detour in
    elim (Bool-cases (target == 0 || detour == 0)) [
      | inl null ↦ subst result (sym (if_true _ _ null)) (unchanged VehHookError.invalid_parameter)
      | inr there ↦
          subst result (sym (if_false _ _ there)) (with_gateway want_gateway gateway there)
    ]
  where
    unchanged : (e : VehHookError) → Installs alive v target detour (err e, v)
    unchanged e = refl

    with_gateway :
        (want : Bool) (given : Option ℕ)
        → (target == 0 || detour == 0) ≡ false
        → Installs alive v target detour (
            if want
            then elim given [
              | none ↦ (err VehHookError.gateway_build_failed, v)
              | some ptr ↦
                  install_slot os target detour
                    (some ptr)
                    v
                    (find_slot v.slots target 0 slot_count none)
            ]
            else install_slot os target detour none v (find_slot v.slots target 0 slot_count none))
    with_gateway false given there =
        install_slot-Installs alive os v target detour honest sound (ground arith) (ground arith)
          none (find_slot v.slots target 0 slot_count none) refl
    with_gateway true none there = unchanged VehHookError.gateway_build_failed
    with_gateway true (some ptr) there =
        install_slot-Installs alive os v target detour honest sound (ground arith) (ground arith)
          (some ptr) (find_slot v.slots target 0 slot_count none) refl

pub Installs-IsSound :
    (alive : ℕ → Bool) (v : Veh) (target detour : ℕ) (r : Result VehHookError VehHook × Veh)
    → IsSound alive v
    → Installs alive v target detour r
    → IsSound alive (r.1)
unfolding Installs
Installs-IsSound alive v target detour (err e, w) sound same =
    subst (IsSound alive) (sym same) sound
Installs-IsSound alive v target detour (ok hook, w) sound installed = installed.0

pub Installs-Owns :
    (alive : ℕ → Bool) (v : Veh) (target detour : ℕ) (r : Result VehHookError VehHook × Veh)
    (other : VehHook)
    → Owns v other
    → Installs alive v target detour r
    → Owns (r.1) other
unfolding Installs
Installs-Owns alive v target detour (err e, w) other owns same =
    subst (λ (u : Veh). Owns u other) (sym same) owns
Installs-Owns alive v target detour (ok hook, w) other owns (sound, its_own, t, d, keeps) =
    keeps other owns

-- A successful install gives its hook, for the target and the detour that were asked for.
pub Installs-hook :
    (alive : ℕ → Bool) (v w : Veh) (target detour : ℕ) (hook : VehHook)
    → Installs alive v target detour (ok hook, w)
    → Owns w hook × (hook.target ≡ target) × (hook.detour ≡ detour)
unfolding Installs
Installs-hook alive v w target detour hook (sound, its_own, t, d, keeps) = (its_own, t, d)
