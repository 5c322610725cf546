-- ===== src/Int3/Invariant.antt =====
-- What every sequence of installs and removals of src/int3.rs keeps: a target has one slot, and the
-- vectored handler is registered while a slot is live.
use neohook.Base.{
  ℕ, zero, suc, ◌≡◌, ◌≢◌, refl, sym, ap, subst, ◌∙◌, ◌⊎◌, inl, inr, Bool, false, ◌||◌, Option, none,
  some, List, [], ◌∷◌, get_elem?, set, Bool-cases, ◌==◌, if_true, if_false, arith,
}
use neohook.Base.Maps.{member}
use neohook.Base.Results.{ok}
use neohook.Patches.{overlaps_live_patch}
use neohook.Int3.{
  Int3State, Int3Hook, Os, int3_opcode, any_live, with_slot, with_handler, release_idle_handler,
  finish_arm, publish, register, at_slot, arm, arm_with_gateway, install_inner, remove, forget,
}
use neohook.Int3.Slots.{find_slot_cases}
use neohook.Int3.Install.{write_cases}
use neohook.Int3.Remove.{release_cases, restored_targets}

abbrev pub Distinct : List ℕ → Type 0
Distinct [] = Unit
Distinct (x ∷ xs) = ((x ≡ 0) ⊎ (member x xs ≡ false)) × Distinct xs

-- A target has one slot, and the handler is registered while a slot is live.
abbrev pub IsSound : Int3State → Type 0
IsSound s = Distinct s.slot_target × ((any_live s.slot_target ≡ false) ⊎ (s.handler ≢ 0))

after-IsSound : {A : Type 0} {r q : A × Int3State} → r ≡ q → IsSound q.1 → IsSound r.1
after-IsSound e sound = subst (λ t. IsSound t) (sym (ap (λ r. r.1) e)) sound

member-set_other :
    (xs : List ℕ) (k t x : ℕ) → member x xs ≡ false → (x ≢ t) → member x (set xs k t) ≡ false
member-set_other [] k t x h d = refl
member-set_other (y ∷ xs) zero t x h d = ground arith
member-set_other (y ∷ xs) (suc k) t x h d =
    ground (arith, member-set_other xs k t x (ground arith) d)

set-Distinct : (xs : List ℕ) (k t : ℕ) → member t xs ≡ false → Distinct xs → Distinct (set xs k t)
set-Distinct [] k t absent d = tt
set-Distinct (x ∷ xs) zero t absent (here, d) = (inr (ground arith), d)
set-Distinct (x ∷ xs) (suc k) t absent (inl null, d) =
    (inl null, set-Distinct xs k t (ground arith) d)
set-Distinct (x ∷ xs) (suc k) t absent (inr once, d) =
    (inr (member-set_other xs k t x once (ground arith)), set-Distinct xs k t (ground arith) d)

clear-Distinct : (xs : List ℕ) (k : ℕ) → Distinct xs → Distinct (set xs k 0)
clear-Distinct [] k d = tt
clear-Distinct (x ∷ xs) zero (here, d) = (inl refl, d)
clear-Distinct (x ∷ xs) (suc k) (inl null, d) = (inl null, clear-Distinct xs k d)
clear-Distinct (x ∷ xs) (suc k) (inr once, d) = elim (Bool-cases (x == 0)) [
  | inl null ↦ (inl (ground arith), clear-Distinct xs k d)
  | inr given ↦ (inr (member-set_other xs k 0 x once (ground arith)), clear-Distinct xs k d)
]

any_live-clear : (xs : List ℕ) (k : ℕ) → any_live xs ≡ false → any_live (set xs k 0) ≡ false
unfolding any_live
any_live-clear [] k h = refl
any_live-clear (x ∷ xs) zero h = ground arith
any_live-clear (x ∷ xs) (suc k) h = ground (arith, any_live-clear xs k (ground arith))

release-IsSound : (os : Os) (s : Int3State) → IsSound s → IsSound (release_idle_handler os s)
release-IsSound os s (once, served) = elim (release_cases os s) [
  | inl kept ↦ subst (λ t. IsSound t) (sym kept) (once, served)
  | inr (idle, gone) ↦ subst (λ t. IsSound t) (sym gone) (once, inl idle)
]

clear_slot-IsSound :
    (s : Int3State) (k : ℕ)
    → IsSound s
    → Distinct (set s.slot_target k 0)
      × ((any_live (set s.slot_target k 0) ≡ false) ⊎ (s.handler ≢ 0))
clear_slot-IsSound s k (once, inl idle) =
    (clear-Distinct s.slot_target k once, inl (any_live-clear s.slot_target k idle))
clear_slot-IsSound s k (once, inr live) = (clear-Distinct s.slot_target k once, inr live)

module _ (os : Os) where
  publish-IsSound :
      (target detour : ℕ) (gateway : Option ℕ) (k handler : ℕ) (s : Int3State)
      → handler ≢ 0
      → member target s.slot_target ≡ false
      → get_elem? s.slot_target k ≡ some 0
      → IsSound s
      → IsSound (publish os target detour gateway k (with_handler s handler)).1
  unfolding publish finish_arm
  publish-IsSound target detour gateway k handler s live absent free (once, served) =
      let open_slot = with_slot (with_handler s handler) k target detour in
      let finish = finish_arm os target detour gateway k open_slot in
      elim (write_cases os target int3_opcode s.memory) [
        | inl failed ↦ after-IsSound ((ap finish failed)) (
            release-IsSound os (with_slot open_slot k 0 0) (
              subst (λ ts. Distinct ts) (sym (restored_targets s.slot_target k target free)) once,
              inr live,
            ))
        | inr (nz, done) ↦
            after-IsSound ((ap finish done))
              (set-Distinct s.slot_target k target absent once, inr live)
      ]

  register-IsSound :
      (target detour : ℕ) (gateway : Option ℕ) (k : ℕ) (s : Int3State)
      → member target s.slot_target ≡ false
      → get_elem? s.slot_target k ≡ some 0
      → IsSound s
      → IsSound (register os target detour gateway k s).1
  unfolding register
  register-IsSound target detour gateway k s absent free sound =
      elim (Bool-cases (s.handler == 0)) [
        | inl idle ↦ elim (Bool-cases (os.add_handler == 0)) [
          | inl null ↦ after-IsSound ((if_true _ _ idle ∙ if_true _ _ null)) sound
          | inr got ↦ after-IsSound ((if_true _ _ idle ∙ if_false _ _ got)) (
              publish-IsSound target detour gateway k os.add_handler s (ground arith) absent free
                sound)
        ]
        | inr live ↦
            after-IsSound ((if_false _ _ live))
              (publish-IsSound target detour gateway k s.handler s (ground arith) absent free sound)
      ]

  arm-IsSound :
      (target detour : ℕ) (gateway : Option ℕ) (s : Int3State)
      → IsSound s
      → IsSound (arm os target detour gateway s).1
  unfolding arm at_slot
  arm-IsSound target detour gateway s sound =
      let search = at_slot os target detour gateway s in
      elim (Bool-cases (overlaps_live_patch s.slot_target os.patches target 1)) [
        | inl hit ↦ after-IsSound ((if_true _ _ hit)) sound
        | inr clear ↦ elim (find_slot_cases target s.slot_target 0) [
          | inl (m, found) ↦ after-IsSound ((if_false _ _ clear ∙ ap search found)) sound
          | inr (inl (m, all, found)) ↦ after-IsSound ((if_false _ _ clear ∙ ap search found)) sound
          | inr (inr (m, (k, free, found))) ↦
              after-IsSound
                ((if_false _ _ clear ∙ ap search (found ∙ ap (λ j. ok (some j)) (omega arith))))
                (register-IsSound target detour gateway k s m free sound)
        ]
      ]

  arm_with_gateway-IsSound :
      (target detour : ℕ) (gateway : Option ℕ) (s : Int3State)
      → IsSound s
      → IsSound (arm_with_gateway os target detour gateway s).1
  unfolding arm_with_gateway
  arm_with_gateway-IsSound target detour none s sound = sound
  arm_with_gateway-IsSound target detour (some gateway) s sound =
      arm-IsSound target detour (some gateway) s sound

  install_inner-IsSound :
      (target detour : ℕ) (want : Bool) (s : Int3State)
      → IsSound s
      → IsSound (install_inner os target detour want s).1
  unfolding install_inner
  install_inner-IsSound target detour want s sound =
      elim (Bool-cases (target == 0 || detour == 0)) [
        | inl null ↦ after-IsSound ((if_true _ _ null)) sound
        | inr given ↦ elim (Bool-cases want) [
          | inl gateway ↦
              after-IsSound ((if_false _ _ given ∙ if_true _ _ gateway))
                (arm_with_gateway-IsSound target detour (os.gateway_of target) s sound)
          | inr plain ↦
              after-IsSound ((if_false _ _ given ∙ if_false _ _ plain))
                (arm-IsSound target detour none s sound)
        ]
      ]

  remove-IsSound : (hook : Int3Hook) (s : Int3State) → IsSound s → IsSound (remove os hook s).1
  unfolding remove
  remove-IsSound hook s sound = elim (Bool-cases hook.active) [
    | inl on ↦
        after-IsSound ((if_true _ _ on))
          (release-IsSound os _ (clear_slot-IsSound s hook.slot sound))
    | inr off ↦ after-IsSound ((if_false _ _ off)) sound
  ]

forget-IsSound : (hook : Int3Hook) (s : Int3State) → IsSound s → IsSound (forget hook s)
unfolding forget
forget-IsSound hook s sound = elim (Bool-cases hook.active) [
  | inl on ↦ subst (λ t. IsSound t) (sym (if_true _ _ on)) (clear_slot-IsSound s hook.slot sound)
  | inr off ↦ subst (λ t. IsSound t) (sym (if_false _ _ off)) sound
]

-- The steps that change the statics; what the system answers may differ from step to step.
pub data Step : Int3State → Int3State → Type 0 where
  installs :
      (os : Os) (target detour : ℕ) (want : Bool) (s : Int3State)
      → Step s (install_inner os target detour want s).1
  removes : (os : Os) (hook : Int3Hook) (s : Int3State) → Step s (remove os hook s).1
  forgets : (hook : Int3Hook) (s : Int3State) → Step s (forget hook s)
  releases : (os : Os) (s : Int3State) → Step s (release_idle_handler os s)

pub data Steps : Int3State → Int3State → Type 0 where
  stop : (s : Int3State) → Steps s s
  followed : (s t u : Int3State) → Step s t → Steps t u → Steps s u

Step-IsSound : (s t : Int3State) → Step s t → IsSound s → IsSound t
Step-IsSound _ _ (installs os target detour want s) sound =
    install_inner-IsSound os target detour want s sound
Step-IsSound _ _ (removes os hook s) sound = remove-IsSound os hook s sound
Step-IsSound _ _ (forgets hook s) sound = forget-IsSound hook s sound
Step-IsSound _ _ (releases os s) sound = release-IsSound os s sound

-- After any sequence of installs, removals, `forget` and `release_unused_handler`, failed ones
-- included, each target has at most one slot, and the handler is registered if a slot is live, when
-- this held at its start.
pub Steps-IsSound : (s t : Int3State) → Steps s t → IsSound s → IsSound t
Steps-IsSound _ _ (stop s) sound = sound
Steps-IsSound _ _ (followed s u t first rest) sound =
    Steps-IsSound u t rest (Step-IsSound s u first sound)
