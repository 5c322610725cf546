-- ===== src/Veh/Manager/Threads.antt =====
-- src/veh.rs: what programming a breakpoint on all threads does to their debug registers.
use neohook.Base.{
  ℕ, ◌<◌, ◌≤◌, ◌≡◌, ◌≢◌, refl, sym, ap, subst, ◌∙◌, ◌⊎◌, inl, inr, Bool, true, false, not, ◌&&◌,
  List, [], ◌∷◌, In, ◌==◌, if◌then◌else◌, if_true, if_false, Bool-cases, arith,
}
use neohook.Veh.{Context, debug_address, program_slot, slot_count}
use neohook.Veh.Manager.{
  Os, Contexts, assign_context, set_debug_register, set_breakpoint, set_breakpoints,
  set_breakpoint_on_all_threads,
}

-- What a slot holds after it was programmed.
abbrev pub programmed : ℕ → Bool → ℕ
programmed address enable = if enable then address else 0

pub debug_address-program_slot :
    (ctx : Context) (slot address : ℕ) (enable : Bool)
    → slot < slot_count
    → debug_address (program_slot ctx slot address enable) slot ≡ programmed address enable
unfolding debug_address program_slot
debug_address-program_slot ctx slot address enable lt = ground arith

pub program_slot_other :
    (ctx : Context) (slot address : ℕ) (enable : Bool) (j : ℕ)
    → slot < slot_count
    → j < slot_count
    → j ≢ slot
    → debug_address (program_slot ctx slot address enable) j ≡ debug_address ctx j
unfolding debug_address program_slot
program_slot_other ctx slot address enable j lt le apart = ground arith

-- Threads that the enumeration finds and that are not reported as exited. Where the snapshot can be made
-- these are, as documented, all that run meanwhile; where it cannot, at most the calling one.
pub record IsHonest (alive : ℕ → Bool) (os : Os) : Type 0 where
  pub enumerated : (h : ℕ) → (alive h ≡ false) ⊎ ((h ≡ os.current) ⊎ In h os.others)
  pub opened : (h : ℕ) → (alive h ≡ false) ⊎ ((os.opens h ≡ true) ⊎ (os.thread_exited h ≡ false))
  pub suspended :
      (h : ℕ) → (alive h ≡ false) ⊎ ((os.suspends h ≡ true) ⊎ (os.exit_code_known h ≡ false))

module _ (os : Os) (slot address : ℕ) (enable : Bool) (lt : slot < slot_count) where
  -- Each thread has the registers of the other slots as before, and its slot as before or programmed.
  abbrev pub Touches : Contexts → Contexts → Type 0
  Touches before after =
      ((h j : ℕ)
        → ((slot_count ≤ j) ⊎ (j ≡ slot))
          ⊎ (debug_address (after h) j ≡ debug_address (before h) j))
      × ((h : ℕ)
          → (debug_address (after h) slot ≡ debug_address (before h) slot)
            ⊎ (debug_address (after h) slot ≡ programmed address enable))

  abbrev pub Done : Contexts → ℕ → Type 0
  Done contexts h = debug_address (contexts h) slot ≡ programmed address enable

  Touches-none : (c : Contexts) → Touches c c
  Touches-none c = (λ h j. inr refl, λ h. inl refl)

  Touches-later : (a b c : Contexts) → Touches a b → Touches b c → Touches a c
  Touches-later a b c (other, same) (other', same') =
      (λ h j. both h j (other h j) (other' h j), λ h. last h (same h) (same' h))
    where
      both :
          (h j : ℕ)
          → ((slot_count ≤ j) ⊎ (j ≡ slot)) ⊎ (debug_address (b h) j ≡ debug_address (a h) j)
          → ((slot_count ≤ j) ⊎ (j ≡ slot)) ⊎ (debug_address (c h) j ≡ debug_address (b h) j)
          → ((slot_count ≤ j) ⊎ (j ≡ slot)) ⊎ (debug_address (c h) j ≡ debug_address (a h) j)
      both h j (inl out) q = inl out
      both h j (inr e) (inl out) = inl out
      both h j (inr e) (inr e') = inr (e' ∙ e)

      last :
          (h : ℕ)
          → (debug_address (b h) slot ≡ debug_address (a h) slot) ⊎ Done b h
          → (debug_address (c h) slot ≡ debug_address (b h) slot) ⊎ Done c h
          → (debug_address (c h) slot ≡ debug_address (a h) slot) ⊎ Done c h
      last h p (inr d) = inr d
      last h (inl e) (inl e') = inl (e' ∙ e)
      last h (inr d) (inl e') = inr (e' ∙ d)

  -- The thread `h` programmed, and no other.
  abbrev on_thread : ℕ → Contexts → Contexts
  on_thread h c = assign_context c h (program_slot (c h) slot address enable)

  on_thread-Touches : (h : ℕ) (c : Contexts) → Touches c (on_thread h c)
  unfolding assign_context
  on_thread-Touches h c = (λ g j. others g j, λ g. its_own g)
    where
      others :
          (g j : ℕ)
          → ((slot_count ≤ j) ⊎ (j ≡ slot))
            ⊎ (debug_address (on_thread h c g) j ≡ debug_address (c g) j)
      others g j = elim (Bool-cases (g == h)) [
        | inr apart ↦ inr (ap (λ t. debug_address t j) (if_false _ _ apart))
        | inl here ↦ elim (near j) [
          | inl out ↦ inl out
          | inr (below, apart) ↦ inr (
              ap (λ t. debug_address t j) (if_true _ _ here)
              ∙ program_slot_other (c h) slot address enable j lt below apart
              ∙ ap (λ k. debug_address (c k) j) (ground arith))
        ]
      ]
        where
          near : (j : ℕ) → ((slot_count ≤ j) ⊎ (j ≡ slot)) ⊎ ((j < slot_count) × (j ≢ slot))
          near j = ground arith

      its_own :
          (g : ℕ)
          → (debug_address (on_thread h c g) slot ≡ debug_address (c g) slot)
            ⊎ Done (on_thread h c) g
      its_own g = elim (Bool-cases (g == h)) [
        | inr apart ↦ inl (ap (λ t. debug_address t slot) (if_false _ _ apart))
        | inl here ↦ inr (
            ap (λ t. debug_address t slot) (if_true _ _ here)
            ∙ debug_address-program_slot (c h) slot address enable lt)
      ]

  on_thread-Done : (h : ℕ) (c : Contexts) → Done (on_thread h c) h
  unfolding assign_context
  on_thread-Done h c =
      ap (λ t. debug_address t slot) (if_true {b = h == h} _ _ (ground arith))
      ∙ debug_address-program_slot (c h) slot address enable lt

  -- What one call leaves: only the slot is touched, and a call that answers `true` has programmed it.
  abbrev Sets : ℕ → Contexts → Bool × Contexts → Type 0
  Sets h before (answer, after) = Touches before after × ((answer ≡ false) ⊎ Done after h)

  set_debug_register-Sets :
      (h : ℕ) (c : Contexts) → Sets h c (set_debug_register os h slot address enable c)
  unfolding set_debug_register
  set_debug_register-Sets h c = elim (Bool-cases (os.can_get h && os.can_set h)) [
    | inl can ↦
        subst (Sets h c) (sym (if_true _ _ can)) (on_thread-Touches h c, inr (on_thread-Done h c))
    | inr cannot ↦ subst (Sets h c) (sym (if_false _ _ cannot)) (Touches-none c, inl refl)
  ]

  module _ (alive : ℕ → Bool) (honest : IsHonest alive os) where
    abbrev SetsLive : ℕ → Contexts → Bool × Contexts → Type 0
    SetsLive h before (answer, after) =
        Touches before after × ((alive h ≡ false) ⊎ ((answer ≡ false) ⊎ Done after h))

    set_breakpoint-SetsLive :
        (h : ℕ) (c : Contexts) → SetsLive h c (set_breakpoint os h slot address enable c)
    unfolding set_breakpoint
    set_breakpoint-SetsLive h c = elim (Bool-cases (not (os.opens h))) [
      | inl closed ↦ subst (SetsLive h c) (sym (if_true _ _ closed)) (
        Touches-none c,
        elim (honest.opened h) [
          | inl dead ↦ inl dead
          | inr (inl opens) ↦ absurd (cc (opens, closed))
          | inr (inr failed) ↦ inr (inl failed)
        ],
      )
      | inr opens ↦ elim (Bool-cases (os.suspends h)) [
        | inl suspends ↦
            let (touches, answer) = set_debug_register-Sets h c in
            subst (SetsLive h c) (sym (if_false _ _ opens ∙ if_true _ _ suspends))
              (touches, inr answer)
        | inr runs ↦ subst (SetsLive h c) (sym (if_false _ _ opens ∙ if_false _ _ runs)) (
          Touches-none c,
          elim (honest.suspended h) [
            | inl dead ↦ inl dead
            | inr (inl suspends) ↦ absurd (cc (suspends, runs))
            | inr (inr failed) ↦ inr (inl failed)
          ],
        )
      ]
    ]

    -- A thread that was programmed stays so.
    Done-later : (b c : Contexts) (h : ℕ) → Touches b c → Done b h → Done c h
    Done-later b c h (other, same) done = elim (same h) [ inl e ↦ e ∙ done | inr d ↦ d ]

    set_breakpoints-Touches :
        (hs : List ℕ) (all : Bool) (now : Contexts)
        → Touches now ((set_breakpoints os hs slot address enable (all, now)).1)
    unfolding set_breakpoints
    set_breakpoints-Touches [] all now = Touches-none now
    set_breakpoints-Touches (g ∷ hs) all now =
        let r = set_breakpoint os g slot address enable now in
        Touches-later now (r.1) ((set_breakpoints os hs slot address enable (all && r.0, r.1)).1)
          ((set_breakpoint-SetsLive g now).0) (set_breakpoints-Touches hs (all && r.0) (r.1))

    -- A failure is not forgotten.
    set_breakpoints_failed :
        (hs : List ℕ) (all : Bool) (now : Contexts)
        → all ≡ false
        → (set_breakpoints os hs slot address enable (all, now)).0 ≡ false
    unfolding set_breakpoints
    set_breakpoints_failed [] all now failed = failed
    set_breakpoints_failed (g ∷ hs) all now failed = set_breakpoints_failed hs _ _ (rw failed refl)

    and_false : (all done : Bool) → done ≡ false → (all && done) ≡ false
    and_false true done e = e
    and_false false done e = refl

    -- Where a pass answers `true`, a live thread that was programmed before or is in the list is
    -- programmed.
    set_breakpoints-Done :
        (h : ℕ) (hs : List ℕ) (all : Bool) (now : Contexts)
        → alive h ≡ true
        → Done now h ⊎ In h hs
        → ((set_breakpoints os hs slot address enable (all, now)).0 ≡ false)
          ⊎ Done ((set_breakpoints os hs slot address enable (all, now)).1) h
    unfolding set_breakpoints
    set_breakpoints-Done h [] all now live (inl done) = inr done
    set_breakpoints-Done h [] all now live (inr none_here) = absurd none_here
    set_breakpoints-Done h (g ∷ hs) all now live (inl done) =
        let r = set_breakpoint os g slot address enable now in
        set_breakpoints-Done h hs (all && r.0) (r.1) live
          (inl (Done-later now (r.1) h ((set_breakpoint-SetsLive g now).0) done))
    set_breakpoints-Done h (g ∷ hs) all now live (inr (inr at)) =
        let r = set_breakpoint os g slot address enable now in
        set_breakpoints-Done h hs (all && r.0) (r.1) live (inr at)
    set_breakpoints-Done h (g ∷ hs) all now live (inr (inl e)) =
        let r = set_breakpoint os g slot address enable now in
        elim ((set_breakpoint-SetsLive g now).1) [
          | inl dead ↦ absurd (cc (dead, live, e))
          | inr (inl failed) ↦
              inl (set_breakpoints_failed hs (all && r.0) (r.1) (and_false all (r.0) failed))
          | inr (inr done) ↦
              set_breakpoints-Done h hs (all && r.0) (r.1) live
                (inl (subst (Done (r.1)) (sym e) done))
        ]

    pub set_breakpoint_on_all_threads-Touches :
        (c : Contexts) → Touches c ((set_breakpoint_on_all_threads os slot address enable c).1)
    unfolding set_breakpoint_on_all_threads
    set_breakpoint_on_all_threads-Touches c =
        let r = set_debug_register os os.current slot address enable c in
        Touches-later c (r.1) ((set_breakpoints os os.others slot address enable r).1)
          ((set_debug_register-Sets os.current c).0) (set_breakpoints-Touches os.others (r.0) (r.1))

    pub set_breakpoint_on_all_threads-Done :
        (h : ℕ) (c : Contexts)
        → alive h ≡ true
        → ((set_breakpoint_on_all_threads os slot address enable c).0 ≡ false)
          ⊎ Done ((set_breakpoint_on_all_threads os slot address enable c).1) h
    unfolding set_breakpoint_on_all_threads
    set_breakpoint_on_all_threads-Done h c live =
        let r = set_debug_register os os.current slot address enable c in
        elim (honest.enumerated h) [
          | inl dead ↦ absurd (cc (dead, live))
          | inr (inr at) ↦ set_breakpoints-Done h os.others (r.0) (r.1) live (inr at)
          | inr (inl e) ↦ elim ((set_debug_register-Sets os.current c).1) [
            | inl failed ↦ inl (set_breakpoints_failed os.others (r.0) (r.1) failed)
            | inr done ↦
                set_breakpoints-Done h os.others (r.0) (r.1) live
                  (inl (subst (Done (r.1)) (sym e) done))
          ]
        ]
