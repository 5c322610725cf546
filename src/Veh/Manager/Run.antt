-- ===== src/Veh/Manager/Run.antt =====
-- src/veh.rs: installs, removals and traps one after the other, in any order.
use neohook.Base.{
  ℕ, ◌<◌, ◌≤◌, ◌≡◌, ◌≢◌, sym, ap, ◌∙◌, ◌⊎◌, inl, inr, Bool, true, Option, ◌==◌, if_true, if_false,
  Bool-cases, arith,
}
use neohook.Veh.{Exception, debug_address, slot_count, veh_handler}
use neohook.Veh.Handler.{veh_handler-Synced}
use neohook.Veh.Manager.{Os, Veh, VehHook, assign_context, install_inner, remove}
use neohook.Veh.Manager.Threads.{IsHonest}
use neohook.Veh.Manager.Invariant.{Clean, IsSound, Owns}
use neohook.Veh.Manager.Install.{Installs-IsSound, Installs-Owns, install_inner-Installs}
use neohook.Veh.Manager.Remove.{remove-IsSound, remove_keeps}

-- The handler ran for an exception of a thread, and the thread resumes with the context it left.
abbrev pub trap : ℕ → Exception → Veh → Veh
trap h e v = record v { contexts = assign_context v.contexts h ((veh_handler v.slots e).1) }

-- One operation. Each may find the threads in another state; a removal is by the owner of the slot,
-- which is not the spared one.
pub data Step (alive : ℕ → Bool) (spared : ℕ) : Veh → Veh → Type 0 where
  install :
      (v : Veh) (os : Os) (target detour : ℕ) (want_gateway : Bool) (gateway : Option ℕ)
      → IsHonest alive os
      → Step alive spared v ((install_inner os target detour want_gateway gateway v).1)
  uninstall :
      (v : Veh) (os : Os) (hook : VehHook)
      → IsHonest alive os
      → Owns v hook
      → spared ≢ hook.slot
      → Step alive spared v ((remove os hook v).1)
  trapped :
      (v : Veh) (h : ℕ) (e : Exception)
      → e.context ≡ v.contexts h
      → Step alive spared v (trap h e v)

pub data Run (alive : ℕ → Bool) (spared : ℕ) (v : Veh) : Veh → Type 0 where
  start : Run alive spared v v
  next : {w u : Veh} → Run alive spared v w → Step alive spared w u → Run alive spared v u

-- No hook, no handler and no breakpoint of NeoHook.
pub record IsFresh (v : Veh) : Type 0 where
  pub no_target : (i : ℕ) → v.slots.target i ≡ 0
  pub no_armed : (i : ℕ) → v.slots.armed i ≡ 0

pub IsFresh-IsSound : (alive : ℕ → Bool) (v : Veh) → IsFresh v → IsSound alive v
IsFresh-IsSound alive v fresh = record {
  served = λ i. inl (inr (fresh.no_target i));
  distinct = λ i j. inr (inl (fresh.no_target i));
  swept = inr (λ h i. inr (inr (inl (fresh.no_armed i))));
}

trap-Clean :
    (v : Veh) (h : ℕ) (e : Exception) (g i : ℕ)
    → e.context ≡ v.contexts h
    → i < slot_count
    → Clean v g i
    → Clean (trap h e v) g i
unfolding assign_context
trap-Clean v h e g i same lt clean = elim (Bool-cases (g == h)) [
  | inr apart ↦
      or_off clean (λ off t. off (sym (ap (λ c. debug_address c i) (if_false _ _ apart)) ∙ t))
  | inl here ↦
      let now = ap (λ c. debug_address c i) (if_true {b = g == h} _ (v.contexts g) here) in
      elim (veh_handler-Synced v.slots e i lt) [
        | inl kept ↦ or_off clean (λ off t. off (
            ap (λ k. debug_address (v.contexts k) i) (is_same here)
            ∙ sym (ap (λ c. debug_address c i) same)
            ∙ sym kept
            ∙ sym now
            ∙ t))
        | inr synced ↦ elim (zero_or (v.slots.target i)) [
          | inr used ↦ inl used
          | inl free ↦ elim (zero_or (v.slots.armed i)) [
            | inl never ↦ inr (inl never)
            | inr armed ↦ inr (inr (λ t. positive armed (sym t ∙ now ∙ synced ∙ free)))
          ]
        ]
      ]
]
  where
    zero_or : (n : ℕ) → (n ≡ 0) ⊎ (0 < n)
    zero_or n = ground arith

    positive : {n : ℕ} → 0 < n → n ≡ 0 → ⊥
    positive lt z = omega arith

    is_same : (g == h) ≡ true → g ≡ h
    is_same here = ground arith

    or_off : {A B C D : Type 0} → A ⊎ (B ⊎ C) → (C → D) → A ⊎ (B ⊎ D)
    or_off (inl a) f = inl a
    or_off (inr (inl b)) f = inr (inl b)
    or_off (inr (inr c)) f = inr (inr (f c))

trap-IsSound :
    (alive : ℕ → Bool) (v : Veh) (h : ℕ) (e : Exception)
    → e.context ≡ v.contexts h
    → IsSound alive v
    → IsSound alive (trap h e v)
trap-IsSound alive v h e same sound = record {
  served = sound.served;
  distinct = sound.distinct;
  swept = elim (sound.swept) [
    | inl kept ↦ inl kept
    | inr clean ↦ inr (λ g i. elim (clean g i) [
      | inl out ↦ inl out
      | inr c ↦ elim (in_range i) [
        | inl out ↦ inl (inr out)
        | inr lt ↦ inr (trap-Clean v h e g i same lt c)
      ]
    ])
  ];
}
  where
    in_range : (i : ℕ) → (slot_count ≤ i) ⊎ (i < slot_count)
    in_range i = ground arith

Step-IsSound :
    {alive : ℕ → Bool} {spared : ℕ} {v w : Veh}
    → Step alive spared v w
    → IsSound alive v
    → IsSound alive w
Step-IsSound {alive = alive} (install v os target detour want gateway honest) sound =
    Installs-IsSound alive v target detour _ sound
      (install_inner-Installs alive os target detour want gateway v honest sound)
Step-IsSound {alive = alive} (uninstall v os hook honest owns apart) sound =
    remove-IsSound alive os hook v owns honest sound
Step-IsSound {alive = alive} (trapped v h e same) sound = trap-IsSound alive v h e same sound

pub Run-IsSound :
    {alive : ℕ → Bool} {spared : ℕ} {v w : Veh}
    → Run alive spared v w
    → IsSound alive v
    → IsSound alive w
Run-IsSound start sound = sound
Run-IsSound (next run step) sound = Step-IsSound step (Run-IsSound run sound)

Step-Owns :
    {alive : ℕ → Bool} {spared : ℕ} {v w : Veh}
    → Step alive spared v w
    → IsSound alive v
    → (hook : VehHook) → hook.slot ≡ spared
    → Owns v hook
    → Owns w hook
Step-Owns {alive = alive} (install v os target detour want gateway honest) sound hook e owns =
    Installs-Owns alive v target detour _ hook owns
      (install_inner-Installs alive os target detour want gateway v honest sound)
Step-Owns {alive = alive} (uninstall v os gone honest its_own apart) sound hook e owns =
    remove_keeps alive os gone v its_own honest sound hook (λ t. apart (sym e ∙ t)) owns
Step-Owns {alive = alive} (trapped v h x same) sound hook e owns = record {
  active = owns.active;
  in_range = owns.in_range;
  target = owns.target;
  detour = owns.detour;
  target_pos = owns.target_pos;
  detour_pos = owns.detour_pos;
}

pub Run-Owns :
    {alive : ℕ → Bool} {spared : ℕ} {v w : Veh}
    → Run alive spared v w
    → IsSound alive v
    → (hook : VehHook) → hook.slot ≡ spared
    → Owns v hook
    → Owns w hook
Run-Owns start sound hook e owns = owns
Run-Owns (next run step) sound hook e owns =
    Step-Owns step (Run-IsSound run sound) hook e (Run-Owns run sound hook e owns)
