-- ===== src/Veh/Manager/Contract.antt =====
-- src/veh.rs: what the hooks by hardware breakpoints promise.
use neohook.Base.{
  ℕ, ◌<◌, ◌≤◌, ◌≡◌, ◌≢◌, refl, sym, ap, subst, ◌∙◌, ◌⊎◌, inl, inr, Bool, true, Option, arith,
}
use neohook.Base.Results.{ok}
use neohook.Veh.{Verdict, Exception, debug_address, slot_count, status_single_step, veh_handler}
use neohook.Veh.Handler.{veh_handler_redirects}
use neohook.Veh.Manager.{Os, Veh, VehHook, install_inner}
use neohook.Veh.Manager.Threads.{IsHonest}
use neohook.Veh.Manager.Invariant.{IsSound, Owns}
use neohook.Veh.Manager.Install.{Installs, Installs-hook, Installs-IsSound, install_inner-Installs}
use neohook.Veh.Manager.Run.{Run, IsFresh, IsFresh-IsSound, Run-IsSound, Run-Owns}

zero_or : (n : ℕ) → (n ≡ 0) ⊎ (0 < n)
zero_or n = ground arith

-- In a sound state a single step at the target of a hook resumes at the hook's detour.
Owns-redirects :
    (alive : ℕ → Bool) (v : Veh) (hook : VehHook) (e : Exception)
    → IsSound alive v
    → Owns v hook
    → e.code ≡ status_single_step
    → e.address ≡ hook.target
    → veh_handler v.slots e ≡ (Verdict.continue_execution, record e.context { rip = hook.detour })
Owns-redirects alive v hook e sound owns code at =
    let there = owns.target ∙ sym at in
    veh_handler_redirects v.slots e hook.slot code there
      (subst (λ n. 0 < n) (sym at) owns.target_pos)
      (subst (λ n. 0 < n) (sym owns.detour) owns.detour_pos) owns.in_range (alone there)
    ∙ ap (λ d. (Verdict.continue_execution, record e.context { rip = d })) owns.detour
  where
    alone :
        v.slots.target hook.slot ≡ e.address
        → (k : ℕ) → (slot_count ≤ k) ⊎ ((k ≡ hook.slot) ⊎ (v.slots.target k ≢ e.address))
    alone there k = elim (sound.distinct hook.slot k) [
      | inl (inl out) ↦ absurd (omega (arith, owns.in_range))
      | inl (inr out) ↦ inl out
      | inr (inl free) ↦ absurd (omega (arith, owns.target, owns.target_pos))
      | inr (inr (inl same)) ↦ inr (inl (sym same))
      | inr (inr (inr other)) ↦ inr (inr (λ t. other (there ∙ sym t)))
    ]

Owns-handler :
    (alive : ℕ → Bool) (v : Veh) (hook : VehHook) → IsSound alive v → Owns v hook → 0 < v.handler
Owns-handler alive v hook sound owns = elim (sound.served hook.slot) [
  | inl (inl out) ↦ absurd (omega (arith, owns.in_range))
  | inl (inr free) ↦ absurd (omega (arith, owns.target, owns.target_pos))
  | inr (armed, some_detour, handler) ↦ handler
]

-- Start without hooks, make installs, removals and traps in any order, and then install a hook. As
-- long as the hook itself is not removed, through any further installs, removals and traps, the
-- handler is registered, and a single step at the target resumes at the detour with the other
-- registers as they were.
pub veh_handler-install_inner :
    (alive : ℕ → Bool) (first before after now : Veh) (os : Os) (target detour : ℕ)
    (want_gateway : Bool) (gateway : Option ℕ) (hook : VehHook) (e : Exception) (spared : ℕ)
    → IsFresh first
    → Run alive spared first before
    → IsHonest alive os
    → install_inner os target detour want_gateway gateway before ≡ (ok hook, after)
    → Run alive hook.slot after now
    → e.code ≡ status_single_step
    → e.address ≡ target
    → (0 < now.handler)
      × (veh_handler now.slots e ≡ (Verdict.continue_execution, record e.context { rip = detour }))
veh_handler-install_inner alive first before after now os target detour want gateway hook e spared
      fresh run honest installed later code at =
    let sound = Run-IsSound run (IsFresh-IsSound alive first fresh) in
    let installs =
      subst (λ r. Installs alive before target detour r) installed
        (install_inner-Installs alive os target detour want gateway before honest sound) in
    let (owned, t, d) = Installs-hook alive before after target detour hook installs in
    let sound_after = Installs-IsSound alive before target detour (ok hook, after) sound installs in
    let owns = Run-Owns later sound_after hook refl owned in
    let sound_now = Run-IsSound later sound_after in
    (
      Owns-handler alive now hook sound_now owns,
      Owns-redirects alive now hook e sound_now owns code (at ∙ sym t)
          ∙ ap (λ n. (Verdict.continue_execution, record e.context { rip = n })) d,
    )

-- Start without hooks and make installs, removals and traps in any order. Take any threads that the
-- enumeration of each install and removal finds and that none reports as exited; an enumeration whose
-- snapshot fails finds no thread but the calling one. If the handler is then not registered, no slot is
-- in use, and none of these threads holds in any of its four debug registers the address that NeoHook
-- armed there last.
pub Run-Unregistered :
    (alive : ℕ → Bool) (first now : Veh) (spared h i : ℕ)
    → IsFresh first
    → Run alive spared first now
    → now.handler ≡ 0
    → alive h ≡ true
    → i < slot_count
    → (now.slots.target i ≡ 0)
      × ((now.slots.armed i ≡ 0) ⊎ (debug_address (now.contexts h) i ≢ now.slots.armed i))
Run-Unregistered alive first now spared h i fresh run idle live lt =
    let sound = Run-IsSound run (IsFresh-IsSound alive first fresh) in
    let free : now.slots.target i ≡ 0 = elim (sound.served i) [
      | inl (inl out) ↦ absurd (omega arith)
      | inl (inr free) ↦ free
      | inr (armed, some_detour, handler) ↦ absurd (omega arith)
    ] in
    (
      free,
      elim (sound.swept) [
        | inl (keep, handler) ↦ absurd (omega arith)
        | inr clean ↦ elim (clean h i) [
          | inl (inl dead) ↦ absurd (cc (live, dead))
          | inl (inr out) ↦ absurd (omega arith)
          | inr (inl used) ↦ absurd (omega arith)
          | inr (inr rest) ↦ rest
        ]
      ],
    )
