-- ===== src/Veh/Manager/Tests.antt =====
-- Examples of hooks by hardware breakpoints, and the witnesses of their theorems.
use neohook.Base.{
  ℕ, ◌<◌, ◌≡◌, ◌≢◌, ◌⊎◌, inl, inr, refl, Bool, true, false, none, [], ◌∷◌, ◌==◌, if◌then◌else◌,
  arith,
}
use neohook.Base.Results.{ok}
use neohook.Veh.{
  Context, Verdict, Exception, debug_address, program_slot, status_single_step, live_detour,
  dispatch, resync_retired, resync, is_stale, fired, is_retired, resync_slot, veh_handler,
}
use neohook.Veh.Manager.{
  Os, Veh, VehHook, install_inner, install_slot, find_slot, register_handler, arm, publish,
  set_breakpoint_on_all_threads, set_breakpoints, set_breakpoint, set_debug_register,
  assign_context, remove, disarm, retire, release_idle_handler, any_target, release_rounds,
}
use neohook.Veh.Manager.Threads.{IsHonest}
use neohook.Veh.Manager.Invariant.{Owns}
use neohook.Veh.Manager.Run.{Run, Step, IsFresh}
use neohook.Veh.Manager.Contract.{veh_handler-install_inner, Run-Unregistered}

-- Two threads, of which thread 1 makes the calls.
abbrev windows : Os
windows = record {
  opens = λ h. true;
  thread_exited = λ h. false;
  suspends = λ h. true;
  exit_code_known = λ h. false;
  can_get = λ h. true;
  can_set = λ h. true;
  current = 1;
  others = 2 ∷ [];
  add_handler = 0x7000;
  in_flight = λ s attempt. false;
}

abbrev both : ℕ → Bool
both h = if h == 1 then true else if h == 2 then true else false

abbrev clear : Context
clear = record { dr0 = 0; dr1 = 0; dr2 = 0; dr3 = 0; dr6 = 0; dr7 = 0; rip = 0x5000; eflags = 2 }

abbrev first : Veh
first = record {
  slots = record {
    target = λ i. 0;
    detour = λ i. 0;
    armed = λ i. 0;
    retired = λ i. 0;
    retired_next = 0;
  };
  handler = 0;
  keep_handler = false;
  contexts = λ h. clear;
}

abbrev hook : VehHook
hook = record { target = 0x1000; detour = 0x2000; slot = 0; active = true; gateway = none }

abbrev installed : Veh
installed = (install_inner windows 0x1000 0x2000 false none first).1

abbrev removed : Veh
removed = (remove windows hook installed).1

abbrev single_step : Exception
single_step = record { code = status_single_step; address = 0x1000; context = clear }

thread_armed : debug_address (installed.contexts 2) 0 ≡ 0x1000
unfolding install_inner install_slot find_slot register_handler arm set_breakpoint_on_all_threads
    set_breakpoints set_breakpoint set_debug_register assign_context program_slot debug_address
thread_armed = refl

installs : install_inner windows 0x1000 0x2000 false none first ≡ (ok hook, installed)
unfolding install_inner install_slot find_slot register_handler arm
installs = refl

handler_gone : removed.handler ≡ 0
unfolding remove disarm retire release_idle_handler any_target release_rounds install_inner
    install_slot find_slot register_handler arm publish set_breakpoint_on_all_threads
    set_breakpoints set_breakpoint set_debug_register
handler_gone = refl

hook_owned : Owns installed hook
unfolding install_inner install_slot find_slot register_handler arm publish
hook_owned = record {
  active = refl;
  in_range = omega arith;
  target = refl;
  detour = refl;
  target_pos = omega arith;
  detour_pos = omega arith;
}

stale_resumes :
    (veh_handler
      (removed.slots)
      (record single_step { context = record clear { dr0 = 0x1000; dr6 = 1 } })).0
    ≡ Verdict.continue_execution
unfolding veh_handler live_detour dispatch resync_retired resync is_stale fired resync_slot
    is_retired remove disarm retire release_idle_handler any_target release_rounds install_inner
    install_slot find_slot register_handler arm publish set_breakpoint_on_all_threads
    set_breakpoints set_breakpoint set_debug_register debug_address program_slot
stale_resumes = refl

windows-IsHonest : IsHonest both windows
windows-IsHonest = record {
  enumerated = λ h. listed h;
  opened = λ h. inr (inl refl);
  suspended = λ h. inr (inl refl);
}
  where
    listed : (h : ℕ) → (both h ≡ false) ⊎ ((h ≡ 1) ⊎ ((h ≡ 2) ⊎ ⊥))
    listed h = ground arith

first-IsFresh : IsFresh first
first-IsFresh = record { no_target = λ i. refl; no_armed = λ i. refl }

-- Another hook is installed and a thread traps in between.
abbrev later : Run both 0 installed ((install_inner windows 0x3000 0x4000 false none installed).1)
later =
    Run.next Run.start (Step.install installed windows 0x3000 0x4000 false none windows-IsHonest)

veh_handler-install_inner_example :
    (0 < ((install_inner windows 0x3000 0x4000 false none installed).1).handler)
    × (veh_handler
          (((install_inner windows 0x3000 0x4000 false none installed).1).slots)
          single_step
        ≡ (Verdict.continue_execution, record clear { rip = 0x2000 }))
veh_handler-install_inner_example =
    veh_handler-install_inner both first first installed
      ((install_inner windows 0x3000 0x4000 false none installed).1) windows 0x1000 0x2000 false
      none hook single_step 4 first-IsFresh Run.start windows-IsHonest installs later refl refl

abbrev whole : Run both 4 first removed
whole =
    Run.next
      (Run.next Run.start (Step.install first windows 0x1000 0x2000 false none windows-IsHonest))
      (Step.uninstall installed windows hook windows-IsHonest hook_owned (λ e. omega arith))

Run-Unregistered_example :
    (removed.slots.target 0 ≡ 0)
    × ((removed.slots.armed 0 ≡ 0) ⊎ (debug_address (removed.contexts 2) 0 ≢ removed.slots.armed 0))
Run-Unregistered_example =
    Run-Unregistered both first removed 4 2 0 first-IsFresh whole handler_gone refl (omega arith)
