-- ===== src/Veh/Manager.antt =====
-- src/veh.rs: installing and removing hooks by hardware breakpoints. What can be done with each
-- thread, the threads that run, the gateway and whether a thread is still dispatching an exception
-- are parameters.
pub mod Threads
pub mod Search
pub mod Invariant
pub mod Arm
pub mod Install
pub mod Remove
pub mod Run
pub mod Contract
pub mod Tests
use neohook.Base.{
  ℕ, zero, suc, ◌+◌, ◌%◌, ◌^◌, Bool, true, false, not, ◌&&◌, ◌||◌, Option, none, some, List, [],
  ◌∷◌, ltb, ◌==◌, if◌then◌else◌,
}
use neohook.Base.Assign.{assign}
use neohook.Base.Results.{Result, ok, err}
use neohook.Veh.{Context, Slots, program_slot, slot_count, retired_count}

pub data VehHookError : Type 0 where
  invalid_parameter no_free_slot already_hooked handler_registration_failed gateway_build_failed :
      VehHookError

-- `thread_exited` says that the last error is `ERROR_INVALID_PARAMETER`, and `exit_code_known` that
-- the exit code of a thread can be read and is not `STILL_ACTIVE`.
pub record Os : Type 0 where
  pub opens : ℕ → Bool
  pub thread_exited : ℕ → Bool
  pub suspends : ℕ → Bool
  pub exit_code_known : ℕ → Bool
  pub can_get : ℕ → Bool
  pub can_set : ℕ → Bool
  pub current : ℕ
  pub others : List ℕ
  pub add_handler : ℕ
  pub in_flight : Slots → ℕ → Bool

pub record Veh : Type 0 where
  pub slots : Slots
  pub handler : ℕ
  pub keep_handler : Bool
  pub contexts : ℕ → Context

pub record VehHook : Type 0 where
  pub target : ℕ
  pub detour : ℕ
  pub slot : ℕ
  pub active : Bool
  pub gateway : Option ℕ

abbrev pub Contexts : Type 0
Contexts = ℕ → Context

pub assign_context : Contexts → ℕ → Context → Contexts
assign_context contexts h ctx g = if g == h then ctx else contexts g

pub set_debug_register : Os → ℕ → ℕ → ℕ → Bool → Contexts → Bool × Contexts
set_debug_register os h slot address enable contexts =
    if os.can_get h && os.can_set h
    then (true, assign_context contexts h (program_slot (contexts h) slot address enable))
    else (false, contexts)

-- One thread of the enumeration.
pub set_breakpoint : Os → ℕ → ℕ → ℕ → Bool → Contexts → Bool × Contexts
set_breakpoint os h slot address enable contexts =
    if not (os.opens h)
    then (os.thread_exited h, contexts)
    else if os.suspends h
    then set_debug_register os h slot address enable contexts
    else (os.exit_code_known h, contexts)

pub set_breakpoints : Os → List ℕ → ℕ → ℕ → Bool → Bool × Contexts → Bool × Contexts
set_breakpoints os [] slot address enable (all, contexts) = (all, contexts)
set_breakpoints os (h ∷ hs) slot address enable (all, contexts) =
    let (done, after) = set_breakpoint os h slot address enable contexts in
    set_breakpoints os hs slot address enable (all && done, after)

pub set_breakpoint_on_all_threads : Os → ℕ → ℕ → Bool → Contexts → Bool × Contexts
set_breakpoint_on_all_threads os slot address enable contexts =
    set_breakpoints os os.others slot address enable
      (set_debug_register os os.current slot address enable contexts)

-- The loop over the slots from `i` on; `free` is the first free slot so far.
pub find_slot : Slots → ℕ → ℕ → ℕ → Option ℕ → Result VehHookError ℕ
find_slot s addr i zero none = err VehHookError.no_free_slot
find_slot s addr i zero (some slot) = ok slot
find_slot s addr i (suc rounds) (some slot) =
    let rest = find_slot s addr (i + 1) rounds (some slot) in
    if s.target i == addr then err VehHookError.already_hooked else rest
find_slot s addr i (suc rounds) none =
    let taken = find_slot s addr (i + 1) rounds none in
    let here = find_slot s addr (i + 1) rounds (some i) in
    if s.target i == addr
    then err VehHookError.already_hooked
    else if s.target i == 0
    then here
    else taken

pub register_handler : Os → Veh → Result VehHookError Veh
register_handler os v =
    if v.handler == 0
    then if os.add_handler == 0
      then err VehHookError.handler_registration_failed
      else ok (record v { handler = os.add_handler })
    else ok v

pub publish : ℕ → ℕ → ℕ → Slots → Slots
publish slot target detour s = record s {
  detour = assign s.detour slot detour;
  armed = assign s.armed slot target;
  target = assign s.target slot target;
}

-- With the handler registered, the slot is published and armed on the threads.
pub arm :
    Os → ℕ → ℕ → Option ℕ → ℕ → Result VehHookError Veh → Veh → Result VehHookError VehHook × Veh
arm os target detour gateway slot (err e) before = (err e, before)
arm os target detour gateway slot (ok v) before =
    let hook : VehHook = record {
      target = target;
      detour = detour;
      slot = slot;
      active = true;
      gateway = gateway;
    } in
    (
      ok hook,
      record v {
        slots = publish slot target detour v.slots;
        contexts = (set_breakpoint_on_all_threads os slot target true v.contexts).1;
      },
    )

pub install_slot :
    Os → ℕ → ℕ → Option ℕ → Veh → Result VehHookError ℕ → Result VehHookError VehHook × Veh
install_slot os target detour gateway v (err e) = (err e, v)
install_slot os target detour gateway v (ok slot) =
    arm os target detour gateway slot (register_handler os v) v

-- `gateway` is what `build_original_gateway` answers.
pub install_inner : Os → ℕ → ℕ → Bool → Option ℕ → Veh → Result VehHookError VehHook × Veh
install_inner os target detour want_gateway gateway v =
    let search = find_slot v.slots target 0 slot_count none in
    if target == 0 || detour == 0
    then (err VehHookError.invalid_parameter, v)
    else if want_gateway
    then elim gateway [
      | none ↦ (err VehHookError.gateway_build_failed, v)
      | some ptr ↦ install_slot os target detour (some ptr) v search
    ]
    else install_slot os target detour none v search

pub any_target : Slots → ℕ → ℕ → Bool
any_target s i zero = false
any_target s i (suc rounds) = not (s.target i == 0) || any_target s (i + 1) rounds

-- The attempts from `attempt` on; each asks whether an exception is still being dispatched.
pub release_rounds : Os → ℕ → ℕ → Veh → Veh
release_rounds os attempt zero v = v
release_rounds os attempt (suc rounds) v =
    let later = release_rounds os (attempt + 1) rounds v in
    if os.in_flight v.slots attempt then later else record v { handler = 0 }

abbrev pub release_attempts : ℕ
release_attempts = 5

pub release_idle_handler : Os → Veh → Veh
release_idle_handler os v =
    if v.handler == 0 || v.keep_handler || any_target v.slots 0 slot_count
    then v
    else release_rounds os 0 release_attempts v

pub retire : ℕ → ℕ → Slots → Slots
retire slot target s = record s {
  target = assign s.target slot 0;
  detour = assign s.detour slot 0;
  retired = assign s.retired (s.retired_next % retired_count) target;
  retired_next = (s.retired_next + 1) % 2 ^ 64;
}

-- The debug registers are cleared on every thread, and the slot is retired.
pub disarm : Os → VehHook → Veh → Bool × Contexts → Veh
disarm os hook v (all, contexts) = record v {
  slots = retire hook.slot hook.target v.slots;
  keep_handler = v.keep_handler || not all;
  contexts = contexts;
}

pub remove : Os → VehHook → Veh → VehHook × Veh
remove os hook v =
    let disarmed =
      disarm os hook v (set_breakpoint_on_all_threads os hook.slot 0 false v.contexts) in
    if hook.active
    then (record hook { active = false }, release_idle_handler os disarmed)
    else (hook, v)
