-- ===== src/Int3.antt =====
-- src/int3.rs: hooks by a breakpoint byte and a vectored exception handler. The handler handle, the
-- failure of a write, the threads in flight and the gateway are parameters. An operation under the
-- locks is one step; the handler reads the tables of one moment.
pub mod Slots
pub mod Install
pub mod Remove
pub mod Invariant
pub mod Tests
use neohook.Base.{
  ℕ, zero, suc, ◌+◌, ◌-◌, ◌%◌, Bool, true, false, not, ◌&&◌, ◌||◌, Option, none, some, List, [],
  ◌∷◌, map, set, ◌==◌, if◌then◌else◌,
}
use neohook.Base.Maps.{member}
use neohook.Base.Results.{Result, ok, err}
use neohook.Patches.{LivePatches, overlaps_live_patch}

abbrev pub max_hooks : ℕ
max_hooks = 256

abbrev pub int3_opcode : ℕ
int3_opcode = 0xcc

abbrev pub status_breakpoint : ℕ
status_breakpoint = 0x80000003

abbrev pub retired_len : ℕ
retired_len = 1024

abbrev pub release_attempts : ℕ
release_attempts = 5

pub data Int3HookError : Type 0 where
  invalid_parameter no_free_slot already_hooked handler_registration_failed patch_failed
        gateway_build_failed :
      Int3HookError

-- The statics and the memory that they are about.
pub record Int3State : Type 0 where
  pub slot_target : List ℕ
  pub slot_detour : List ℕ
  pub retired : List ℕ
  pub retired_next : ℕ
  pub handler : ℕ
  pub memory : ℕ → ℕ

pub repeat : ℕ → List ℕ
repeat zero = []
repeat (suc n) = 0 ∷ repeat n

-- The statics as the program starts.
pub initial : (ℕ → ℕ) → Int3State
initial memory = record {
  slot_target = repeat max_hooks;
  slot_detour = repeat max_hooks;
  retired = repeat retired_len;
  retired_next = 0;
  handler = 0;
  memory = memory;
}

pub record Int3Hook : Type 0 where
  pub target : ℕ
  pub detour : ℕ
  pub original_byte : ℕ
  pub slot : ℕ
  pub active : Bool
  pub gateway : Option ℕ

-- The handle that `AddVectoredExceptionHandler` returns, whether a byte can be written, what
-- `exceptions_in_flight` answers to a predicate at an attempt, the gateway built for a target, and
-- the live inline patches.
pub record Os : Type 0 where
  pub add_handler : ℕ
  pub writable : ℕ → Bool
  pub in_flight : (ℕ → Bool) → ℕ → Bool
  pub gateway_of : ℕ → Option ℕ
  pub patches : LivePatches

abbrev pub write_byte : ℕ → ℕ → (ℕ → ℕ) → ℕ → ℕ
write_byte addr byte memory x = if x == addr then byte else memory x

-- `write_memory_atomic` on one byte: the byte that was there, and the memory after the write.
pub write_memory_atomic : Os → ℕ → ℕ → (ℕ → ℕ) → Option (ℕ × (ℕ → ℕ))
write_memory_atomic os addr byte memory =
    if addr == 0
    then none
    else if os.writable addr
    then some (memory addr, write_byte addr byte memory)
    else none

pub zeros : List ℕ → List ℕ
zeros [] = []
zeros (x ∷ xs) = 0 ∷ zeros xs

-- `SLOT_TARGET.iter().any(|target| target != 0)`
pub any_live : List ℕ → Bool
any_live [] = false
any_live (x ∷ xs) = not (x == 0) || any_live xs

pub is_retired : List ℕ → ℕ → Bool
is_retired retired addr = not (addr == 0) && member addr retired

abbrev pub clear_handler : Int3State → Int3State
clear_handler s = record s { retired = zeros s.retired; retired_next = 0; handler = 0 }

-- The loop over the attempts, `left` of them to come.
pub release_loop : Os → Int3State → ℕ → ℕ → Int3State
release_loop os s zero attempt = s
release_loop os s (suc left) attempt =
    let later = release_loop os s left (attempt + 1) in
    if os.in_flight (is_retired s.retired) attempt then later else clear_handler s

pub release_idle_handler : Os → Int3State → Int3State
release_idle_handler os s =
    if s.handler == 0 || any_live s.slot_target then s else release_loop os s release_attempts 0

-- The loop over the slots, with the number of the next one and the free slot found so far.
pub first_of : Option ℕ → ℕ → Option ℕ
first_of none i = some i
first_of (some j) i = some j

pub find_slot : ℕ → List ℕ → ℕ → Option ℕ → Result Int3HookError (Option ℕ)
find_slot target [] i free_slot = ok free_slot
find_slot target (occupied ∷ rest) i free_slot =
    let later =
      find_slot target rest (i + 1) (if occupied == 0 then first_of free_slot i else free_slot) in
    if occupied == target then err already_hooked else later

abbrev pub with_slot : Int3State → ℕ → ℕ → ℕ → Int3State
with_slot s slot target detour = record s {
  slot_target = set s.slot_target slot target;
  slot_detour = set s.slot_detour slot detour;
}

abbrev pub with_handler : Int3State → ℕ → Int3State
with_handler s handler = record s { handler = handler }

abbrev pub with_memory : Int3State → (ℕ → ℕ) → Int3State
with_memory s memory = record s { memory = memory }

-- The hook with the byte that was overwritten, or the roll-back of the published slot.
pub finish_arm :
    Os
    → ℕ
    → ℕ
    → Option ℕ
    → ℕ
    → Int3State
    → Option (ℕ × (ℕ → ℕ))
    → Result Int3HookError Int3Hook × Int3State
finish_arm os target detour gateway slot s none =
    (err patch_failed, release_idle_handler os (with_slot s slot 0 0))
finish_arm os target detour gateway slot s (some (byte, memory)) = (
  ok (record {
    target = target;
    detour = detour;
    original_byte = byte;
    slot = slot;
    active = true;
    gateway = gateway;
  }),
  with_memory s memory,
)

-- From the registered handler on.
pub publish : Os → ℕ → ℕ → Option ℕ → ℕ → Int3State → Result Int3HookError Int3Hook × Int3State
publish os target detour gateway slot s =
    finish_arm os target detour gateway slot (with_slot s slot target detour)
      (write_memory_atomic os target int3_opcode s.memory)

-- From the free slot on.
pub register : Os → ℕ → ℕ → Option ℕ → ℕ → Int3State → Result Int3HookError Int3Hook × Int3State
register os target detour gateway slot s =
    if s.handler == 0
    then if os.add_handler == 0
      then (err handler_registration_failed, s)
      else publish os target detour gateway slot (with_handler s os.add_handler)
    else publish os target detour gateway slot s

pub at_slot :
    Os
    → ℕ
    → ℕ
    → Option ℕ
    → Int3State
    → Result Int3HookError (Option ℕ)
    → Result Int3HookError Int3Hook × Int3State
at_slot os target detour gateway s (err e) = (err e, s)
at_slot os target detour gateway s (ok none) = (err no_free_slot, s)
at_slot os target detour gateway s (ok (some slot)) = register os target detour gateway slot s

pub arm : Os → ℕ → ℕ → Option ℕ → Int3State → Result Int3HookError Int3Hook × Int3State
arm os target detour gateway s =
    if overlaps_live_patch s.slot_target os.patches target 1
    then (err already_hooked, s)
    else at_slot os target detour gateway s (find_slot target s.slot_target 0 none)

pub arm_with_gateway : Os → ℕ → ℕ → Option ℕ → Int3State → Result Int3HookError Int3Hook × Int3State
arm_with_gateway os target detour none s = (err gateway_build_failed, s)
arm_with_gateway os target detour (some gateway) s = arm os target detour (some gateway) s

pub install_inner : Os → ℕ → ℕ → Bool → Int3State → Result Int3HookError Int3Hook × Int3State
install_inner os target detour want_gateway s =
    if target == 0 || detour == 0
    then (err invalid_parameter, s)
    else if want_gateway
    then arm_with_gateway os target detour (os.gateway_of target) s
    else arm os target detour none s

-- The memory after a write whose failure is ignored.
pub memory_after : Option (ℕ × (ℕ → ℕ)) → (ℕ → ℕ) → ℕ → ℕ
memory_after none memory = memory
memory_after (some (byte, written)) memory = written

pub remove : Os → Int3Hook → Int3State → Int3Hook × Int3State
remove os hook s =
    if hook.active
    then (
      record hook { active = false },
      release_idle_handler os (record {
        slot_target = set s.slot_target hook.slot 0;
        slot_detour = set s.slot_detour hook.slot 0;
        retired = set s.retired s.retired_next hook.target;
        retired_next = (s.retired_next + 1) % retired_len;
        handler = s.handler;
        memory =
            memory_after (write_memory_atomic os hook.target hook.original_byte s.memory) s.memory;
      }),
    )
    else (hook, s)

pub forget : Int3Hook → Int3State → Int3State
forget hook s = if hook.active then record s { slot_target = set s.slot_target hook.slot 0 } else s

pub find_detour : List ℕ → List ℕ → ℕ → Option ℕ
find_detour [] detours addr = none
find_detour (target ∷ targets) [] addr = none
find_detour (target ∷ targets) (detour ∷ detours) addr =
    let later = find_detour targets detours addr in
    if target == addr && not (detour == 0) then some detour else later

-- The part of the handler after the first look-up found nothing.
pub handle_stale : Int3State → ℕ → Option ℕ → Option ℕ
handle_stale s addr (some detour) = some detour
handle_stale s addr none =
    if member addr s.retired
    then if s.memory addr == int3_opcode
      then find_detour s.slot_target s.slot_detour addr
      else some addr
    else none

-- The instruction pointer at which a thread goes on, or `none` for EXCEPTION_CONTINUE_SEARCH; `none` as
-- exception stands for a null pointer to the record or the context.
pub int3_handler : Int3State → Option (ℕ × ℕ) → Option ℕ
int3_handler s none = none
int3_handler s (some (code, addr)) =
    if code == status_breakpoint && not (addr == 0)
    then handle_stale s addr (find_detour s.slot_target s.slot_detour addr)
    else none

pub handler_registered : Int3State → Bool
handler_registered s = not (s.handler == 0)
