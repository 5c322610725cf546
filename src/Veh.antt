-- ===== src/Veh.antt =====
-- src/veh.rs: hooks by hardware breakpoints. The debug registers of a context, the table of the four
-- slots that the exception handler reads, and the handler. The arrays of the source are functions of
-- the index here, of which only the indices up to their length are used.
pub mod Handler
pub mod Manager
use neohook.Base.{
  ℕ, zero, suc, ◌+◌, ◌-◌, ◌*◌, ◌^◌, ◌%◌, Bool, true, false, not, ◌&&◌, ◌||◌, Option, none, some,
  bit_and, bit_or, ltb, ◌==◌, if◌then◌else◌,
}
use neohook.Base.Words.{not64}

abbrev pub slot_count : ℕ
slot_count = 4

abbrev pub status_single_step : ℕ
status_single_step = 0x80000004

abbrev pub dr6_single_step : ℕ
dr6_single_step = 0x4000

abbrev pub retired_count : ℕ
retired_count = 16

-- The registers of `CONTEXT` that the program reads or writes.
pub record Context : Type 0 where
  pub dr0 : ℕ
  pub dr1 : ℕ
  pub dr2 : ℕ
  pub dr3 : ℕ
  pub dr6 : ℕ
  pub dr7 : ℕ
  pub rip : ℕ
  pub eflags : ℕ

pub debug_address : Context → ℕ → ℕ
debug_address ctx slot =
    if slot == 0
    then ctx.dr0
    else if slot == 1
    then ctx.dr1
    else if slot == 2
    then ctx.dr2
    else ctx.dr3

abbrev local_enable : ℕ → ℕ
local_enable slot = 2 ^ (slot * 2)

pub program_slot : Context → ℕ → ℕ → Bool → Context
program_slot ctx slot address enable =
    let value = if enable then address else 0 in
    let cleared = bit_and ctx.dr7 (not64 (0xf * 2 ^ (16 + slot * 4))) in
    record ctx {
      dr0 = if slot == 0 then value else ctx.dr0;
      dr1 = if slot == 1 then value else ctx.dr1;
      dr2 = if slot == 2 then value else ctx.dr2;
      dr3 = if slot == 0 || slot == 1 || slot == 2 then ctx.dr3 else value;
      dr7 =
          if enable
          then bit_or cleared (local_enable slot)
          else bit_and cleared (not64 (local_enable slot));
    }

-- A target of 0 marks a free slot.
pub record Slots : Type 0 where
  pub target : ℕ → ℕ
  pub detour : ℕ → ℕ
  pub armed : ℕ → ℕ
  pub retired : ℕ → ℕ
  pub retired_next : ℕ

pub data Verdict : Type 0 where
  continue_execution continue_search : Verdict

pub record Exception : Type 0 where
  pub code : ℕ
  pub address : ℕ
  pub context : Context

-- The loop that looks for a live slot at the address, from slot `i` on.
pub live_detour : Slots → ℕ → ℕ → ℕ → Option ℕ
live_detour s addr i zero = none
live_detour s addr i (suc rounds) =
    let rest = live_detour s addr (i + 1) rounds in
    if s.target i == addr && not (s.detour i == 0) then some (s.detour i) else rest

pub fired : ℕ → ℕ → Bool
fired hits slot = not (bit_and hits (2 ^ slot) == 0)

pub is_retired : Slots → ℕ → ℕ → ℕ → Bool
is_retired s addr i zero = false
is_retired s addr i (suc rounds) = s.retired i == addr || is_retired s addr (i + 1) rounds

-- The slot fired at this address, and where `only_armed` holds, NeoHook armed it there.
pub is_stale : Slots → Bool → ℕ → ℕ → Context → ℕ → Bool
is_stale s only_armed addr hits ctx slot =
    fired hits slot && debug_address ctx slot == addr && (not only_armed || s.armed slot == addr)

pub resync_slot : Slots → Context → ℕ → Context
resync_slot s ctx slot = program_slot ctx slot (s.target slot) (not (s.target slot == 0))

-- The loops that bring the stale slots of the context up to date, from slot `i` on, with whether
-- there was any.
pub resync : Slots → Bool → ℕ → ℕ → ℕ → ℕ → Bool × Context → Bool × Context
resync s only_armed addr hits i zero (handled, ctx) = (handled, ctx)
resync s only_armed addr hits i (suc rounds) (handled, ctx) =
    resync s only_armed addr hits (i + 1) rounds (
      if is_stale s only_armed addr hits ctx i then (true, resync_slot s ctx i) else (handled, ctx))

pub resume : Context → Context
resume ctx = record ctx { dr6 = 0; eflags = bit_or ctx.eflags 0x10000 }

-- The second loop, for an address of a hook that was removed.
pub resync_retired : Slots → ℕ → ℕ → Bool × Context → Verdict × Context
resync_retired s addr hits (true, ctx) = (Verdict.continue_execution, resume ctx)
resync_retired s addr hits (false, ctx) =
    if bit_and ctx.dr6 dr6_single_step == 0 && is_retired s addr 0 retired_count
    then (
      Verdict.continue_execution,
      resume ((resync s false addr hits 0 slot_count (true, ctx)).1),
    )
    else (Verdict.continue_search, ctx)

pub dispatch : Slots → ℕ → Context → Option ℕ → Verdict × Context
dispatch s addr ctx (some detour) = (Verdict.continue_execution, record ctx { rip = detour })
dispatch s addr ctx none =
    let hits = bit_and ctx.dr6 0xf in
    resync_retired s addr hits (resync s true addr hits 0 slot_count (false, ctx))

-- The handler for an exception whose records are there.
pub veh_handler : Slots → Exception → Verdict × Context
veh_handler s e =
    if not (e.code == status_single_step) || e.address == 0
    then (Verdict.continue_search, e.context)
    else dispatch s e.address e.context (live_detour s e.address 0 slot_count)
