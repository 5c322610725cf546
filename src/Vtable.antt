-- ===== src/Vtable.antt =====
-- src/vtable.rs: hooks of one slot of a virtual table. The words of memory and the claimed slots are
-- state; whether the protection of a slot's page can be lifted and put back is a parameter. The code
-- lock, which every write takes, is left out, and so is the marking of the detour as a call target.
pub mod Writes
pub mod Live
pub mod Life
pub mod Tests
use neohook.Base.{
  ℕ, ◌+◌, ◌*◌, ◌%◌, Bool, true, false, not, ◌&&◌, ◌||◌, List, [], ◌∷◌, ◌==◌, if◌then◌else◌,
}
use neohook.Base.Assign.{assign}
use neohook.Base.Results.{Result, ok, err}
use neohook.Base.Words.{wrap64}
use neohook.Patches.{claim_table_slot, release_table_slot}

-- The errors of `InternalVTableHookError` that a hook of one slot meets.
pub data VtableError : Type 0 where
  null_vtable null_detour slot_taken protect_failed inactive : VtableError

-- `lifts` answers `virtual_protect_same_execute`, and `restores` the `VirtualProtect` after the write.
pub record Os : Type 0 where
  pub lifts : ℕ → Bool
  pub restores : ℕ → Bool

pub record Tables : Type 0 where
  pub words : ℕ → ℕ
  pub claimed_slots : List ℕ

pub record VtableHook : Type 0 where
  pub slot : ℕ
  pub original_ptr : ℕ
  pub detour : ℕ
  pub claimed : Bool
  pub active : Bool
  pub enabled : Bool

-- A word written, and put back where the protection could not be.
pub write_locked : Os → ℕ → ℕ → Tables → Bool × Tables
write_locked os slot value t =
    if os.restores slot
    then (true, record t { words = assign t.words slot value })
    else (false, record t { words = assign (assign t.words slot value) slot (t.words slot) })

abbrev pub Answer : Type 0
Answer = Result VtableError (Unit {0})

pub written : Bool × Tables → Answer × Tables
written (true, t) = (ok tt, t)
written (false, t) = (err VtableError.protect_failed, t)

pub write_slot : Os → ℕ → ℕ → Tables → Answer × Tables
write_slot os slot value t =
    if slot == 0
    then (err VtableError.null_vtable, t)
    else if os.lifts slot
    then written (write_locked os slot value t)
    else (err VtableError.protect_failed, t)

-- `install` from the claimed slot on.
pub installed : ℕ → ℕ → ℕ → Bool × Tables → Result VtableError VtableHook × Tables
installed slot original detour (false, t) = (
  err VtableError.protect_failed,
  record t { claimed_slots = release_table_slot slot t.claimed_slots },
)
installed slot original detour (true, t) = (
  ok (record {
    slot = slot;
    original_ptr = original;
    detour = detour;
    claimed = true;
    active = true;
    enabled = true;
  }),
  t,
)

pub install_claimed : Os → ℕ → ℕ → Tables → Bool × List ℕ → Result VtableError VtableHook × Tables
install_claimed os slot detour t (false, claims) = (err VtableError.slot_taken, t)
install_claimed os slot detour t (true, claims) =
    let claimed = record t { claimed_slots = claims } in
    if os.lifts slot
    then installed slot (t.words slot) detour (write_locked os slot detour claimed)
    else installed slot (t.words slot) detour (false, claimed)

pub install : Os → ℕ → ℕ → ℕ → Tables → Result VtableError VtableHook × Tables
install os vtable index detour t =
    let slot = wrap64 (vtable + index * 8) in
    if vtable == 0
    then (err VtableError.null_vtable, t)
    else if detour == 0
    then (err VtableError.null_detour, t)
    else install_claimed os slot detour t (claim_table_slot slot t.claimed_slots)

pub with_enabled : VtableHook → Bool → Answer × Tables → Answer × (VtableHook × Tables)
with_enabled hook on (err e, t) = (err e, (hook, t))
with_enabled hook on (ok done, t) = (ok tt, (record hook { enabled = on }, t))

pub disable : Os → VtableHook → Tables → Answer × (VtableHook × Tables)
disable os hook t =
    if hook.enabled
    then with_enabled hook false (write_slot os hook.slot hook.original_ptr t)
    else (ok tt, (hook, t))

pub enable : Os → VtableHook → Tables → Answer × (VtableHook × Tables)
enable os hook t =
    if not hook.active
    then (err VtableError.inactive, (hook, t))
    else if hook.enabled
    then (ok tt, (hook, t))
    else with_enabled hook true (write_slot os hook.slot hook.detour t)

pub release : VtableHook → Tables → Tables
release hook t = record t { claimed_slots = release_table_slot hook.slot t.claimed_slots }

-- `Drop` of an active hook after its slot was written.
pub dropped_slot : VtableHook → Answer × Tables → Tables
dropped_slot hook (ok done, t) = release hook t
dropped_slot hook (err e, t) = t

pub drop_hook : Os → VtableHook → Tables → Tables
drop_hook os hook t =
    if not hook.claimed
    then t
    else if not hook.active
    then release hook t
    else dropped_slot hook (write_slot os hook.slot hook.original_ptr t)

-- `unhook` after its write. It consumes the hook, so it ends with `Drop`, whose calls are answered by
-- `last`.
pub unhooked : Os → VtableHook → Answer × Tables → Answer × Tables
unhooked last hook (err e, t) = (err e, drop_hook last hook t)
unhooked last hook (ok done, t) = (ok tt, drop_hook last (record hook { active = false }) t)

pub unhook : Os → Os → VtableHook → Tables → Answer × Tables
unhook os last hook t =
    if hook.active
    then unhooked last hook (write_slot os hook.slot hook.original_ptr t)
    else (ok tt, drop_hook last hook t)

-- `detach_finalize` with what disabling left.
pub finalized : Answer × (VtableHook × Tables) → VtableHook × Tables
finalized (err e, (hook, t)) = (record hook { active = false; enabled = false }, t)
finalized (ok done, (hook, t)) =
    if hook.claimed
    then (record hook { active = false; enabled = false; claimed = false }, release hook t)
    else (record hook { active = false; enabled = false }, t)

pub detach_finalize : Os → VtableHook → Tables → VtableHook × Tables
detach_finalize os hook t = finalized (disable os hook t)
