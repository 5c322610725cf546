-- ===== src/Table.antt =====
-- The import and export hooks of src/transaction.rs once they are installed: what toggling, unhooking,
-- detaching and dropping do to the table entry, to the claim on its slot and to the jump stub. Whether
-- an entry can be written, and the look-up of the import slot by names, are parameters; the entry is
-- the hook's slot.
pub mod Import
pub mod Export
pub mod Tests
use neohook.Base.{
  ℕ, Bool, true, false, Option, none, some, List, [], ◌∷◌, ◌==◌, if◌then◌else◌, not, ◌&&◌, ◌||◌,
}
use neohook.Base.Errors.{DetourError, invalid_parameter, iat, eat}
use neohook.Base.Results.{Result, ok, err}
use neohook.Patches.{release_table_slot}

-- What stands in each table entry, the claimed slots, and where each jump stub leads.
pub record Tables : Type 0 where
  pub entry : ℕ → ℕ
  pub claimed_slots : List ℕ
  pub stub_goal : ℕ → ℕ

-- Whether the entry at a slot can be written.
abbrev pub Writable : Type 0
Writable = ℕ → Bool

abbrev pub update : (ℕ → ℕ) → ℕ → ℕ → ℕ → ℕ
update f at value x = if x == at then value else f x

pub record IatHook : Type 0 where
  pub original_ptr : ℕ
  pub slot : ℕ
  pub claimed : Bool
  pub active : Bool
  pub detour : ℕ
  pub enabled : Bool

-- `hook_import` and `write_export_rva`, the error of which is `failure`.
pub write_entry : Writable → DetourError → ℕ → ℕ → Tables → Result DetourError Tables
write_entry can failure slot value t =
    if can slot then ok (record t { entry = update t.entry slot value }) else err failure

pub iat_with_enabled :
    IatHook → Bool → Result DetourError Tables → Result DetourError (IatHook × Tables)
iat_with_enabled hook on (err e) = err e
iat_with_enabled hook on (ok t) = ok (record hook { enabled = on }, t)

pub iat_disable : Writable → IatHook → Tables → Result DetourError (IatHook × Tables)
iat_disable can hook t =
    if hook.enabled
    then iat_with_enabled hook false (write_entry can iat hook.slot hook.original_ptr t)
    else ok (hook, t)

pub iat_enable : Writable → IatHook → Tables → Result DetourError (IatHook × Tables)
iat_enable can hook t =
    if hook.active
    then if hook.enabled
      then ok (hook, t)
      else iat_with_enabled hook true (write_entry can iat hook.slot hook.detour t)
    else err invalid_parameter

pub iat_perform_unhook : Writable → IatHook → Tables → Result DetourError Tables
iat_perform_unhook can hook t = write_entry can iat hook.slot hook.original_ptr t

pub release_slot : ℕ → Tables → Tables
release_slot slot t = record t { claimed_slots = release_table_slot slot t.claimed_slots }

-- `Drop` of an active hook after `perform_unhook`.
pub iat_drop_after : IatHook → Tables → Result DetourError Tables → Tables
iat_drop_after hook t (err e) = t
iat_drop_after hook t (ok restored) = release_slot hook.slot restored

pub iat_drop : Writable → IatHook → Tables → Tables
iat_drop can hook t =
    if hook.claimed
    then if hook.active
      then iat_drop_after hook t (iat_perform_unhook can hook t)
      else release_slot hook.slot t
    else t

-- `unhook` after `perform_unhook`; it consumes the hook, so it ends with `Drop`.
pub iat_unhook_after :
    Writable → IatHook → Tables → Result DetourError Tables → Result DetourError (Unit {0}) × Tables
iat_unhook_after retry hook t (err e) = (err e, iat_drop retry hook t)
iat_unhook_after retry hook t (ok restored) =
    (ok tt, iat_drop retry (record hook { active = false }) restored)

-- `can` is whether the write of `unhook` itself can be made, `retry` whether that of `Drop` can.
pub iat_unhook : Writable → Writable → IatHook → Tables → Result DetourError (Unit {0}) × Tables
iat_unhook can retry hook t =
    if hook.active
    then iat_unhook_after retry hook t (iat_perform_unhook can hook t)
    else (ok tt, iat_drop retry hook t)

-- Whether the entry was restored, and the tables after a `disable` whose failure is only noted.
pub iat_restored : Tables → Result DetourError (IatHook × Tables) → Bool × Tables
iat_restored t (err e) = (false, t)
iat_restored t (ok (hook, after)) = (true, after)

-- `detach_finalize` after the attempt to restore the entry.
pub iat_finalize_after : IatHook → Bool × Tables → IatHook × Tables
iat_finalize_after hook (restored, after) =
    if restored && hook.claimed
    then (
      record hook { active = false; enabled = false; claimed = false },
      release_slot hook.slot after,
    )
    else (record hook { active = false; enabled = false }, after)

pub iat_detach_finalize : Writable → IatHook → Tables → IatHook × Tables
iat_detach_finalize can hook t =
    iat_finalize_after hook
      (if hook.enabled then iat_restored t (iat_disable can hook t) else (true, t))

pub record EatHook : Type 0 where
  pub slot_ptr : ℕ
  pub original_rva : ℕ
  pub detour_rva : ℕ
  pub original_ptr : ℕ
  pub stub : Option ℕ
  pub claimed : Bool
  pub active : Bool
  pub enabled : Bool

pub eat_with_enabled :
    EatHook → Bool → Result DetourError Tables → Result DetourError (EatHook × Tables)
eat_with_enabled hook on (err e) = err e
eat_with_enabled hook on (ok t) = ok (record hook { enabled = on }, t)

pub eat_disable : Writable → EatHook → Tables → Result DetourError (EatHook × Tables)
eat_disable can hook t =
    if hook.enabled
    then eat_with_enabled hook false (write_entry can eat hook.slot_ptr hook.original_rva t)
    else ok (hook, t)

pub eat_enable : Writable → EatHook → Tables → Result DetourError (EatHook × Tables)
eat_enable can hook t =
    if hook.active
    then if hook.enabled
      then ok (hook, t)
      else eat_with_enabled hook true (write_entry can eat hook.slot_ptr hook.detour_rva t)
    else err invalid_parameter

pub eat_perform_unhook : Writable → EatHook → Tables → Result DetourError Tables
eat_perform_unhook can hook t = write_entry can eat hook.slot_ptr hook.original_rva t

-- `retire_stub`: the stub is taken out of the hook and pointed at the original export.
pub retire_stub : Option ℕ → ℕ → Tables → Tables
retire_stub none original_ptr t = t
retire_stub (some stub) original_ptr t = record t {
  stub_goal = update t.stub_goal stub original_ptr;
}

pub eat_given_up : EatHook → Tables → Tables
eat_given_up hook t = retire_stub hook.stub hook.original_ptr (release_slot hook.slot_ptr t)

pub eat_drop_after : EatHook → Tables → Result DetourError Tables → Tables
eat_drop_after hook t (err e) = t
eat_drop_after hook t (ok restored) = eat_given_up hook restored

-- A stub that is still held is leaked as it is.
pub eat_drop : Writable → EatHook → Tables → Tables
eat_drop can hook t =
    if hook.claimed
    then if hook.active
      then eat_drop_after hook t (eat_perform_unhook can hook t)
      else eat_given_up hook t
    else t

pub eat_unhook_after :
    Writable → EatHook → Tables → Result DetourError Tables → Result DetourError (Unit {0}) × Tables
eat_unhook_after retry hook t (err e) = (err e, eat_drop retry hook t)
eat_unhook_after retry hook t (ok restored) =
    (ok tt, eat_drop retry (record hook { active = false }) restored)

-- As for `iat_unhook`.
pub eat_unhook : Writable → Writable → EatHook → Tables → Result DetourError (Unit {0}) × Tables
eat_unhook can retry hook t =
    if hook.active
    then eat_unhook_after retry hook t (eat_perform_unhook can hook t)
    else (ok tt, eat_drop retry hook t)

pub eat_restored : Tables → Result DetourError (EatHook × Tables) → Bool × Tables
eat_restored t (err e) = (false, t)
eat_restored t (ok (hook, after)) = (true, after)

-- `detach_finalize` after the attempt to restore the entry.
pub eat_finalize_after : EatHook → Bool × Tables → EatHook × Tables
eat_finalize_after hook (restored, after) =
    if restored && hook.claimed
    then (
      record hook { active = false; enabled = false; claimed = false; stub = none },
      eat_given_up hook after,
    )
    else (record hook { active = false; enabled = false }, after)

pub eat_detach_finalize : Writable → EatHook → Tables → EatHook × Tables
eat_detach_finalize can hook t =
    eat_finalize_after hook
      (if hook.enabled then eat_restored t (eat_disable can hook t) else (true, t))
