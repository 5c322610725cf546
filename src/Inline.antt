-- ===== src/Inline.antt =====
-- The inline hooks of src/transaction.rs: the object a commit leaves behind, its toggling and its
-- removal, on the memory and the tables of Patches. Whether the pages of a range can be made
-- writable is a parameter; a patch spans at most two pages, which src/mem.rs changes in one batch, so
-- a write is whole or fails.
pub mod Bytes
pub mod Toggle
pub mod Removal
pub mod Failure
pub mod Undo
pub mod Tests
use neohook.Base.{
  ℕ, ◌+◌, ◌^◌, Bool, true, false, not, ◌&&◌, ◌||◌, Option, none, some, List, [], ◌∷◌, length, ltb,
  ◌==◌, if◌then◌else◌,
}
use neohook.Base.Errors.{DetourError, invalid_parameter, relocation_failed}
use neohook.Base.Maps.{member, erase}
use neohook.Base.Results.{Result, ok, err}
use neohook.Patches.{
  JumpType, TargetKind, LivePatches, Chained, unregister_live_patch, remove_gateway_dependent,
  orphan_chained_gateway,
}

-- The memory, the tables that hooks share, and the trampolines handed to `reclaim::retire`.
pub record Process : Type 0 where
  pub memory : ℕ → ℕ
  pub live : LivePatches
  pub managed : List ℕ
  pub chained : Chained
  pub retired : List (ℕ × ℕ)

pub record InlineHook : Type 0 where
  pub target : ℕ
  pub trampoline_ptr : ℕ
  pub trampoline_size : ℕ
  pub stolen_len : ℕ
  pub orig_bytes : List ℕ
  pub patch_bytes : List ℕ
  pub jump_type : JumpType
  pub target_kind : TargetKind
  pub active : Bool
  pub enabled : Bool
  pub published : Bool

-- Whether every page of the range that starts here, of this length, can be written.
abbrev pub Writable : Type 0
Writable = ℕ → ℕ → Bool

abbrev pub write_bytes : (ℕ → ℕ) → ℕ → List ℕ → ℕ → ℕ
write_bytes memory start [] x = memory x
write_bytes memory start (b ∷ bytes) x =
    if x == start then b else write_bytes memory (start + 1) bytes x

unfoldable pub write_code_bytes : Writable → (ℕ → ℕ) → ℕ → List ℕ → Option (ℕ → ℕ)
write_code_bytes can memory target bytes =
    if target == 0 || length bytes == 0
    then none
    else if ltb (target + length bytes) (2 ^ 64) && can target (length bytes)
    then some (write_bytes memory target bytes)
    else none

pub written : Process → Option (ℕ → ℕ) → Result DetourError Process
written p none = err relocation_failed
written p (some memory) = ok (record p { memory = memory })

pub patch_target : Writable → ℕ → List ℕ → Process → Result DetourError Process
patch_target can target bytes p =
    if target == 0 || length bytes == 0
    then err invalid_parameter
    else written p (write_code_bytes can p.memory target bytes)

pub with_enabled :
    InlineHook → Bool → Result DetourError Process → Result DetourError (InlineHook × Process)
with_enabled hook on (err e) = err e
with_enabled hook on (ok p) = ok (record hook { enabled = on }, p)

pub disable : Writable → InlineHook → Process → Result DetourError (InlineHook × Process)
disable can hook p =
    if hook.enabled
    then with_enabled hook false (patch_target can hook.target hook.orig_bytes p)
    else ok (hook, p)

pub enable : Writable → InlineHook → Process → Result DetourError (InlineHook × Process)
enable can hook p =
    if hook.active
    then if hook.enabled
      then ok (hook, p)
      else with_enabled hook true (patch_target can hook.target hook.patch_bytes p)
    else err invalid_parameter

pub perform_unhook : Writable → InlineHook → Process → Result DetourError Process
perform_unhook can hook p =
    if hook.target == 0 || not (length hook.orig_bytes == hook.stolen_len)
    then err invalid_parameter
    else written p (write_code_bytes can p.memory hook.target hook.orig_bytes)

unfoldable pub is_managed_gateway : ℕ → Process → Bool
is_managed_gateway gateway p = member gateway p.managed

unfoldable pub register_managed_gateway : ℕ → Process → Process
register_managed_gateway gateway p = record p { managed = gateway ∷ p.managed }

unfoldable pub unregister_managed_gateway : ℕ → Process → Process
unregister_managed_gateway gateway p = record p { managed = erase gateway p.managed }

pub retire : ℕ → ℕ → Process → Process
retire ptr size p = record p { retired = (ptr, size) ∷ p.retired }

-- What `release` does with the answer of `remove_gateway_dependent`.
pub retire_orphan : Option (ℕ × ℕ) → Process → Process
retire_orphan none p = p
retire_orphan (some (ptr, size)) p = retire ptr size p

pub release_gateway : TargetKind → ℕ → Process → Process
release_gateway TargetKind.normal target p = p
release_gateway TargetKind.managed_gateway target p =
    let ((owner_alive, orphan), chained) = remove_gateway_dependent target p.chained in
    let left = record p { chained = chained } in
    retire_orphan orphan (if owner_alive then register_managed_gateway target left else left)

pub release : InlineHook → Process → InlineHook × Process
release hook p =
    if hook.published
    then (
      record hook { published = false },
      release_gateway hook.target_kind hook.target
          (record p { live = unregister_live_patch hook.target p.live }),
    )
    else (hook, p)

-- `Drop` of the trampoline: a null pointer is left alone.
pub drop_trampoline : ℕ → ℕ → Process → Process
drop_trampoline ptr size p = if ptr == 0 then p else retire ptr size p

-- `Drop` from the orphaning of the gateway on.
pub drop_gateway : ℕ → ℕ → Process → Process
drop_gateway ptr size p =
    let (taken, chained) = orphan_chained_gateway ptr size p.chained in
    let left = record p { chained = chained } in
    if taken then left else drop_trampoline ptr size left

pub drop_restored : InlineHook → Process → Process
drop_restored hook p =
    drop_gateway hook.trampoline_ptr hook.trampoline_size
      (unregister_managed_gateway hook.trampoline_ptr (release hook p).1)

-- `Drop` after `perform_unhook`; a failure leaves the trampoline allocated.
pub drop_after : InlineHook → Process → Result DetourError Process → Process
drop_after hook p (err e) = p
drop_after hook p (ok restored) = drop_restored hook restored

pub drop_hook : Writable → InlineHook → Process → Process
drop_hook can hook p =
    if hook.active then drop_after hook p (perform_unhook can hook p) else drop_restored hook p

-- `unhook` after `perform_unhook`. It consumes the hook, so it ends with `Drop`.
pub unhook_after :
    Writable
    → InlineHook
    → Process
    → Result DetourError Process
    → Result DetourError (Unit {0}) × Process
unhook_after retry hook p (err e) = (err e, drop_hook retry hook p)
unhook_after retry hook p (ok restored) =
    let (released, left) = release hook restored in
    (
      ok tt,
      drop_hook retry (record released { active = false })
          (unregister_managed_gateway hook.trampoline_ptr left),
    )

-- `can` is whether the write of `unhook` itself can be made, `retry` whether that of `Drop` can.
pub unhook : Writable → Writable → InlineHook → Process → Result DetourError (Unit {0}) × Process
unhook can retry hook p =
    if hook.active
    then unhook_after retry hook p (perform_unhook can hook p)
    else (ok tt, drop_hook retry hook p)

-- The hook and the process after a `disable` whose failure is ignored.
pub ignoring :
    InlineHook → Process → Result DetourError (InlineHook × Process) → InlineHook × Process
ignoring hook p (err e) = (hook, p)
ignoring hook p (ok after) = after

pub detach_finalize : Writable → InlineHook → Process → InlineHook × Process
detach_finalize can hook p =
    let (first, restored) =
      if hook.enabled then ignoring hook p (disable can hook p) else (hook, p) in
    let (released, left) = release first restored in
    (
      record released { active = false; enabled = false },
      unregister_managed_gateway hook.trampoline_ptr left,
    )
