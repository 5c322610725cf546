-- ===== src/Commit.antt =====
-- src/transaction.rs: the commit of a transaction whose pending hooks are inline hooks. The tracked
-- threads are in Commit/Threads; threads are redirected by Redirect, and the hooks that a commit
-- leaves are those of Inline. Hooks of tables and detaches are not part of this model, nor are the
-- locks, which the transaction takes and gives back.
pub mod Threads
pub mod LetsGo
pub mod Memory
pub mod Undone
pub mod Atomic
pub mod Patched
pub mod Success
pub mod Tests
use neohook.Base.{
  ℕ, zero, suc, ◌+◌, ◌*◌, max, Bool, true, false, not, ◌&&◌, ◌||◌, Option, none, some, List, [],
  ◌∷◌, ◌++◌, length, ◌==◌, if◌then◌else◌,
}
use neohook.Base.Errors.{
  DetourError, not_started, invalid_parameter, relocation_failed, commit_failed,
}
use neohook.Base.Results.{Result, ok, err}
use neohook.Patches.{
  InlineData, TargetKind, ranges_overlap, overlaps_live_patch, armed_in_range, inline_patch_bytes,
  add_gateway_dependent, register_live_patch,
}
use neohook.Inline.{
  Process, InlineHook, Writable, write_code_bytes, disable, ignoring, drop_hook, drop_trampoline,
  is_managed_gateway, register_managed_gateway, unregister_managed_gateway,
}
use neohook.Redirect
use neohook.Redirect.{Machine, Outcome, redirect_threads, rollback_threads}
use neohook.Commit.Threads.{Window, suspend_threads, resume_threads, cleanup_threads}

-- What the calls of a commit answer: on the contexts while hooks are installed and in a rollback; on
-- the protection of code at the install of a hook, at its disabling in a rollback and at its drop,
-- which need not agree; on suspending a thread; and the targets that INT3 hooks have armed.
pub record Env : Type 0 where
  pub os : Redirect.Os
  pub rollback_os : Redirect.Os
  pub can : Writable
  pub disable_can : Writable
  pub drop_can : Writable
  pub suspends : ℕ → Bool
  pub armed : List ℕ

-- The transaction with the process that it changes.
pub record Core : Type 0 where
  pub window : Window
  pub pending_hooks : List InlineData
  pub is_pending : Bool
  pub machine : Machine
  pub process : Process

-- A pending hook with its reserved patch.
abbrev pub Prepared : Type 0
Prepared = InlineData × List ℕ

pub overlaps_queued : InlineData → List InlineData → Bool
overlaps_queued d [] = false
overlaps_queued d (other ∷ earlier) =
    ranges_overlap other.target other.stolen_len d.target d.stolen_len || overlaps_queued d earlier

pub reserve_one : Env → Core → List InlineData → InlineData → Result DetourError (List ℕ)
reserve_one env core earlier d =
    if overlaps_queued d earlier
      || overlaps_live_patch env.armed core.process.live d.target d.stolen_len
    then err invalid_parameter
    else inline_patch_bytes d

abbrev pub Failure : Type 0
Failure = ℕ × DetourError

pub with_patch :
    InlineData
    → ℕ
    → Result DetourError (List ℕ)
    → Result Failure (List Prepared)
    → Result Failure (List Prepared)
with_patch d index (err e) later = err (index, e)
with_patch d index (ok patch) (err f) = err f
with_patch d index (ok patch) (ok rest) = ok ((d, patch) ∷ rest)

-- The first loop of `commit`, from the hook at `index` on.
pub reserve : Env → Core → List InlineData → ℕ → List InlineData → Result Failure (List Prepared)
reserve env core earlier index [] = ok []
reserve env core earlier index (d ∷ ds) =
    with_patch d index (reserve_one env core earlier d)
      (reserve env core (d ∷ earlier) (index + 1) ds)

pub is_orphaned : Core → InlineData → Bool
is_orphaned core d = elim (d.target_kind) [
  | TargetKind.managed_gateway ↦ not (is_managed_gateway d.target core.process)
  | TargetKind.normal ↦ false
]

pub orphaned : Core → ℕ → List InlineData → Option ℕ
orphaned core index [] = none
orphaned core index (d ∷ ds) =
    let later = orphaned core (index + 1) ds in if is_orphaned core d then some index else later

abbrev pub Installed : Type 0
Installed = Result DetourError InlineHook × Core

abbrev pub hook_of : InlineData → List ℕ → InlineHook
hook_of d patch = record {
  target = d.target;
  trampoline_ptr = d.trampoline_ptr;
  trampoline_size = d.trampoline_size;
  stolen_len = d.stolen_len;
  orig_bytes = d.orig_bytes;
  patch_bytes = patch;
  jump_type = d.jump_type;
  target_kind = d.target_kind;
  active = true;
  enabled = true;
  published = false;
}

abbrev pub with_memory : Core → (ℕ → ℕ) → Core
with_memory core memory = record core { process = record core.process { memory = memory } }

pub patched : InlineData → List ℕ → Core → Option (ℕ → ℕ) → Installed
patched d patch core none = (err relocation_failed, core)
patched d patch core (some memory) = (ok (hook_of d patch), with_memory core memory)

-- `install_inline` after the threads were redirected.
pub patch_redirected : Env → InlineData → List ℕ → Core → Outcome → Installed
patch_redirected env d patch core (err e, m) = (err e, record core { machine = m })
patch_redirected env d patch core (ok done, m) =
    let moved = record core { machine = m } in
    if armed_in_range env.armed d.target d.stolen_len
    then (err invalid_parameter, moved)
    else if not (length patch == d.stolen_len)
    then (err relocation_failed, moved)
    else patched d patch moved (write_code_bytes env.can core.process.memory d.target patch)

-- A return address is checked against the code as the hooks before this one left it.
pub install_inline : Env → InlineData → List ℕ → Core → Installed
install_inline env d patch core =
    let os = record env.os { code = core.process.memory } in
    patch_redirected env d patch core (redirect_threads os d core.window.threads core.machine)

-- The failure that ended the second loop, the installed hooks, the latest first, and the rest.
pub record Progress : Type 0 where
  pub failure : Option Failure
  pub installed : List InlineHook
  pub core : Core

-- Goes on after a hook was installed.
pub after_install : ℕ → List InlineHook → (List InlineHook → Core → Progress) → Installed → Progress
after_install index installed go_on (err e, core) = record {
  failure = some (index, e);
  installed = installed;
  core = core;
}
after_install index installed go_on (ok hook, core) = go_on (hook ∷ installed) core

pub install_all : Env → ℕ → List Prepared → List InlineHook → Core → Progress
install_all env index [] installed core = record {
  failure = none;
  installed = installed;
  core = core;
}
install_all env index ((d, patch) ∷ rest) installed core =
    after_install index installed (install_all env (index + 1) rest)
      (install_inline env d patch core)

-- The latest hook first.
pub disable_all : Writable → List InlineHook → Process → Process
disable_all can [] p = p
disable_all can (hook ∷ hooks) p = disable_all can hooks ((ignoring hook p (disable can hook p)).1)

pub rollback : Env → List InlineHook → Core → Core
rollback env installed core = record core {
  machine = rollback_threads env.rollback_os core.machine;
  process = disable_all env.disable_can installed core.process;
}

-- `Drop` does not read `enabled`, the one field that the rollback changed.
pub drop_hooks : Writable → List InlineHook → Process → Process
drop_hooks can [] p = p
drop_hooks can (hook ∷ hooks) p = drop_hook can hook (drop_hooks can hooks p)

-- The pending hooks that were not installed own their trampolines.
pub drop_pending : List InlineData → Process → Process
drop_pending [] p = p
drop_pending (d ∷ ds) p = drop_pending ds (drop_trampoline d.trampoline_ptr d.trampoline_size p)

pub not_installed : ℕ → List Prepared → List InlineData
not_installed zero [] = []
not_installed zero ((d, patch) ∷ rest) = d ∷ not_installed zero rest
not_installed (suc n) [] = []
not_installed (suc n) (one ∷ rest) = not_installed n rest

abbrev pub cleaned : Core → Core
cleaned core = record core { window = cleanup_threads core.window }

-- A commit that fails before any thread is suspended.
pub refused : List InlineData → ℕ → DetourError → Core → Result DetourError (List InlineHook) × Core
refused pending index e core = (
  err (commit_failed index e),
  record (cleaned core) { process = drop_pending pending core.process },
)

-- A gateway on which the new hook is chained.
pub chain_gateway : TargetKind → ℕ → Process → Process
chain_gateway TargetKind.normal target p = p
chain_gateway TargetKind.managed_gateway target p =
    let q = unregister_managed_gateway target p in
    record q { chained = add_gateway_dependent target q.chained }

pub publish : InlineHook → Process → Process
publish hook p =
    let registered =
      register_managed_gateway hook.trampoline_ptr (chain_gateway hook.target_kind hook.target p) in
    record registered { live = register_live_patch hook.target hook.stolen_len registered.live }

abbrev pub published : InlineHook → InlineHook
published hook = record hook { published = true }

-- The oldest hook first, and the hooks in the order of the transaction.
pub publish_all : List InlineHook → List InlineHook × Process → List InlineHook × Process
publish_all [] (done, p) = (done, p)
publish_all (hook ∷ older) (done, p) =
    let (hooks, q) = publish_all older (done, p) in (hooks ++ published hook ∷ [], publish hook q)

-- What follows the second loop, with the hooks that it installed.
pub finished :
    Env
    → List Prepared
    → List InlineHook
    → Core
    → Option Failure
    → Result DetourError (List InlineHook) × Core
finished env prepared installed core (some (index, e)) =
    let back = rollback env installed core in
    (
      err (commit_failed index e),
      record (cleaned back) {
        process =
            drop_pending (not_installed index prepared)
              (drop_hooks env.drop_can installed back.process);
      },
    )
finished env prepared installed core none =
    let (hooks, process) = publish_all installed ([], core.process) in
    (
      ok hooks,
      record core {
        window = cleanup_threads (resume_threads core.window);
        process = process;
        is_pending = false;
      },
    )

pub finish : Env → List Prepared → Progress → Result DetourError (List InlineHook) × Core
finish env prepared progress =
    finished env prepared progress.installed progress.core progress.failure

abbrev pub stack_redirects_per_thread : ℕ
stack_redirects_per_thread = 512

-- Room for the records of this many more threads, which is the least that `reserve` promises.
pub make_room : ℕ → Machine → Machine
make_room threads m = record m {
  thread_capacity = max m.thread_capacity (length m.redirected_threads + threads);
  stack_capacity =
      max m.stack_capacity (length m.redirected_stacks + threads * stack_redirects_per_thread);
}

-- The threads are suspended, and every hook is installed.
pub patch : Env → List Prepared → Core → Result DetourError (List InlineHook) × Core
patch env prepared core = finish env prepared (
    install_all env 0 prepared []
      (record core { window = suspend_threads env.suspends core.window }))

pub checked :
    Env
    → List InlineData
    → List Prepared
    → Core
    → Option ℕ
    → Result DetourError (List InlineHook) × Core
checked env pending prepared core (some index) = refused pending index invalid_parameter core
checked env pending prepared core none = patch env prepared core

pub reserved :
    Env
    → List InlineData
    → Core
    → Result Failure (List Prepared)
    → Result DetourError (List InlineHook) × Core
reserved env pending core (err (index, e)) = refused pending index e core
reserved env pending core (ok prepared) =
    let roomy = record core { machine = make_room (length core.window.threads) core.machine } in
    checked env pending prepared roomy (orphaned roomy 0 pending)

pub commit : Env → Core → Result DetourError (List InlineHook) × Core
commit env core =
    let taken = record core { pending_hooks = [] } in
    if core.is_pending
    then reserved env core.pending_hooks taken (reserve env taken [] 0 core.pending_hooks)
    else (err not_started, core)
