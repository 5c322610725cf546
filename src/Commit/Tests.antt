-- ===== src/Commit/Tests.antt =====
-- A commit that fails, and the witnesses of what a commit promises.
use neohook.Base.{ℕ, ◌≡◌, refl, true, false, none, some, List, [], ◌∷◌, All, ◌==◌, arith}
use neohook.Base.Errors.{DetourError, commit_failed, relocation_failed}
use neohook.Base.Results.{Result, ok, err}
use neohook.Patches.{
  InlineData, TargetKind, JumpType, inline_patch_bytes, patch_buffer, nops, ranges_overlap,
  overlaps_live_patch, armed_in_range, any_overlap,
}
use neohook.Inline.{InlineHook, is_managed_gateway, write_code_bytes}
use neohook.Redirect.{
  in_stolen, map_kind, map_redirect_address_exact, redirect_threads, redirect_rip_relative_threads,
  redirect_ip, move_ip, and_then, redirect_stack, scan_from,
}
use neohook.Redirect.Settled.{LandsOutside}
use neohook.Commit.{
  Env, Core, commit, reserved, reserve, with_patch, reserve_one, overlaps_queued, checked, orphaned,
  is_orphaned, make_room, patch, finish, finished, install_all, after_install, install_inline,
  patch_redirected, patched, publish_all,
}
use neohook.Commit.Threads.{suspend_threads, suspend_from, suspend_at}
use neohook.Commit.Threads.Balance.{LetGo}
use neohook.Commit.LetsGo.{commit-LetGo}
use neohook.Commit.Success.{IsPatched, commit_patches}
use neohook.Commit.Atomic.{HasCopy, CanRestore, Unchanged, commit-Unchanged}

abbrev bytes : List ℕ
bytes = 0x90 ∷ 0x90 ∷ 0x90 ∷ 0x90 ∷ 0x90 ∷ 0x90 ∷ 0x90 ∷ []

abbrev chained_on : ℕ → ℕ → InlineData
chained_on target base = record {
  target = target;
  detour = 0x140000000;
  trampoline_ptr = base;
  trampoline_size = 64;
  redirect_base = base;
  stolen_len = 7;
  jump_type = JumpType.relative5;
  orig_bytes = bytes;
  target_kind = TargetKind.managed_gateway;
  redirect_map = none;
}

abbrev hook_a : InlineData
hook_a = chained_on 0x140001000 0x180000000

abbrev hook_b : InlineData
hook_b = chained_on 0x140002000 0x180001000

-- The pages of the second target cannot be written.
abbrev env : Env
env = record {
  os = record {
    can_get = λ h. true;
    can_set = λ h. true;
    query = λ addr. none;
    code = λ addr. 0x90;
  };
  rollback_os = record {
    can_get = λ h. true;
    can_set = λ h. true;
    query = λ addr. none;
    code = λ addr. 0x90;
  };
  can = λ target len. target == 0x140001000;
  disable_can = λ target len. true;
  drop_can = λ target len. true;
  suspends = λ h. true;
  armed = [];
}

-- Thread 1 stands in the first target.
abbrev start : Core
start = record {
  window = record {
    threads = 1 ∷ [];
    threads_suspended = false;
    suspensions = λ h. 0;
    closed = [];
  };
  pending_hooks = hook_a ∷ hook_b ∷ [];
  is_pending = true;
  machine = record {
    ip = λ h. 0x140001002;
    sp = λ h. 0x20000;
    words = λ slot. 7;
    redirected_threads = [];
    thread_capacity = 0;
    redirected_stacks = [];
    stack_capacity = 0;
  };
  process = record {
    memory = λ x. 0x90;
    live = [];
    managed = 0x140001000 ∷ 0x140002000 ∷ [];
    chained = [];
    retired = [];
  };
}

second_fails : commit env start ≡ (err (commit_failed 1 relocation_failed), (commit env start).1)
unfolding commit reserved reserve with_patch reserve_one overlaps_queued checked orphaned
    is_orphaned make_room patch finish finished install_all after_install install_inline
    patch_redirected patched suspend_threads suspend_from suspend_at inline_patch_bytes patch_buffer
    nops ranges_overlap overlaps_live_patch armed_in_range any_overlap is_managed_gateway
    write_code_bytes redirect_threads redirect_rip_relative_threads redirect_ip in_stolen map_kind
    map_redirect_address_exact move_ip and_then redirect_stack scan_from
second_fails = refl

goal_a_a :
    (addr goal : ℕ)
    → map_redirect_address_exact hook_a addr ≡ ok (some goal)
    → in_stolen hook_a goal ≡ false
unfolding map_redirect_address_exact map_kind in_stolen
goal_a_a addr goal e = ground arith

goal_a_b :
    (addr goal : ℕ)
    → map_redirect_address_exact hook_a addr ≡ ok (some goal)
    → in_stolen hook_b goal ≡ false
unfolding map_redirect_address_exact map_kind in_stolen
goal_a_b addr goal e = ground arith

goal_b_a :
    (addr goal : ℕ)
    → map_redirect_address_exact hook_b addr ≡ ok (some goal)
    → in_stolen hook_a goal ≡ false
unfolding map_redirect_address_exact map_kind in_stolen
goal_b_a addr goal e = ground arith

goal_b_b :
    (addr goal : ℕ)
    → map_redirect_address_exact hook_b addr ≡ ok (some goal)
    → in_stolen hook_b goal ≡ false
unfolding map_redirect_address_exact map_kind in_stolen
goal_b_b addr goal e = ground arith

abbrev both : List InlineData
both = hook_a ∷ hook_b ∷ []

both-LandsOutside : All (LandsOutside both) both
both-LandsOutside = (
  λ addr goal e. (goal_a_a addr goal e, (goal_a_b addr goal e, tt)),
  (λ addr goal e. (goal_b_a addr goal e, (goal_b_b addr goal e, tt)), tt),
)

copy_of : (target base : ℕ) → HasCopy (λ x. 0x90) (chained_on target base)
copy_of target base = record {
  whole = refl;
  held = (refl, (refl, (refl, (refl, (refl, (refl, (refl, tt)))))));
}

can_restore : (target base : ℕ) → CanRestore env (chained_on target base)
can_restore target base = record { disabling = refl; dropping = refl }

commit-Unchanged_example : Unchanged 1 0x20000 0x140001003 start ((commit env start).1)
commit-Unchanged_example =
    commit-Unchanged env start ((commit env start).1) (commit_failed 1 relocation_failed) 1 0x20000
      0x140001003 both-LandsOutside
      (copy_of 0x140001000 0x180000000, (copy_of 0x140002000 0x180001000, tt))
      (can_restore 0x140001000 0x180000000, (can_restore 0x140002000 0x180001000, tt)) refl refl
      refl refl second_fails

commit-LetGo_example : LetGo 1 start.window (((commit env start).1).window)
commit-LetGo_example = commit-LetGo env start 1 refl refl

-- The same with both targets writable.
abbrev writable_env : Env
writable_env = record env { can = λ target len. true }

abbrev hooks_in : Result DetourError (List InlineHook) → List InlineHook
hooks_in (err e) = []
hooks_in (ok hooks) = hooks

both_installed :
    commit writable_env start
    ≡ (ok (hooks_in ((commit writable_env start).0)), (commit writable_env start).1)
unfolding commit reserved reserve with_patch reserve_one overlaps_queued checked orphaned
    is_orphaned make_room patch finish finished install_all after_install install_inline
    patch_redirected patched suspend_threads suspend_from suspend_at inline_patch_bytes patch_buffer
    nops ranges_overlap overlaps_live_patch armed_in_range any_overlap is_managed_gateway
    write_code_bytes redirect_threads redirect_rip_relative_threads redirect_ip in_stolen map_kind
    map_redirect_address_exact move_ip and_then redirect_stack scan_from publish_all
both_installed = refl

commit_patches_example :
    All (IsPatched ((commit writable_env start).1).process.memory) both
    × (((commit writable_env start).1).is_pending ≡ false)
commit_patches_example =
    commit_patches writable_env start ((commit writable_env start).1)
      (hooks_in ((commit writable_env start).0)) both_installed
