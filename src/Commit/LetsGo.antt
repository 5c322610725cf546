-- ===== src/Commit/LetsGo.antt =====
-- src/transaction.rs: however a commit ends, it lets go of the threads.
use neohook.Base.{
  ℕ, ◌+◌, ◌≡◌, refl, sym, ap, subst, ◌∙◌, Bool, true, false, not, Option, none, some, List, [], ◌∷◌,
  length, ◌==◌, if◌then◌else◌, if_true,
}
use neohook.Base.Errors.{DetourError, invalid_parameter}
use neohook.Base.Results.{Result, ok, err}
use neohook.Patches.{InlineData, armed_in_range}
use neohook.Inline.{InlineHook}
use neohook.Redirect.{Outcome, redirect_threads}
use neohook.Commit.{
  Env, Core, Prepared, Failure, Installed, Progress, patched, patch_redirected, install_inline,
  after_install, install_all, rollback, refused, finished, finish, patch, checked, reserved,
  reserve, commit,
}
use neohook.Commit.Threads.{Window, suspend_threads, cleanup_threads}
use neohook.Commit.Threads.Balance.{
  LetGo, cleanup_threads-suspend_threads, cleanup_threads-resume_threads,
  cleanup_threads_unsuspended,
}

patched_window :
    (d : InlineData) (bytes : List ℕ) (core : Core) (o : Option (ℕ → ℕ))
    → ((patched d bytes core o).1).window ≡ core.window
unfolding patched
patched_window d bytes core none = refl
patched_window d bytes core (some memory) = refl

if_window :
    (b : Bool) (w : Window) (r q : Installed)
    → (r.1).window ≡ w
    → (q.1).window ≡ w
    → ((if b then r else q).1).window ≡ w
if_window true w r q e f = e
if_window false w r q e f = f

patch_redirected_window :
    (env : Env) (d : InlineData) (bytes : List ℕ) (core : Core) (o : Outcome)
    → ((patch_redirected env d bytes core o).1).window ≡ core.window
unfolding patch_redirected
patch_redirected_window env d bytes core (err e, m) = refl
patch_redirected_window env d bytes core (ok done, m) =
    if_window (armed_in_range env.armed d.target d.stolen_len) core.window _ _ refl (
      if_window (not (length bytes == d.stolen_len)) core.window _ _ refl
        (patched_window d bytes (record core { machine = m }) _))

after_install_window :
    (index : ℕ) (installed : List InlineHook) (go_on : List InlineHook → Core → Progress)
    (w : Window) (r : Installed)
    → (r.1).window ≡ w
    → ((hooks : List InlineHook) (core : Core)
        → core.window ≡ w
        → ((go_on hooks core).core).window ≡ w)
    → ((after_install index installed go_on r).core).window ≡ w
unfolding after_install
after_install_window index installed go_on w (err e, core) same later = same
after_install_window index installed go_on w (ok hook, core) same later =
    later (hook ∷ installed) core same

install_all_window :
    (env : Env) (index : ℕ) (prepared : List Prepared) (installed : List InlineHook) (core : Core)
    (w : Window)
    → core.window ≡ w
    → ((install_all env index prepared installed core).core).window ≡ w
unfolding install_all install_inline
install_all_window env index [] installed core w same = same
install_all_window env index ((d, bytes) ∷ rest) installed core w same =
    after_install_window index installed (install_all env (index + 1) rest) w
      (install_inline env d bytes core)
      (patch_redirected_window env d bytes core (
          redirect_threads (record env.os { code = core.process.memory }) d core.window.threads
            core.machine)
        ∙ same)
      (λ hooks after e. install_all_window env (index + 1) rest hooks after w e)

module _ (env : Env) (h : ℕ) (start : Window) (off : start.threads_suspended ≡ false) where
  abbrev Ends : Result DetourError (List InlineHook) × Core → Type 0
  Ends r = LetGo h start ((r.1).window)

  refused-LetGo :
      (pending : List InlineData) (index : ℕ) (e : DetourError) (core : Core)
      → core.window ≡ start
      → Ends (refused pending index e core)
  unfolding refused
  refused-LetGo pending index e core same =
      subst (λ w. LetGo h start (cleanup_threads w)) (sym same)
        (cleanup_threads_unsuspended h start off)

  finished-LetGo :
      (prepared : List Prepared) (installed : List InlineHook) (core : Core) (o : Option Failure)
      → core.window ≡ suspend_threads env.suspends start
      → Ends (finished env prepared installed core o)
  unfolding finished rollback
  finished-LetGo prepared installed core (some (index, e)) same =
      subst (λ w. LetGo h start (cleanup_threads w)) (sym same)
        (cleanup_threads-suspend_threads env.suspends h start off)
  finished-LetGo prepared installed core none same =
      subst (LetGo h start) (sym (cleanup_threads-resume_threads core.window)) (
        subst (λ w. LetGo h start (cleanup_threads w)) (sym same)
          (cleanup_threads-suspend_threads env.suspends h start off))

  patch-LetGo :
      (prepared : List Prepared) (core : Core)
      → core.window ≡ start
      → Ends (patch env prepared core)
  unfolding patch finish
  patch-LetGo prepared core same =
      let suspended : Core = record core { window = suspend_threads env.suspends core.window } in
      let progress = install_all env 0 prepared [] suspended in
      finished-LetGo prepared progress.installed progress.core progress.failure (
        install_all_window env 0 prepared [] suspended (suspend_threads env.suspends start)
          (ap (λ w. suspend_threads env.suspends w) same))

  checked-LetGo :
      (pending : List InlineData) (prepared : List Prepared) (core : Core) (o : Option ℕ)
      → core.window ≡ start
      → Ends (checked env pending prepared core o)
  unfolding checked
  checked-LetGo pending prepared core none same = patch-LetGo prepared core same
  checked-LetGo pending prepared core (some index) same =
      refused-LetGo pending index invalid_parameter core same

  reserved-LetGo :
      (pending : List InlineData) (core : Core) (r : Result Failure (List Prepared))
      → core.window ≡ start
      → Ends (reserved env pending core r)
  unfolding reserved
  reserved-LetGo pending core (err (index, e)) same = refused-LetGo pending index e core same
  reserved-LetGo pending core (ok prepared) same = checked-LetGo pending prepared _ _ same

-- A commit of a pending transaction that has not suspended its threads ends, with success or with
-- any error, with no thread tracked and none suspended by it; each thread is suspended as often as
-- before, and each handle was closed as often as it was tracked.
pub commit-LetGo :
    (env : Env) (core : Core) (h : ℕ)
    → core.is_pending ≡ true
    → core.window.threads_suspended ≡ false
    → LetGo h core.window (((commit env core).1).window)
unfolding commit
commit-LetGo env core h pending off =
    let taken = record core { pending_hooks = [] } in
    subst (λ (r : Result DetourError (List InlineHook) × Core). LetGo h core.window ((r.1).window))
      (sym (if_true _ _ pending))
      (reserved-LetGo env h core.window off core.pending_hooks taken
        (reserve env taken [] 0 core.pending_hooks) refl)
