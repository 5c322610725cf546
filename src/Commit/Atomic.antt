-- ===== src/Commit/Atomic.antt =====
-- src/transaction.rs: a commit either installs all of the hooks or leaves everything as it was.
use neohook.Base.{
  ℕ, ◌+◌, ◌≡◌, refl, sym, ap, subst, ◌∙◌, inl, inr, true, false, Option, none, some, List, [], ◌∷◌,
  All, length, if_true, if_false, Bool-cases,
}
use neohook.Base.Errors.{DetourError, not_started, invalid_parameter}
use neohook.Base.Results.{Result, ok, err}
use neohook.Patches.{InlineData}
use neohook.Inline.{InlineHook, Process}
use neohook.Inline.Bytes.{Holds}
use neohook.Redirect.{Machine, in_stolen}
use neohook.Redirect.Settled.{Outside, LandsOutside, Settled}
use neohook.Redirect.Undo.{rollback_threads-Undoable, start-Settled, Outside-each}
use neohook.Commit.{
  Env, Core, Prepared, Failure, Progress, reserve_one, with_patch, reserve, make_room, install_all,
  rollback, disable_all, drop_hooks, not_installed, refused, finished, finish, patch, checked,
  reserved, commit,
}
use neohook.Commit.Threads.{suspend_threads}
use neohook.Commit.Memory.{disable_all-back, drop_hooks-same, drop_pending_memory}
use neohook.Commit.Undone.{IsFit, Ended, install_all-Ended}

-- The pending hook has a copy of the code that it overwrites.
pub record HasCopy (memory : ℕ → ℕ) (d : InlineData) : Type 0 where
  pub whole : length d.orig_bytes ≡ d.stolen_len
  pub held : Holds memory d.target d.orig_bytes

-- In a rollback its target can be written again, both when it is disabled and when it is dropped.
pub record CanRestore (env : Env) (d : InlineData) : Type 0 where
  pub disabling : env.disable_can d.target (length d.orig_bytes) ≡ true
  pub dropping : env.drop_can d.target (length d.orig_bytes) ≡ true

IsFit-each :
    (env : Env) (ds es : List InlineData) (memory : ℕ → ℕ)
    → All (LandsOutside ds) es
    → All (λ (d : InlineData). (addr : ℕ) → Outside ds addr → in_stolen d addr ≡ false) es
    → All (HasCopy memory) es
    → All (CanRestore env) es
    → All (IsFit env ds memory) es
IsFit-each env ds [] memory lands apart copies restores = tt
IsFit-each env ds (d ∷ es) memory (land, lands) (far, apart) (copy, copies) (restore, restores) = (
  record {
    lands = land;
    apart = far;
    whole = copy.whole;
    held = copy.held;
    disabling = restore.disabling;
    dropping = restore.dropping;
  },
  IsFit-each env ds es memory lands apart copies restores,
)

-- The prepared hooks are the pending ones.
PreparesAll : (InlineData → Type 0) → Result Failure (List Prepared) → Type 0
PreparesAll P (err f) = Unit
PreparesAll P (ok prepared) = All (λ (q : Prepared). P (q.0)) prepared

with_patch-PreparesAll :
    (P : InlineData → Type 0) (d : InlineData) (index : ℕ) (r : Result DetourError (List ℕ))
    (later : Result Failure (List Prepared))
    → P d
    → PreparesAll P later
    → PreparesAll P (with_patch d index r later)
unfolding with_patch PreparesAll
with_patch-PreparesAll P d index (err e) later p all = tt
with_patch-PreparesAll P d index (ok bytes) (err f) p all = tt
with_patch-PreparesAll P d index (ok bytes) (ok rest) p all = (p, all)

reserve-PreparesAll :
    (P : InlineData → Type 0) (env : Env) (core : Core) (earlier : List InlineData) (index : ℕ)
    (ds : List InlineData)
    → All P ds
    → PreparesAll P (reserve env core earlier index ds)
unfolding reserve PreparesAll
reserve-PreparesAll P env core earlier index [] all = tt
reserve-PreparesAll P env core earlier index (d ∷ ds) (p, all) =
    with_patch-PreparesAll P d index (reserve_one env core earlier d)
      (reserve env core (d ∷ earlier) (index + 1) ds) p
      (reserve-PreparesAll P env core (d ∷ earlier) (index + 1) ds all)

-- For one thread, one slot of a stack and one byte of memory.
abbrev pub Unchanged : ℕ → ℕ → ℕ → Core → Core → Type 0
Unchanged h slot x before after =
    (after.machine.ip h ≡ before.machine.ip h)
    × (after.machine.words slot ≡ before.machine.words slot)
    × (after.process.memory x ≡ before.process.memory x)

module _ (env : Env) (start : Core) (h slot x : ℕ) (get : env.rollback_os.can_get h ≡ true)
    (set : env.rollback_os.can_set h ≡ true) where
  -- A failure has changed nothing.
  FailsUnchanged : Result DetourError (List InlineHook) × Core → Type 0
  FailsUnchanged (err e, after) = Unchanged h slot x start after
  FailsUnchanged (ok hooks, after) = Unit

  refused-FailsUnchanged :
      (pending : List InlineData) (index : ℕ) (e : DetourError) (core : Core)
      → Unchanged h slot x start core
      → FailsUnchanged (refused pending index e core)
  unfolding refused FailsUnchanged
  refused-FailsUnchanged pending index e core (ip, words, memory) =
      (ip, words, ap (λ m. m x) (drop_pending_memory pending core.process) ∙ memory)

  finished-FailsUnchanged :
      (ds : List InlineData) (machine : Machine) (first : ℕ → ℕ) (prepared : List Prepared)
      (progress : Progress) (o : Option Failure)
      → machine.ip h ≡ start.machine.ip h
      → machine.words slot ≡ start.machine.words slot
      → first x ≡ start.process.memory x
      → Ended env ds machine first progress
      → FailsUnchanged (finished env prepared progress.installed progress.core o)
  unfolding finished rollback FailsUnchanged
  finished-FailsUnchanged ds machine first prepared progress none ip words memory ended = tt
  finished-FailsUnchanged ds machine first prepared progress (some (index, e)) ip words memory
        (u, all, moved) =
      let core = progress.core in
      let disabled = disable_all env.disable_can progress.installed core.process in
      let (ip_back, words_back) =
        rollback_threads-Undoable env.rollback_os machine core.machine h slot u get set in
      (
        ip_back ∙ ip,
        words_back ∙ words,
        ap (λ m. m x)
              (drop_pending_memory (not_installed index prepared)
                (drop_hooks env.drop_can progress.installed disabled))
            ∙ drop_hooks-same env.disable_can env.drop_can first progress.installed disabled x all (
                disable_all-back env.disable_can env.drop_can first progress.installed core.process
                  x all (moved x))
            ∙ memory,
      )

  module _ (no_threads : start.machine.redirected_threads ≡ [])
      (no_stacks : start.machine.redirected_stacks ≡ []) (ds : List InlineData)
      (fits : All (IsFit env ds start.process.memory) ds) where
    patch-FailsUnchanged :
        (n : ℕ) (core : Core) (prepared : List Prepared)
        → core.machine ≡ make_room n start.machine
        → core.process ≡ start.process
        → All (λ (q : Prepared). IsFit env ds start.process.memory (q.0)) prepared
        → FailsUnchanged (patch env prepared core)
    unfolding patch finish make_room
    patch-FailsUnchanged n core prepared machine process all =
        let room = make_room n start.machine in
        let suspended : Core = record core { window = suspend_threads env.suspends core.window } in
        let progress = install_all env 0 prepared [] suspended in
        finished-FailsUnchanged ds room start.process.memory prepared progress progress.failure refl
          refl refl
          (install_all-Ended env ds room start.process.memory 0 prepared [] suspended all
            (subst (λ m. Settled ds room m) (sym machine)
              (start-Settled ds room no_threads no_stacks))
            tt (λ y. inl (ap (λ (p : Process). p.memory y) process)))

    checked-FailsUnchanged :
        (n : ℕ) (pending : List InlineData) (prepared : List Prepared) (core : Core) (o : Option ℕ)
        → core.machine ≡ make_room n start.machine
        → core.process ≡ start.process
        → All (λ (q : Prepared). IsFit env ds start.process.memory (q.0)) prepared
        → FailsUnchanged (checked env pending prepared core o)
    unfolding checked make_room
    checked-FailsUnchanged n pending prepared core none machine process all =
        patch-FailsUnchanged n core prepared machine process all
    checked-FailsUnchanged n pending prepared core (some index) machine process all =
        refused-FailsUnchanged pending index invalid_parameter core (
          ap (λ (m : Machine). m.ip h) machine,
          ap (λ (m : Machine). m.words slot) machine,
          ap (λ (p : Process). p.memory x) process,
        )

    reserved-FailsUnchanged :
        (pending : List InlineData) (core : Core) (r : Result Failure (List Prepared))
        → core.machine ≡ start.machine
        → core.process ≡ start.process
        → PreparesAll (IsFit env ds start.process.memory) r
        → FailsUnchanged (reserved env pending core r)
    unfolding reserved PreparesAll
    reserved-FailsUnchanged pending core (err (index, e)) machine process all =
        refused-FailsUnchanged pending index e core (
          ap (λ (m : Machine). m.ip h) machine,
          ap (λ (m : Machine). m.words slot) machine,
          ap (λ (p : Process). p.memory x) process,
        )
    reserved-FailsUnchanged pending core (ok prepared) machine process all =
        let n = length core.window.threads in
        checked-FailsUnchanged n pending prepared
          (record core { machine = make_room n core.machine }) _ (ap (make_room n) machine) process
          all

  failed-Unchanged :
      (r : Result DetourError (List InlineHook) × Core) (e : DetourError) (after : Core)
      → FailsUnchanged r
      → r ≡ (err e, after)
      → Unchanged h slot x start after
  unfolding FailsUnchanged
  failed-Unchanged (err d, now) e after same found =
      subst (λ (c : Core). Unchanged h slot x start c) (ap (λ r. r.1) found) same
  failed-Unchanged (ok hooks, now) e after same found = absurd (not_err (ap (λ r. r.0) found))
    where
      not_err :
          {hs : List InlineHook} {d : DetourError}
          → ◌≡◌ {A = Result DetourError (List InlineHook)} (ok hs) (err d)
          → ⊥
      not_err p = cc

-- Let the places to which the pending hooks move threads be overwritten by none of them, let each hook
-- have a true copy of the code that it overwrites, let its target be writable again whenever a rollback
-- disables and drops it, and let no moved thread be recorded yet. If the commit then fails, the
-- instruction pointer of every thread whose context the rollback can read and write, every word of the
-- stacks and every byte of the code are what they were.
pub commit-Unchanged :
    (env : Env) (start after : Core) (e : DetourError) (h slot x : ℕ)
    → All (LandsOutside start.pending_hooks) start.pending_hooks
    → All (HasCopy start.process.memory) start.pending_hooks
    → All (CanRestore env) start.pending_hooks
    → start.machine.redirected_threads ≡ []
    → start.machine.redirected_stacks ≡ []
    → env.rollback_os.can_get h ≡ true
    → env.rollback_os.can_set h ≡ true
    → commit env start ≡ (err e, after)
    → Unchanged h slot x start after
unfolding commit FailsUnchanged
commit-Unchanged env start after e h slot x lands copies restores no_threads no_stacks get set
      failed =
    failed-Unchanged env start h slot x get set _ e after
      (elim (Bool-cases start.is_pending) [
        | inl pending ↦
            let taken : Core = record start { pending_hooks = [] } in
            let ds = start.pending_hooks in
            let fits =
              IsFit-each env ds ds start.process.memory lands (Outside-each ds) copies restores in
            subst (FailsUnchanged env start h slot x get set) (sym (if_true _ _ pending)) (
              reserved-FailsUnchanged env start h slot x get set no_threads no_stacks ds fits ds
                taken (reserve env taken [] 0 ds) refl refl
                (reserve-PreparesAll (IsFit env ds start.process.memory) env taken [] 0 ds fits))
        | inr over ↦
            subst (FailsUnchanged env start h slot x get set) (sym (if_false _ _ over))
              (unchanged start)
      ])
      failed
  where
    unchanged : (core : Core) → FailsUnchanged env core h slot x get set (err not_started, core)
    unchanged core = (refl, refl, refl)
