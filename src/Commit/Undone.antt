-- ===== src/Commit/Undone.antt =====
-- src/transaction.rs: a commit that fails leaves the code, the instruction pointers and the stacks as
-- they were.
use neohook.Base.{
  ℕ, ◌+◌, ◌^◌, ◌<◌, ◌≤◌, ◌≡◌, refl, sym, ap, subst, ◌∙◌, ◌⊎◌, inl, inr, Bool, true, false, not,
  Option, none, some, List, [], ◌∷◌, All, length, ◌==◌, if◌then◌else◌, arith,
}
use neohook.Base.Errors.{DetourError, invalid_parameter, relocation_failed}
use neohook.Base.Results.{ok, err}
use neohook.Patches.{InlineData, armed_in_range}
use neohook.Inline.{InlineHook, Process, write_code_bytes}
use neohook.Inline.Bytes.{Holds, write_bytes_outside}
use neohook.Inline.Undo.{write_code_bytes_made}
use neohook.Redirect.{Machine, Outcome, in_stolen, redirect_threads}
use neohook.Redirect.Settled.{Outside, LandsOutside, Settled, Undoable, Keeps, Settled-Undoable}
use neohook.Redirect.Steps.{redirect_threads-Keeps}
use neohook.Commit.{
  Env, Core, Prepared, Installed, Progress, patched, patch_redirected, install_inline,
  after_install, install_all,
}
use neohook.Commit.Memory.{IsUndoable, InRange, InRanges}

-- What a pending hook of the commit has to meet: the places to which it moves threads are overwritten
-- by no hook, its original bytes are those of the code, and in a rollback they can be written.
pub record IsFit (env : Env) (ds : List InlineData) (first : ℕ → ℕ) (d : InlineData) : Type 0 where
  pub lands : LandsOutside ds d
  pub apart : (addr : ℕ) → Outside ds addr → in_stolen d addr ≡ false
  pub whole : length d.orig_bytes ≡ d.stolen_len
  pub held : Holds first d.target d.orig_bytes
  pub disabling : env.disable_can d.target (length d.orig_bytes) ≡ true
  pub dropping : env.drop_can d.target (length d.orig_bytes) ≡ true

module _ (env : Env) (ds : List InlineData) (start : Machine) (first : ℕ → ℕ) where
  -- What one install leaves.
  Stepped : Core → InlineData → Installed → Type 0
  Stepped before d (err e, core) =
      Undoable start core.machine × (core.process.memory ≡ before.process.memory)
  Stepped before d (ok hook, core) =
      Settled ds start core.machine
      × IsUndoable env.disable_can env.drop_can first hook
      × ((x : ℕ) → (core.process.memory x ≡ before.process.memory x) ⊎ InRange x hook)

  patched-Stepped :
      (before core : Core) (d : InlineData) (bytes : List ℕ) (o : Option (ℕ → ℕ))
      → core.process ≡ before.process
      → IsFit env ds first d
      → length bytes ≡ d.stolen_len
      → write_code_bytes env.can before.process.memory d.target bytes ≡ o
      → Settled ds start core.machine
      → Stepped before d (patched d bytes core o)
  unfolding patched Stepped
  patched-Stepped before core d bytes none same fit len e settled =
      (Settled-Undoable ds start core.machine settled, ap (λ (p : Process). p.memory) same)
  patched-Stepped before core d bytes (some m) same fit len e settled =
      let (writable, made) =
        write_code_bytes_made env.can before.process.memory m d.target bytes e in
      let sizes = len ∙ sym fit.whole in
      (
        settled,
        record {
          enabled = refl;
          active = refl;
          unpublished = refl;
          whole = fit.whole;
          disabling = record {
            not_null = writable.not_null;
            not_empty = subst (λ n. 0 < n) sizes writable.not_empty;
            in_space = subst (λ n. d.target + n < 2 ^ 64) sizes writable.in_space;
            pages = fit.disabling;
          };
          dropping = record {
            not_null = writable.not_null;
            not_empty = subst (λ n. 0 < n) sizes writable.not_empty;
            in_space = subst (λ n. d.target + n < 2 ^ 64) sizes writable.in_space;
            pages = fit.dropping;
          };
          held = fit.held;
        },
        λ x. elim (cases x d.target (length d.orig_bytes)) [
          | inr inside ↦ inr inside
          | inl outside ↦ inl (
              ap (λ f. f x) made
              ∙ write_bytes_outside before.process.memory d.target bytes x
                  (subst (λ n. (x < d.target) ⊎ (d.target + n ≤ x)) (sym sizes) outside))
        ],
      )
    where
      cases : (x from len : ℕ) → ((x < from) ⊎ (from + len ≤ x)) ⊎ ((from ≤ x) × (x < from + len))
      cases x from len = ground arith

  if-Stepped :
      (before : Core) (d : InlineData) (b : Bool) (r q : Installed)
      → (b ≡ true → Stepped before d r)
      → (b ≡ false → Stepped before d q)
      → Stepped before d (if b then r else q)
  if-Stepped before d true r q h k = h refl
  if-Stepped before d false r q h k = k refl

  failed-Stepped :
      (before : Core) (d : InlineData) (e : DetourError) (m : Machine)
      → Undoable start m
      → Stepped before d (err e, record before { machine = m })
  unfolding Stepped
  failed-Stepped before d e m u = (u, refl)

  patch_redirected-Stepped :
      (core : Core) (d : InlineData) (bytes : List ℕ) (o : Outcome)
      → IsFit env ds first d
      → Keeps ds start o
      → Stepped core d (patch_redirected env d bytes core o)
  unfolding patch_redirected Keeps
  patch_redirected-Stepped core d bytes (err e, m) fit u = failed-Stepped core d e m u
  patch_redirected-Stepped core d bytes (ok done, m) fit settled =
      let moved : Core = record core { machine = m } in
      let u = Settled-Undoable ds start m settled in
      let write = write_code_bytes env.can core.process.memory d.target bytes in
      if-Stepped core d (armed_in_range env.armed d.target d.stolen_len)
        (err invalid_parameter, moved)
        (if not (length bytes == d.stolen_len)
          then (err relocation_failed, moved)
          else patched d bytes moved write)
        (λ armed. failed-Stepped core d invalid_parameter m u)
        (λ free.
          if-Stepped core d (not (length bytes == d.stolen_len)) (err relocation_failed, moved)
            (patched d bytes moved write) (λ short. failed-Stepped core d relocation_failed m u)
            (λ whole.
              patched-Stepped core moved d bytes write refl fit (ground arith) refl settled))

  install_inline-Stepped :
      (core : Core) (d : InlineData) (bytes : List ℕ)
      → IsFit env ds first d
      → Settled ds start core.machine
      → Stepped core d (install_inline env d bytes core)
  unfolding install_inline
  install_inline-Stepped core d bytes fit settled =
      patch_redirected-Stepped core d bytes
        (redirect_threads (record env.os { code = core.process.memory }) d core.window.threads
          core.machine)
        fit
        (redirect_threads-Keeps ds start (record env.os { code = core.process.memory }) d fit.lands
          fit.apart core.window.threads core.machine settled)

  -- What the loop over the hooks leaves.
  abbrev pub Ended : Progress → Type 0
  Ended progress =
      Undoable start progress.core.machine
      × All (IsUndoable env.disable_can env.drop_can first) progress.installed
      × ((x : ℕ) → (progress.core.process.memory x ≡ first x) ⊎ InRanges x progress.installed)

  after_install-Ended :
      (index : ℕ) (installed : List InlineHook) (go_on : List InlineHook → Core → Progress)
      (before : Core) (d : InlineData) (r : Installed)
      → All (IsUndoable env.disable_can env.drop_can first) installed
      → ((x : ℕ) → (before.process.memory x ≡ first x) ⊎ InRanges x installed)
      → Stepped before d r
      → ((hooks : List InlineHook) (core : Core)
          → Settled ds start core.machine
          → All (IsUndoable env.disable_can env.drop_can first) hooks
          → ((x : ℕ) → (core.process.memory x ≡ first x) ⊎ InRanges x hooks)
          → Ended (go_on hooks core))
      → Ended (after_install index installed go_on r)
  unfolding after_install Stepped
  after_install-Ended index installed go_on before d (err e, core) all moved (u, same) later =
      (u, all, λ x. subst (λ m. (m x ≡ first x) ⊎ InRanges x installed) (sym same) (moved x))
  after_install-Ended index installed go_on before d (ok hook, core) all moved (settled, u, writes)
        later =
      later (hook ∷ installed) core settled (u, all)
        (λ x. elim (writes x) [
          | inr inside ↦ inr (inl inside)
          | inl same ↦ elim (moved x) [ inl e ↦ inl (same ∙ e) | inr rest ↦ inr (inr rest) ]
        ])

  pub install_all-Ended :
      (index : ℕ) (prepared : List Prepared) (installed : List InlineHook) (core : Core)
      → All (λ (q : Prepared). IsFit env ds first (q.0)) prepared
      → Settled ds start core.machine
      → All (IsUndoable env.disable_can env.drop_can first) installed
      → ((x : ℕ) → (core.process.memory x ≡ first x) ⊎ InRanges x installed)
      → Ended (install_all env index prepared installed core)
  unfolding install_all
  install_all-Ended index [] installed core fits settled all moved =
      (Settled-Undoable ds start core.machine settled, all, moved)
  install_all-Ended index ((d, bytes) ∷ rest) installed core (fit, fits) settled all moved =
      after_install-Ended index installed (install_all env (index + 1) rest) core d
        (install_inline env d bytes core) all moved
        (install_inline-Stepped core d bytes fit settled)
        (λ hooks after s u m. install_all-Ended (index + 1) rest hooks after fits s u m)
