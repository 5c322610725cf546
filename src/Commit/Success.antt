-- ===== src/Commit/Success.antt =====
-- src/transaction.rs: what a commit that succeeds has done.
use neohook.Base.{
  ℕ, ◌+◌, ◌≡◌, refl, sym, ap, subst, ◌∙◌, ◌⊎◌, inl, inr, Bool, true, false, ◌||◌, Option, none,
  some, List, [], ◌∷◌, All, if_true, if_false, Bool-cases,
}
use neohook.Base.Errors.{DetourError, not_started, invalid_parameter}
use neohook.Base.Results.{Result, ok, err}
use neohook.Patches.{InlineData, TargetKind, overlaps_live_patch, inline_patch_bytes}
use neohook.Inline.{InlineHook, Process, register_managed_gateway, unregister_managed_gateway}
use neohook.Inline.Bytes.{Holds}
use neohook.Commit.{
  Env, Core, Prepared, Failure, overlaps_queued, reserve_one, with_patch, reserve, install_all,
  chain_gateway, publish, publish_all, refused, finished, finish, patch, checked, reserved, commit,
}
use neohook.Commit.Threads.{suspend_threads}
use neohook.Commit.Patched.{Stands, Queued, data_of, install_all-Stands}

-- The hook's patch stands at its target.
abbrev pub IsPatched : (ℕ → ℕ) → InlineData → Type 0
IsPatched memory d =
    (bytes : List ℕ) × (inline_patch_bytes d ≡ ok bytes) × Holds memory d.target bytes

reserve_one_ok :
    (env : Env) (core : Core) (earlier : List InlineData) (d : InlineData) (bytes : List ℕ)
    → reserve_one env core earlier d ≡ ok bytes
    → (overlaps_queued d earlier ≡ false) × (inline_patch_bytes d ≡ ok bytes)
unfolding reserve_one
reserve_one_ok env core earlier d bytes e =
    let live = overlaps_live_patch env.armed core.process.live d.target d.stolen_len in
    elim (Bool-cases (overlaps_queued d earlier || live)) [
      | inl taken ↦ absurd (not_ok (sym (if_true _ _ taken) ∙ e))
      | inr free ↦ (first (overlaps_queued d earlier) live free, sym (if_false _ _ free) ∙ e)
    ]
  where
    not_ok :
        {f : DetourError} {b : List ℕ} → ◌≡◌ {A = Result DetourError (List ℕ)} (err f) (ok b) → ⊥
    not_ok p = cc

    first : (a b : Bool) → (a || b) ≡ false → a ≡ false
    first false b p = refl
    first true b p = p

-- What the first loop prepares.
Prepares : List InlineData → List InlineData → Result Failure (List Prepared) → Type 0
Prepares earlier ds (err f) = Unit
Prepares earlier ds (ok prepared) =
    Queued earlier prepared
    × (data_of prepared ≡ ds)
    × All (λ (q : Prepared). inline_patch_bytes (q.0) ≡ ok (q.1)) prepared

with_patch-Prepares :
    (earlier ds : List InlineData) (d : InlineData) (index : ℕ) (r : Result DetourError (List ℕ))
    (later : Result Failure (List Prepared))
    → ((bytes : List ℕ)
        → r ≡ ok bytes
        → (overlaps_queued d earlier ≡ false) × (inline_patch_bytes d ≡ ok bytes))
    → Prepares (d ∷ earlier) ds later
    → Prepares earlier (d ∷ ds) (with_patch d index r later)
unfolding with_patch Prepares Queued
with_patch-Prepares earlier ds d index (err e) later here all = tt
with_patch-Prepares earlier ds d index (ok bytes) (err f) here all = tt
with_patch-Prepares earlier ds d index (ok bytes) (ok rest) here (queued, same, patches) =
    let (free, made) = here bytes refl in
    ((free, queued), ap (λ (t : List InlineData). d ∷ t) same, (made, patches))

reserve-Prepares :
    (env : Env) (core : Core) (earlier : List InlineData) (index : ℕ) (ds : List InlineData)
    → Prepares earlier ds (reserve env core earlier index ds)
unfolding reserve Prepares Queued
reserve-Prepares env core earlier index [] = (tt, refl, tt)
reserve-Prepares env core earlier index (d ∷ ds) =
    with_patch-Prepares earlier ds d index (reserve_one env core earlier d)
      (reserve env core (d ∷ earlier) (index + 1) ds)
      (λ bytes e. reserve_one_ok env core earlier d bytes e)
      (reserve-Prepares env core (d ∷ earlier) (index + 1) ds)

each-IsPatched :
    (memory : ℕ → ℕ) (prepared : List Prepared)
    → All (λ (q : Prepared). inline_patch_bytes (q.0) ≡ ok (q.1)) prepared
    → All (Stands memory) prepared
    → All (IsPatched memory) (data_of prepared)
each-IsPatched memory [] patches stands = tt
each-IsPatched memory ((d, bytes) ∷ rest) (made, patches) ((len, space, held), stands) =
    ((bytes, made, held), each-IsPatched memory rest patches stands)

chain_gateway_memory :
    (kind : TargetKind) (target : ℕ) (p : Process) → (chain_gateway kind target p).memory ≡ p.memory
unfolding chain_gateway unregister_managed_gateway
chain_gateway_memory TargetKind.normal target p = refl
chain_gateway_memory TargetKind.managed_gateway target p = refl

publish_memory : (hook : InlineHook) (p : Process) → (publish hook p).memory ≡ p.memory
unfolding publish register_managed_gateway
publish_memory hook p = chain_gateway_memory hook.target_kind hook.target p

publish_all_memory :
    (hooks : List InlineHook) (s : List InlineHook × Process)
    → ((publish_all hooks s).1).memory ≡ (s.1).memory
unfolding publish_all
publish_all_memory [] s = refl
publish_all_memory (hook ∷ older) s = publish_memory hook _ ∙ publish_all_memory older s

module _ (env : Env) (ds : List InlineData) where
  Succeeds : Result DetourError (List InlineHook) × Core → Type 0
  Succeeds (err e, after) = Unit
  Succeeds (ok hooks, after) = All (IsPatched after.process.memory) ds × (after.is_pending ≡ false)

  finished-Succeeds :
      (prepared : List Prepared) (installed : List InlineHook) (core : Core) (o : Option Failure)
      → ((f : Failure) × (o ≡ some f)) ⊎ All (IsPatched core.process.memory) ds
      → Succeeds (finished env prepared installed core o)
  unfolding finished Succeeds
  finished-Succeeds prepared installed core (some (index, e)) stands = tt
  finished-Succeeds prepared installed core none (inl (f, e)) = absurd (none_some e)
    where
      none_some : {f : Failure} → ◌≡◌ {A = Option Failure} none (some f) → ⊥
      none_some p = cc
  finished-Succeeds prepared installed core none (inr stands) = (
    subst (λ m. All (IsPatched m) ds) (sym (publish_all_memory installed ([], core.process)))
        stands,
    refl,
  )

  patch-Succeeds :
      (prepared : List Prepared) (core : Core)
      → Prepares [] ds (ok prepared)
      → Succeeds (patch env prepared core)
  unfolding patch finish Prepares
  patch-Succeeds prepared core (queued, same, patches) =
      let suspended : Core = record core { window = suspend_threads env.suspends core.window } in
      let progress = install_all env 0 prepared [] suspended in
      finished-Succeeds prepared progress.installed progress.core progress.failure
        (elim (install_all-Stands env 0 prepared [] [] suspended queued tt) [
          | inl failed ↦ inl failed
          | inr (before, stands) ↦ inr (
              subst (All (IsPatched progress.core.process.memory)) same
                (each-IsPatched progress.core.process.memory prepared patches stands))
        ])

  refused-Succeeds :
      (pending : List InlineData) (index : ℕ) (e : DetourError) (core : Core)
      → Succeeds (refused pending index e core)
  unfolding refused Succeeds
  refused-Succeeds pending index e core = tt

  checked-Succeeds :
      (pending : List InlineData) (prepared : List Prepared) (core : Core) (o : Option ℕ)
      → Prepares [] ds (ok prepared)
      → Succeeds (checked env pending prepared core o)
  unfolding checked
  checked-Succeeds pending prepared core none all = patch-Succeeds prepared core all
  checked-Succeeds pending prepared core (some index) all =
      refused-Succeeds pending index invalid_parameter core

  reserved-Succeeds :
      (pending : List InlineData) (core : Core) (r : Result Failure (List Prepared))
      → Prepares [] ds r
      → Succeeds (reserved env pending core r)
  unfolding reserved
  reserved-Succeeds pending core (err (index, e)) all = refused-Succeeds pending index e core
  reserved-Succeeds pending core (ok prepared) all = checked-Succeeds pending prepared _ _ all

  found-Succeeds :
      (r : Result DetourError (List InlineHook) × Core) (hooks : List InlineHook) (after : Core)
      → r ≡ (ok hooks, after)
      → Succeeds r
      → All (IsPatched after.process.memory) ds × (after.is_pending ≡ false)
  unfolding Succeeds
  found-Succeeds r hooks after e s =
      subst (λ (q : Result DetourError (List InlineHook) × Core). Succeeds q) e s

-- After a commit that succeeds, the patch of every pending hook stands at its target, and the
-- transaction is no longer pending.
pub commit_patches :
    (env : Env) (start after : Core) (hooks : List InlineHook)
    → commit env start ≡ (ok hooks, after)
    → All (IsPatched after.process.memory) start.pending_hooks × (after.is_pending ≡ false)
unfolding commit Succeeds
commit_patches env start after hooks done =
    let ds = start.pending_hooks in
    let taken : Core = record start { pending_hooks = [] } in
    found-Succeeds env ds _ hooks after done (elim (Bool-cases start.is_pending) [
      | inl pending ↦ subst (Succeeds env ds) (sym (if_true _ _ pending)) (
          reserved-Succeeds env ds ds taken (reserve env taken [] 0 ds)
            (reserve-Prepares env taken [] 0 ds))
      | inr over ↦ subst (Succeeds env ds) (sym (if_false _ _ over)) (refused_start start)
    ])
  where
    refused_start : (core : Core) → Succeeds env start.pending_hooks (err not_started, core)
    refused_start core = tt
