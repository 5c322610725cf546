-- ===== src/Commit/Patched.antt =====
-- src/transaction.rs: after a commit that succeeds, the patch of every hook stands at its target.
use neohook.Base.{
  ℕ, ◌+◌, ◌^◌, ◌<◌, ◌≤◌, ◌≡◌, refl, sym, subst, ◌∙◌, ◌⊎◌, inl, inr, Bool, true, false, not, ◌||◌,
  Option, none, some, List, [], ◌∷◌, All, length, ◌==◌, if◌then◌else◌, arith,
}
use neohook.Base.Errors.{DetourError, invalid_parameter, relocation_failed}
use neohook.Base.Results.{ok, err}
use neohook.Patches.{InlineData, armed_in_range, ranges_overlap}
use neohook.Inline.{InlineHook, write_bytes, write_code_bytes}
use neohook.Inline.Bytes.{Holds, write_bytes-Holds, write_bytes_outside}
use neohook.Inline.Undo.{write_code_bytes_made}
use neohook.Redirect.{Outcome, redirect_threads}
use neohook.Commit.{
  Env, Core, Prepared, Failure, Installed, overlaps_queued, patched, patch_redirected,
  install_inline, after_install, install_all,
}

-- The patch of a prepared hook stands in memory.
abbrev pub Stands : (ℕ → ℕ) → Prepared → Type 0
Stands memory (d, bytes) =
    (length bytes ≡ d.stolen_len) × (d.target + d.stolen_len < 2 ^ 64) × Holds memory d.target bytes

Holds-in_range :
    (m n : ℕ → ℕ) (start : ℕ) (bytes : List ℕ)
    → ((x : ℕ) → ((x < start) ⊎ (start + length bytes ≤ x)) ⊎ (m x ≡ n x))
    → Holds n start bytes
    → Holds m start bytes
Holds-in_range m n start [] same h = tt
Holds-in_range m n start (b ∷ bytes) same (e, h) = (
  elim (same start) [
    | inl (inl lt) ↦ absurd (omega arith)
    | inl (inr le) ↦ absurd (omega arith)
    | inr s ↦ s ∙ e
  ],
  Holds-in_range m n (start + 1) bytes
      (λ x. elim (same x) [
        | inl (inl lt) ↦ inl (inl (omega arith))
        | inl (inr le) ↦ inl (inr (omega arith))
        | inr s ↦ inr s
      ])
      h,
)

apart_of :
    (a a_len b b_len : ℕ)
    → ranges_overlap a a_len b b_len ≡ false
    → a + a_len < 2 ^ 64
    → b + b_len < 2 ^ 64
    → (a + a_len ≤ b) ⊎ (b + b_len ≤ a)
unfolding ranges_overlap
apart_of a a_len b b_len e ha hb = ground arith

either_false : (a b : Bool) → (a || b) ≡ false → (a ≡ false) × (b ≡ false)
either_false false b e = (refl, e)
either_false true b e = absurd (cc e)

-- The queued hooks of which these are the prepared ones.
abbrev pub data_of : List Prepared → List InlineData
data_of [] = []
data_of ((d, bytes) ∷ rest) = d ∷ data_of rest

-- A write over other bytes leaves the patches that stand.
Stands-kept :
    (memory : ℕ → ℕ) (d : InlineData) (bytes : List ℕ) (done : List Prepared)
    → overlaps_queued d (data_of done) ≡ false
    → length bytes ≡ d.stolen_len
    → d.target + d.stolen_len < 2 ^ 64
    → All (Stands memory) done
    → All (Stands (write_bytes memory d.target bytes)) done
unfolding overlaps_queued
Stands-kept memory d bytes [] free len fits all = tt
Stands-kept memory d bytes ((e, patch) ∷ rest) free len fits ((size, space, held), all) =
    let (here, later) =
      either_false (ranges_overlap e.target e.stolen_len d.target d.stolen_len)
        (overlaps_queued d (data_of rest)) free in
    let apart = apart_of e.target e.stolen_len d.target d.stolen_len here space fits in
    (
      (
        size,
        space,
        Holds-in_range (write_bytes memory d.target bytes) memory e.target patch
            (λ x. elim (inside_or x e.target (length patch)) [
              | inl out ↦ inl out
              | inr (low, high) ↦ inr (
                  write_bytes_outside memory d.target bytes x
                    (elim apart [ inl before ↦ inl (omega arith) | inr after ↦ inr (omega arith) ]))
            ])
            held,
      ),
      Stands-kept memory d bytes rest later len fits all,
    )
  where
    inside_or :
        (x from size : ℕ) → ((x < from) ⊎ (from + size ≤ x)) ⊎ ((from ≤ x) × (x < from + size))
    inside_or x from size = ground arith

-- No hook of the rest patches the bytes of an earlier one.
unfoldable pub Queued : List InlineData → List Prepared → Type 0
Queued earlier [] = Unit
Queued earlier ((d, bytes) ∷ rest) = (overlaps_queued d earlier ≡ false) × Queued (d ∷ earlier) rest

-- What one install leaves, where it succeeds.
Patches : Core → InlineData → List ℕ → Installed → Type 0
Patches before d bytes (err e, core) = Unit
Patches before d bytes (ok hook, core) =
    (length bytes ≡ d.stolen_len)
    × (d.target + d.stolen_len < 2 ^ 64)
    × (core.process.memory ≡ write_bytes before.process.memory d.target bytes)

if-Patches :
    (before : Core) (d : InlineData) (bytes : List ℕ) (b : Bool) (r q : Installed)
    → (b ≡ true → Patches before d bytes r)
    → (b ≡ false → Patches before d bytes q)
    → Patches before d bytes (if b then r else q)
if-Patches before d bytes true r q h k = h refl
if-Patches before d bytes false r q h k = k refl

patched-Patches :
    (env : Env) (before core : Core) (d : InlineData) (bytes : List ℕ) (o : Option (ℕ → ℕ))
    → length bytes ≡ d.stolen_len
    → write_code_bytes env.can before.process.memory d.target bytes ≡ o
    → Patches before d bytes (patched d bytes core o)
unfolding patched Patches
patched-Patches env before core d bytes none len e = tt
patched-Patches env before core d bytes (some m) len e =
    let (writable, made) = write_code_bytes_made env.can before.process.memory m d.target bytes e in
    let space = writable.in_space in (len, subst (λ n. d.target + n < 2 ^ 64) len space, made)

refused-Patches :
    (before core : Core) (d : InlineData) (bytes : List ℕ) (e : DetourError)
    → Patches before d bytes (err e, core)
unfolding Patches
refused-Patches before core d bytes e = tt

patch_redirected-Patches :
    (env : Env) (core : Core) (d : InlineData) (bytes : List ℕ) (o : Outcome)
    → Patches core d bytes (patch_redirected env d bytes core o)
unfolding patch_redirected
patch_redirected-Patches env core d bytes (err e, m) =
    refused-Patches core (record core { machine = m }) d bytes e
patch_redirected-Patches env core d bytes (ok done, m) =
    let moved : Core = record core { machine = m } in
    let write = write_code_bytes env.can core.process.memory d.target bytes in
    if-Patches core d bytes (armed_in_range env.armed d.target d.stolen_len)
      (err invalid_parameter, moved)
      (if not (length bytes == d.stolen_len)
        then (err relocation_failed, moved)
        else patched d bytes moved write)
      (λ armed. refused-Patches core moved d bytes invalid_parameter)
      (λ free.
        if-Patches core d bytes (not (length bytes == d.stolen_len)) (err relocation_failed, moved)
          (patched d bytes moved write)
          (λ short. refused-Patches core moved d bytes relocation_failed)
          (λ whole. patched-Patches env core moved d bytes write (ground arith) refl))

install_next :
    (env : Env) (index : ℕ) (d : InlineData) (bytes : List ℕ) (rest done : List Prepared)
    (installed : List InlineHook) (before : Core) (r : Installed)
    → ((hooks : List InlineHook) (core : Core)
        → All (Stands core.process.memory) ((d, bytes) ∷ done)
        → ((f : Failure) × ((install_all env (index + 1) rest hooks core).failure ≡ some f))
          ⊎ (All
                (Stands ((install_all env (index + 1) rest hooks core).core.process.memory))
                ((d, bytes) ∷ done)
              × All
                  (Stands ((install_all env (index + 1) rest hooks core).core.process.memory))
                  rest))
    → overlaps_queued d (data_of done) ≡ false
    → All (Stands before.process.memory) done
    → Patches before d bytes r
    → let p = after_install index installed (install_all env (index + 1) rest) r in
      ((f : Failure) × (p.failure ≡ some f))
      ⊎ (All (Stands p.core.process.memory) done
          × All (Stands p.core.process.memory) ((d, bytes) ∷ rest))
unfolding after_install Patches
install_next env index d bytes rest done installed before (err e, core) later free all patches =
    inl ((index, e), refl)
install_next env index d bytes rest done installed before (ok hook, core) later free all
      (len, space, memory) =
    let stands : All (Stands core.process.memory) ((d, bytes) ∷ done) =
      subst (λ m. All (Stands m) ((d, bytes) ∷ done)) (sym memory)
        (
          (len, space, write_bytes-Holds before.process.memory d.target bytes),
          Stands-kept before.process.memory d bytes done free len space all,
        ) in
    elim (later (hook ∷ installed) core stands) [
      | inl failed ↦ inl failed
      | inr ((here, others), more) ↦ inr (others, (here, more))
    ]

-- Where no install failed, all of the patches stand.
pub install_all-Stands :
    (env : Env) (index : ℕ) (prepared done : List Prepared) (installed : List InlineHook)
    (core : Core)
    → Queued (data_of done) prepared
    → All (Stands core.process.memory) done
    → ((f : Failure) × ((install_all env index prepared installed core).failure ≡ some f))
      ⊎ (All (Stands ((install_all env index prepared installed core).core.process.memory)) done
          × All
              (Stands ((install_all env index prepared installed core).core.process.memory))
              prepared)
unfolding install_all install_inline Queued
install_all-Stands env index [] done installed core queued all = inr (all, tt)
install_all-Stands env index ((d, bytes) ∷ rest) done installed core (free, queued) all =
    install_next env index d bytes rest done installed core (install_inline env d bytes core)
      (λ hooks after stands.
        install_all-Stands env (index + 1) rest ((d, bytes) ∷ done) hooks after queued stands)
      free all
      (patch_redirected-Patches env core d bytes (
        redirect_threads (record env.os { code = core.process.memory }) d core.window.threads
          core.machine))
