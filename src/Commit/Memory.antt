-- ===== src/Commit/Memory.antt =====
-- src/transaction.rs: disabling and dropping the installed hooks puts the code back.
use neohook.Base.{
  ℕ, ◌+◌, ◌<◌, ◌≤◌, ◌≡◌, refl, sym, ap, subst, ◌∙◌, ◌⊎◌, inl, inr, true, false, List, [], ◌∷◌, All,
  length, arith,
}
use neohook.Patches.{InlineData}
use neohook.Inline.{Process, InlineHook, Writable, write_bytes, disable, ignoring}
use neohook.Inline.Bytes.{Holds, write_bytes_over, write_bytes_outside}
use neohook.Inline.Toggle.{IsWritable}
use neohook.Inline.Undo.{disable-Written, drop_hook-Written, drop_trampoline_memory}
use neohook.Commit.{disable_all, drop_hooks, drop_pending}

-- A hook that was just installed over code that the hook has a copy of.
pub record IsUndoable (disable_can drop_can : Writable) (first : ℕ → ℕ) (hook : InlineHook)
    : Type 0 where
  pub enabled : hook.enabled ≡ true
  pub active : hook.active ≡ true
  pub unpublished : hook.published ≡ false
  pub whole : length hook.orig_bytes ≡ hook.stolen_len
  pub disabling : IsWritable disable_can hook.target (length hook.orig_bytes)
  pub dropping : IsWritable drop_can hook.target (length hook.orig_bytes)
  pub held : Holds first hook.target hook.orig_bytes

abbrev pub InRange : ℕ → InlineHook → Type 0
InRange x hook = (hook.target ≤ x) × (x < hook.target + length hook.orig_bytes)

abbrev pub InRanges : ℕ → List InlineHook → Type 0
InRanges x [] = ⊥
InRanges x (hook ∷ hooks) = InRange x hook ⊎ InRanges x hooks

range_cases :
    (x start len : ℕ) → ((x < start) ⊎ (start + len ≤ x)) ⊎ ((start ≤ x) × (x < start + len))
range_cases x start len = ground arith

inside_not_outside :
    {A : Type 0} (x start len : ℕ)
    → (start ≤ x) × (x < start + len)
    → (x < start) ⊎ (start + len ≤ x)
    → A
inside_not_outside x start len (a, b) (inl lt) = absurd (omega arith)
inside_not_outside x start len (a, b) (inr le) = absurd (omega arith)

-- Writing the original bytes back restores the hook's range, and leaves the rest.
written_back :
    (first now : ℕ → ℕ) (hook : InlineHook) (hooks : List InlineHook) (x : ℕ)
    → Holds first hook.target hook.orig_bytes
    → (now x ≡ first x) ⊎ (InRange x hook ⊎ InRanges x hooks)
    → (write_bytes now hook.target hook.orig_bytes x ≡ first x) ⊎ InRanges x hooks
written_back first now hook hooks x held moved =
    elim (range_cases x hook.target (length hook.orig_bytes)) [
      | inr inside ↦ inl (
          write_bytes_over now first hook.target hook.orig_bytes x held
            (inside_not_outside x hook.target (length hook.orig_bytes) inside))
      | inl outside ↦ elim moved [
        | inl same ↦ inl (write_bytes_outside now hook.target hook.orig_bytes x outside ∙ same)
        | inr (inl inside) ↦
            inside_not_outside x hook.target (length hook.orig_bytes) inside outside
        | inr (inr rest) ↦ inr rest
      ]
    ]

pub disable_all-back :
    (can drop_can : Writable) (first : ℕ → ℕ) (hooks : List InlineHook) (p : Process) (x : ℕ)
    → All (IsUndoable can drop_can first) hooks
    → (p.memory x ≡ first x) ⊎ InRanges x hooks
    → (disable_all can hooks p).memory x ≡ first x
unfolding disable_all
disable_all-back can drop_can first [] p x all (inl same) = same
disable_all-back can drop_can first [] p x all (inr impossible) = absurd impossible
disable_all-back can drop_can first (hook ∷ hooks) p x (u, all) moved =
    let off = disable-Written can hook p u.enabled u.disabling in
    disable_all-back can drop_can first hooks ((ignoring hook p (disable can hook p)).1) x all (
      subst (λ m. (m x ≡ first x) ⊎ InRanges x hooks) (sym off)
        (written_back first p.memory hook hooks x u.held moved))

-- Dropping the hooks afterwards writes the same bytes again.
pub drop_hooks-same :
    (disable_can can : Writable) (first : ℕ → ℕ) (hooks : List InlineHook) (p : Process) (x : ℕ)
    → All (IsUndoable disable_can can first) hooks
    → p.memory x ≡ first x
    → (drop_hooks can hooks p).memory x ≡ first x
unfolding drop_hooks
drop_hooks-same disable_can can first [] p x all same = same
drop_hooks-same disable_can can first (hook ∷ hooks) p x (u, all) same =
    let later = drop_hooks-same disable_can can first hooks p x all same in
    ap (λ m. m x)
      (drop_hook-Written can hook (drop_hooks can hooks p) u.active u.unpublished u.whole
        u.dropping)
    ∙ write_bytes_over (drop_hooks can hooks p).memory first hook.target hook.orig_bytes x u.held
        (λ outside. later)

pub drop_pending_memory :
    (ds : List InlineData) (p : Process) → (drop_pending ds p).memory ≡ p.memory
unfolding drop_pending
drop_pending_memory [] p = refl
drop_pending_memory (d ∷ ds) p =
    drop_pending_memory ds _ ∙ drop_trampoline_memory d.trampoline_ptr d.trampoline_size p
