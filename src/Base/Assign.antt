-- ===== src/Base/Assign.antt =====
-- State that is a function of an address or a handle, with one assignment at a time.
use Prim.Native.Nat.{ℕ}
use mathlib.Core.Path.{◌≡◌, ap, ◌∙◌}
use mathlib.Core.Logic.{◌⊎◌, inl, inr}
use mathlib.Core.Bool.{false}
use native.Mathlib.Omega.{arith}
use neohook.Base.Tests.{◌==◌, if◌then◌else◌, if_true, if_false, Bool-cases}

abbrev pub assign : (ℕ → ℕ) → ℕ → ℕ → ℕ → ℕ
assign f at value x = if x == at then value else f x

same_apart : {h k : ℕ} → k ≡ h → (h == k) ≡ false → ⊥
same_apart e apart = ground arith

-- One assignment puts the first value back, or leaves it to the later ones.
pub assign-back :
    {P : Type 0} (first now : ℕ → ℕ) (k o h : ℕ)
    → o ≡ first k
    → (now h ≡ first h) ⊎ ((k ≡ h) ⊎ P)
    → (assign now k o h ≡ first h) ⊎ P
assign-back {P = P} first now k o h same moved = elim (Bool-cases (h == k)) [
  | inl here ↦ inl (if_true _ _ here ∙ same ∙ ap first (ground arith))
  | inr apart ↦ later moved apart
]
  where
    later : (now h ≡ first h) ⊎ ((k ≡ h) ⊎ P) → (h == k) ≡ false → (assign now k o h ≡ first h) ⊎ P
    later (inl e) apart = inl (if_false _ _ apart ∙ e)
    later (inr (inl e)) apart = absurd (same_apart e apart)
    later (inr (inr p)) apart = inr p
