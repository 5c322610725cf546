-- ===== src/Base/Maps.antt =====
-- A map whose keys are addresses, as an association list: what the source's HashMap and HashSet hold.
use Prim.Native.Nat.{ℕ}
use mathlib.Core.Path.{◌≡◌, refl}
use mathlib.Core.Logic.{◌≢◌}
use mathlib.Core.Bool.{Bool, true, false}
use mathlib.Core.List.{List, [], ◌∷◌}
use mathlib.Core.Option.{Option, none, some}
use native.Mathlib.Omega.{arith}
use neohook.Base.Tests.{◌==◌, if◌then◌else◌}

module _ {ℓ} {V : Type ℓ} where
  abbrev pub find_key : ℕ → List (ℕ × V) → Option V
  find_key k [] = none
  find_key k ((j, v) ∷ m) = if j == k then some v else find_key k m

  abbrev pub remove_key : ℕ → List (ℕ × V) → List (ℕ × V)
  remove_key k [] = []
  remove_key k ((j, v) ∷ m) = let rest = remove_key k m in if j == k then rest else (j, v) ∷ rest

  abbrev pub insert_key : ℕ → V → List (ℕ × V) → List (ℕ × V)
  insert_key k v m = (k, v) ∷ remove_key k m

  pub find-insert : (k : ℕ) (v : V) (m : List (ℕ × V)) → find_key k (insert_key k v m) ≡ some v
  find-insert k v m = ground arith

  pub find-remove : (k : ℕ) (m : List (ℕ × V)) → find_key k (remove_key k m) ≡ none
  find-remove k [] = refl
  find-remove k ((j, v) ∷ m) = ground (arith, find-remove k m)

  pub find-remove_other :
      (k i : ℕ) (m : List (ℕ × V)) → i ≢ k → find_key i (remove_key k m) ≡ find_key i m
  find-remove_other k i [] d = refl
  find-remove_other k i ((j, v) ∷ m) d = ground (arith, find-remove_other k i m d)

abbrev pub member : ℕ → List ℕ → Bool
member k [] = false
member k (j ∷ ks) = if j == k then true else member k ks

abbrev pub erase : ℕ → List ℕ → List ℕ
erase k [] = []
erase k (j ∷ ks) = let rest = erase k ks in if j == k then rest else j ∷ rest

pub member-erase : (k : ℕ) (ks : List ℕ) → member k (erase k ks) ≡ false
member-erase k [] = refl
member-erase k (j ∷ ks) = ground (arith, member-erase k ks)

pub member-erase_other : (k i : ℕ) (ks : List ℕ) → i ≢ k → member i (erase k ks) ≡ member i ks
member-erase_other k i [] d = refl
member-erase_other k i (j ∷ ks) d = ground (arith, member-erase_other k i ks d)
