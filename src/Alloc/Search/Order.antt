-- ===== src/Alloc/Search/Order.antt =====
-- The candidates of src/alloc.rs sorted by their distance to the target.
use neohook.Base.{ℕ, ◌≤◌, ◌↔◌, inl, inr, List, [], ◌∷◌, All, In, arith}
use neohook.Base.Words.{abs_diff}
use neohook.Alloc.Search.{insert_by_distance, sort_by_distance}

-- The list runs away from the target.
abbrev pub IsSorted : ℕ → List ℕ → Type 0
IsSorted t [] = Unit
IsSorted t (x ∷ xs) = All (λ y. abs_diff x t ≤ abs_diff y t) xs × IsSorted t xs

module _ (t : ℕ) where
  In-insert : (x y : ℕ) (ys : List ℕ) → In x (insert_by_distance t y ys) ↔ In x (y ∷ ys)
  unfolding insert_by_distance
  In-insert x y [] = (λ h. h, λ h. h)
  In-insert x y (z ∷ zs) = ground (arith, In-insert x y zs)

  pub In-sort : (x : ℕ) (xs : List ℕ) → In x (sort_by_distance t xs) ↔ In x xs
  unfolding sort_by_distance
  In-sort x [] = (λ h. h, λ h. h)
  In-sort x (y ∷ ys) = ground (arith, In-insert x y (sort_by_distance t ys), In-sort x ys)

  All-far :
      (d : ℕ) (x : ℕ) (xs : List ℕ)
      → d ≤ abs_diff x t
      → All (λ y. d ≤ abs_diff y t) xs
      → All (λ y. d ≤ abs_diff y t) (insert_by_distance t x xs)
  unfolding insert_by_distance
  All-far d x [] h a = (h, tt)
  All-far d x (y ∷ ys) h a = ground (arith, All-far d x ys h a.1)

  All-trans :
      (d e : ℕ) (xs : List ℕ)
      → d ≤ e
      → All (λ y. e ≤ abs_diff y t) xs
      → All (λ y. d ≤ abs_diff y t) xs
  All-trans d e [] h a = tt
  All-trans d e (x ∷ xs) h a = (omega arith, All-trans d e xs h a.1)

  insert-IsSorted : (x : ℕ) (xs : List ℕ) → IsSorted t xs → IsSorted t (insert_by_distance t x xs)
  unfolding insert_by_distance
  insert-IsSorted x [] s = (tt, tt)
  insert-IsSorted x (y ∷ ys) s = ground (
    arith,
    insert-IsSorted x ys s.1,
    All-far (abs_diff y t) x ys,
    All-trans (abs_diff x t) (abs_diff y t) ys,
  )

  pub sort-IsSorted : (xs : List ℕ) → IsSorted t (sort_by_distance t xs)
  unfolding sort_by_distance
  sort-IsSorted [] = tt
  sort-IsSorted (x ∷ xs) = insert-IsSorted x (sort_by_distance t xs) (sort-IsSorted xs)

  pub far_of_All :
      (d x : ℕ) (xs : List ℕ) → All (λ y. d ≤ abs_diff y t) xs → In x xs → d ≤ abs_diff x t
  far_of_All d x [] a h = absurd h
  far_of_All d x (y ∷ ys) a (inl e) = rw e a.0
  far_of_All d x (y ∷ ys) a (inr h) = far_of_All d x ys a.1 h
