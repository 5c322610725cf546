-- ===== src/Alloc/Search/Attempts.antt =====
-- The attempts of `alloc_nearby` (src/alloc.rs) on a sorted list of candidates.
use native.Mathlib.Nat.{le_refl}
use neohook.Base.{
  ℕ, ◌≤◌, ◌≡◌, refl, ap, subst, ◌⊎◌, inl, inr, false, ◌&&◌, Option, none, some, List, [], ◌∷◌, ◌++◌,
  In, arith, leb, Option-cases, Bool-cases,
}
use neohook.Base.Words.{abs_diff, saturating_add}
use neohook.Alloc.{Window}
use neohook.Alloc.Search.{Attempt, attempt}
use neohook.Alloc.Search.Order.{IsSorted, far_of_All}

module _ (reserve : ℕ → Option ℕ) (w : Window) where
  pub attempt_in_window :
      (cs : List ℕ) (start : ℕ)
      → (attempt reserve w cs).result ≡ some start
      → (w.min_addr ≤ start) × (saturating_add start w.size ≤ w.max_addr)
  unfolding attempt
  attempt_in_window [] start e = absurd (ground arith)
  attempt_in_window (c ∷ cs) start e = ground (arith, attempt_in_window cs start)

  -- A candidate at which the operating system would give an address inside the window.
  abbrev pub IsUsable : ℕ → Type 0
  IsUsable c =
      (s : ℕ) × (reserve c ≡ some s) × (w.min_addr ≤ s) × (saturating_add s w.size ≤ w.max_addr)

  -- What the candidate chosen from `cs` is to satisfy.
  abbrev pub IsChosen : List ℕ → ℕ → Type 0
  IsChosen cs start =
      (c : ℕ) × In c cs
      × (reserve c ≡ some start)
      × ((c' : ℕ) → In c' cs → IsUsable c' → abs_diff c w.target ≤ abs_diff c' w.target)

  skip-IsChosen :
      (c : ℕ) (cs : List ℕ) (start : ℕ) → ¬ IsUsable c → IsChosen cs start → IsChosen (c ∷ cs) start
  skip-IsChosen c cs start unusable (c0, m, r, far) = (
    c0,
    inr m,
    r,
    λ c' h u. elim h [ inl e ↦ absurd (unusable (subst IsUsable e u)) | inr h' ↦ far c' h' u ],
  )

  -- The head of the list is taken if it is usable, and otherwise the rest decides.
  attempt_head :
      (c : ℕ) (cs : List ℕ) (start : ℕ)
      → (attempt reserve w (c ∷ cs)).result ≡ some start
      → (reserve c ≡ some start) ⊎ ((¬ IsUsable c) × ((attempt reserve w cs).result ≡ some start))
  unfolding attempt
  attempt_head c cs start e = elim (Option-cases (reserve c)) [
    | inl refused ↦ inr (λ u. cc (u.1), ground arith)
    | inr (s, given) ↦
        elim (Bool-cases (leb w.min_addr s && leb (saturating_add s w.size) w.max_addr)) [
          | inl inside ↦ inl (ground arith)
          | inr outside ↦ inr (λ u. outside_unusable s given outside u, ground arith)
        ]
  ]
    where
      outside_unusable :
          (s : ℕ)
          → reserve c ≡ some s
          → (leb w.min_addr s && leb (saturating_add s w.size) w.max_addr) ≡ false
          → IsUsable c
          → ⊥
      outside_unusable s given outside (s', given', low, high) = ground arith

  pub attempt_nearest :
      (cs : List ℕ) (start : ℕ)
      → IsSorted w.target cs
      → (attempt reserve w cs).result ≡ some start
      → IsChosen cs start
  attempt_nearest [] start s e = absurd (unfold attempt in ground arith)
  attempt_nearest (c ∷ cs) start s e = elim (attempt_head c cs start e) [
    | inl taken ↦ (
      c,
      inl refl,
      taken,
      λ c' h u. elim h [
        | inl same ↦ rw same (le_refl _)
        | inr h' ↦ far_of_All w.target (abs_diff c w.target) c' cs s.0 h'
      ],
    )
    | inr (unusable, later) ↦ skip-IsChosen c cs start unusable (attempt_nearest cs start s.1 later)
  ]

  -- Of the candidates tried, those granted are the answer and what was given back.
  abbrev pub granted : List ℕ → List ℕ
  granted [] = []
  granted (c ∷ cs) = elim (reserve c) [ none ↦ granted cs | some s ↦ s ∷ granted cs ]

  abbrev pub answer : Attempt → List ℕ
  answer a = elim a.result [ none ↦ [] | some s ↦ s ∷ [] ]

  -- The candidates fall into those tried and the rest; nothing granted to the former is lost, and all
  -- are tried unless one is chosen.
  abbrev pub IsAccounted : List ℕ → Type 0
  IsAccounted cs =
      (tried : List ℕ) × (rest : List ℕ) × (cs ≡ tried ++ rest)
      × (granted tried ≡ (attempt reserve w cs).released ++ answer (attempt reserve w cs))
      × ((rest ≡ []) ⊎ ((start : ℕ) × ((attempt reserve w cs).result ≡ some start)))

  pub attempt-IsAccounted : (cs : List ℕ) → IsAccounted cs
  unfolding attempt
  attempt-IsAccounted [] = ([], [], refl, refl, inl refl)
  attempt-IsAccounted (c ∷ cs) =
      let (tried, rest, e, g, all) = attempt-IsAccounted cs in
      elim (Option-cases (reserve c)) [
        | inl refused ↦ (
          c ∷ tried,
          rest,
          ap (λ t. c ∷ t) e,
          ground arith,
          elim all [ inl none_left ↦ inl none_left | inr (start, r) ↦ inr (start, ground arith) ],
        )
        | inr (s, given) ↦
            elim (Bool-cases (leb w.min_addr s && leb (saturating_add s w.size) w.max_addr)) [
              | inl inside ↦ (c ∷ [], cs, refl, ground arith, inr (s, ground arith))
              | inr outside ↦ (
                c ∷ tried,
                rest,
                ap (λ t. c ∷ t) e,
                ground arith,
                elim all [
                  | inl none_left ↦ inl none_left
                  | inr (start, r) ↦ inr (start, ground arith)
                ],
              )
            ]
      ]
