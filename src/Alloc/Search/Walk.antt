-- ===== src/Alloc/Search/Walk.antt =====
-- The walk of `alloc_nearby` (src/alloc.rs) over the regions of its window.
use neohook.Base.{
  ℕ, zero, suc, ◌-◌, ◌<◌, ◌≡◌, ◌≢◌, ◌⊎◌, inl, inr, true, none, some, List, [], ◌∷◌, ◌++◌, All,
  arith, ltb, leb, Option-cases, Bool-cases,
}
use neohook.Base.Words.{saturating_add}
use neohook.Base.Regions.{Region, Query, is_free}
use neohook.Alloc.{Window, nearest_aligned_candidate}
use neohook.Alloc.Search.{offer, walk}

-- Each step of the walk moves up, so the fuel of `alloc_nearby` suffices.
pub walk_total :
    (query : Query) (w : Window) (fuel current : ℕ)
    → w.max_addr - current < fuel
    → walk query w fuel current ≢ none
unfolding walk
walk_total query w zero current h = absurd (omega arith)
walk_total query w (suc fuel) current h = elim (Option-cases (query current)) [
  | inl e ↦ ground arith
  | inr (r, e) ↦ ground (arith, walk_total query w fuel (saturating_add r.base r.size))
]

-- Every candidate of the walk fits in a region that the system reported as free.
module _ (query : Query) (w : Window) where
  abbrev pub IsOffered : ℕ → Type 0
  IsOffered c =
      (addr : ℕ) × (r : Region) × (query addr ≡ some r)
      × (is_free r.state ≡ true)
      × (nearest_aligned_candidate w r.base (saturating_add r.base r.size) ≡ some c)

  offer-IsOffered : (addr : ℕ) (r : Region) → query addr ≡ some r → All IsOffered (offer w r)
  unfolding offer
  offer-IsOffered addr r e = elim (Bool-cases (is_free r.state)) [
    | inl f ↦
        elim (Option-cases (nearest_aligned_candidate w r.base (saturating_add r.base r.size))) [
          | inl n ↦ ground arith
          | inr (c, n) ↦ elim (Bool-cases (leb w.size r.size)) [
            | inl l ↦ rw (f, l, n) ((addr, r, e, f, n), tt)
            | inr l ↦ rw (f, l) tt
          ]
        ]
    | inr f ↦ rw f tt
  ]

  All-append : (xs ys : List ℕ) → All IsOffered xs → All IsOffered ys → All IsOffered (xs ++ ys)
  All-append [] ys a b = b
  All-append (x ∷ xs) ys a b = (a.0, All-append xs ys a.1 b)

  -- One round of the walk that ends well: it stopped here, or it went on from the next region.
  walk_round :
      (fuel current : ℕ) (cs : List ℕ)
      → walk query w (suc fuel) current ≡ some cs
      → (cs ≡ [])
        ⊎ ((r : Region) × (query current ≡ some r)
            × ((cs ≡ offer w r)
                ⊎ ((rest : List ℕ) × (walk query w fuel (saturating_add r.base r.size) ≡ some rest)
                    × (cs ≡ offer w r ++ rest))))
  unfolding walk
  walk_round fuel current cs e = elim (Option-cases (query current)) [
    | inl n ↦ inl (ground arith)
    | inr (r, q) ↦ elim (Option-cases (walk query w fuel (saturating_add r.base r.size))) [
      | inl n ↦ elim (Bool-cases (ltb current w.max_addr)) [
        | inl more ↦ inr (r, q, inl (ground arith))
        | inr done ↦ inl (ground arith)
      ]
      | inr (rest, n) ↦ elim (Bool-cases (ltb current w.max_addr)) [
        | inr done ↦ inl (ground arith)
        | inl more ↦ elim (Bool-cases (leb (saturating_add r.base r.size) current)) [
          | inl stuck ↦ inr (r, q, inl (ground arith))
          | inr on ↦ inr (r, q, inr (rest, n, ground arith))
        ]
      ]
    ]
  ]

  pub walk-IsOffered :
      (fuel current : ℕ) (cs : List ℕ) → walk query w fuel current ≡ some cs → All IsOffered cs
  walk-IsOffered zero current cs e = absurd (unfold walk in cc)
  walk-IsOffered (suc fuel) current cs e = elim (walk_round fuel current cs e) [
    | inl nothing ↦ rw nothing tt
    | inr (r, q, inl last) ↦ rw last (offer-IsOffered current r q)
    | inr (r, q, inr (rest, later, all)) ↦ rw all (
        All-append (offer w r) rest (offer-IsOffered current r q)
          (walk-IsOffered fuel (saturating_add r.base r.size) rest later))
  ]
