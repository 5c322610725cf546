-- ===== src/Alloc/Candidate.antt =====
-- `nearest_aligned_candidate` of src/alloc.rs: its answer fits, and no aligned start is nearer.
use native.Mathlib.Decide.{dec_le}
use neohook.Base.{
  ℕ, ◌+◌, ◌-◌, ◌^◌, ◌≤◌, ◌<◌, ◌≡◌, ◌≢◌, ◌⊎◌, inl, inr, some, none, arith, subst, Option-cases, min,
}
use neohook.Base.Words.{abs_diff}
use neohook.Alloc.{
  Window, pick, clamp, lowest, nearest_within, nearest_aligned_candidate, align_up, align_down,
}
use neohook.Alloc.Align.{
  IsMultiple, align_down_greatest, align_up_least, align_down-le, le-align_up,
  align_down-IsMultiple, align_up-IsMultiple,
}

pick-cases :
    (t lo hi d u s c : ℕ)
    → lo ≤ s
    → pick t lo hi d u s ≡ some c
    → (lo ≤ c) × (c ≤ hi) × ((c ≡ d) ⊎ (c ≡ u) ⊎ (c ≡ s))
unfolding pick
pick-cases t lo hi d u s c le e = ground arith

-- Around the ideal address, the nearer of the two neighbours that fits is chosen.
pick-nearest_below :
    (t lo hi d u s m c : ℕ)
    → lo ≤ m
    → m ≤ hi
    → m ≤ d
    → d ≤ clamp t lo hi
    → pick t lo hi d u s ≡ some c
    → abs_diff c t ≤ abs_diff m t
unfolding pick
pick-nearest_below t lo hi d u s m c above below md di e = ground arith

pick-nearest_above :
    (t lo hi d u s m c : ℕ)
    → lo ≤ m
    → m ≤ hi
    → u ≤ m
    → clamp t lo hi ≤ u
    → d ≤ clamp t lo hi
    → pick t lo hi d u s ≡ some c
    → abs_diff c t ≤ abs_diff m t
unfolding pick
pick-nearest_above t lo hi d u s m c above below um iu di e = ground arith

pick-ne-none :
    (t lo hi d u s m : ℕ)
    → lo ≤ m
    → m ≤ hi
    → ((m ≤ d) × (d ≤ clamp t lo hi)) ⊎ ((u ≤ m) × (clamp t lo hi ≤ u))
    → pick t lo hi d u s ≢ none
unfolding pick
pick-ne-none t lo hi d u s m above below side = ground arith

-- A start from which `size` bytes lie in the region and in the window, on the alignment grid.
pub record Fits (w : Window) (region_start region_end start : ℕ) : Type 0 where
  pub after_region : region_start ≤ start
  pub after_window : w.min_addr ≤ start
  pub not_low : w.align ≤ start
  pub not_null : 1 ≤ start
  pub in_region : start + w.size ≤ region_end
  pub in_window : start + w.size ≤ w.max_addr
  pub on_grid : IsMultiple w.align start

-- The two exits of `nearest_aligned_candidate`, with the bounds written out.
candidate_exits :
    (w : Window) (rs re c : ℕ)
    → nearest_aligned_candidate w rs re ≡ some c
    → (hi : ℕ) × (hi + w.size ≤ re)
      × (hi + w.size ≤ w.max_addr)
      × (lowest w rs ≤ hi)
      × (nearest_within w (lowest w rs) hi ≡ some c)
unfolding nearest_aligned_candidate
candidate_exits w rs re c e = (
  min (re - w.size) (w.max_addr - w.size),
  ground arith,
  ground arith,
  ground arith,
  ground arith,
)

candidate_within :
    (w : Window) (rs re m : ℕ)
    → lowest w rs ≤ m
    → m + w.size ≤ re
    → m + w.size ≤ w.max_addr
    → (hi : ℕ) × (m ≤ hi)
      × (hi ≤ w.max_addr)
      × (nearest_aligned_candidate w rs re ≡ nearest_within w (lowest w rs) hi)
unfolding nearest_aligned_candidate
candidate_within w rs re m l r x =
    (min (re - w.size) (w.max_addr - w.size), omega arith, omega arith, ground arith)

clamp_bounds : (t lo hi : ℕ) → lo ≤ hi → (lo ≤ clamp t lo hi) × (clamp t lo hi ≤ hi)
clamp_bounds t lo hi h = ground arith

-- The grid is a power of two, and the window ends one step below the top of the address space.
module _ (w : Window) (k : ℕ) (grid : w.align ≡ 2 ^ k) (k_le : k ≤ 64)
    (room : w.max_addr + w.align < 2 ^ 64) where
  within-IsMultiple :
      (lo hi c : ℕ)
      → hi ≤ w.max_addr
      → lo ≤ hi
      → nearest_within w lo hi ≡ some c
      → (lo ≤ c) × (c ≤ hi) × IsMultiple w.align c
  unfolding nearest_within
  within-IsMultiple lo hi c top le e =
      let ideal = clamp_bounds w.target lo hi le in
      let (low, high, from) =
        pick-cases w.target lo hi _ _ _ c (rw grid (le-align_up k lo k_le (omega arith))) e in
      (
        low,
        high,
        elim from [
          | inl d ↦ rw (d, grid) (align_down-IsMultiple k _ k_le (omega (arith, ideal)))
          | inr (inl u) ↦ rw (u, grid) (align_up-IsMultiple k _ k_le)
          | inr (inr u) ↦ rw (u, grid) (align_up-IsMultiple k _ k_le)
        ],
      )

  near : (lo hi : ℕ) → lo ≤ hi → hi ≤ w.max_addr → clamp w.target lo hi + 2 ^ k < 2 ^ 64
  near lo hi le top =
      omega (arith, clamp_bounds w.target lo hi le, subst (λ t. w.max_addr + t < 2 ^ 64) grid room)

  -- An aligned start in the bounds lies on one side of the ideal one, beyond its neighbour there.
  neighbour :
      (lo hi m : ℕ)
      → hi ≤ w.max_addr
      → lo ≤ m
      → m ≤ hi
      → IsMultiple w.align m
      → let ideal = clamp w.target lo hi in
        (align_down ideal w.align ≤ ideal)
        × (ideal ≤ align_up ideal w.align)
        × ((m ≤ align_down ideal w.align) ⊎ (align_up ideal w.align ≤ m))
  neighbour lo hi m top above below mult =
      let fits = near lo hi (omega arith) top in
      let ideal = clamp w.target lo hi in
      let mult' : IsMultiple (2 ^ k) m = rw (← grid) mult in
      rw grid (
        align_down-le k ideal k_le (omega arith),
        le-align_up k ideal k_le fits,
        elim (dec_le m ideal) [
          | yes le ↦ inl (align_down_greatest k ideal m k_le (omega arith) mult' le)
          | no gt ↦ inr (align_up_least k ideal m k_le fits mult' (omega arith))
        ],
      )

  within-optimal :
      (lo hi m : ℕ)
      → hi ≤ w.max_addr
      → lo ≤ m
      → m ≤ hi
      → IsMultiple w.align m
      → (c : ℕ) × (nearest_within w lo hi ≡ some c) × (abs_diff c w.target ≤ abs_diff m w.target)
  unfolding nearest_within
  within-optimal lo hi m top above below mult =
      let (down, up, side) = neighbour lo hi m top above below mult in
      elim (Option-cases (nearest_within w lo hi)) [
        | inl e ↦ absurd (pick-ne-none w.target lo hi _ _ _ m above below (omega arith) e)
        | inr (c, e) ↦ (
          c,
          e,
          elim side [
            | inl l ↦ pick-nearest_below w.target lo hi _ _ _ m c above below l down e
            | inr r ↦ pick-nearest_above w.target lo hi _ _ _ m c above below r up down e
          ],
        )
      ]

  -- Let the alignment be a power of two, at most 2^64, and the window end further below 2^64 than the
  -- alignment. The answer of `nearest_aligned_candidate` then fits in the region and in the window.
  pub candidate-Fits : (rs re c : ℕ) → nearest_aligned_candidate w rs re ≡ some c → Fits w rs re c
  candidate-Fits rs re c e =
      let (hi, in_re, in_max, le, e') = candidate_exits w rs re c e in
      let (low, high, mult) = within-IsMultiple (lowest w rs) hi c (omega arith) le e' in
      record {
        after_region = omega arith;
        after_window = omega arith;
        not_low = omega arith;
        not_null = omega arith;
        in_region = omega arith;
        in_window = omega arith;
        on_grid = mult;
      }

  -- Let the alignment be a power of two, at most 2^64, and the window end further below 2^64 than the
  -- alignment. If any start then fits there is an answer, and no start that fits is nearer to the target.
  pub candidate_optimal :
      (rs re m : ℕ)
      → Fits w rs re m
      → (c : ℕ) × (nearest_aligned_candidate w rs re ≡ some c)
        × (abs_diff c w.target ≤ abs_diff m w.target)
  candidate_optimal rs re m fits =
      let (hi, below, top, step) =
        candidate_within w rs re m (omega arith) fits.in_region fits.in_window in
      rw step (within-optimal (lowest w rs) hi m top (omega arith) below fits.on_grid)
