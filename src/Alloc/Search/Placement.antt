-- ===== src/Alloc/Search/Placement.antt =====
-- Where `alloc_nearby` of src/alloc.rs puts a trampoline.
use neohook.Base.{
  ℕ, suc, ◌+◌, ◌-◌, ◌^◌, ◌≤◌, ◌<◌, ◌≡◌, ◌≢◌, ◌⊎◌, ◌∙◌, [], ◌∷◌, true, ap, subst, inl, inr, Option,
  some, List, ◌++◌, All, arith, Option-cases,
}
use neohook.Base.Regions.{Region, Query, is_free}
use neohook.Base.Words.{saturating_add}
use neohook.Alloc.{Window}
use neohook.Alloc.Candidate.{Fits, candidate-Fits}
use neohook.Alloc.Search.{
  SystemInfo, window, walk, sort_by_distance, Attempt, attempt, alloc_nearby,
}
use neohook.Alloc.Search.Order.{sort-IsSorted, In-sort}
use neohook.Alloc.Search.Attempts.{
  attempt_in_window, IsChosen, attempt_nearest, granted, answer, attempt-IsAccounted,
}
use neohook.Alloc.Search.Walk.{walk_total, IsOffered, walk-IsOffered}

-- The search always ends, whatever the operating system answers.
pub alloc_nearby_total :
    (query : Query) (reserve : ℕ → Option ℕ) (si : SystemInfo) (target size : ℕ)
    → (a : Attempt) × (alloc_nearby query reserve si target size ≡ some a)
unfolding alloc_nearby
alloc_nearby_total query reserve si target size =
    let w = window si target size in
    elim (Option-cases (alloc_nearby query reserve si target size)) [
      | inl e ↦
          absurd (ground (arith, walk_total query w (suc (w.max_addr - w.min_addr)) w.min_addr))
      | inr found ↦ found
    ]

-- A size of zero is refused; any other size is looked for among the candidates of the walk.
alloc_nearby-size :
    (query : Query) (reserve : ℕ → Option ℕ) (si : SystemInfo) (target size start : ℕ) (a : Attempt)
    → alloc_nearby query reserve si target size ≡ some a
    → a.result ≡ some start
    → size ≢ 0
unfolding alloc_nearby
alloc_nearby-size query reserve si target size start a e r z = ground arith

alloc_nearby-attempt :
    (query : Query) (reserve : ℕ → Option ℕ) (si : SystemInfo) (target size : ℕ) (a : Attempt)
    → size ≢ 0
    → alloc_nearby query reserve si target size ≡ some a
    → let w = window si target size in
      (cs : List ℕ) × (walk query w (suc (w.max_addr - w.min_addr)) w.min_addr ≡ some cs)
      × (attempt reserve w (sort_by_distance target cs) ≡ a)
unfolding alloc_nearby
alloc_nearby-attempt query reserve si target size a pos e =
    let w = window si target size in
    elim (Option-cases (walk query w (suc (w.max_addr - w.min_addr)) w.min_addr)) [
      | inl n ↦ absurd (ground arith)
      | inr (cs, n) ↦ (cs, n, ground arith)
    ]

-- A trampoline that `alloc_nearby` returns lies within the reach of a 32-bit displacement from the
-- target on both sides, and never in the lowest granule.
pub alloc_nearby_reachable :
    (query : Query) (reserve : ℕ → Option ℕ) (si : SystemInfo) (target size start : ℕ) (a : Attempt)
    → alloc_nearby query reserve si target size ≡ some a
    → a.result ≡ some start
    → target < 2 ^ 64
    → si.highest_address < 2 ^ 64 - 1
    → (start + size ≤ target + 0x7fff_ffff)
      × (target ≤ start + 0x7fff_ffff)
      × (si.granularity ≤ start)
alloc_nearby_reachable query reserve si target size start a e r ht hs =
    let (cs, n, same) =
      alloc_nearby-attempt query reserve si target size a
        (alloc_nearby-size query reserve si target size start a e r) e in
    let inside =
      attempt_in_window reserve (window si target size) (sort_by_distance target cs) start
        (ap (λ t. t.result) same ∙ r) in
    unfold window in ground (arith, inside)

-- A candidate that fits in a region which the system reported as free.
abbrev pub FitsFree : Query → Window → ℕ → Type 0
FitsFree query w c =
    (addr : ℕ) × (r : Region) × (query addr ≡ some r)
    × (is_free r.state ≡ true)
    × Fits w r.base (saturating_add r.base r.size) c

All-FitsFree :
    (query : Query) (w : Window) (k : ℕ) (cs : List ℕ)
    → w.align ≡ 2 ^ k
    → k ≤ 64
    → w.max_addr + w.align < 2 ^ 64
    → All (IsOffered query w) cs
    → All (FitsFree query w) cs
All-FitsFree query w k [] grid le room all = tt
All-FitsFree query w k (c ∷ cs) grid le room ((addr, r, found, free, offered), all) = (
  (
    addr,
    r,
    found,
    free,
    candidate-Fits w k grid le room r.base (saturating_add r.base r.size) c offered,
  ),
  All-FitsFree query w k cs grid le room all,
)

-- Let the granularity be a power of two, at most 2^64, and the highest address be further below 2^64
-- than it. A trampoline that `alloc_nearby` returns is the nearest choice: the system granted it at a
-- candidate of the walk, each of which fits in a free region and in the window, and no candidate at
-- which it would have granted a usable address is nearer.
pub alloc_nearby_nearest :
    (query : Query) (reserve : ℕ → Option ℕ) (si : SystemInfo) (target size start k : ℕ)
    (a : Attempt)
    → si.granularity ≡ 2 ^ k
    → k ≤ 64
    → si.highest_address + si.granularity < 2 ^ 64
    → alloc_nearby query reserve si target size ≡ some a
    → a.result ≡ some start
    → let w = window si target size in
      (cs : List ℕ) × (walk query w (suc (w.max_addr - w.min_addr)) w.min_addr ≡ some cs)
      × All (FitsFree query w) cs
      × IsChosen reserve w cs start
alloc_nearby_nearest query reserve si target size start k a grid le room e r =
    let w = window si target size in
    let (cs, n, same) =
      alloc_nearby-attempt query reserve si target size a
        (alloc_nearby-size query reserve si target size start a e r) e in
    let (c, m, g, far) =
      attempt_nearest reserve w (sort_by_distance target cs) start
        (unfold window in sort-IsSorted target cs) (ap (λ t. t.result) same ∙ r) in
    (
      cs,
      n,
      All-FitsFree query w k cs (unfold window in grid) le (unfold window in omega arith)
          (walk-IsOffered query w (suc (w.max_addr - w.min_addr)) w.min_addr cs n),
      (c, (In-sort target c cs).0 m, g, λ c' h u. far c' ((In-sort target c' cs).1 h) u),
    )

-- A search for a size that is not zero loses no allocation: the candidates of the walk, nearest first,
-- fall into those tried and the rest, and what the system granted to the former is what was given back
-- to it and the trampoline returned. There is no rest unless a trampoline is returned.
pub alloc_nearby_no_leak :
    (query : Query) (reserve : ℕ → Option ℕ) (si : SystemInfo) (target size : ℕ) (a : Attempt)
    → size ≢ 0
    → alloc_nearby query reserve si target size ≡ some a
    → let w = window si target size in
      (cs : List ℕ) × (walk query w (suc (w.max_addr - w.min_addr)) w.min_addr ≡ some cs)
      × (tried : List ℕ) × (rest : List ℕ) × (sort_by_distance target cs ≡ tried ++ rest)
      × (granted reserve w tried ≡ a.released ++ answer reserve w a)
      × ((rest ≡ []) ⊎ ((start : ℕ) × (a.result ≡ some start)))
alloc_nearby_no_leak query reserve si target size a pos e =
    let w = window si target size in
    let (cs, n, same) = alloc_nearby-attempt query reserve si target size a pos e in
    let (tried, rest, split, all, ends) =
      attempt-IsAccounted reserve w (sort_by_distance target cs) in
    (
      cs,
      n,
      tried,
      rest,
      split,
      subst (λ t. granted reserve w tried ≡ t.released ++ answer reserve w t) same all,
      subst (λ (t : Attempt). (rest ≡ []) ⊎ ((start : ℕ) × (t.result ≡ some start))) same ends,
    )
