-- ===== src/Scan/Committed/Safety.antt =====
-- What `scan_committed` of src/scan.rs reads and answers.
use native.Mathlib.Nat.{le_refl}
use neohook.Base.{
  ℕ, zero, suc, ◌+◌, ◌-◌, ◌≤◌, ◌<◌, ◌≡◌, refl, sym, subst, ap, ◌∙◌, inl, inr, min, max, Bool, true,
  false, ◌&&◌, Option, some, List, [], ◌∷◌, ◌++◌, map, length, get_elem?, All, In, arith,
  Bool-cases, Option-cases, ltb, leb,
}
use neohook.Base.Words.{checked_add, usize_mod}
use neohook.Base.Regions.{Region, Query}
use neohook.Scan.{Pattern}
use neohook.Scan.Match.{IsWellFormed, IsMatch, IsFirstMatch, scan-IsFirstMatch, scan_all_complete}
use neohook.Scan.Committed.{
  Request, slice, is_eligible, Found, all_of, first_of_all, search_region, advance, scan_regions,
  scan_committed,
}

length-slice : (m : ℕ → ℕ) (start n : ℕ) → length (slice m start n) ≡ n
unfolding slice
length-slice m start zero = refl
length-slice m start (suc n) = omega (arith, length-slice m (start + 1) n)

get_elem?-slice :
    (m : ℕ → ℕ) (start n i : ℕ) → i < n → get_elem? (slice m start n) i ≡ some (m (start + i))
unfolding slice
get_elem?-slice m start zero i h = absurd (omega arith)
get_elem?-slice m start (suc n) zero h = ground arith
get_elem?-slice m start (suc n) (suc i) h = ground (arith, get_elem?-slice m (start + 1) n i)

module _ (q : Request) (low : ℕ) where
  -- An address at which the pattern stands in memory, all of it in one region that the system reported
  -- as committed, neither guarded nor inaccessible, and executable where that is asked for.
  abbrev pub IsHit : ℕ → Type 0
  IsHit a =
      (r : Region) × (at : ℕ) × (q.query at ≡ some r)
      × (is_eligible q r ≡ true)
      × (low ≤ a)
      × (r.base ≤ a)
      × (a + length q.pattern.bytes ≤ r.base + r.size)
      × (a + length q.pattern.bytes ≤ q.range_end)
      × ((j : ℕ)
          → j < length q.pattern.bytes
          → get_elem? q.pattern.mask j ≡ some true
          → some (q.memory (a + j)) ≡ get_elem? q.pattern.bytes j)

  abbrev IsGood : Found → Type 0
  IsGood (all_of hits) = All IsHit hits
  IsGood (first_of_all hit) = IsHit hit

  module _ (r : Region) (at lo hi : ℕ) (found : q.query at ≡ some r)
      (eligible : is_eligible q r ≡ true) (above : r.base ≤ lo) (in_region : hi ≤ r.base + r.size)
      (in_range : hi ≤ q.range_end) (le : lo ≤ hi) (high_enough : low ≤ lo) where
    match-IsHit : (off : ℕ) → IsMatch q.pattern (slice q.memory lo (hi - lo)) off → IsHit (lo + off)
    match-IsHit off match =
        let fits : off + length q.pattern.bytes ≤ hi - lo =
          omega (arith, match.0, length-slice q.memory lo (hi - lo)) in
        (
          r,
          at,
          found,
          eligible,
          omega arith,
          omega arith,
          omega arith,
          omega arith,
          λ j below fixed.
              ap some (ap q.memory (omega arith))
              ∙ sym (get_elem?-slice q.memory lo (hi - lo) (off + j) (omega arith))
              ∙ match.1 j fixed,
        )

    hits-IsHit :
        (offs : List ℕ)
        → ((k : ℕ) → In k offs → IsMatch q.pattern (slice q.memory lo (hi - lo)) k)
        → All IsHit (map (λ off. lo + off) offs)
    hits-IsHit [] all = tt
    hits-IsHit (o ∷ offs) all =
        (match-IsHit o (all o (inl refl)), hits-IsHit offs (λ k m. all k (inr m)))

  search_region_lem :
      (r : Region) (cursor : ℕ)
      → IsWellFormed q.pattern
      → low ≤ cursor
      → q.query cursor ≡ some r
      → (f : Found) × (search_region q r cursor (r.base + r.size) ≡ some f) × IsGood f
  unfolding search_region
  search_region_lem r cursor wf high found =
      let lo = max cursor r.base in
      let hi = min (r.base + r.size) q.range_end in
      let (one, e1, good1) = scan-IsFirstMatch q.pattern (slice q.memory lo (hi - lo)) wf in
      let (offs, e2, up, good2) = scan_all_complete q.pattern (slice q.memory lo (hi - lo)) wf in
      elim (Bool-cases (is_eligible q r)) [
        | inr n ↦ (all_of [], ground arith, tt)
        | inl eligible ↦ elim (Bool-cases (ltb lo hi && leb (length q.pattern.bytes) (hi - lo))) [
          | inr n ↦ (all_of [], ground arith, tt)
          | inl room ↦
              let le : lo ≤ hi = ground arith in
              elim (Bool-cases q.first_only) [
                | inl first ↦ elim (Option-cases one) [
                  | inl e ↦ (all_of [], ground arith, tt)
                  | inr (off, e) ↦ (
                    first_of_all (lo + off),
                    ground arith,
                    match-IsHit r cursor lo hi found eligible (omega arith) (omega arith)
                        (omega arith) le (omega arith) off
                        (subst (IsFirstMatch q.pattern (slice q.memory lo (hi - lo))) e good1).0,
                  )
                ]
                | inr every ↦ (
                  all_of (map (λ off. lo + off) offs),
                  ground arith,
                  hits-IsHit r cursor lo hi found eligible (omega arith) (omega arith) (omega arith)
                      le (omega arith) offs (λ k m. (good2 k).0 m),
                )
              ]
        ]
      ]

  All-append : (xs ys : List ℕ) → All IsHit xs → All IsHit ys → All IsHit (xs ++ ys)
  All-append [] ys a b = b
  All-append (x ∷ xs) ys a b = (a.0, All-append xs ys a.1 b)

  advance_lem :
      (f : Found) (stuck : Bool) (later : Option (List ℕ))
      → IsGood f
      → (stuck ≡ false → (more : List ℕ) × (later ≡ some more) × All IsHit more)
      → (hits : List ℕ) × (advance f stuck later ≡ some hits) × All IsHit hits
  unfolding advance
  advance_lem (first_of_all hit) stuck later good rest = (hit ∷ [], refl, (good, tt))
  advance_lem (all_of hits) true later good rest = (hits, refl, good)
  advance_lem (all_of hits) false later good rest =
      let (more, e, all) = rest refl in
      (hits ++ more, rw (e, advance), All-append hits more good all)

  -- With a step for each address left the loop ends, and it reports hits alone.
  scan_regions_lem :
      (fuel cursor : ℕ)
      → IsWellFormed q.pattern
      → low ≤ cursor
      → q.range_end - cursor < fuel
      → (hits : List ℕ) × (scan_regions q fuel cursor ≡ some hits) × All IsHit hits
  unfolding scan_regions
  scan_regions_lem zero cursor wf high enough = absurd (omega arith)
  scan_regions_lem (suc fuel) cursor wf high enough = elim (Bool-cases (ltb cursor q.range_end)) [
    | inr done ↦ ([], ground arith, tt)
    | inl more ↦ elim (Option-cases (q.query cursor)) [
      | inl e ↦ ([], ground arith, tt)
      | inr (r, e) ↦ elim (Option-cases (checked_add r.base r.size)) [
        | inl o ↦ ([], ground arith, tt)
        | inr (region_end, o) ↦
            let same : r.base + r.size ≡ region_end = ground arith in
            let (f, ef, good) = search_region_lem r cursor wf high e in
            let here : search_region q r cursor region_end ≡ some f = rw (← same) ef in
            let (hits, eh, all) =
              advance_lem f (leb region_end cursor) (scan_regions q fuel region_end) good
                (λ on. scan_regions_lem fuel region_end wf (ground arith) (ground arith)) in
            (hits, ground (arith, eh), all)
      ]
    ]
  ]

-- A scan for a well-formed pattern always ends and never reads out of a slice, and every address that
-- it reports is a hit in `[start, start + len)`.
pub scan_committed-IsHit :
    (query : Query) (memory : ℕ → ℕ) (start len : ℕ) (p : Pattern)
    (executable_only first_only : Bool)
    → IsWellFormed p
    → (hits : List ℕ) × (scan_committed query memory start len p executable_only first_only
        ≡ some hits)
      × All
          (IsHit
            (record {
              query = query;
              memory = memory;
              pattern = p;
              executable_only = executable_only;
              first_only = first_only;
              range_end = start + len;
            })
            start)
          hits
unfolding scan_committed
scan_committed-IsHit query memory start len p executable_only first_only wf =
    let q : Request = record {
      query = query;
      memory = memory;
      pattern = p;
      executable_only = executable_only;
      first_only = first_only;
      range_end = start + len;
    } in
    let (hits, e, all) =
      scan_regions_lem q start (suc len) start wf (le_refl start) (omega arith) in
    elim (Bool-cases (ltb len (length p.bytes))) [
      | inl short ↦ ([], ground arith, tt)
      | inr long ↦ elim (Bool-cases (ltb (start + len) usize_mod)) [
        | inl fits ↦ (hits, ground arith, all)
        | inr over ↦ ([], ground arith, tt)
      ]
    ]
