-- ===== src/Scan/Committed.antt =====
-- `scan_committed` of src/scan.rs and the functions over it: the search in the regions of a range of
-- memory. `VirtualQuery` and the bytes of memory are parameters.
pub mod Safety
pub mod Tests
use neohook.Base.{
  ℕ, zero, suc, ◌+◌, ◌-◌, min, max, bit_and, Bool, true, false, not, ◌&&◌, ◌||◌, Option, none, some,
  List, [], ◌∷◌, ◌++◌, map, length, ltb, leb, ◌==◌, if◌then◌else◌,
}
use neohook.Base.Options.{◌>>=◌}
use neohook.Base.Words.{checked_add}
use neohook.Base.Regions.{Region, Query, is_committed, page_noaccess_or_guard, page_executable}
use neohook.Scan.{Pattern, scan, scan_all}

-- What the loop does not change.
pub record Request : Type 0 where
  pub query : Query
  pub memory : ℕ → ℕ
  pub pattern : Pattern
  pub executable_only : Bool
  pub first_only : Bool
  pub range_end : ℕ

-- `from_raw_parts(start, len)`
pub slice : (ℕ → ℕ) → ℕ → ℕ → List ℕ
slice memory start zero = []
slice memory start (suc len) = memory start ∷ slice memory (start + 1) len

pub is_eligible : Request → Region → Bool
is_eligible q r =
    is_committed r.state
    && bit_and r.protect page_noaccess_or_guard == 0
    && (not q.executable_only || not (bit_and r.protect page_executable == 0))

pub data Found : Type 0 where
  all_of : List ℕ → Found
  first_of_all : ℕ → Found

-- The search in the part of one region that lies in the range; `first_of_all` is the early return.
pub search_region : Request → Region → ℕ → ℕ → Option Found
search_region q r cursor region_end =
    let scan_start = max cursor r.base in
    let scan_end = min region_end q.range_end in
    let haystack = slice q.memory scan_start (scan_end - scan_start) in
    if is_eligible q r
      && (ltb scan_start scan_end && leb (length q.pattern.bytes) (scan_end - scan_start))
    then if q.first_only
      then (do
        hit ← scan haystack q.pattern
        elim hit [ some off ↦ some (first_of_all (scan_start + off)) | none ↦ some (all_of []) ])
      else (do
        hits ← scan_all haystack q.pattern
        some (all_of (map (λ off. scan_start + off) hits)))
    else some (all_of [])

-- The end of one round: the early return, the guard against a query that does not progress, or the
-- rounds that follow.
pub advance : Found → Bool → Option (List ℕ) → Option (List ℕ)
advance (first_of_all hit) stuck later = some (hit ∷ [])
advance (all_of hits) true later = some hits
advance (all_of hits) false none = none
advance (all_of hits) false (some more) = some (hits ++ more)

-- The `while cursor < range_end` loop; `none` means that the fuel ran out or a slice was indexed out
-- of range.
pub scan_regions : Request → ℕ → ℕ → Option (List ℕ)
scan_regions q zero cursor = none
scan_regions q (suc fuel) cursor = elim (ltb cursor q.range_end) [
  | false ↦ some []
  | true ↦ elim (q.query cursor) [
    | none ↦ some []
    | some r ↦ elim (checked_add r.base r.size) [
      | none ↦ some []
      | some region_end ↦
          let later = scan_regions q fuel region_end in
          elim (search_region q r cursor region_end) [
            | none ↦ none
            | some found ↦ advance found (leb region_end cursor) later
          ]
    ]
  ]
]

-- `range_end` is `start + len`, which has been checked; the fuel is a step for each address.
pub scan_committed : Query → (ℕ → ℕ) → ℕ → ℕ → Pattern → Bool → Bool → Option (List ℕ)
scan_committed query memory start len p executable_only first_only =
    let plen = length p.bytes in
    if plen == 0 || ltb len plen then some [] else elim (checked_add start len) [
      | none ↦ some []
      | some range_end ↦
          scan_regions
            (record {
              query = query;
              memory = memory;
              pattern = p;
              executable_only = executable_only;
              first_only = first_only;
              range_end = range_end;
            })
            (suc len) start
    ]

abbrev first : List ℕ → Option ℕ
first [] = none
first (a ∷ rest) = some a

pub scan_range : Query → (ℕ → ℕ) → ℕ → ℕ → Pattern → Option (Option ℕ)
unfolding scan_committed
scan_range query memory start len p =
    if start == 0
    then some none
    else (do hits ← scan_committed query memory start len p false true; some (first hits))

pub scan_range_all : Query → (ℕ → ℕ) → ℕ → ℕ → Pattern → Option (List ℕ)
unfolding scan_committed
scan_range_all query memory start len p =
    if start == 0 then some [] else scan_committed query memory start len p false false
