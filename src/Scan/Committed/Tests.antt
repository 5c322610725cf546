-- ===== src/Scan/Committed/Tests.antt =====
-- `scan_committed` of src/scan.rs on a range with a guarded region.
use neohook.Base.{
  ℕ, ◌+◌, ◌%◌, ◌≡◌, refl, true, false, some, none, List, [], ◌∷◌, All, arith, ltb, if◌then◌else◌,
}
use neohook.Base.Regions.{Region, Query, RegionState}
use neohook.Scan.{Pattern, scan, scan_all, find_from, filter_from, matches_at}
use neohook.Scan.Match.{IsWellFormed}
use neohook.Scan.Committed.{
  slice, is_eligible, search_region, advance, scan_regions, scan_committed, scan_range,
}
use neohook.Scan.Committed.Safety.{IsHit, scan_committed-IsHit}

abbrev page : ℕ → ℕ → Region
page base protect = record {
  base = base;
  size = 16;
  allocation = 16;
  state = RegionState.committed;
  protect = protect;
}

-- Three regions of 16 bytes, of which the second is a guard page.
abbrev space : Query
space a =
    if ltb a 32
    then some (page 16 0x20)
    else if ltb a 48
    then some (page 32 0x120)
    else if ltb a 64
    then some (page 48 0x04)
    else none

abbrev memory : ℕ → ℕ
memory a = a % 8

abbrev two : Pattern
two = record { bytes = 3 ∷ 4 ∷ []; mask = true ∷ true ∷ [] }

skips_the_guard_page :
    scan_committed space memory 16 48 two false false ≡ some (19 ∷ 27 ∷ 51 ∷ 59 ∷ [])
unfolding scan_committed scan_regions search_region is_eligible slice advance scan_all filter_from
    matches_at
skips_the_guard_page = refl

executable_only : scan_committed space memory 20 44 two true false ≡ some (27 ∷ [])
unfolding scan_committed scan_regions search_region is_eligible slice advance scan_all filter_from
    matches_at
executable_only = refl

first_only : scan_range space memory 20 44 two ≡ some (some 27)
unfolding scan_range scan_regions search_region is_eligible slice advance scan find_from matches_at
first_only = refl

two-IsWellFormed : IsWellFormed two
two-IsWellFormed = omega arith

scan_committed-IsHit_example :
    (hits : List ℕ) × (scan_committed space memory 16 48 two true false ≡ some hits)
    × All
        (IsHit
          (record {
            query = space;
            memory = memory;
            pattern = two;
            executable_only = true;
            first_only = false;
            range_end = 16 + 48;
          })
          16)
        hits
scan_committed-IsHit_example =
    scan_committed-IsHit space memory 16 48 two true false two-IsWellFormed
