-- ===== src/Alloc/Search/Tests.antt =====
-- `alloc_nearby` of src/alloc.rs on an address space with two free regions.
use neohook.Base.{
  ℕ, ◌+◌, ◌-◌, suc, ◌≤◌, ◌≡◌, ◌⊎◌, refl, Option, some, none, List, [], ◌++◌, All, arith, ltb,
  if◌then◌else◌,
}
use neohook.Base.Regions.{Region, Query, RegionState}
use neohook.Alloc.{align_up, align_down, nearest_aligned_candidate}
use neohook.Alloc.Search.{
  SystemInfo, Attempt, window, walk, offer, attempt, insert_by_distance, sort_by_distance,
  alloc_nearby,
}
use neohook.Alloc.Search.Placement.{
  FitsFree, alloc_nearby_total, alloc_nearby_reachable, alloc_nearby_nearest, alloc_nearby_no_leak,
}
use neohook.Alloc.Search.Attempts.{IsChosen, granted, answer}

abbrev region : ℕ → ℕ → RegionState → Region
region base size state = record {
  base = base;
  size = size;
  allocation = base;
  state = state;
  protect = 0;
}

-- Free below 0x140000000, a module of 1 MB, and free above it.
abbrev space : Query
space a =
    if ltb a 0x140000000
    then some (region 0x10000 0x13fff0000 RegionState.free)
    else if ltb a 0x140100000
    then some (region 0x140000000 0x100000 RegionState.committed)
    else some (region 0x140100000 0x7ffe00000000 RegionState.free)

abbrev info : SystemInfo
info = record { granularity = 0x10000; lowest_address = 0x10000; highest_address = 0x7ffffffeffff }

-- The system refuses the start of the free region above the module.
abbrev reserve : ℕ → Option ℕ
reserve c = if ltb c 0x140000000 then some c else none

abbrev placed : Attempt
placed = record { result = some 0x13fff0000; released = [] }

finds_below : alloc_nearby space reserve info 0x140001000 64 ≡ some placed
unfolding alloc_nearby walk window offer attempt sort_by_distance insert_by_distance
    nearest_aligned_candidate align_up align_down
finds_below = refl

alloc_nearby_total_example :
    (a : Attempt) × (alloc_nearby space reserve info 0x140001000 64 ≡ some a)
alloc_nearby_total_example = alloc_nearby_total space reserve info 0x140001000 64

alloc_nearby_reachable_example :
    (0x13fff0000 + 64 ≤ 0x140001000 + 0x7fff_ffff)
    × (0x140001000 ≤ 0x13fff0000 + 0x7fff_ffff)
    × (0x10000 ≤ 0x13fff0000)
alloc_nearby_reachable_example =
    alloc_nearby_reachable space reserve info 0x140001000 64 0x13fff0000 placed finds_below refl
      (omega arith) (omega arith)

alloc_nearby_nearest_example :
    let w = window info 0x140001000 64 in
    (cs : List ℕ) × (walk space w (suc (w.max_addr - w.min_addr)) w.min_addr ≡ some cs)
    × All (FitsFree space w) cs
    × IsChosen reserve w cs 0x13fff0000
alloc_nearby_nearest_example =
    alloc_nearby_nearest space reserve info 0x140001000 64 0x13fff0000 16 placed refl (omega arith)
      (omega arith) finds_below refl

alloc_nearby_no_leak_example :
    let w = window info 0x140001000 64 in
    (cs : List ℕ) × (walk space w (suc (w.max_addr - w.min_addr)) w.min_addr ≡ some cs)
    × (tried : List ℕ) × (rest : List ℕ) × (sort_by_distance 0x140001000 cs ≡ tried ++ rest)
    × (granted reserve w tried ≡ placed.released ++ answer reserve w placed)
    × ((rest ≡ []) ⊎ ((start : ℕ) × (placed.result ≡ some start)))
alloc_nearby_no_leak_example =
    alloc_nearby_no_leak space reserve info 0x140001000 64 placed (omega arith) finds_below
