-- ===== src/Alloc/Search.antt =====
-- `TrampolineAlloc::alloc_nearby` and `alloc_nearby_trampoline` of src/alloc.rs: the walk over the
-- regions of the window, the order of the attempts and the attempts themselves. `VirtualAlloc` is
-- a parameter: the address that it gives for a requested one, `none` for a refusal.
mod Order
mod Attempts
mod Walk
pub mod Placement
pub mod Tests
use neohook.Base.{
  ℕ, zero, suc, ◌+◌, ◌-◌, ◌*◌, min, max, ◌&&◌, Bool, true, false, Option, none, some, List, [], ◌∷◌,
  ◌++◌, ltb, leb, ◌==◌, if◌then◌else◌,
}
use mathlib.Core.Option
use neohook.Base.Words.{wrap64, saturating_add, abs_diff}
use neohook.Base.Regions.{Region, Query, is_free}
use neohook.Alloc.{Window, nearest_aligned_candidate}

-- The fields of `SYSTEM_INFO` that the search reads.
pub record SystemInfo : Type 0 where
  pub granularity : ℕ
  pub lowest_address : ℕ
  pub highest_address : ℕ

-- How far from the target the search looks: `i32::MAX` less 1 MB and the size.
abbrev pub reach : ℕ → ℕ
reach size = 0x7fff_ffff - wrap64 (1024 * 1024 + size)

pub window : SystemInfo → ℕ → ℕ → Window
window si target size = record {
  target = target;
  size = size;
  min_addr = max (max (target - reach size) si.lowest_address) si.granularity;
  max_addr = min (saturating_add target (reach size)) si.highest_address;
  align = si.granularity;
}

-- What one region of the walk adds to the candidates.
pub offer : Window → Region → List ℕ
offer w r =
    if is_free r.state && leb w.size r.size
    then elim (nearest_aligned_candidate w r.base (saturating_add r.base r.size)) [
      | some c ↦ c ∷ []
      | none ↦ []
    ]
    else []

-- The `while current_addr < max_addr` loop; `none` means that the fuel ran out.
pub walk : Query → Window → ℕ → ℕ → Option (List ℕ)
walk query w zero current = none
walk query w (suc fuel) current = elim (ltb current w.max_addr) [
  | false ↦ some []
  | true ↦ elim (query current) [
    | none ↦ some []
    | some r ↦
        let next = saturating_add r.base r.size in
        elim (leb next current) [
          | true ↦ some (offer w r)
          | false ↦ Option.map (λ rest. offer w r ++ rest) (walk query w fuel next)
        ]
  ]
]

-- `sort_by_key`, which is stable, by the distance to the target.
pub insert_by_distance : ℕ → ℕ → List ℕ → List ℕ
insert_by_distance t x [] = x ∷ []
insert_by_distance t x (y ∷ ys) =
    if leb (abs_diff x t) (abs_diff y t) then x ∷ y ∷ ys else y ∷ insert_by_distance t x ys

pub sort_by_distance : ℕ → List ℕ → List ℕ
sort_by_distance t [] = []
sort_by_distance t (x ∷ xs) = insert_by_distance t x (sort_by_distance t xs)

-- The address that is returned, and the allocations that were given back by `VirtualFree`.
pub record Attempt : Type 0 where
  pub result : Option ℕ
  pub released : List ℕ

pub attempt : (ℕ → Option ℕ) → Window → List ℕ → Attempt
attempt reserve w [] = record { result = none; released = [] }
attempt reserve w (c ∷ cs) =
    let rest = attempt reserve w cs in
    elim (reserve c) [
      | none ↦ rest
      | some start ↦
          if leb w.min_addr start && leb (saturating_add start w.size) w.max_addr
          then record { result = some start; released = [] }
          else record { result = rest.result; released = start ∷ rest.released }
    ]

abbrev no_attempt : Attempt
no_attempt = record { result = none; released = [] }

-- The walk makes at most one step for each address of the window.
pub alloc_nearby : Query → (ℕ → Option ℕ) → SystemInfo → ℕ → ℕ → Option Attempt
alloc_nearby query reserve si target size =
    let w = window si target size in
    let found = walk query w (suc (w.max_addr - w.min_addr)) w.min_addr in
    if size == 0
    then some no_attempt
    else Option.map (λ cs. attempt reserve w (sort_by_distance target cs)) found

pub alloc_nearby_trampoline : Query → (ℕ → Option ℕ) → SystemInfo → ℕ → ℕ → Option Attempt
alloc_nearby_trampoline query reserve si target size =
    if target == 0 then some no_attempt else alloc_nearby query reserve si target size
