-- ===== src/Base/Regions.antt =====
-- `VirtualQuery`: what the operating system reports of the region that holds an address. The
-- answer is a parameter of every definition that uses it.
use Prim.Native.Nat.{ℕ}
use mathlib.Core.Bool.{Bool, true, false}
use mathlib.Core.Option.{Option}

pub data RegionState : Type 0 where
  committed reserved free : RegionState

-- The fields of `MEMORY_BASIC_INFORMATION` that the program reads.
pub record Region : Type 0 where
  pub base : ℕ
  pub size : ℕ
  pub allocation : ℕ
  pub state : RegionState
  pub protect : ℕ

-- A failed query (the call returned 0) is `none`.
abbrev pub Query : Type 0
Query = ℕ → Option Region

abbrev pub is_committed : RegionState → Bool
is_committed RegionState.committed = true
is_committed _ = false

abbrev pub is_free : RegionState → Bool
is_free RegionState.free = true
is_free _ = false

-- The documented protection constants of the Windows API.
abbrev pub page_noaccess_or_guard : ℕ
page_noaccess_or_guard = 0x101

abbrev pub page_executable : ℕ
page_executable = 0xf0

abbrev pub page_readable : ℕ
page_readable = 0xee
