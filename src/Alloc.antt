-- ===== src/Alloc.antt =====
-- src/alloc.rs, x86_64: where a trampoline may stand. Addresses are 64-bit words; arithmetic that
-- the source leaves unchecked wraps, as in a release build. `VirtualQuery` and `VirtualAlloc` are
-- parameters of the search.
pub mod Align
pub mod Candidate
pub mod Search
pub mod Tests
use neohook.Base.{
  ℕ, suc, zero, ◌+◌, ◌-◌, ◌≤◌, min, max, bit_and, Bool, true, false, ◌&&◌, ◌||◌, Option, none, some,
  List, [], ◌∷◌, ◌++◌, ltb, leb, if◌then◌else◌,
}
use neohook.Base.Options.{◌>>=◌}
use neohook.Base.Words.{not64, wrap64, checked_sub, saturating_add, abs_diff, usize_max}
use neohook.Base.Regions.{Region, Query, is_free}

pub align_up : ℕ → ℕ → ℕ
align_up addr align = bit_and (wrap64 (wrap64 (addr + align) + usize_max)) (not64 (align - 1))

pub align_down : ℕ → ℕ → ℕ
align_down addr align = bit_and addr (not64 (align - 1))

-- `x.clamp(lo, hi)`
abbrev pub clamp : ℕ → ℕ → ℕ → ℕ
clamp x lo hi = if ltb x lo then lo else if ltb hi x then hi else x

-- The parameters that every region of one search shares.
pub record Window : Type 0 where
  pub target : ℕ
  pub size : ℕ
  pub min_addr : ℕ
  pub max_addr : ℕ
  pub align : ℕ

-- The body of the `for cand in [...]` loop.
pub consider : ℕ → ℕ → ℕ → Option ℕ → ℕ → Option ℕ
consider target lo hi best cand =
    if leb lo cand && leb cand hi
    then elim best [
      | some b ↦ if leb (abs_diff b target) (abs_diff cand target) then some b else some cand
      | none ↦ some cand
    ]
    else best

-- The loop over the two neighbours and the fallback, over the addresses that they name.
pub pick : ℕ → ℕ → ℕ → ℕ → ℕ → ℕ → Option ℕ
unfolding consider
pick target lo hi below above snapped =
    elim (consider target lo hi (consider target lo hi none below) above) [
      | some b ↦ some b
      | none ↦ if leb snapped hi then some snapped else none
    ]

-- The part of `nearest_aligned_candidate` after the bounds `lo` and `hi` are known.
pub nearest_within : Window → ℕ → ℕ → Option ℕ
unfolding pick
nearest_within w lo hi =
    let ideal = clamp w.target lo hi in
    pick w.target lo hi (align_down ideal w.align) (align_up ideal w.align) (align_up lo w.align)

abbrev pub lowest : Window → ℕ → ℕ
lowest w region_start = max (max region_start w.min_addr) (max w.align 1)

pub nearest_aligned_candidate : Window → ℕ → ℕ → Option ℕ
unfolding nearest_within
nearest_aligned_candidate w region_start region_end = do
  region_hi ← checked_sub region_end w.size
  window_hi ← checked_sub w.max_addr w.size
  let hi = min region_hi window_hi
  if ltb hi (lowest w region_start) then none else nearest_within w (lowest w region_start) hi
