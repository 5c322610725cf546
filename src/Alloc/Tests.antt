-- ===== src/Alloc/Tests.antt =====
-- `nearest_aligned_candidate` of src/alloc.rs on a window around 0x140001000.
use neohook.Base.{ℕ, ◌≤◌, ◌≡◌, refl, some, none, arith}
use neohook.Base.Words.{abs_diff}
use neohook.Alloc.{Window, align_up, align_down, nearest_aligned_candidate}
use neohook.Alloc.Candidate.{Fits, candidate-Fits, candidate_optimal}

abbrev sample : Window
sample = record {
  target = 0x140001000;
  size = 64;
  min_addr = 0x100000000;
  max_addr = 0x180000000;
  align = 0x10000;
}

below_target : nearest_aligned_candidate sample 0x100000000 0x140000100 ≡ some 0x140000000
unfolding nearest_aligned_candidate align_up align_down
below_target = refl

too_small : nearest_aligned_candidate sample 0x140000001 0x140000100 ≡ none
unfolding nearest_aligned_candidate align_up align_down
too_small = refl

candidate-Fits_example : Fits sample 0x100000000 0x140000100 0x140000000
candidate-Fits_example =
    candidate-Fits sample 16 refl (omega arith) (omega arith) 0x100000000 0x140000100 0x140000000
      below_target

sample-Fits : Fits sample 0x100000000 0x140000100 0x130000000
sample-Fits = record {
  after_region = omega arith;
  after_window = omega arith;
  not_low = omega arith;
  not_null = omega arith;
  in_region = omega arith;
  in_window = omega arith;
  on_grid = (0x13000, refl);
}

candidate_optimal_example :
    (c : ℕ) × (nearest_aligned_candidate sample 0x100000000 0x140000100 ≡ some c)
    × (abs_diff c 0x140001000 ≤ abs_diff 0x130000000 0x140001000)
candidate_optimal_example =
    candidate_optimal sample 16 refl (omega arith) (omega arith) 0x100000000 0x140000100 0x130000000
      sample-Fits
