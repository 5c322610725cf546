-- ===== src/Base/Words.antt =====
-- Machine words as native numbers: the 64-bit `usize` of an x86_64 build with its checked,
-- saturating and wrapping operations, and signed values as bit patterns.
use Prim.Native.Nat.{ℕ, ◌+◌, ◌-◌, ◌/◌, ◌%◌, ◌^◌}
use mathlib.Core.Option.{Option, none, some}
use neohook.Base.Tests.{ltb, leb, if◌then◌else◌}

abbrev pub usize_mod : ℕ
usize_mod = 2 ^ 64

abbrev pub usize_max : ℕ
usize_max = 2 ^ 64 - 1

abbrev pub checked_add : ℕ → ℕ → Option ℕ
checked_add a b = if ltb (a + b) usize_mod then some (a + b) else none

abbrev pub checked_sub : ℕ → ℕ → Option ℕ
checked_sub a b = if leb b a then some (a - b) else none

abbrev pub saturating_add : ℕ → ℕ → ℕ
saturating_add a b = if ltb (a + b) usize_mod then a + b else usize_max

abbrev pub abs_diff : ℕ → ℕ → ℕ
abs_diff a b = if leb a b then b - a else a - b

-- `!x` on a 64-bit word.
abbrev pub not64 : ℕ → ℕ
not64 x = usize_max - x

abbrev pub wrap64 : ℕ → ℕ
wrap64 x = x % usize_mod

-- A `w`-bit two's complement pattern, sign-extended to 64 bits.
abbrev pub sign_extend : ℕ → ℕ → ℕ
sign_extend w x = if ltb x (2 ^ w / 2) then x else x + (usize_mod - 2 ^ w)
