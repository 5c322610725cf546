-- ===== src/Alloc/Align.antt =====
-- `align_up` and `align_down` of src/alloc.rs on a power of two: the neighbours of an address on
-- the alignment grid.
use native.Mathlib.Nat.{
  mul-le-mul_right, div-mul-le_self, le-div_iff_mul-le, div-lt_iff_lt-mul, lt-div-mul-add, suc-mul,
}
use neohook.Base.{ℕ, suc, ◌+◌, ◌-◌, ◌*◌, ◌/◌, ◌^◌, ◌≤◌, ◌<◌, ◌≡◌, arith}
use neohook.Base.Bits.{bit_and_align, two-pow-pos}
use neohook.Base.Words.{wrap64, usize_max}
use neohook.Alloc.{align_up, align_down}

abbrev pub IsMultiple : ℕ → ℕ → Type 0
IsMultiple p m = (q : ℕ) × (m ≡ q * p)

pub floor-le : (p a : ℕ) → a / p * p ≤ a
floor-le p a = div-mul-le_self a p

-- No multiple lies strictly between the floor and the address.
pub le-floor : (p q a : ℕ) → 0 < p → q * p ≤ a → q * p ≤ a / p * p
le-floor p q a pos h = mul-le-mul_right p ((le-div_iff_mul-le pos).1 h)

pub align_down_lem : (k a : ℕ) → k ≤ 64 → a < 2 ^ 64 → align_down a (2 ^ k) ≡ a / 2 ^ k * 2 ^ k
unfolding align_down
align_down_lem k a hk ha = bit_and_align k a hk ha

pub align_up_wrapped :
    (k a : ℕ)
    → k ≤ 64
    → align_up a (2 ^ k) ≡ wrap64 (wrap64 (a + 2 ^ k) + usize_max) / 2 ^ k * 2 ^ k
unfolding align_up
align_up_wrapped k a hk = bit_and_align k _ hk (omega arith)

pub align_up_lem :
    (k a : ℕ) → k ≤ 64 → a + 2 ^ k < 2 ^ 64 → align_up a (2 ^ k) ≡ (a + 2 ^ k - 1) / 2 ^ k * 2 ^ k
align_up_lem k a hk ha = rw (align_up_wrapped k a hk) (ground (arith, two-pow-pos k))

ceil-le : (p q a : ℕ) → 0 < p → a ≤ q * p → (a + p - 1) / p * p ≤ q * p
ceil-le p q a pos h = mul-le-mul_right p (lt-suc p q a pos h)
  where
    lt-suc : (p q a : ℕ) → 0 < p → a ≤ q * p → (a + p - 1) / p ≤ q
    lt-suc p q a pos h =
        let below : (a + p - 1) / p < suc q =
          (div-lt_iff_lt-mul pos).1 (omega (arith, suc-mul q p)) in
        omega arith

le-ceil : (p a : ℕ) → 0 < p → a ≤ (a + p - 1) / p * p
le-ceil p a pos = omega (arith, lt-div-mul-add {a = a + p - 1} pos)

pub align_down-le : (k a : ℕ) → k ≤ 64 → a < 2 ^ 64 → align_down a (2 ^ k) ≤ a
align_down-le k a hk ha = rw (align_down_lem k a hk ha) (floor-le (2 ^ k) a)

pub le-align_up : (k a : ℕ) → k ≤ 64 → a + 2 ^ k < 2 ^ 64 → a ≤ align_up a (2 ^ k)
le-align_up k a hk ha = rw (align_up_lem k a hk ha) (le-ceil (2 ^ k) a (two-pow-pos k))

-- Nothing aligned lies between an address and its two neighbours on the grid.
pub align_down_greatest :
    (k a m : ℕ) → k ≤ 64 → a < 2 ^ 64 → IsMultiple (2 ^ k) m → m ≤ a → m ≤ align_down a (2 ^ k)
align_down_greatest k a m hk ha (q, e) h =
    rw (align_down_lem k a hk ha) (rw e (le-floor (2 ^ k) q a (two-pow-pos k) (rw (← e) h)))

pub align_up_least :
    (k a m : ℕ)
    → k ≤ 64
    → a + 2 ^ k < 2 ^ 64
    → IsMultiple (2 ^ k) m
    → a ≤ m
    → align_up a (2 ^ k) ≤ m
align_up_least k a m hk ha (q, e) h =
    rw (align_up_lem k a hk ha) (rw e (ceil-le (2 ^ k) q a (two-pow-pos k) (rw (← e) h)))

pub align_down-IsMultiple :
    (k a : ℕ) → k ≤ 64 → a < 2 ^ 64 → IsMultiple (2 ^ k) (align_down a (2 ^ k))
align_down-IsMultiple k a hk ha = (a / 2 ^ k, align_down_lem k a hk ha)

pub align_up-IsMultiple : (k a : ℕ) → k ≤ 64 → IsMultiple (2 ^ k) (align_up a (2 ^ k))
align_up-IsMultiple k a hk =
    (wrap64 (wrap64 (a + 2 ^ k) + usize_max) / 2 ^ k, align_up_wrapped k a hk)
