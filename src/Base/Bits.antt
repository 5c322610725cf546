-- ===== src/Base/Bits.antt =====
-- `&` with a low mask and with an alignment mask, as arithmetic.
use Prim.Native.Nat.{
  ℕ, zero, suc, ◌+◌, ◌-◌, ◌*◌, ◌/◌, ◌%◌, ◌^◌, ◌≤◌, ◌<◌, min, digits, bit_and, bit_and-bitwise,
}
use mathlib.Core.Path.{◌≡◌, refl, sym, ap, ◌∙◌, ◌≡⟨◌⟩◌, ◌∎}
use native.Mathlib.Nat.{pow-suc, one-le-pow, div-lt_iff_lt-mul, div-add-mod', mod-lt, mod-eq_of_lt}
use native.Mathlib.Omega.{arith}

abbrev and_digits : ℕ → ℕ → ℕ → ℕ
and_digits = digits (λ y. 0) min

-- Fuel beyond the first operand changes nothing.
spare : (x y f g : ℕ) → x ≤ min f g → and_digits f x y ≡ and_digits g x y
spare zero y zero zero le = refl
spare zero y (suc f) zero le = refl
spare zero y zero (suc g) le = refl
spare zero y (suc f) (suc g) le = refl
spare (suc x) y zero g le = absurd (omega arith)
spare (suc x) y (suc f) zero le = absurd (omega arith)
spare (suc x) y (suc f) (suc g) le =
    ap (λ (d : ℕ). d * 2 + min (suc x % 2) (y % 2)) (spare (suc x / 2) (y / 2) f g (omega arith))

-- `&` from the lowest digit up.
pub bit_and_step : (x y : ℕ) → bit_and x y ≡ bit_and (x / 2) (y / 2) * 2 + min (x % 2) (y % 2)
bit_and_step zero y = simp bit_and-bitwise (omega arith)
bit_and_step (suc x) y =
    let halves = spare (suc x / 2) (y / 2) x (suc x / 2) (omega arith) in
    simp bit_and-bitwise (ap (λ (d : ℕ). d * 2 + min (suc x % 2) (y % 2)) halves)

-- Each step halves the operand, so a bound on it serves as the induction's counter.
clear_below : (bound x : ℕ) → x < bound → bit_and x 0 ≡ 0
clear_below zero x lt = absurd (omega arith)
clear_below (suc bound) zero lt = refl
clear_below (suc bound) (suc x) lt =
    omega (arith, bit_and_step (suc x) 0, clear_below bound (suc x / 2) (omega arith))

pub bit_and-zero : (x : ℕ) → bit_and x 0 ≡ 0
bit_and-zero x = clear_below (suc x) x (omega arith)

double : (q k : ℕ) → q * 2 ^ suc k ≡ 2 * (q * 2 ^ k)
double q k = grind (arith, pow-suc 2 k)

low_part : (k high low : ℕ) → low < 2 ^ k → bit_and (high * 2 ^ k + low) (2 ^ k - 1) ≡ low
low_part zero high low lt = rw bit_and-zero (omega arith)
low_part (suc k) high low lt =
    let halves = low_part k high (low / 2) (omega (arith, pow-suc 2 k)) in
    let digit = bit_and_step (high * 2 ^ suc k + low) (2 ^ suc k - 1) in
    ground (arith, digit, halves, pow-suc 2 k, double high k)

-- A mask of `k` low bits is the remainder by `2 ^ k`.
pub bit_and_mask : (k x : ℕ) → bit_and x (2 ^ k - 1) ≡ x % 2 ^ k
bit_and_mask k x = ground (arith, low_part k (x / 2 ^ k) (x % 2 ^ k), one-le-pow k 2)

-- A mask whose `k` low bits are clear acts on the quotient alone.
and_high : (k q r m : ℕ) → r < 2 ^ k → bit_and (q * 2 ^ k + r) (m * 2 ^ k) ≡ bit_and q m * 2 ^ k
and_high zero q r m fits = ground (arith, one-le-pow 0 2)
and_high (suc k) q r m fits = ground (
  arith,
  bit_and_step (q * 2 ^ suc k + r) (m * 2 ^ suc k),
  double q k,
  double m k,
  double (bit_and q m) k,
  pow-suc 2 k,
  and_high k q (r / 2) m (omega arith),
)

pow-lt : (k w : ℕ) → k ≤ w → 2 ^ w ≡ 2 ^ (w - k) * 2 ^ k
pow-lt zero w h = ground (arith, one-le-pow 0 2)
pow-lt (suc k) zero h = absurd (omega arith)
pow-lt (suc k) (suc w) h =
    ground (arith, pow-lt k w (omega arith), pow-suc 2 w, double (2 ^ (w - k)) k)

pub two-pow-pos : (k : ℕ) → 0 < 2 ^ k
two-pow-pos k = one-le-pow k 2 (omega arith)

sub-one-mul : (m p : ℕ) → 0 < m → (m - 1) * p ≡ m * p - p
sub-one-mul zero p h = absurd (omega arith)
sub-one-mul (suc m) p h = grind arith

align_mask : (k : ℕ) → k ≤ 64 → 2 ^ 64 - 1 - (2 ^ k - 1) ≡ (2 ^ (64 - k) - 1) * 2 ^ k
align_mask k hk = omega (
  arith,
  pow-lt k 64 hk,
  two-pow-pos k,
  sub-one-mul (2 ^ (64 - k)) (2 ^ k) (two-pow-pos (64 - k)),
)

-- `a & !(2^k - 1)` at 64 bits clears the low bits: the largest multiple of `2 ^ k` up to `a`.
pub bit_and_align :
    (k a : ℕ) → k ≤ 64 → a < 2 ^ 64 → bit_and a (2 ^ 64 - 1 - (2 ^ k - 1)) ≡ a / 2 ^ k * 2 ^ k
bit_and_align k a hk ha =
    let small : a / 2 ^ k < 2 ^ (64 - k) =
      (div-lt_iff_lt-mul (two-pow-pos k)).1 (rw (← pow-lt k 64 hk) ha) in
    bit_and a (2 ^ 64 - 1 - (2 ^ k - 1))
    ≡⟨ ap (bit_and a) (align_mask k hk) ⟩ bit_and a ((2 ^ (64 - k) - 1) * 2 ^ k)
    ≡⟨ ap (λ t. bit_and t ((2 ^ (64 - k) - 1) * 2 ^ k)) (sym (div-add-mod' a (2 ^ k))) ⟩
      bit_and (a / 2 ^ k * 2 ^ k + a % 2 ^ k) ((2 ^ (64 - k) - 1) * 2 ^ k)
    ≡⟨ and_high k (a / 2 ^ k) (a % 2 ^ k) (2 ^ (64 - k) - 1) (mod-lt a (two-pow-pos k)) ⟩
      bit_and (a / 2 ^ k) (2 ^ (64 - k) - 1) * 2 ^ k
    ≡⟨ ap (λ t. t * 2 ^ k) (bit_and_mask (64 - k) (a / 2 ^ k) ∙ mod-eq_of_lt small) ⟩
      a / 2 ^ k * 2 ^ k ∎
