-- ===== src/Scan/Parse.antt =====
-- `Pattern::parse` and `Pattern::from_code_style` of src/scan.rs.
use neohook.Base.{ℕ, ◌≤◌, ◌<◌, ◌≡◌, subst, Bool, true, List, [], ◌∷◌, length, All, arith}
use neohook.Base.Results.{ok, >>=-eq-ok}
use neohook.Scan.{
  Pattern, parse_token, parse_tokens, parse, is_ascii_hexdigit, all_bytes, not_hex, digit_value,
  from_hex, split_whitespace,
}
use neohook.Scan.Match.{IsWellFormed}

digit_value-lt : (c : ℕ) → is_ascii_hexdigit c ≡ true → digit_value c < 16
unfolding is_ascii_hexdigit digit_value
digit_value-lt c h = ground arith

from_hex-lt :
    (t : List ℕ) → length t ≤ 2 → all_bytes is_ascii_hexdigit t ≡ true → from_hex 0 t < 256
unfolding from_hex
from_hex-lt [] l h = omega arith
from_hex-lt (a ∷ []) l h = ground (arith, digit_value-lt a)
from_hex-lt (a ∷ b ∷ []) l h = ground (arith, digit_value-lt a, digit_value-lt b)
from_hex-lt (a ∷ b ∷ c ∷ t) l h = absurd (omega arith)

parse_token-lt : (t : List ℕ) (b : ℕ) (f : Bool) → parse_token t ≡ ok (b, f) → b < 256
unfolding parse_token not_hex
parse_token-lt t b f e = ground (arith, from_hex-lt t)

-- What `from_code_style` and `parse` promise of the pattern that they return.
parse_tokens-cons :
    (t : List ℕ) (ts : List (List ℕ)) (p : Pattern)
    → parse_tokens (t ∷ ts) ≡ ok p
    → (b : ℕ) × (f : Bool) × (q : Pattern) × (parse_token t ≡ ok (b, f))
      × (parse_tokens ts ≡ ok q)
      × (p ≡ record { bytes = b ∷ q.bytes; mask = f ∷ q.mask })
unfolding parse_tokens
parse_tokens-cons t ts p e =
    let (bf, et, e') = >>=-eq-ok (parse_token t) _ e in
    let (q, eq, e'') = >>=-eq-ok (parse_tokens ts) _ e' in
    (bf.0, bf.1, q, et, eq, ground (arith, e''))

parse_tokens_lem :
    (ts : List (List ℕ)) (p : Pattern)
    → parse_tokens ts ≡ ok p
    → (length p.bytes ≡ length ts) × (length p.mask ≡ length p.bytes) × All (λ b. b < 256) p.bytes
parse_tokens_lem [] p e = unfold parse_tokens in ground arith
parse_tokens_lem (t ∷ ts) p e =
    let (b, f, q, et, eq, same) = parse_tokens-cons t ts p e in
    let (l, m, all) = parse_tokens_lem ts q eq in
    rw same (omega arith, omega arith, (parse_token-lt t b f et, all))

-- A signature that parses has one byte, below 256, and one flag for each token, and at least one.
pub parse-IsWellFormed :
    (s : List ℕ) (p : Pattern)
    → parse s ≡ ok p
    → IsWellFormed p × (length p.bytes ≡ length (split_whitespace s)) × All (λ b. b < 256) p.bytes
unfolding parse
parse-IsWellFormed s p e =
    let (q, eq, e') = >>=-eq-ok (parse_tokens (split_whitespace s)) _ e in
    let same : (q ≡ p) × (0 < length q.bytes) = ground arith in
    let (l, m, all) = parse_tokens_lem (split_whitespace s) q eq in
    subst
      (λ t.
        IsWellFormed t
        × (length t.bytes ≡ length (split_whitespace s))
        × All (λ b. b < 256) t.bytes)
      same.0 (record { same_length = m; not_empty = same.1 }, l, all)
