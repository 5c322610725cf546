-- ===== src/Scan.antt =====
-- src/scan.rs: byte signatures and their search in a slice. A text is the list of its code points;
-- an index out of range, which would panic, is `none`.
mod Text
unfoldable pub use Text.*
pub mod Parse
pub mod RoundTrip
pub mod CodeStyle
pub mod Match
pub mod Committed
pub mod Tests
use neohook.Base.{
  ℕ, zero, suc, ◌+◌, ◌-◌, Bool, true, false, ◌||◌, Option, none, some, List, [], ◌∷◌, length,
  get_elem?, ltb, leb, ◌==◌, if◌then◌else◌,
}
use neohook.Base.Results.{Result, ok, err, ◌>>=◌}

pub data PatternError : Type 0 where
  empty : PatternError
  invalid_token : List ℕ → PatternError
  invalid_mask_char : ℕ → PatternError
  mask_length_mismatch : ℕ → ℕ → PatternError

pub record Pattern : Type 0 where
  pub bytes : List ℕ
  pub mask : List Bool

-- One token: a wildcard, or a byte of one or two hexadecimal digits.
pub parse_token : List ℕ → Result PatternError (ℕ × Bool)
parse_token token =
    if all_bytes is_wildcard token
    then ok (0, false)
    else if ltb 2 (length token) || not_hex token
    then err (invalid_token token)
    else ok (from_hex 0 token, true)

pub parse_tokens : List (List ℕ) → Result PatternError Pattern
parse_tokens [] = ok (record { bytes = []; mask = [] })
parse_tokens (t ∷ ts) =
    let rest = parse_tokens ts in
    do
      (byte, fixed) ← parse_token t
      p ← rest
      ok (record { bytes = byte ∷ p.bytes; mask = fixed ∷ p.mask })

pub parse : List ℕ → Result PatternError Pattern
parse signature = do
  p ← parse_tokens (split_whitespace signature)
  if length p.bytes == 0 then err empty else ok p

pub mask_flags : List ℕ → Result PatternError (List Bool)
mask_flags [] = ok []
mask_flags (c ∷ cs) =
    let rest = mask_flags cs in
    if c == b'x' || c == b'X'
    then (do flags ← rest; ok (true ∷ flags))
    else if c == b'?'
    then (do flags ← rest; ok (false ∷ flags))
    else err (invalid_mask_char c)

pub from_code_style : List ℕ → List ℕ → Result PatternError Pattern
from_code_style pattern mask =
    if length pattern == 0
    then err empty
    else if length pattern == length mask
    then (do flags ← mask_flags mask; ok (record { bytes = pattern; mask = flags }))
    else err (mask_length_mismatch (length pattern) (length mask))

-- The loop of `matches_at` over the zipped bytes and flags, from position `offset + j`.
pub agrees : List ℕ → List Bool → List ℕ → ℕ → Option Bool
agrees (want ∷ bytes) (fixed ∷ mask) haystack at =
    let rest = agrees bytes mask haystack (at + 1) in
    elim fixed [
      | false ↦ rest
      | true ↦ elim (get_elem? haystack at) [
        | none ↦ none
        | some byte ↦ elim (byte == want) [ true ↦ rest | false ↦ some false ]
      ]
    ]
agrees _ _ haystack at = some true

pub matches_at : Pattern → List ℕ → ℕ → Option Bool
unfolding agrees
matches_at p haystack offset = agrees p.bytes p.mask haystack offset

-- `(i..i + left).find(..)`
pub find_from : Pattern → List ℕ → ℕ → ℕ → Option (Option ℕ)
find_from p haystack i zero = some none
find_from p haystack i (suc left) =
    let rest = find_from p haystack (i + 1) left in
    elim (matches_at p haystack i) [ none ↦ none | some true ↦ some (some i) | some false ↦ rest ]

pub scan : List ℕ → Pattern → Option (Option ℕ)
scan haystack p =
    let plen = length p.bytes in
    if plen == 0 || ltb (length haystack) plen
    then some none
    else find_from p haystack 0 (length haystack - plen + 1)

-- `(i..i + left).filter(..).collect()`
pub filter_from : Pattern → List ℕ → ℕ → ℕ → Option (List ℕ)
filter_from p haystack i zero = some []
filter_from p haystack i (suc left) =
    let rest = filter_from p haystack (i + 1) left in
    elim (matches_at p haystack i) [
      | none ↦ none
      | some true ↦ elim rest [ none ↦ none | some is ↦ some (i ∷ is) ]
      | some false ↦ rest
    ]

pub scan_all : List ℕ → Pattern → Option (List ℕ)
scan_all haystack p =
    let plen = length p.bytes in
    if plen == 0 || ltb (length haystack) plen
    then some []
    else filter_from p haystack 0 (length haystack - plen + 1)
