-- ===== src/Scan/RoundTrip.antt =====
-- `Pattern::parse` of src/scan.rs reads back what a printer of its syntax writes. The printer
-- stands for the signatures that users write; it is no part of the program.
use neohook.Base.{
  ℕ, zero, suc, ◌+◌, ◌-◌, ◌/◌, ◌%◌, ◌<◌, ◌≡◌, ◌≢◌, refl, Bool, true, false, List, [], ◌∷◌, ◌++◌,
  All, arith, ltb, if◌then◌else◌,
}
use neohook.Base.Results.{ok}
use neohook.Scan.{
  Pattern, parse_token, parse_tokens, parse, is_whitespace, is_wildcard, is_ascii_hexdigit,
  all_bytes, not_hex, digit_value, from_hex, push_token, split_tokens, split_whitespace,
}

-- A digit below 16 as the source's signatures spell it, and a byte as two of them.
unfoldable pub hex_digit : ℕ → ℕ
hex_digit d = if ltb d 10 then b'0' + d else b'A' + (d - 10)

abbrev pub spell : ℕ × Bool → List ℕ
spell (b, true) = hex_digit (b / 16) ∷ hex_digit (b % 16) ∷ []
spell (b, false) = b'?' ∷ []

-- A signature in the syntax of IDA: each token followed by a space.
abbrev pub print : List (ℕ × Bool) → List ℕ
print [] = []
print (t ∷ ts) = spell t ++ b' ' ∷ print ts

abbrev pub pattern_of : List (ℕ × Bool) → Pattern
pattern_of [] = record { bytes = []; mask = [] }
pattern_of ((b, f) ∷ ts) = record {
  bytes = (if f then b else 0) ∷ (pattern_of ts).bytes;
  mask = f ∷ (pattern_of ts).mask;
}

hex_digit_lem :
    (d : ℕ)
    → d < 16
    → (is_ascii_hexdigit (hex_digit d) ≡ true)
      × (is_whitespace (hex_digit d) ≡ false)
      × (is_wildcard (hex_digit d) ≡ false)
      × (digit_value (hex_digit d) ≡ d)
unfolding hex_digit is_ascii_hexdigit is_whitespace digit_value
hex_digit_lem d h = ground arith

space : is_whitespace b' ' ≡ true
unfolding is_whitespace
space = refl

wildcard : is_whitespace b'?' ≡ false
unfolding is_whitespace
wildcard = refl

split_whitespace-spell :
    (b : ℕ) (f : Bool) (s : List ℕ)
    → b < 256
    → split_whitespace (spell (b, f) ++ b' ' ∷ s) ≡ spell (b, f) ∷ split_whitespace s
unfolding split_whitespace split_tokens push_token
split_whitespace-spell b true s h =
    ground (arith, space, hex_digit_lem (b / 16), hex_digit_lem (b % 16))
split_whitespace-spell b false s h = ground (arith, space, wildcard)

parse_token-spell :
    (b : ℕ) (f : Bool) → b < 256 → parse_token (spell (b, f)) ≡ ok (if f then b else 0, f)
unfolding parse_token not_hex from_hex
parse_token-spell b true h = ground (arith, hex_digit_lem (b / 16), hex_digit_lem (b % 16))
parse_token-spell b false h = refl

abbrev pub IsByteList : List (ℕ × Bool) → Type 0
IsByteList = All (λ t. t.0 < 256)

parse_tokens-print :
    (ts : List (ℕ × Bool))
    → IsByteList ts
    → parse_tokens (split_whitespace (print ts)) ≡ ok (pattern_of ts)
unfolding parse_tokens
parse_tokens-print [] h = unfold split_whitespace split_tokens push_token in refl
parse_tokens-print ((b, f) ∷ ts) h = rw (
  split_whitespace-spell b f (print ts) h.0,
  parse_token-spell b f h.0,
  parse_tokens-print ts h.1,
)

-- Every non-empty signature of bytes and wildcards, printed as two hexadecimal digits or `?` with a
-- space after each, parses back to its bytes and flags, with 0 at the wildcards.
pub parse-print :
    (ts : List (ℕ × Bool)) → ts ≢ [] → IsByteList ts → parse (print ts) ≡ ok (pattern_of ts)
unfolding parse
parse-print [] ne h = absurd (ne refl)
parse-print (t ∷ ts) ne h = ground (arith, parse_tokens-print (t ∷ ts) h)

pub repeat : ℕ → List ℕ
repeat zero = []
repeat (suc n) = b'?' ∷ repeat n

split_tokens-repeat : (n : ℕ) → split_tokens (repeat n) ≡ (repeat n, [])
unfolding split_tokens repeat
split_tokens-repeat zero = refl
split_tokens-repeat (suc n) = ground (arith, split_tokens-repeat n, wildcard)

all-repeat : (n : ℕ) → all_bytes is_wildcard (repeat n) ≡ true
unfolding repeat
all-repeat zero = refl
all-repeat (suc n) = ground (arith, all-repeat n)

-- A run of question marks of any length, not only `?` and `??`, is read as one wildcard byte.
pub parse_wildcard_run :
    (n : ℕ) → parse (repeat (suc n)) ≡ ok (record { bytes = 0 ∷ []; mask = false ∷ [] })
unfolding parse parse_tokens parse_token split_whitespace push_token repeat
parse_wildcard_run n = ground (arith, split_tokens-repeat (suc n), all-repeat (suc n))
