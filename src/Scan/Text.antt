-- ===== src/Scan/Text.antt =====
-- What `Pattern::parse` of src/scan.rs uses of Rust's texts, over code points.
use neohook.Base.{
  ℕ, ◌+◌, ◌-◌, ◌*◌, Bool, true, not, ◌&&◌, ◌||◌, List, [], ◌∷◌, leb, ◌==◌, if◌then◌else◌,
}

-- The code points with the property `White_Space`.
unfoldable pub is_whitespace : ℕ → Bool
is_whitespace c =
    c == 0x20
    || (leb 9 c && leb c 13)
    || c == 0x85
    || c == 0xa0
    || c == 0x1680
    || (leb 0x2000 c && leb c 0x200a)
    || c == 0x2028
    || c == 0x2029
    || c == 0x202f
    || c == 0x205f
    || c == 0x3000

abbrev pub is_wildcard : ℕ → Bool
is_wildcard c = c == b'?'

unfoldable pub is_ascii_hexdigit : ℕ → Bool
is_ascii_hexdigit c =
    (leb b'0' c && leb c b'9') || (leb b'a' c && leb c b'f') || (leb b'A' c && leb c b'F')

abbrev pub all_bytes : (ℕ → Bool) → List ℕ → Bool
all_bytes p [] = true
all_bytes p (c ∷ cs) = p c && all_bytes p cs

unfoldable pub not_hex : List ℕ → Bool
not_hex token = not (all_bytes is_ascii_hexdigit token)

-- The value of a hexadecimal digit.
unfoldable pub digit_value : ℕ → ℕ
digit_value c = if leb c b'9' then c - b'0' else if leb c b'F' then c - b'A' + 10 else c - b'a' + 10

-- `u8::from_str_radix(token, 16)` on at most two digits.
unfoldable pub from_hex : ℕ → List ℕ → ℕ
from_hex acc [] = acc
from_hex acc (c ∷ cs) = from_hex (acc * 16 + digit_value c) cs

unfoldable pub push_token : List ℕ → List (List ℕ) → List (List ℕ)
push_token [] ts = ts
push_token (c ∷ cs) ts = (c ∷ cs) ∷ ts

-- The token that the text begins with, which is empty before whitespace, and the tokens after it.
unfoldable pub split_tokens : List ℕ → List ℕ × List (List ℕ)
split_tokens [] = ([], [])
split_tokens (c ∷ cs) =
    let (t, ts) = split_tokens cs in if is_whitespace c then ([], push_token t ts) else (c ∷ t, ts)

unfoldable pub split_whitespace : List ℕ → List (List ℕ)
split_whitespace s = let (t, ts) = split_tokens s in push_token t ts
