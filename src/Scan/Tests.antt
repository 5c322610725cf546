-- ===== src/Scan/Tests.antt =====
-- Signatures and searches of src/scan.rs at small inputs, taken from its tests.
use Prim.Native.Char.{code}
use Prim.Native.String.{String}
use neohook.Base.{
  ℕ, ◌≡◌, ◌<◌, ◌↔◌, refl, Bool, true, false, Option, some, List, [], ◌∷◌, length, map, All, In,
  arith,
}
use neohook.Base.Results.{ok, err}
use neohook.Scan.{
  Pattern, empty, invalid_token, invalid_mask_char, parse_token, parse_tokens, parse,
  from_code_style, matches_at, find_from, filter_from, scan, scan_all, is_whitespace,
  is_ascii_hexdigit, not_hex, digit_value, from_hex, push_token, split_tokens, split_whitespace,
}
use neohook.Scan.Match.{
  IsWellFormed, IsMatch, IsFirstMatch, IsIncreasing, scan-IsFirstMatch, scan_all_complete,
}
use neohook.Scan.Parse.{parse-IsWellFormed}
use neohook.Scan.RoundTrip.{print, pattern_of, hex_digit, repeat, parse-print, parse_wildcard_run}
use neohook.Scan.CodeStyle.{is_fixed, code_style-ok, code_style-err}

abbrev codes : String → List ℕ
codes String.[] = []
codes (String.◌∷◌ c s) = code c ∷ codes s

abbrev lea : Pattern
lea = record { bytes = 0x48 ∷ 0x8b ∷ 0 ∷ []; mask = true ∷ true ∷ false ∷ [] }

parse-lea : parse (codes "48 8b ?") ≡ ok lea
unfolding parse parse_tokens parse_token split_whitespace split_tokens push_token is_whitespace
    not_hex is_ascii_hexdigit from_hex digit_value
parse-lea = refl

parse-blank : parse (codes "  ") ≡ err empty
unfolding parse parse_tokens split_whitespace split_tokens push_token is_whitespace
parse-blank = refl

parse-bad : parse (codes "48 8bc") ≡ err (invalid_token (codes "8bc"))
unfolding parse parse_tokens parse_token split_whitespace split_tokens push_token is_whitespace
    not_hex is_ascii_hexdigit from_hex digit_value
parse-bad = refl

abbrev haystack : List ℕ
haystack = 0x90 ∷ 0x48 ∷ 0x8b ∷ 0x05 ∷ 0x48 ∷ 0x8b ∷ 0xff ∷ []

scan-lea : scan haystack lea ≡ some (some 1)
unfolding scan find_from matches_at
scan-lea = refl

scan_all-lea : scan_all haystack lea ≡ some (1 ∷ 4 ∷ [])
unfolding scan_all filter_from matches_at
scan_all-lea = refl

lea-IsWellFormed : IsWellFormed lea
lea-IsWellFormed = omega arith

parse-IsWellFormed_example :
    IsWellFormed lea
    × (length lea.bytes ≡ length (split_whitespace (codes "48 8b ?")))
    × All (λ b. b < 256) lea.bytes
parse-IsWellFormed_example = parse-IsWellFormed (codes "48 8b ?") lea parse-lea

scan-IsFirstMatch_example :
    (r : Option ℕ) × (scan haystack lea ≡ some r) × IsFirstMatch lea haystack r
scan-IsFirstMatch_example = scan-IsFirstMatch lea haystack lea-IsWellFormed

scan_all_complete_example :
    (is : List ℕ) × (scan_all haystack lea ≡ some is)
    × IsIncreasing lea haystack 0 is
    × ((k : ℕ) → In k is ↔ IsMatch lea haystack k)
scan_all_complete_example = scan_all_complete lea haystack lea-IsWellFormed

abbrev tokens : List (ℕ × Bool)
tokens = (0x48, true) ∷ (0xff, true) ∷ (7, false) ∷ []

parse-print_example : parse (print tokens) ≡ ok (pattern_of tokens)
parse-print_example = parse-print tokens (λ e. cc) (omega arith)

printed : print tokens ≡ codes "48 FF ? "
unfolding hex_digit
printed = refl

parse_wildcard_run_example : parse (repeat 4) ≡ ok (record { bytes = 0 ∷ []; mask = false ∷ [] })
parse_wildcard_run_example = parse_wildcard_run 3

code_style-ok_example :
    (p : Pattern) × (from_code_style (0x48 ∷ 0 ∷ []) (codes "x?") ≡ ok p)
    × (p.bytes ≡ 0x48 ∷ 0 ∷ [])
    × (p.mask ≡ map is_fixed (codes "x?"))
    × IsWellFormed p
code_style-ok_example = code_style-ok (0x48 ∷ 0 ∷ []) (codes "x?") (omega arith) refl (omega arith)

code_style-err_example : from_code_style (0x48 ∷ 0 ∷ []) (codes "xy") ≡ err (invalid_mask_char b'y')
code_style-err_example =
    code_style-err (0x48 ∷ 0 ∷ []) (codes "x") [] b'y' (omega arith) (omega arith)
