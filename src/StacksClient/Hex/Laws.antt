-- ===== src/StacksClient/Hex/Laws.antt =====
-- `parse_hex_u128` reads back what a node prints: digits in either case, with the prefix or without.
use spox.Prelude.{
  ℕ, ◌+◌, ◌-◌, ◌*◌, ◌≤◌, ◌<◌, Bool, some, List, [], ◌∷◌, All, ltb, if◌then◌else◌, map, ◌≡◌, refl,
  ap, ◌∙◌, arith,
}
use spox.Error.{Result, ok, err, parse_hex_int}
use spox.StacksClient.Hex.{
  u128_limit, trim_start_0x, to_digit, parse_digits, from_str_radix_16, parse_hex_u128,
}

-- The character of a digit, in capitals or not.
abbrev pub digit_char : Bool → ℕ → ℕ
digit_char capital d =
    if ltb d 10 then b'0' + d else if capital then b'A' + (d - 10) else b'a' + (d - 10)

-- The number that a list of digits stands for, after those of `acc`.
abbrev pub value : ℕ → List ℕ → ℕ
value acc [] = acc
value acc (d ∷ ds) = value (acc * 16 + d) ds

to_digit-digit_char : (u : Bool) (d : ℕ) → d < 16 → to_digit (digit_char u d) ≡ some d
unfolding to_digit
to_digit-digit_char u d h = ground arith

digit_range : (u : Bool) (d : ℕ) → d < 16 → (48 ≤ digit_char u d) × (digit_char u d ≤ 102)
digit_range u d h = ground arith

value_ge : (acc : ℕ) (ds : List ℕ) → acc ≤ value acc ds
value_ge acc [] = omega arith
value_ge acc (d ∷ ds) = omega (arith, value_ge (acc * 16 + d) ds)

abbrev pub checked : ℕ → Result ℕ
checked n =
    if ltb n u128_limit then ok n else err (parse_hex_int "number too large to fit in target type")

parse_digits-map :
    (u : Bool) (acc : ℕ) (ds : List ℕ)
    → All (λ d. d < 16) ds
    → acc < u128_limit
    → parse_digits acc (map (digit_char u) ds) ≡ checked (value acc ds)
unfolding parse_digits
parse_digits-map u acc [] h lt = ground arith
parse_digits-map u acc (d ∷ ds) h lt = ground (
  arith,
  to_digit-digit_char u d h.0,
  parse_digits-map u (acc * 16 + d) ds h.1,
  value_ge (acc * 16 + d) ds,
)

trim_start_0x-digits :
    (u : Bool) (ds : List ℕ)
    → All (λ d. d < 16) ds
    → trim_start_0x (map (digit_char u) ds) ≡ map (digit_char u) ds
unfolding trim_start_0x
trim_start_0x-digits u [] h = refl
trim_start_0x-digits u (c ∷ []) h = refl
trim_start_0x-digits u (c ∷ d ∷ ds) h = ground (arith, digit_range u d h.1.0)

from_str_radix_16-digits :
    (u : Bool) (d : ℕ) (ds : List ℕ)
    → All (λ d. d < 16) (d ∷ ds)
    → from_str_radix_16 (map (digit_char u) (d ∷ ds)) ≡ checked (value 0 (d ∷ ds))
unfolding from_str_radix_16
from_str_radix_16-digits u d [] h = parse_digits-map u 0 (d ∷ []) h (omega arith)
from_str_radix_16-digits u d (c ∷ ds) h =
    ground (arith, digit_range u d h.0, parse_digits-map u 0 (d ∷ c ∷ ds) h)

-- The digits of a number, in either case and with or without the prefix `0x`, parse to that number
-- if it is below 2 ^ 128, and are refused as too large otherwise.
pub parse_hex_u128-digits :
    (u : Bool) (d : ℕ) (ds : List ℕ)
    → All (λ d. d < 16) (d ∷ ds)
    → (parse_hex_u128 (map (digit_char u) (d ∷ ds)) ≡ checked (value 0 (d ∷ ds)))
      × (parse_hex_u128 (b'0' ∷ b'x' ∷ map (digit_char u) (d ∷ ds)) ≡ checked (value 0 (d ∷ ds)))
unfolding parse_hex_u128
parse_hex_u128-digits u d ds h = (
  ap from_str_radix_16 (trim_start_0x-digits u (d ∷ ds) h) ∙ from_str_radix_16-digits u d ds h,
  ap from_str_radix_16 (trim_start_0x-digits u (d ∷ ds) h) ∙ from_str_radix_16-digits u d ds h,
)
