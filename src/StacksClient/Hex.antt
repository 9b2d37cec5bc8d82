-- ===== src/StacksClient/Hex.antt =====
-- `parse_hex_u128` of src/stacks/node.rs, over the code points of its text, with the standard
-- library's `trim_start_matches` and `u128::from_str_radix` at radix 16.
pub mod Laws
use Prim.Native.Char.{code}
use Prim.Native.String.{String}
use spox.Prelude.{
  ℕ, ◌+◌, ◌-◌, ◌*◌, ◌^◌, Bool, true, false, Option, none, some, List, [], ◌∷◌, ◌&&◌, nat_beq, leb,
  if◌then◌else◌,
}
use spox.Error.{Result, ok, err, parse_hex_int}

abbrev pub codes : String → List ℕ
codes String.[] = []
codes (String.◌∷◌ c s) = code c ∷ codes s

abbrev pub u128_limit : ℕ
u128_limit = 2 ^ 128

-- Every leading `0x` is taken off, not the first alone.
unfoldable pub trim_start_0x : List ℕ → List ℕ
trim_start_0x (a ∷ b ∷ rest) =
    let trimmed = trim_start_0x rest in
    if nat_beq a b'0' && nat_beq b b'x' then trimmed else a ∷ b ∷ rest
trim_start_0x cs = cs

-- char::to_digit(16)
unfoldable pub to_digit : ℕ → Option ℕ
to_digit c =
    if leb b'0' c && leb c b'9'
    then some (c - b'0')
    else if leb b'a' c && leb c b'f'
    then some (c - b'a' + 10)
    else if leb b'A' c && leb c b'F'
    then some (c - b'A' + 10)
    else none

unfoldable pub parse_digits : ℕ → List ℕ → Result ℕ
unfolding to_digit
parse_digits acc [] = ok acc
parse_digits acc (c ∷ cs) = elim (to_digit c) [
  | none ↦ err (parse_hex_int "invalid digit found in string")
  | some d ↦ elim (leb u128_limit (acc * 16 + d)) [
    | true ↦ err (parse_hex_int "number too large to fit in target type")
    | false ↦ parse_digits (acc * 16 + d) cs
  ]
]

-- An optional plus sign, and at least one digit.
unfoldable pub from_str_radix_16 : List ℕ → Result ℕ
unfolding parse_digits
from_str_radix_16 [] = err (parse_hex_int "cannot parse integer from empty string")
from_str_radix_16 (c ∷ []) = parse_digits 0 (c ∷ [])
from_str_radix_16 (c ∷ d ∷ cs) =
    if nat_beq c b'+' then parse_digits 0 (d ∷ cs) else parse_digits 0 (c ∷ d ∷ cs)

unfoldable pub parse_hex_u128 : List ℕ → Result ℕ
unfolding trim_start_0x from_str_radix_16
parse_hex_u128 hex = from_str_radix_16 (trim_start_0x hex)
