-- ===== src/Decimal/Operations.antt =====
-- The operations of src/lib/decimalMath.ts that round, add, subtract and multiply.
use credence_backend.Decimal.Parts.{
  RoundingMode, ParsedDecimal, parse_decimal_string, big_int, format_scaled_int, with_sign,
  to_scaled_magnitude, apply_division_rounding,
}
use credence_backend.Base.{
  ℕ, ◌+◌, ◌-◌, ◌*◌, ◌/◌, ◌%◌, ◌^◌, max, String, Bool, true, false, not, Option, none, some, List,
  ◌++◌, if◌then◌else◌, ltb, leb, length,
}

-- The value of a parsed number with all its fractional digits, as an integer.
abbrev pub int_value : ParsedDecimal → ℕ
int_value p = big_int p.int_str * 10 ^ length p.frac_str + big_int p.frac_str

abbrev pub round_parsed : ParsedDecimal → ℕ → RoundingMode → List ℕ
round_parsed p scale mode =
    if leb (length p.frac_str) scale
    then (let scaled = to_scaled_magnitude p scale in
        with_sign p.negative scaled (format_scaled_int scaled scale))
    else (let factor = 10 ^ (length p.frac_str - scale) in
        let rounded =
          apply_division_rounding (int_value p / factor) (int_value p % factor) factor mode in
        with_sign p.negative rounded (format_scaled_int rounded scale))

-- A scale is a natural number.
unfoldable pub round_to_scale : String → ℕ → RoundingMode → Option (List ℕ)
round_to_scale value scale mode = elim (parse_decimal_string value) [
  | none ↦ none
  | some p ↦ some (round_parsed p scale mode)
]

unfoldable pub is_valid_positive_decimal : String → Bool
is_valid_positive_decimal value = elim (parse_decimal_string value) [
  | none ↦ false
  | some p ↦ if p.negative then false else ltb 0 (big_int (p.int_str ++ p.frac_str))
]

abbrev pub differ : Bool → Bool → Bool
differ a b = elim a [ true ↦ not b | false ↦ b ]

unfoldable pub multiply_decimals : String → String → Option (List ℕ)
multiply_decimals a b = elim (parse_decimal_string a) [
  | none ↦ none
  | some pa ↦ elim (parse_decimal_string b) [
    | none ↦ none
    | some pb ↦
        let product = big_int (pa.int_str ++ pa.frac_str) * big_int (pb.int_str ++ pb.frac_str) in
        let scale = length pa.frac_str + length pb.frac_str in
        some (with_sign (differ pa.negative pb.negative) product (format_scaled_int product scale))
  ]
]

-- The sum of two signed integers.
abbrev pub signed_add : Bool × ℕ → Bool × ℕ → Bool × ℕ
signed_add (s, m) (t, n) =
    if differ s t then (if leb n m then (s, m - n) else (t, n - m)) else (s, m + n)

-- The text of a sum of both numbers, the second with the given sign.
abbrev pub sum_text : ParsedDecimal → Bool → ParsedDecimal → List ℕ
sum_text pa negative_b pb =
    let scale = max (length pa.frac_str) (length pb.frac_str) in
    let sum =
      signed_add (pa.negative, to_scaled_magnitude pa scale)
        (negative_b, to_scaled_magnitude pb scale) in
    with_sign sum.0 sum.1 (format_scaled_int sum.1 scale)

unfoldable pub add_decimals : String → String → Option (List ℕ)
add_decimals a b = elim (parse_decimal_string a) [
  | none ↦ none
  | some pa ↦ elim (parse_decimal_string b) [
    | none ↦ none
    | some pb ↦ some (sum_text pa pb.negative pb)
  ]
]

unfoldable pub subtract_decimals : String → String → Option (List ℕ)
subtract_decimals a b = elim (parse_decimal_string a) [
  | none ↦ none
  | some pa ↦ elim (parse_decimal_string b) [
    | none ↦ none
    | some pb ↦ some (sum_text pa (not pb.negative) pb)
  ]
]
