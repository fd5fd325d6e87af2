-- ===== src/Decimal/Quotients.antt =====
-- The operations of src/lib/decimalMath.ts that divide, compare and check the bounds of a column.
use credence_backend.Decimal.Parts.{
  RoundingMode, ParsedDecimal, parse_decimal_string, big_int, format_scaled_int, with_sign,
  to_scaled_magnitude, apply_division_rounding,
}
use credence_backend.Decimal.Operations.{differ}
use credence_backend.Base.{
  ℕ, ◌+◌, ◌-◌, ◌*◌, ◌/◌, ◌%◌, ◌^◌, max, String, Bool, true, false, Option, none, some, List, [],
  ◌∷◌, ◌++◌, if◌then◌else◌, ltb, leb, ◌==◌, nat_eq, nat_beq, length, Result, ok, err,
}

pub data DecimalError : Type 0 where
  invalid_decimal : String → DecimalError
  division_by_zero : String → String → DecimalError
  invalid_precision invalid_scale : ℕ → DecimalError
  scale_error overflow_error : String → ℕ → ℕ → DecimalError

-- The digits of a number without its point, as an integer.
abbrev pub digit_value : ParsedDecimal → ℕ
digit_value p = big_int (p.int_str ++ p.frac_str)

-- The dividend and the divisor of the division of integers: the power of ten stands on the side that
-- the sign of the shift `scale + fractions_b - fractions_a` says.
abbrev pub scaled_operands : ℕ → ParsedDecimal → ParsedDecimal → ℕ × ℕ
scaled_operands scale pa pb =
    let up = scale + length pb.frac_str in
    let down = length pa.frac_str in
    if leb down up
    then (digit_value pa * 10 ^ (up - down), digit_value pb)
    else (digit_value pa, digit_value pb * 10 ^ (down - up))

abbrev pub rounded_quotient : ℕ × ℕ → RoundingMode → ℕ
rounded_quotient (n, d) mode = apply_division_rounding (n / d) (n % d) d mode

abbrev pub quotient_text : ℕ → RoundingMode → ParsedDecimal → ParsedDecimal → List ℕ
quotient_text scale mode pa pb =
    let rounded = rounded_quotient (scaled_operands scale pa pb) mode in
    with_sign (differ pa.negative pb.negative) rounded (format_scaled_int rounded scale)

-- A scale is a natural number.
unfoldable pub divide_decimals : String → String → ℕ → RoundingMode → Result DecimalError (List ℕ)
divide_decimals a b scale mode = elim (parse_decimal_string a) [
  | none ↦ err (invalid_decimal a)
  | some pa ↦ elim (parse_decimal_string b) [
    | none ↦ err (invalid_decimal b)
    | some pb ↦
        if digit_value pb == 0
        then err (division_by_zero a b)
        else ok (quotient_text scale mode pa pb)
  ]
]

-- The text without its leading zeros.
abbrev pub strip_zeros : List ℕ → List ℕ
strip_zeros [] = []
strip_zeros (c ∷ cs) = let rest = strip_zeros cs in if nat_beq c b'0' then rest else c ∷ cs

-- The error that is thrown, if any. A precision and a scale are natural numbers.
unfoldable pub assert_within_numeric_bounds : String → ℕ → ℕ → Option DecimalError
assert_within_numeric_bounds value precision scale =
    if precision == 0
    then some (invalid_precision precision)
    else (if ltb precision scale
        then some (invalid_scale scale)
        else elim (parse_decimal_string value) [
          | none ↦ some (invalid_decimal value)
          | some p ↦
              if ltb scale (length p.frac_str)
              then some (scale_error value scale (length p.frac_str))
              else (if ltb (precision - scale) (length (strip_zeros p.int_str))
                  then some (overflow_error value precision scale)
                  else none)
        ])

-- The results -1, 0 and 1.
pub data Comparison : Type 0 where
  less same greater : Comparison

-- Whether the first signed integer is less than the second; 0 has either sign.
abbrev pub signed_lt : Bool × ℕ → Bool × ℕ → Bool
signed_lt (false, m) (false, n) = ltb m n
signed_lt (false, m) (true, n) = false
signed_lt (true, m) (false, n) = ltb 0 (m + n)
signed_lt (true, m) (true, n) = ltb n m

abbrev pub compare_signed : Bool × ℕ → Bool × ℕ → Comparison
compare_signed x y = if signed_lt x y then less else (if signed_lt y x then greater else same)

unfoldable pub compare_decimals : String → String → Option Comparison
compare_decimals a b = elim (parse_decimal_string a) [
  | none ↦ none
  | some pa ↦ elim (parse_decimal_string b) [
    | none ↦ none
    | some pb ↦
        let scale = max (length pa.frac_str) (length pb.frac_str) in
        some (
          compare_signed (pa.negative, to_scaled_magnitude pa scale)
            (pb.negative, to_scaled_magnitude pb scale))
  ]
]
