-- ===== src/Decimal/QuotientTests.antt =====
-- Quotients, comparisons and bounds of columns at concrete values.
use credence_backend.Decimal.Parts.{
  half_up, down, ParsedDecimal, parse_decimal_string, format_scaled_int, with_sign,
  apply_division_rounding, to_scaled_magnitude,
}
use credence_backend.Decimal.Operations.{subtract_decimals}
use credence_backend.Decimal.Formats.{Reads}
use credence_backend.Decimal.Rounding.{IsRounded}
use credence_backend.Decimal.Quotients.{
  digit_value, divide_decimals, division_by_zero, assert_within_numeric_bounds, scale_error,
  overflow_error, compare_decimals, less, same,
}
use credence_backend.Decimal.Divisions.{divide_decimals-IsRounded}
use credence_backend.Decimal.NumericBounds.{assert_within_numeric_bounds-decides}
use credence_backend.Decimal.Comparisons.{sign_of, compare_decimals-subtract}
use credence_backend.Base.{
  ℕ, ◌+◌, ◌*◌, ◌^◌, ◌<◌, ◌≤◌, max, Bool, ◌≡◌, refl, true, false, none, some, [], ok, err, length,
  arith,
}
use credence_backend.Base.Text.{codes, digits}

abbrev ten : ParsedDecimal
ten = record { negative = true; int_str = codes "10"; frac_str = [] }

abbrev quarter : ParsedDecimal
quarter = record { negative = false; int_str = codes "0"; frac_str = codes "25" }

ten-parsed : parse_decimal_string "-10" ≡ some ten
unfolding parse_decimal_string
ten-parsed = refl

quarter-parsed : parse_decimal_string "0.25" ≡ some quarter
unfolding parse_decimal_string
quarter-parsed = refl

third : divide_decimals "1" "3" 6 half_up ≡ ok (codes "0.333333")
unfolding divide_decimals parse_decimal_string apply_division_rounding format_scaled_int digits
third = refl

truncated : divide_decimals "-10.5" "4" 0 down ≡ ok (codes "-2")
unfolding divide_decimals parse_decimal_string apply_division_rounding format_scaled_int digits
truncated = refl

by_zero : divide_decimals "1" "0.0" 2 half_up ≡ err (division_by_zero "1" "0.0")
unfolding divide_decimals parse_decimal_string
by_zero = refl

equal_numbers : compare_decimals "1.50" "1.5" ≡ some same
unfolding compare_decimals parse_decimal_string to_scaled_magnitude
equal_numbers = refl

equal_zeros : compare_decimals "-0" "0.0" ≡ some same
unfolding compare_decimals parse_decimal_string to_scaled_magnitude
equal_zeros = refl

below : compare_decimals "-1" "1" ≡ some less
unfolding compare_decimals parse_decimal_string to_scaled_magnitude
below = refl

zero_fits : assert_within_numeric_bounds "0.9" 1 1 ≡ none
unfolding assert_within_numeric_bounds parse_decimal_string
zero_fits = refl

too_fine : assert_within_numeric_bounds "0.123" 4 2 ≡ some (scale_error "0.123" 2 3)
unfolding assert_within_numeric_bounds parse_decimal_string
too_fine = refl

too_big : assert_within_numeric_bounds "00100" 4 2 ≡ some (overflow_error "00100" 4 2)
unfolding assert_within_numeric_bounds parse_decimal_string
too_big = refl

divide_decimals-IsRounded_example :
    (digit_value quarter ≡ 0
      → divide_decimals "-10" "0.25" 2 half_up ≡ err (division_by_zero "-10" "0.25"))
    × (0 < digit_value quarter
        → (q : ℕ) × (divide_decimals "-10" "0.25" 2 half_up
            ≡ ok (with_sign true q (format_scaled_int q 2)))
          × Reads (format_scaled_int q 2) 2 q
          × IsRounded half_up
              (digit_value ten * 10 ^ (2 + length quarter.frac_str))
              (digit_value quarter * 10 ^ length ten.frac_str)
              q)
divide_decimals-IsRounded_example =
    divide_decimals-IsRounded "-10" "0.25" 2 half_up ten quarter ten-parsed quarter-parsed

assert_within_numeric_bounds-decides_example :
    (1 < length quarter.frac_str
      → assert_within_numeric_bounds "0.25" 3 1
        ≡ some (scale_error "0.25" 1 (length quarter.frac_str)))
    × (length quarter.frac_str ≤ 1
        → 10 ^ 3 ≤ to_scaled_magnitude quarter 1
        → assert_within_numeric_bounds "0.25" 3 1 ≡ some (overflow_error "0.25" 3 1))
    × (length quarter.frac_str ≤ 1
        → to_scaled_magnitude quarter 1 < 10 ^ 3
        → assert_within_numeric_bounds "0.25" 3 1 ≡ none)
assert_within_numeric_bounds-decides_example =
    assert_within_numeric_bounds-decides "0.25" 3 1 quarter quarter-parsed (omega arith)
      (omega arith)

compare_decimals-subtract_example :
    (s : Bool) × (m : ℕ) × (compare_decimals "-10" "0.25" ≡ some (sign_of (s, m)))
    × (subtract_decimals "-10" "0.25"
        ≡ some (
            with_sign s m
              (format_scaled_int m (max (length ten.frac_str) (length quarter.frac_str)))))
compare_decimals-subtract_example =
    compare_decimals-subtract "-10" "0.25" ten quarter ten-parsed quarter-parsed
