-- ===== src/Decimal/Tests.antt =====
-- Decimal texts at concrete values.
use credence_backend.Decimal.Parts.{
  half_up, half_even, ParsedDecimal, parse_decimal_string, format_scaled_int, with_sign,
  apply_division_rounding, to_scaled_magnitude,
}
use credence_backend.Decimal.Operations.{
  int_value, round_to_scale, add_decimals, subtract_decimals, multiply_decimals,
  is_valid_positive_decimal,
}
use credence_backend.Decimal.Formats.{Reads}
use credence_backend.Decimal.Rounding.{IsRounded, round_to_scale-IsRounded}
use credence_backend.Base.{
  ℕ, ◌-◌, ◌*◌, ◌^◌, ◌<◌, ◌≤◌, String, ◌≡◌, refl, true, false, none, some, length,
}
use credence_backend.Base.Text.{codes, digits}

abbrev price : String
price = "-10.545"

abbrev parsed : ParsedDecimal
parsed = record { negative = true; int_str = codes "10"; frac_str = codes "545" }

banker : round_to_scale price 2 half_even ≡ some (codes "-10.54")
unfolding round_to_scale parse_decimal_string apply_division_rounding format_scaled_int digits
banker = refl

no_number : round_to_scale "1e5" 2 half_up ≡ none
unfolding round_to_scale parse_decimal_string
no_number = refl

sum : add_decimals "-5" "3" ≡ some (codes "-2")
unfolding add_decimals parse_decimal_string to_scaled_magnitude format_scaled_int digits
sum = refl

zero_difference : subtract_decimals "5" "5" ≡ some (codes "0")
unfolding subtract_decimals parse_decimal_string to_scaled_magnitude format_scaled_int digits
zero_difference = refl

product : multiply_decimals "10.55" "2.5" ≡ some (codes "26.375")
unfolding multiply_decimals parse_decimal_string format_scaled_int digits
product = refl

not_positive : is_valid_positive_decimal "0.00" ≡ false
unfolding is_valid_positive_decimal parse_decimal_string
not_positive = refl

price-parsed : parse_decimal_string price ≡ some parsed
unfolding parse_decimal_string
price-parsed = refl

round_to_scale-IsRounded_example :
    (q : ℕ) × (round_to_scale price 2 half_even ≡ some (with_sign true q (format_scaled_int q 2)))
    × Reads (format_scaled_int q 2) 2 q
    × (2 < length parsed.frac_str
        → IsRounded half_even (int_value parsed) (10 ^ (length parsed.frac_str - 2)) q)
    × (length parsed.frac_str ≤ 2 → q ≡ int_value parsed * 10 ^ (2 - length parsed.frac_str))
round_to_scale-IsRounded_example = round_to_scale-IsRounded price 2 half_even parsed price-parsed
