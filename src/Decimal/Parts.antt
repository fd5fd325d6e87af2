-- ===== src/Decimal/Parts.antt =====
-- src/lib/decimalMath.ts: reading a decimal text and writing one, and the rounding of a division.
use credence_backend.Base.{
  ℕ, suc, ◌+◌, ◌-◌, ◌*◌, ◌/◌, ◌%◌, ◌^◌, String, Bool, not, ◌&&◌, Option, none, some, List, [], ◌∷◌,
  ◌++◌, if◌then◌else◌, ltb, leb, ◌==◌, nat_eq, nat_beq, all, length, replicate, drop,
}
use credence_backend.Base.Text.{codes, trim, is_digit, starts_with, digits}

pub data RoundingMode : Type 0 where
  half_up half_down half_even down up : RoundingMode

abbrev pub default_rounding_mode : RoundingMode
default_rounding_mode = half_up

pub record ParsedDecimal : Type 0 where
  pub negative : Bool
  pub int_str : List ℕ
  pub frac_str : List ℕ

-- The text up to the first point, and what follows the point.
abbrev pub split_point : List ℕ → List ℕ × Option (List ℕ)
split_point [] = ([], none)
split_point (c ∷ cs) =
    let rest = split_point cs in if nat_beq c b'.' then ([], some cs) else (c ∷ rest.0, rest.1)

abbrev pub or_nothing : Option (List ℕ) → List ℕ
or_nothing none = []
or_nothing (some cs) = cs

-- The expression `^\d+(\.\d*)?$` on the text without its sign.
abbrev pub is_decimal : List ℕ → Bool
is_decimal abs =
    let (int, frac) = split_point abs in
    not (length int == 0) && all is_digit int && all is_digit (or_nothing frac)

unfoldable pub parse_decimal_string : String → Option ParsedDecimal
parse_decimal_string value =
    let trimmed = trim (codes value) in
    let negative = starts_with trimmed (codes "-") in
    let abs = if negative then drop 1 trimmed else trimmed in
    if is_decimal abs
    then some (record {
      negative = negative;
      int_str = (split_point abs).0;
      frac_str = or_nothing (split_point abs).1;
    })
    else none

-- `BigInt` on digits; the empty text is 0.
abbrev pub value_from : ℕ → List ℕ → ℕ
value_from acc [] = acc
value_from acc (c ∷ cs) = value_from (10 * acc + (c - 48)) cs

abbrev pub big_int : List ℕ → ℕ
big_int cs = value_from 0 cs

-- `toString` of a big integer, which has at most one digit more than its value.
abbrev pub to_text : ℕ → List ℕ
to_text n = digits (suc n) n

abbrev pub pad_start : ℕ → List ℕ → List ℕ
pad_start n cs = replicate (n - length cs) b'0' ++ cs

unfoldable pub format_scaled_int : ℕ → ℕ → List ℕ
format_scaled_int value scale =
    if scale == 0
    then to_text value
    else to_text (value / 10 ^ scale) ++ b'.' ∷ pad_start scale (to_text (value % 10 ^ scale))

-- A minus sign before every negative number but 0.
abbrev pub with_sign : Bool → ℕ → List ℕ → List ℕ
with_sign negative value formatted =
    if negative && not (value == 0) then b'-' ∷ formatted else formatted

unfoldable pub to_scaled_magnitude : ParsedDecimal → ℕ → ℕ
to_scaled_magnitude p scale =
    big_int p.int_str * 10 ^ scale + big_int p.frac_str * 10 ^ (scale - length p.frac_str)

unfoldable pub apply_division_rounding : ℕ → ℕ → ℕ → RoundingMode → ℕ
apply_division_rounding truncated remainder divisor down = truncated
apply_division_rounding truncated remainder divisor up =
    if ltb 0 remainder then truncated + 1 else truncated
apply_division_rounding truncated remainder divisor half_up =
    if leb divisor (remainder * 2) then truncated + 1 else truncated
apply_division_rounding truncated remainder divisor half_down =
    if ltb divisor (remainder * 2) then truncated + 1 else truncated
apply_division_rounding truncated remainder divisor half_even =
    if ltb divisor (remainder * 2)
    then truncated + 1
    else (if ltb (remainder * 2) divisor
        then truncated
        else (if truncated % 2 == 0 then truncated else truncated + 1))
