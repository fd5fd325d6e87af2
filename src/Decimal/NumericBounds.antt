-- ===== src/Decimal/NumericBounds.antt =====
-- What the bounds of a column say of a number's value.
use credence_backend.Decimal.Parts.{
  ParsedDecimal, parse_decimal_string, value_from, big_int, to_scaled_magnitude,
}
use credence_backend.Decimal.Formats.{ten_pow_pos}
use credence_backend.Decimal.Rounding.{ten_pow_add, ten_pow_split}
use credence_backend.Decimal.Quotients.{
  strip_zeros, assert_within_numeric_bounds, scale_error, overflow_error,
}
use native.Mathlib.Nat.{pow-suc, mul-le-mul_left, mul-le-mul_right, mul-lt-mul_of_pos_right}
use credence_backend.Base.{
  ℕ, ap, ◌+◌, ◌-◌, ◌*◌, ◌^◌, ◌≤◌, ◌<◌, String, ◌≡◌, refl, inl, inr, true, none, some, List, [], ◌∷◌,
  arith, ltb, nat_eq, nat_beq, all, length, Bool-cases,
}
use credence_backend.Base.Text.{is_digit}

value_from-acc : (acc : ℕ) (xs : List ℕ) → value_from acc xs ≡ acc * 10 ^ length xs + big_int xs
value_from-acc acc [] = omega arith
value_from-acc acc (x ∷ xs) =
    let first = 10 * acc + (x - 48) in
    let whole : value_from acc (x ∷ xs) ≡ first * 10 ^ length xs + big_int xs =
      value_from-acc first xs in
    let head : big_int (x ∷ xs) ≡ (10 * 0 + (x - 48)) * 10 ^ length xs + big_int xs =
      value_from-acc (10 * 0 + (x - 48)) xs in
    let power : acc * 10 ^ length (x ∷ xs) ≡ acc * (10 ^ length xs * 10) =
      ap (λ e. acc * e) (pow-suc 10 (length xs)) in
    omega (arith, whole, head, power)

big_int-head : (x : ℕ) (xs : List ℕ) → big_int (x ∷ xs) ≡ (x - 48) * 10 ^ length xs + big_int xs
big_int-head x xs =
    let whole : big_int (x ∷ xs) ≡ (10 * 0 + (x - 48)) * 10 ^ length xs + big_int xs =
      value_from-acc (10 * 0 + (x - 48)) xs in
    omega (arith, whole)

big_int-bound : (xs : List ℕ) → all is_digit xs ≡ true → big_int xs < 10 ^ length xs
big_int-bound [] h = omega arith
big_int-bound (x ∷ xs) h =
    let (digit, rest) : (x - 48 ≤ 9) × (all is_digit xs ≡ true) = ground arith in
    omega (
      arith,
      big_int-head x xs,
      big_int-bound xs rest,
      pow-suc 10 (length xs),
      mul-le-mul_right {m = x - 48} {n = 9} (10 ^ length xs) digit,
    )

leading : (x : ℕ) (xs : List ℕ) → b'0' < x → 10 ^ length xs ≤ big_int (x ∷ xs)
leading x xs h = omega (
  arith,
  big_int-head x xs,
  mul-le-mul_right {m = 1} {n = x - 48} (10 ^ length xs) (omega (arith, h)),
)

ten_pow_mono : (a b : ℕ) → a ≤ b → 10 ^ a ≤ 10 ^ b
ten_pow_mono a b h =
    let more : a + (b - a) ≡ b = omega arith in
    omega (
      arith,
      ap (λ e. 10 ^ e) more,
      ten_pow_add a (b - a),
      mul-le-mul_left {m = 1} {n = 10 ^ (b - a)} (10 ^ a) (ten_pow_pos (b - a)),
    )

strip_zeros-digits :
    (xs : List ℕ)
    → all is_digit xs ≡ true
    → (all is_digit (strip_zeros xs) ≡ true) × (big_int (strip_zeros xs) ≡ big_int xs)
strip_zeros-digits [] h = (refl, refl)
strip_zeros-digits (x ∷ xs) h = ground (arith, strip_zeros-digits xs)

-- More digits than `k` without the leading zeros: a value of at least the power.
strip_zeros-large :
    (xs : List ℕ) (k : ℕ)
    → all is_digit xs ≡ true
    → k < length (strip_zeros xs)
    → 10 ^ k ≤ big_int xs
strip_zeros-large [] k h less = omega (arith, less)
strip_zeros-large (x ∷ xs) k h less = elim (Bool-cases (nat_beq x b'0')) [
  | inl zero_digit ↦ ground (arith, strip_zeros-large xs k)
  | inr nonzero ↦ ground (arith, leading x xs, ten_pow_mono k (length xs))
]

strip_zeros-small :
    (xs : List ℕ) (k : ℕ)
    → all is_digit xs ≡ true
    → length (strip_zeros xs) ≤ k
    → big_int xs < 10 ^ k
strip_zeros-small xs k h less =
    let (all_digits, value) = strip_zeros-digits xs h in
    omega (
      arith,
      value,
      big_int-bound (strip_zeros xs) all_digits,
      ten_pow_mono (length (strip_zeros xs)) k less,
    )

parsed-digits :
    (value : String) (p : ParsedDecimal)
    → parse_decimal_string value ≡ some p
    → (all is_digit p.int_str ≡ true) × (all is_digit p.frac_str ≡ true)
unfolding parse_decimal_string
parsed-digits value p h = ground (arith, h)

-- The value in units of the scale is below the power of the precision exactly when the integer part is
-- below the power of what the precision leaves.
scaled-below :
    (p : ParsedDecimal) (precision scale : ℕ)
    → all is_digit p.frac_str ≡ true
    → scale ≤ precision
    → length p.frac_str ≤ scale
    → (big_int p.int_str < 10 ^ (precision - scale) → to_scaled_magnitude p scale < 10 ^ precision)
      × (10 ^ (precision - scale) ≤ big_int p.int_str
          → 10 ^ precision ≤ to_scaled_magnitude p scale)
unfolding to_scaled_magnitude
scaled-below p precision scale frac_digits h fits =
    let int = big_int p.int_str in
    let rest = 10 ^ (scale - length p.frac_str) in
    let whole : 10 ^ precision ≡ 10 ^ (precision - scale) * 10 ^ scale =
      ten_pow_split precision scale h in
    let fraction : 10 ^ scale ≡ rest * 10 ^ length p.frac_str =
      ten_pow_split scale (length p.frac_str) fits in
    (
      (λ less. omega (
        arith,
        whole,
        mul-le-mul_right {m = int + 1} {n = 10 ^ (precision - scale)} (10 ^ scale)
            (omega (arith, less)),
        mul-lt-mul_of_pos_right {m = big_int p.frac_str} {n = 10 ^ length p.frac_str} {k = rest}
            (big_int-bound p.frac_str frac_digits) (ten_pow_pos (scale - length p.frac_str)),
        fraction,
      )),
      λ more. omega (
        arith,
        whole,
        mul-le-mul_right {m = 10 ^ (precision - scale)} {n = int} (10 ^ scale) more,
      ),
    )

-- A number in a column NUMERIC(precision, scale), with a valid scale: more fractional digits than the
-- scale are the scale error with their number. Otherwise the number, in units of the scale, is the
-- overflow error when it has more digits than the precision, and no error when it has not: no
-- representable number is refused, however many zeros lead it, and no other is let through.
pub assert_within_numeric_bounds-decides :
    (value : String) (precision scale : ℕ) (p : ParsedDecimal)
    → parse_decimal_string value ≡ some p
    → 0 < precision
    → scale ≤ precision
    → (scale < length p.frac_str
        → assert_within_numeric_bounds value precision scale
          ≡ some (scale_error value scale (length p.frac_str)))
      × (length p.frac_str ≤ scale
          → 10 ^ precision ≤ to_scaled_magnitude p scale
          → assert_within_numeric_bounds value precision scale
            ≡ some (overflow_error value precision scale))
      × (length p.frac_str ≤ scale
          → to_scaled_magnitude p scale < 10 ^ precision
          → assert_within_numeric_bounds value precision scale ≡ none)
unfolding assert_within_numeric_bounds
assert_within_numeric_bounds-decides value precision scale p parsed pos h =
    let (int_digits, frac_digits) = parsed-digits value p parsed in
    let room = precision - scale in
    elim (Bool-cases (ltb room (length (strip_zeros p.int_str)))) [
      | inl long ↦
          let large : 10 ^ room ≤ big_int p.int_str =
            strip_zeros-large p.int_str room int_digits (ground arith) in
          (
            (λ longer. ground arith),
            (λ fits over. ground arith),
            λ fits below.
                ground (arith, (scaled-below p precision scale frac_digits h fits).1 large),
          )
      | inr short ↦
          let small : big_int p.int_str < 10 ^ room =
            strip_zeros-small p.int_str room int_digits (ground arith) in
          (
            (λ longer. ground arith),
            (λ fits over.
                ground (arith, (scaled-below p precision scale frac_digits h fits).0 small)),
            λ fits below. ground arith,
          )
    ]
