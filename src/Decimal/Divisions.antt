-- ===== src/Decimal/Divisions.antt =====
-- How far a quotient is from the exact one.
use credence_backend.Decimal.Parts.{
  RoundingMode, half_up, half_down, half_even, down, up, ParsedDecimal, parse_decimal_string,
  format_scaled_int, with_sign,
}
use credence_backend.Decimal.Operations.{differ}
use credence_backend.Decimal.Formats.{Reads, format_scaled_int-Reads, ten_pow_pos}
use credence_backend.Decimal.Rounding.{IsRounded, rounding-IsRounded, ten_pow_split}
use credence_backend.Decimal.Quotients.{
  digit_value, scaled_operands, rounded_quotient, divide_decimals, division_by_zero,
}
use native.Mathlib.Nat.{
  mul-le-mul_right, mul-lt-mul_of_pos_right, eq_of_mul-eq-mul_right, mul_assoc, mul-pos,
}
use credence_backend.Base.{
  ℕ, ap, sym, ◌∙◌, ◌+◌, ◌-◌, ◌*◌, ◌^◌, ◌≤◌, ◌<◌, String, ◌≡◌, refl, inl, inr, false, some, ok, err,
  arith, leb, ◌==◌, nat_eq, length, Bool-cases,
}

ten_pow_scaled : (n hi lo : ℕ) → lo ≤ hi → n * 10 ^ hi ≡ n * 10 ^ (hi - lo) * 10 ^ lo
ten_pow_scaled n hi lo h =
    ap (λ x. n * x) (ten_pow_split hi lo h) ∙ sym (mul_assoc n (10 ^ (hi - lo)) (10 ^ lo))

-- A common factor changes nothing.
IsRounded-scaled :
    (mode : RoundingMode) (n d q k : ℕ)
    → 0 < k
    → IsRounded mode n d q
    → IsRounded mode (n * k) (d * k) q
IsRounded-scaled down n d q k pos (low, high) = (
  omega (arith, mul-le-mul_right {m = d * q} {n = n} k low),
  omega (arith, mul-lt-mul_of_pos_right {m = n} {n = d * q + d} {k = k} high pos),
)
IsRounded-scaled up n d q k pos (low, high) = (
  omega (arith, mul-le-mul_right {m = n} {n = d * q} k low),
  omega (arith, mul-lt-mul_of_pos_right {m = d * q} {n = n + d} {k = k} high pos),
)
IsRounded-scaled half_up n d q k pos (low, high) = (
  omega (arith, mul-lt-mul_of_pos_right {m = 2 * n} {n = 2 * (d * q) + d} {k = k} low pos),
  omega (arith, mul-le-mul_right {m = 2 * (d * q)} {n = 2 * n + d} k high),
)
IsRounded-scaled half_down n d q k pos (low, high) = (
  omega (arith, mul-le-mul_right {m = 2 * n} {n = 2 * (d * q) + d} k low),
  omega (arith, mul-lt-mul_of_pos_right {m = 2 * (d * q)} {n = 2 * n + d} {k = k} high pos),
)
IsRounded-scaled half_even n d q k pos (low, high, tie_down, tie_up) = (
  omega (arith, mul-le-mul_right {m = 2 * n} {n = 2 * (d * q) + d} k low),
  omega (arith, mul-le-mul_right {m = 2 * (d * q)} {n = 2 * n + d} k high),
  (λ h. tie_down (eq_of_mul-eq-mul_right k pos (2 * n) (2 * (d * q) + d) (omega (arith, h)))),
  λ h. tie_up (eq_of_mul-eq-mul_right k pos (2 * (d * q)) (2 * n + d) (omega (arith, h))),
)

-- The operands have the ratio of the two numbers, in units of the scale.
scaled_operands-IsRounded :
    (mode : RoundingMode) (scale : ℕ) (pa pb : ParsedDecimal)
    → 0 < digit_value pb
    → IsRounded mode
        (digit_value pa * 10 ^ (scale + length pb.frac_str))
        (digit_value pb * 10 ^ length pa.frac_str)
        (rounded_quotient (scaled_operands scale pa pb) mode)
scaled_operands-IsRounded mode scale pa pb nonzero =
    let up = scale + length pb.frac_str in
    let down = length pa.frac_str in
    let n = digit_value pa in
    let d = digit_value pb in
    elim (Bool-cases (leb down up)) [
      | inl fits ↦
          let more : n * 10 ^ up ≡ n * 10 ^ (up - down) * 10 ^ down =
            ten_pow_scaled n up down (ground arith) in
          rw (more, fits, scaled_operands)
            (IsRounded-scaled mode (n * 10 ^ (up - down)) d
              (rounded_quotient (n * 10 ^ (up - down), d) mode) (10 ^ down) (ten_pow_pos down)
              (rounding-IsRounded mode (n * 10 ^ (up - down)) d nonzero))
      | inr exceeds ↦
          let more : d * 10 ^ down ≡ d * 10 ^ (down - up) * 10 ^ up =
            ten_pow_scaled d down up (ground arith) in
          rw (more, exceeds, scaled_operands)
            (IsRounded-scaled mode n (d * 10 ^ (down - up))
              (rounded_quotient (n, d * 10 ^ (down - up)) mode) (10 ^ up) (ten_pow_pos up)
              (rounding-IsRounded mode n (d * 10 ^ (down - up))
                (mul-pos nonzero (ten_pow_pos (down - up)))))
    ]

-- For two texts that read as numbers: with a divisor of value 0 the answer is the error of a division
-- by zero. Otherwise it is the sign of the quotient, which 0 does not have, before a decimal text that
-- has as many digits after the point as the scale and reads as `q` units of the scale, where `q` is the
-- exact quotient of the two numbers rounded by the mode.
pub divide_decimals-IsRounded :
    (a b : String) (scale : ℕ) (mode : RoundingMode) (pa pb : ParsedDecimal)
    → parse_decimal_string a ≡ some pa
    → parse_decimal_string b ≡ some pb
    → (digit_value pb ≡ 0 → divide_decimals a b scale mode ≡ err (division_by_zero a b))
      × (0 < digit_value pb
          → (q : ℕ) × (divide_decimals a b scale mode
              ≡ ok (with_sign (differ pa.negative pb.negative) q (format_scaled_int q scale)))
            × Reads (format_scaled_int q scale) scale q
            × IsRounded mode
                (digit_value pa * 10 ^ (scale + length pb.frac_str))
                (digit_value pb * 10 ^ length pa.frac_str)
                q)
unfolding divide_decimals
divide_decimals-IsRounded a b scale mode pa pb parsed_a parsed_b =
    let q = rounded_quotient (scaled_operands scale pa pb) mode in
    (
      (λ zero_divisor. ground arith),
      λ nonzero.
          let divides : (digit_value pb == 0) ≡ false = ground arith in
          (
            q,
            rw (parsed_a, parsed_b, divides, divide_decimals) refl,
            format_scaled_int-Reads q scale,
            scaled_operands-IsRounded mode scale pa pb nonzero,
          ),
    )
