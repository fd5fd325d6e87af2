-- ===== src/Decimal/Comparisons.antt =====
-- The comparison of two numbers against their difference.
use credence_backend.Decimal.Parts.{
  ParsedDecimal, parse_decimal_string, format_scaled_int, with_sign, to_scaled_magnitude,
}
use credence_backend.Decimal.Operations.{signed_add, subtract_decimals}
use credence_backend.Decimal.Quotients.{
  Comparison, less, same, greater, compare_signed, compare_decimals,
}
use credence_backend.Base.{
  ℕ, max, String, Bool, true, false, not, some, ◌≡◌, refl, arith, if◌then◌else◌, ◌==◌, nat_eq,
  length,
}

-- The sign of a signed integer; 0 has either sign.
abbrev pub sign_of : Bool × ℕ → Comparison
sign_of (s, m) = if m == 0 then same else (if s then less else greater)

compare_signed-difference :
    (s t : Bool) (m n : ℕ) → compare_signed (s, m) (t, n) ≡ sign_of (signed_add (s, m) (not t, n))
compare_signed-difference true true m n = ground arith
compare_signed-difference true false m n = ground arith
compare_signed-difference false true m n = ground arith
compare_signed-difference false false m n = ground arith

-- For two texts that read as numbers, the comparison is the sign of their difference: there is a signed
-- integer that `subtractDecimals` formats at the larger of the two scales, and the comparison answers
-- less when it is negative, greater when it is positive, and the same when it is 0, with either sign.
pub compare_decimals-subtract :
    (a b : String) (pa pb : ParsedDecimal)
    → parse_decimal_string a ≡ some pa
    → parse_decimal_string b ≡ some pb
    → (s : Bool) × (m : ℕ) × (compare_decimals a b ≡ some (sign_of (s, m)))
      × (subtract_decimals a b
          ≡ some
              (with_sign s m (format_scaled_int m (max (length pa.frac_str) (length pb.frac_str)))))
unfolding compare_decimals subtract_decimals
compare_decimals-subtract a b pa pb parsed_a parsed_b =
    let scale = max (length pa.frac_str) (length pb.frac_str) in
    let difference =
      signed_add (pa.negative, to_scaled_magnitude pa scale)
        (not pb.negative, to_scaled_magnitude pb scale) in
    (
      difference.0,
      difference.1,
      rw
          (
            parsed_a,
            parsed_b,
            compare_decimals,
            compare_signed-difference pa.negative pb.negative (to_scaled_magnitude pa scale)
                (to_scaled_magnitude pb scale),
          )
          refl,
      rw (parsed_a, parsed_b, subtract_decimals) refl,
    )
