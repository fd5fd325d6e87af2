-- ===== src/Decimal/Rounding.antt =====
-- How far a rounded number is from the exact one.
use credence_backend.Decimal.Parts.{
  RoundingMode, half_up, half_down, half_even, down, up, ParsedDecimal, parse_decimal_string,
  big_int, format_scaled_int, with_sign, to_scaled_magnitude, apply_division_rounding,
}
use credence_backend.Decimal.Operations.{int_value, round_to_scale}
use credence_backend.Decimal.Formats.{Reads, format_scaled_int-Reads, ten_pow_pos}
use native.Mathlib.Nat.{div-add-mod, mod-lt, pow-suc, mul_assoc, mul_right_comm, add-mul}
use credence_backend.Base.{
  ℕ, zero, suc, ap, sym, ◌∙◌, ◌+◌, ◌-◌, ◌*◌, ◌/◌, ◌%◌, ◌^◌, ◌≤◌, ◌<◌, String, ◌≡◌, refl, inl, inr,
  some, arith, leb, nat_eq, length, Bool-cases,
}

-- `d * q` is `n` rounded to a multiple of `d`: twice the distance is compared with `d`.
abbrev pub IsRounded : RoundingMode → ℕ → ℕ → ℕ → Type 0
IsRounded down n d q = (d * q ≤ n) × (n < d * q + d)
IsRounded up n d q = (n ≤ d * q) × (d * q < n + d)
IsRounded half_up n d q = (2 * n < 2 * (d * q) + d) × (2 * (d * q) ≤ 2 * n + d)
IsRounded half_down n d q = (2 * n ≤ 2 * (d * q) + d) × (2 * (d * q) < 2 * n + d)
IsRounded half_even n d q =
    (2 * n ≤ 2 * (d * q) + d)
    × (2 * (d * q) ≤ 2 * n + d)
    × ((2 * n ≡ 2 * (d * q) + d) → q % 2 ≡ 0)
    × ((2 * (d * q) ≡ 2 * n + d) → q % 2 ≡ 0)

mul-suc : (d q : ℕ) → d * (q + 1) ≡ d * q + d
mul-suc d q = omega arith

pub rounding-IsRounded :
    (mode : RoundingMode) (n d : ℕ)
    → 0 < d
    → IsRounded mode n d (apply_division_rounding (n / d) (n % d) d mode)
unfolding apply_division_rounding
rounding-IsRounded down n d h = ground (arith, div-add-mod n d, mod-lt n h)
rounding-IsRounded up n d h = ground (arith, div-add-mod n d, mod-lt n h, mul-suc d (n / d))
rounding-IsRounded half_up n d h = ground (arith, div-add-mod n d, mod-lt n h, mul-suc d (n / d))
rounding-IsRounded half_down n d h = ground (arith, div-add-mod n d, mod-lt n h, mul-suc d (n / d))
rounding-IsRounded half_even n d h = ground (arith, div-add-mod n d, mod-lt n h, mul-suc d (n / d))

pub ten_pow_add : (k j : ℕ) → 10 ^ (k + j) ≡ 10 ^ k * 10 ^ j
ten_pow_add zero j = let same : 0 + j ≡ j = omega arith in omega (arith, ap (λ e. 10 ^ e) same)
ten_pow_add (suc k) j =
    let same : suc k + j ≡ suc (k + j) = omega arith in
    omega (
      arith,
      ap (λ e. 10 ^ e) same,
      pow-suc 10 (k + j),
      ap (λ x. x * 10 ^ j) (pow-suc 10 k),
      ten_pow_add k j,
      mul_right_comm (10 ^ k) 10 (10 ^ j),
    )

pub ten_pow_split : (hi lo : ℕ) → lo ≤ hi → 10 ^ hi ≡ 10 ^ (hi - lo) * 10 ^ lo
ten_pow_split hi lo h =
    let more : hi - lo + lo ≡ hi = omega arith in
    ap (λ e. 10 ^ e) (sym more) ∙ ten_pow_add (hi - lo) lo

scaled-int_value :
    (p : ParsedDecimal) (scale : ℕ)
    → length p.frac_str ≤ scale
    → to_scaled_magnitude p scale ≡ int_value p * 10 ^ (scale - length p.frac_str)
unfolding to_scaled_magnitude
scaled-int_value p scale h =
    let k = length p.frac_str in
    let j = scale - k in
    let more : k + j ≡ scale = omega arith in
    let power : 10 ^ scale ≡ 10 ^ k * 10 ^ j = ap (λ e. 10 ^ e) (sym more) ∙ ten_pow_add k j in
    let int = big_int p.int_str in
    rw (power) (
      ap (λ x. x + big_int p.frac_str * 10 ^ j) (sym (mul_assoc int (10 ^ k) (10 ^ j)))
      ∙ sym (add-mul (int * 10 ^ k) (big_int p.frac_str) (10 ^ j)))

-- A rounded text is the sign of the number, which 0 does not have, before a decimal text that has as
-- many digits after the point as the scale and reads as `q` units of the scale. With more fractional
-- digits than the scale, `q` is the number rounded by the mode: never off by a whole unit, by at most
-- half of one in the half modes, with ties to the side that the mode names or to the even `q`.
-- Otherwise `q` is the number exactly.
pub round_to_scale-IsRounded :
    (value : String) (scale : ℕ) (mode : RoundingMode) (p : ParsedDecimal)
    → parse_decimal_string value ≡ some p
    → (q : ℕ) × (round_to_scale value scale mode
        ≡ some (with_sign p.negative q (format_scaled_int q scale)))
      × Reads (format_scaled_int q scale) scale q
      × (scale < length p.frac_str
          → IsRounded mode (int_value p) (10 ^ (length p.frac_str - scale)) q)
      × (length p.frac_str ≤ scale → q ≡ int_value p * 10 ^ (scale - length p.frac_str))
unfolding round_to_scale
round_to_scale-IsRounded value scale mode p parsed =
    let factor = 10 ^ (length p.frac_str - scale) in
    elim (Bool-cases (leb (length p.frac_str) scale)) [
      | inl fits ↦
          rw (parsed, round_to_scale, fits)
            (
              to_scaled_magnitude p scale,
              refl,
              format_scaled_int-Reads (to_scaled_magnitude p scale) scale,
              (λ h. ground arith),
              λ h. scaled-int_value p scale h,
            )
      | inr longer ↦
          rw (parsed, round_to_scale, longer)
            (
              apply_division_rounding (int_value p / factor) (int_value p % factor) factor mode,
              refl,
              format_scaled_int-Reads
                  (apply_division_rounding (int_value p / factor) (int_value p % factor) factor
                    mode)
                  scale,
              (λ h.
                  rounding-IsRounded mode (int_value p) factor
                    (ten_pow_pos (length p.frac_str - scale))),
              λ h. ground arith,
            )
    ]
