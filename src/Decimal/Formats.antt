-- ===== src/Decimal/Formats.antt =====
-- A formatted number is a decimal text with the number's digits.
use credence_backend.Decimal.Parts.{
  split_point, or_nothing, is_decimal, value_from, big_int, to_text, pad_start, format_scaled_int,
}
use native.Mathlib.Nat.{pow-suc, div-add-mod, mod-lt, mul_comm}
use credence_backend.Base.{
  ℕ, zero, suc, ◌+◌, ◌-◌, ◌*◌, ◌/◌, ◌%◌, ◌^◌, ◌≤◌, ◌<◌, ◌≡◌, refl, ap, ◌∙◌, inl, inr, Bool, true,
  false, none, some, List, [], ◌∷◌, ◌++◌, arith, ltb, ◌==◌, nat_eq, all, length, replicate,
  length-append, length-replicate, Bool-cases,
}
use credence_backend.Base.Text.{is_digit, digits}

all-append :
    (p : ℕ → Bool) (xs ys : List ℕ) → all p xs ≡ true → all p ys ≡ true → all p (xs ++ ys) ≡ true
all-append p [] ys h k = k
all-append p (x ∷ xs) ys h k = ground (arith, all-append p xs ys)

value_from-snoc :
    (acc d : ℕ) (xs : List ℕ) → value_from acc (xs ++ d ∷ []) ≡ 10 * value_from acc xs + (d - 48)
value_from-snoc acc d [] = refl
value_from-snoc acc d (x ∷ xs) = value_from-snoc (10 * acc + (x - 48)) d xs

digits-value : (n m : ℕ) → m < n → big_int (digits n m) ≡ m
unfolding digits
digits-value zero m h = omega (arith, h)
digits-value (suc n) m h = elim (Bool-cases (ltb m 10)) [
  | inl small ↦ ground arith
  | inr large ↦
      ground (arith, value_from-snoc 0 (b'0' + m % 10) (digits n (m / 10)), digits-value n (m / 10))
]

digits-is_digit : (n m : ℕ) → all is_digit (digits n m) ≡ true
unfolding digits
digits-is_digit zero m = refl
digits-is_digit (suc n) m = elim (Bool-cases (ltb m 10)) [
  | inl small ↦ ground arith
  | inr large ↦ ground (
    arith,
    all-append is_digit (digits n (m / 10)) ((b'0' + m % 10) ∷ []) (digits-is_digit n (m / 10))
        (ground arith),
  )
]

digits-nonempty : (n m : ℕ) → 0 < n → 0 < length (digits n m)
unfolding digits
digits-nonempty zero m h = h
digits-nonempty (suc n) m h =
    ground (arith, length-append (digits n (m / 10)) ((b'0' + m % 10) ∷ []))

length-digits : (n m k : ℕ) → m < 10 ^ suc k → length (digits n m) ≤ suc k
unfolding digits
length-digits zero m k h = omega arith
length-digits (suc n) m zero h = ground arith
length-digits (suc n) m (suc k) h = elim (Bool-cases (ltb m 10)) [
  | inl small ↦ ground arith
  | inr large ↦ ground (
    arith,
    length-append (digits n (m / 10)) ((b'0' + m % 10) ∷ []),
    length-digits n (m / 10) k (omega (arith, h, pow-suc 10 (suc k))),
  )
]

value_from-zeros : (n : ℕ) (xs : List ℕ) → big_int (replicate n b'0' ++ xs) ≡ big_int xs
value_from-zeros zero xs = refl
value_from-zeros (suc n) xs = value_from-zeros n xs

zeros-is_digit : (n : ℕ) → all is_digit (replicate n b'0') ≡ true
zeros-is_digit zero = refl
zeros-is_digit (suc n) = zeros-is_digit n

split_point-digits :
    (xs ys : List ℕ) → all is_digit xs ≡ true → split_point (xs ++ b'.' ∷ ys) ≡ (xs, some ys)
split_point-digits [] ys h = refl
split_point-digits (x ∷ xs) ys h = ground (arith, split_point-digits xs ys)

split_point-none : (xs : List ℕ) → all is_digit xs ≡ true → split_point xs ≡ (xs, none)
split_point-none [] h = refl
split_point-none (x ∷ xs) h = ground (arith, split_point-none xs)

to_text-digits : (n : ℕ) → (all is_digit (to_text n) ≡ true) × (big_int (to_text n) ≡ n)
to_text-digits n = (digits-is_digit (suc n) n, digits-value (suc n) n (omega arith))

-- The digits after the point: as many as the scale, with the value that was written.
padded :
    (scale n : ℕ)
    → n < 10 ^ suc scale
    → (all is_digit (pad_start (suc scale) (to_text n)) ≡ true)
      × (big_int (pad_start (suc scale) (to_text n)) ≡ n)
      × (length (pad_start (suc scale) (to_text n)) ≡ suc scale)
padded scale n h =
    let xs = to_text n in
    let zeros = replicate (suc scale - length xs) b'0' in
    let short : length xs ≤ suc scale = length-digits (suc n) n scale h in
    (
      all-append is_digit zeros xs (zeros-is_digit (suc scale - length xs)) (to_text-digits n).0,
      value_from-zeros (suc scale - length xs) xs ∙ (to_text-digits n).1,
      omega (
        arith,
        length-append zeros xs,
        length-replicate {A = ℕ} (suc scale - length xs) b'0',
        short,
      ),
    )

pub ten_pow_pos : (k : ℕ) → 0 < 10 ^ k
ten_pow_pos zero = omega arith
ten_pow_pos (suc k) = omega (arith, ten_pow_pos k, pow-suc 10 k)

-- `cs` is a decimal text with `scale` digits after the point that reads as `value` units.
abbrev pub Reads : List ℕ → ℕ → ℕ → Type 0
Reads cs scale value =
    (is_decimal cs ≡ true)
    × (length (or_nothing (split_point cs).1) ≡ scale)
    × (big_int (split_point cs).0 * 10 ^ scale + big_int (or_nothing (split_point cs).1) ≡ value)

split-Reads :
    (cs int frac : List ℕ) (scale value : ℕ)
    → split_point cs ≡ (int, some frac)
    → (0 < length int) × (all is_digit int ≡ true) × (all is_digit frac ≡ true)
    → length frac ≡ scale
    → big_int int * 10 ^ scale + big_int frac ≡ value
    → Reads cs scale value
split-Reads cs int frac scale value split (some_digit, int_digits, frac_digits) fits reads =
    rw (split) (ground arith, fits, reads)

-- Every number formatted with a scale is a decimal text that reads as that number: as many digits after
-- the point as the scale, and the digits before and after it give the number of units of the scale.
pub format_scaled_int-Reads : (value scale : ℕ) → Reads (format_scaled_int value scale) scale value
unfolding format_scaled_int
format_scaled_int-Reads value zero =
    let (all_digits, reads) = to_text-digits value in
    ground (arith, split_point-none (to_text value) all_digits, digits-nonempty (suc value) value)
format_scaled_int-Reads value (suc scale) =
    let power = 10 ^ suc scale in
    let nonzero : (suc scale == 0) ≡ false = ground arith in
    let (int_digits, int_reads) = to_text-digits (value / power) in
    let (frac_digits, frac_reads, frac_length) =
      padded scale (value % power) (mod-lt value (ten_pow_pos (suc scale))) in
    let split =
      split_point-digits (to_text (value / power)) (pad_start (suc scale) (to_text (value % power)))
        int_digits in
    split-Reads (format_scaled_int value (suc scale)) (to_text (value / power))
      (pad_start (suc scale) (to_text (value % power))) (suc scale) value
      (rw (nonzero, format_scaled_int) split)
      (digits-nonempty (suc (value / power)) (value / power) (omega arith), int_digits, frac_digits)
      frac_length
      (ap (λ x. x * power + big_int (pad_start (suc scale) (to_text (value % power)))) int_reads
        ∙ omega (arith, frac_reads, div-add-mod value power, mul_comm power (value / power)))
