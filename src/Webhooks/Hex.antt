-- ===== src/Webhooks/Hex.antt =====
-- Hexadecimal texts as Node writes and reads them. Texts are lists of code points.
use credence_backend.Base.{
  ℕ, ◌+◌, ◌*◌, ◌/◌, ◌%◌, ◌-◌, ◌<◌, ◌≡◌, refl, Bool, true, ◌&&◌, Option, none, some, List, [], ◌∷◌,
  arith, if◌then◌else◌, ltb, leb, all,
}

abbrev pub hex_digit : ℕ → ℕ
hex_digit n = if ltb n 10 then b'0' + n else 87 + n

-- `toString('hex')`: two lower-case digits for a byte.
unfoldable pub encode_hex : List ℕ → List ℕ
encode_hex [] = []
encode_hex (b ∷ bs) = hex_digit (b / 16) ∷ hex_digit (b % 16) ∷ encode_hex bs

abbrev pub hex_value : ℕ → Option ℕ
hex_value c =
    if leb b'0' c && leb c b'9'
    then some (c - 48)
    else (if leb b'a' c && leb c b'f'
        then some (c - 87)
        else (if leb b'A' c && leb c b'F' then some (c - 55) else none))

-- `Buffer.from(text, 'hex')`, which stops at the first pair that is no byte.
unfoldable pub decode_hex : List ℕ → List ℕ
decode_hex [] = []
decode_hex (a ∷ []) = []
decode_hex (a ∷ b ∷ cs) =
    let rest = decode_hex cs in
    elim (hex_value a) [
      | none ↦ []
      | some h ↦ elim (hex_value b) [ none ↦ [] | some l ↦ (16 * h + l) ∷ rest ]
    ]

abbrev pub is_byte : ℕ → Bool
is_byte b = ltb b 256

hex_value-hex_digit : (n : ℕ) → n < 16 → hex_value (hex_digit n) ≡ some n
hex_value-hex_digit n h = ground arith

pub decode_hex-encode_hex : (bs : List ℕ) → all is_byte bs ≡ true → decode_hex (encode_hex bs) ≡ bs
unfolding decode_hex encode_hex
decode_hex-encode_hex [] h = refl
decode_hex-encode_hex (b ∷ bs) h =
    let small : b < 256 = ground arith in
    ground (
      arith,
      hex_value-hex_digit (b / 16) (omega arith),
      hex_value-hex_digit (b % 16) (omega arith),
      decode_hex-encode_hex bs,
    )
