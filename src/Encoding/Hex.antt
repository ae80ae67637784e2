-- ===== src/Encoding/Hex.antt =====
-- encoding/hex: EncodeToString and DecodeString.
use behalf.Prelude.{
  ℕ, ◌+◌, ◌-◌, ◌*◌, ◌/◌, ◌%◌, ◌<◌, ◌≡◌, refl, ap, ◌&&◌, Option, none, some, [], ◌∷◌, arith, ltb,
  leb, if◌then◌else◌, All, Bytes,
}

unfoldable pub hex_digit : ℕ → ℕ
hex_digit n = if ltb n 10 then b'0' + n else b'a' + (n - 10)

unfoldable pub hex_value : ℕ → Option ℕ
hex_value c =
    if leb b'0' c && leb c b'9'
    then some (c - b'0')
    else if leb b'a' c && leb c b'f'
    then some (c - b'a' + 10)
    else if leb b'A' c && leb c b'F'
    then some (c - b'A' + 10)
    else none

unfoldable pub encode : Bytes → Bytes
encode [] = []
encode (b ∷ bs) = hex_digit (b / 16) ∷ hex_digit (b % 16) ∷ encode bs

decode_pair : Option ℕ → Option ℕ → Option Bytes → Option Bytes
decode_pair (some h) (some l) (some bs) = some ((h * 16 + l) ∷ bs)
decode_pair _ _ _ = none

-- A string of odd length, or with a byte that is no hexadecimal digit, is an error.
unfoldable pub decode : Bytes → Option Bytes
unfolding decode_pair
decode [] = some []
decode (c ∷ []) = none
decode (c ∷ d ∷ cs) = decode_pair (hex_value c) (hex_value d) (decode cs)

hex_value-hex_digit : (n : ℕ) → n < 16 → hex_value (hex_digit n) ≡ some n
unfolding hex_value hex_digit
hex_value-hex_digit n h = ground arith

pub decode-encode : (bs : Bytes) → All (λ b. b < 256) bs → decode (encode bs) ≡ some bs
unfolding decode encode
decode-encode [] h = refl
decode-encode (b ∷ bs) h =
    rw (hex_value-hex_digit (b / 16) (omega arith), hex_value-hex_digit (b % 16) (omega arith))
      (rw (decode-encode bs h.1) (ap (λ x. some (x ∷ bs)) (omega arith)))
