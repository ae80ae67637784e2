-- ===== src/Encoding/Base64url.antt =====
-- encoding/base64, RawURLEncoding: EncodeToString and DecodeString.
use behalf.Prelude.{
  ℕ, ◌+◌, ◌-◌, ◌*◌, ◌/◌, ◌%◌, ◌<◌, ◌≡◌, ◌⊎◌, ◌&&◌, ◌||◌, Option, none, some, [], ◌∷◌, arith, ltb,
  leb, ◌==◌, if◌then◌else◌, Bytes,
}

unfoldable pub symbol : ℕ → ℕ
symbol n =
    if ltb n 26
    then b'A' + n
    else if ltb n 52
    then b'a' + (n - 26)
    else if ltb n 62
    then b'0' + (n - 52)
    else if n == 62
    then b'-'
    else b'_'

unfoldable pub value : ℕ → Option ℕ
value c =
    if leb b'A' c && leb c b'Z'
    then some (c - b'A')
    else if leb b'a' c && leb c b'z'
    then some (c - b'a' + 26)
    else if leb b'0' c && leb c b'9'
    then some (c - b'0' + 52)
    else if c == b'-'
    then some 62
    else if c == b'_'
    then some 63
    else none

unfoldable pub encode : Bytes → Bytes
encode [] = []
encode (a ∷ []) = symbol (a / 4) ∷ symbol (a % 4 * 16) ∷ []
encode (a ∷ b ∷ []) = symbol (a / 4) ∷ symbol (a % 4 * 16 + b / 16) ∷ symbol (b % 16 * 4) ∷ []
encode (a ∷ b ∷ c ∷ rest) =
    symbol (a / 4)
    ∷ symbol (a % 4 * 16 + b / 16)
    ∷ symbol (b % 16 * 4 + c / 64)
    ∷ symbol (c % 64)
    ∷ encode rest

-- The decoder skips line breaks wherever they stand.
unfoldable pub without_breaks : Bytes → Bytes
without_breaks [] = []
without_breaks (c ∷ cs) =
    let rest = without_breaks cs in if c == 10 || c == 13 then rest else c ∷ rest

unfoldable pub quad : Option ℕ → Option ℕ → Option ℕ → Option ℕ → Option Bytes → Option Bytes
quad (some a) (some b) (some c) (some d) (some rest) =
    some ((a * 4 + b / 16) ∷ (b % 16 * 16 + c / 4) ∷ (c % 4 * 64 + d) ∷ rest)
quad _ _ _ _ _ = none

unfoldable pub two : Option ℕ → Option ℕ → Option Bytes
two (some x) (some y) = some ((x * 4 + y / 16) ∷ [])
two _ _ = none

unfoldable pub three : Option ℕ → Option ℕ → Option ℕ → Option Bytes
three (some x) (some y) (some z) = some ((x * 4 + y / 16) ∷ (y % 16 * 16 + z / 4) ∷ [])
three _ _ _ = none

-- A last group of one symbol is an error; the bits left over in the last group are not checked.
unfoldable pub decode_clean : Bytes → Option Bytes
decode_clean [] = some []
decode_clean (a ∷ []) = none
decode_clean (a ∷ b ∷ []) = two (value a) (value b)
decode_clean (a ∷ b ∷ c ∷ []) = three (value a) (value b) (value c)
decode_clean (a ∷ b ∷ c ∷ d ∷ rest) =
    quad (value a) (value b) (value c) (value d) (decode_clean rest)

unfoldable pub decode : Bytes → Option Bytes
unfolding without_breaks decode_clean two three quad value
decode cs = decode_clean (without_breaks cs)

value-symbol : (n : ℕ) → n < 64 → value (symbol n) ≡ some n
unfolding value symbol
value-symbol n h = ground arith

-- No symbol is a line break or a full stop.
pub symbol_bounds : (n : ℕ) → n < 64 → b'.' < symbol n ⊎ (symbol n ≡ b'-')
unfolding symbol
symbol_bounds n h = ground arith
