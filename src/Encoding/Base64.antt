-- ===== src/Encoding/Base64.antt =====
-- encoding/base64, StdEncoding: EncodeToString and DecodeString.
use behalf.Prelude.{
  ℕ, ◌+◌, ◌-◌, ◌*◌, ◌/◌, ◌%◌, ◌<◌, ◌≡◌, refl, subst, Bool, true, false, ◌&&◌, ◌||◌, Option, none,
  some, [], ◌∷◌, arith, ltb, leb, ◌==◌, if◌then◌else◌, All, Bytes,
}

symbol : ℕ → ℕ
symbol n =
    if ltb n 26
    then b'A' + n
    else if ltb n 52
    then b'a' + (n - 26)
    else if ltb n 62
    then b'0' + (n - 52)
    else if n == 62
    then b'+'
    else b'/'

unfoldable pub encode : Bytes → Bytes
unfolding symbol
encode [] = []
encode (a ∷ []) = symbol (a / 4) ∷ symbol (a % 4 * 16) ∷ b'=' ∷ b'=' ∷ []
encode (a ∷ b ∷ []) =
    symbol (a / 4) ∷ symbol (a % 4 * 16 + b / 16) ∷ symbol (b % 16 * 4) ∷ b'=' ∷ []
encode (a ∷ b ∷ c ∷ rest) =
    symbol (a / 4)
    ∷ symbol (a % 4 * 16 + b / 16)
    ∷ symbol (b % 16 * 4 + c / 64)
    ∷ symbol (c % 64)
    ∷ encode rest

value : ℕ → Option ℕ
value c =
    if leb b'A' c && leb c b'Z'
    then some (c - b'A')
    else if leb b'a' c && leb c b'z'
    then some (c - b'a' + 26)
    else if leb b'0' c && leb c b'9'
    then some (c - b'0' + 52)
    else if c == b'+'
    then some 62
    else if c == b'/'
    then some 63
    else none

-- The decoder skips line breaks wherever they stand.
without_breaks : Bytes → Bytes
without_breaks [] = []
without_breaks (c ∷ cs) =
    let rest = without_breaks cs in if c == 10 || c == 13 then rest else c ∷ rest

quad : Option ℕ → Option ℕ → Option ℕ → Option ℕ → Option Bytes → Option Bytes
quad (some a) (some b) (some c) (some d) (some rest) =
    some ((a * 4 + b / 16) ∷ (b % 16 * 16 + c / 4) ∷ (c % 4 * 64 + d) ∷ rest)
quad _ _ _ _ _ = none

pad_two : Option ℕ → Option ℕ → Option Bytes
pad_two (some x) (some y) = some ((x * 4 + y / 16) ∷ [])
pad_two _ _ = none

pad_one : Option ℕ → Option ℕ → Option ℕ → Option Bytes
pad_one (some x) (some y) (some z) = some ((x * 4 + y / 16) ∷ (y % 16 * 16 + z / 4) ∷ [])
pad_one _ _ _ = none

-- The last quantum may hold one or two padding bytes; the bits left over are not checked.
last_quad : ℕ → ℕ → ℕ → ℕ → Option Bytes
unfolding value quad pad_one pad_two
last_quad a b c d =
    if c == b'=' && d == b'='
    then pad_two (value a) (value b)
    else if d == b'='
    then pad_one (value a) (value b) (value c)
    else quad (value a) (value b) (value c) (value d) (some [])

decode_clean : Bytes → Option Bytes
unfolding value quad last_quad
decode_clean [] = some []
decode_clean (a ∷ b ∷ c ∷ d ∷ []) = last_quad a b c d
decode_clean (a ∷ b ∷ c ∷ d ∷ e ∷ rest) =
    quad (value a) (value b) (value c) (value d) (decode_clean (e ∷ rest))
decode_clean _ = none

unfoldable pub decode : Bytes → Option Bytes
unfolding without_breaks decode_clean
decode cs = decode_clean (without_breaks cs)

value_bound : (c n : ℕ) → value c ≡ some n → n < 64
unfolding value
value_bound c n h = ground arith

abbrev AreBytes : Option Bytes → Type 0
AreBytes none = Unit
AreBytes (some bs) = All (λ b. b < 256) bs

abbrev Small : Option ℕ → Type 0
Small none = Unit
Small (some n) = n < 64

Small-value : (c : ℕ) → Small (value c)
Small-value c = go (value c) refl
  where
    go : (o : Option ℕ) → value c ≡ o → Small o
    go none e = tt
    go (some n) e = value_bound c n e

AreBytes-quad :
    (a b c d : Option ℕ) (r : Option Bytes)
    → Small a
    → Small b
    → Small c
    → Small d
    → AreBytes r
    → AreBytes (quad a b c d r)
unfolding quad
AreBytes-quad (some a) (some b) (some c) (some d) (some r) ha hb hc hd hr =
    (omega arith, (omega arith, (omega arith, hr)))
AreBytes-quad _ _ _ _ _ ha hb hc hd hr = tt

AreBytes-pad_two : (a b : Option ℕ) → Small a → Small b → AreBytes (pad_two a b)
unfolding pad_two
AreBytes-pad_two (some a) (some b) ha hb = (omega arith, tt)
AreBytes-pad_two _ _ ha hb = tt

AreBytes-pad_one : (a b c : Option ℕ) → Small a → Small b → Small c → AreBytes (pad_one a b c)
unfolding pad_one
AreBytes-pad_one (some a) (some b) (some c) ha hb hc = (omega arith, (omega arith, tt))
AreBytes-pad_one _ _ _ ha hb hc = tt

AreBytes-if :
    (t : Bool) (x y : Option Bytes) → AreBytes x → AreBytes y → AreBytes (if t then x else y)
AreBytes-if true x y hx hy = hx
AreBytes-if false x y hx hy = hy

last_quad_lem :
    (a b c d : ℕ)
    → last_quad a b c d ≡ (
        if c == b'=' && d == b'='
        then pad_two (value a) (value b)
        else if d == b'='
        then pad_one (value a) (value b) (value c)
        else quad (value a) (value b) (value c) (value d) (some []))
unfolding last_quad
last_quad_lem a b c d = refl

AreBytes-last_quad : (a b c d : ℕ) → AreBytes (last_quad a b c d)
AreBytes-last_quad a b c d =
    let full : Option Bytes = quad (value a) (value b) (value c) (value d) (some []) in
    let one : Option Bytes = pad_one (value a) (value b) (value c) in
    rw last_quad_lem (
      AreBytes-if (c == b'=' && d == b'=') (pad_two (value a) (value b))
        (if d == b'=' then one else full)
        (AreBytes-pad_two (value a) (value b) (Small-value a) (Small-value b))
        (AreBytes-if (d == b'=') one full
          (AreBytes-pad_one (value a) (value b) (value c) (Small-value a) (Small-value b)
            (Small-value c))
          (AreBytes-quad (value a) (value b) (value c) (value d) (some []) (Small-value a)
            (Small-value b) (Small-value c) (Small-value d) tt)))

decode_clean_last : (a b c d : ℕ) → decode_clean (a ∷ b ∷ c ∷ d ∷ []) ≡ last_quad a b c d
unfolding decode_clean
decode_clean_last a b c d = refl

decode_clean_more :
    (a b c d e : ℕ) (rest : Bytes)
    → decode_clean (a ∷ b ∷ c ∷ d ∷ e ∷ rest)
      ≡ quad (value a) (value b) (value c) (value d) (decode_clean (e ∷ rest))
unfolding decode_clean
decode_clean_more a b c d e rest = refl

AreBytes-decode_clean : (cs : Bytes) → AreBytes (decode_clean cs)
AreBytes-decode_clean [] = unfold decode_clean in tt
AreBytes-decode_clean (a ∷ []) = unfold decode_clean in tt
AreBytes-decode_clean (a ∷ b ∷ []) = unfold decode_clean in tt
AreBytes-decode_clean (a ∷ b ∷ c ∷ []) = unfold decode_clean in tt
AreBytes-decode_clean (a ∷ b ∷ c ∷ d ∷ []) = rw decode_clean_last (AreBytes-last_quad a b c d)
AreBytes-decode_clean (a ∷ b ∷ c ∷ d ∷ e ∷ rest) = rw decode_clean_more (
    AreBytes-quad (value a) (value b) (value c) (value d) (decode_clean (e ∷ rest)) (Small-value a)
      (Small-value b) (Small-value c) (Small-value d) (AreBytes-decode_clean (e ∷ rest)))

-- What decodes is a sequence of bytes.
pub All-decode : (cs bs : Bytes) → decode cs ≡ some bs → All (λ b. b < 256) bs
unfolding decode
All-decode cs bs h = subst AreBytes h (AreBytes-decode_clean (without_breaks cs))
