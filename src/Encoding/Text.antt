-- ===== src/Encoding/Text.antt =====
-- strings.Split at line feeds, strings.IndexByte, strconv.ParseUint in base ten for 64 bits.
use behalf.Prelude.{
  ℕ, ◌+◌, ◌-◌, ◌*◌, ◌^◌, ◌<◌, ◌≡◌, Bool, ◌&&◌, Option, none, some, List, [], ◌∷◌, arith, ltb, leb,
  ◌==◌, if◌then◌else◌, Bytes,
}

abbrev pub uint64_mod : ℕ
uint64_mod = 2 ^ 64

-- The first line, and what follows its line feed, if it has one.
unfoldable pub split_line : Bytes → Bytes × Option Bytes
split_line [] = ([], none)
split_line (c ∷ cs) =
    let (line, rest) = split_line cs in if c == 10 then ([], some cs) else (c ∷ line, rest)

cons_line : Bool → ℕ → List Bytes → List Bytes
cons_line newline c [] = if newline then [] ∷ [] ∷ [] else (c ∷ []) ∷ []
cons_line newline c (line ∷ lines) = if newline then [] ∷ line ∷ lines else (c ∷ line) ∷ lines

-- `strings.Split(s, "\n")`: the parts between the line feeds, at least one.
unfoldable pub split_lines : Bytes → List Bytes
unfolding cons_line
split_lines [] = [] ∷ []
split_lines (c ∷ cs) = cons_line (c == 10) c (split_lines cs)

digits : ℕ → Bytes → Option ℕ
digits n [] = some n
digits n (c ∷ cs) =
    let rest = digits (n * 10 + (c - b'0')) cs in if leb b'0' c && leb c b'9' then rest else none

in_range : Option ℕ → Option ℕ
in_range none = none
in_range (some n) = if ltb n uint64_mod then some n else none

-- An empty string, a byte that is no digit and a value past 2^64 - 1 are errors.
unfoldable pub parse_uint : Bytes → Option ℕ
unfolding digits in_range
parse_uint [] = none
parse_uint (c ∷ cs) = in_range (digits 0 (c ∷ cs))

in_range_bound : (o : Option ℕ) (n : ℕ) → in_range o ≡ some n → n < uint64_mod
unfolding in_range
in_range_bound none n h = ground arith
in_range_bound (some m) n h = ground arith

pub parse_uint_bound : (s : Bytes) (n : ℕ) → parse_uint s ≡ some n → n < uint64_mod
parse_uint_bound [] n h = unfold parse_uint in ground arith
parse_uint_bound (c ∷ cs) n h = in_range_bound (digits 0 (c ∷ cs)) n (unfold parse_uint in h)
