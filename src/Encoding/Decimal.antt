-- ===== src/Encoding/Decimal.antt =====
-- strconv.AppendInt in base ten, on numbers that are not negative.
use behalf.Prelude.{
  ℕ, zero, suc, ◌+◌, ◌-◌, ◌*◌, ◌/◌, ◌%◌, ◌≤◌, ◌≡◌, refl, sym, ap, ◌∙◌, inl, inr, [], ◌∷◌, ◌++◌,
  arith, ltb, if◌then◌else◌, Bool-cases, All, All-append, Bytes,
}

-- The digits of a number, the first first; as much fuel as the number is enough.
unfoldable pub digits_of : ℕ → ℕ → Bytes
digits_of zero n = (b'0' + n % 10) ∷ []
digits_of (suc left) n =
    let rest = digits_of left (n / 10) in
    if ltb n 10 then (b'0' + n) ∷ [] else rest ++ ((b'0' + n % 10) ∷ [])

unfoldable pub print_uint : ℕ → Bytes
unfolding digits_of
print_uint n = digits_of n n

value_from : ℕ → Bytes → ℕ
value_from a [] = a
value_from a (c ∷ cs) = value_from (a * 10 + (c - b'0')) cs

value_from-append :
    (a c : ℕ) (s : Bytes) → value_from a (s ++ c ∷ []) ≡ value_from a s * 10 + (c - b'0')
unfolding value_from
value_from-append a c [] = refl
value_from-append a c (d ∷ s) = value_from-append (a * 10 + (d - b'0')) c s

digits_of-value : (fuel n : ℕ) → n ≤ fuel → value_from 0 (digits_of fuel n) ≡ n
unfolding digits_of value_from
digits_of-value zero n le = omega (arith, le)
digits_of-value (suc left) n le = elim (Bool-cases (ltb n 10)) [
  | inl small ↦ rw small (omega arith)
  | inr large ↦
      let ten : 10 ≤ n = ground (arith, large) in
      let ih = digits_of-value left (n / 10) (omega (arith, le, ten)) in
      rw large (value_from-append 0 (b'0' + n % 10) (digits_of left (n / 10)) ∙ omega (arith, ih))
]

All-digits : (fuel n : ℕ) → All (λ c. b'0' ≤ c) (digits_of fuel n)
unfolding digits_of
All-digits zero n = (omega arith, tt)
All-digits (suc left) n = elim (Bool-cases (ltb n 10)) [
  | inl small ↦ rw small (omega arith, tt)
  | inr large ↦ rw large (
      All-append (λ c. b'0' ≤ c) (digits_of left (n / 10)) ((b'0' + n % 10) ∷ [])
        (All-digits left (n / 10)) (omega arith, tt))
]

pub All-print_uint : (n : ℕ) → All (λ c. b'0' ≤ c) (print_uint n)
unfolding print_uint
All-print_uint n = All-digits n n

-- Two numbers with the same digits are one.
pub print_uint_inj : (m n : ℕ) → print_uint m ≡ print_uint n → m ≡ n
unfolding print_uint
print_uint_inj m n e =
    sym (digits_of-value m m (omega arith))
    ∙ ap (value_from 0) e
    ∙ digits_of-value n n (omega arith)
