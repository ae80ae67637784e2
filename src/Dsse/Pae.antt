-- ===== src/Dsse/Pae.antt =====
-- internal/dsse/dsse.go: the pre-authentication encoding.
use behalf.Prelude.{◌≤◌, ◌≡◌, refl, [], ◌∷◌, ◌++◌, arith, length, All, Bytes, codes}
use behalf.Encoding.Decimal.{print_uint, print_uint_inj, All-print_uint}

abbrev pub dsse_prefix : Bytes
dsse_prefix = codes "DSSEv1 "

-- A length, a space, and that many bytes.
unfoldable pub framed : Bytes → Bytes → Bytes
framed s rest = print_uint (length s) ++ (b' ' ∷ (s ++ rest))

-- `PAE`.
unfoldable pub pae : Bytes → Bytes → Bytes
unfolding framed
pae payload_type payload = dsse_prefix ++ framed payload_type (b' ' ∷ framed payload [])

-- Where no byte before the space is one, the first space parts a string in one way.
split_at_space :
    (s t u v : Bytes)
    → All (λ c. b'0' ≤ c) s
    → All (λ c. b'0' ≤ c) t
    → s ++ b' ' ∷ u ≡ t ++ b' ' ∷ v
    → (s ≡ t) × (u ≡ v)
split_at_space [] [] u v h k e = (refl, cc e)
split_at_space [] (d ∷ t) u v h k e = let same : 32 ≡ d = cc e in absurd (omega (arith, k.0, same))
split_at_space (c ∷ s) [] u v h k e = let same : c ≡ 32 = cc e in absurd (omega (arith, h.0, same))
split_at_space (c ∷ s) (d ∷ t) u v h k e =
    let (same, rest) = split_at_space s t u v h.1 k.1 (cc e) in
    let first : c ≡ d = cc e in (cc (first, same), rest)

split_at_length : (s t u v : Bytes) → length s ≡ length t → s ++ u ≡ t ++ v → (s ≡ t) × (u ≡ v)
split_at_length [] [] u v l e = (refl, e)
split_at_length [] (d ∷ t) u v l e = absurd (omega (arith, l))
split_at_length (c ∷ s) [] u v l e = absurd (omega (arith, l))
split_at_length (c ∷ s) (d ∷ t) u v l e =
    let (same, rest) = split_at_length s t u v (omega (arith, l)) (cc e) in
    let first : c ≡ d = cc e in (cc (first, same), rest)

framed_inj : (s t u v : Bytes) → framed s u ≡ framed t v → (s ≡ t) × (u ≡ v)
unfolding framed
framed_inj s t u v e =
    let (size, rest) =
      split_at_space (print_uint (length s)) (print_uint (length t)) (s ++ u) (t ++ v)
        (All-print_uint (length s)) (All-print_uint (length t)) e in
    split_at_length s t u v (print_uint_inj (length s) (length t) size) rest

-- No two pairs of a payload type and a payload have the same encoding.
pub pae_inj :
    (type payload type' payload' : Bytes)
    → pae type payload ≡ pae type' payload'
    → (type ≡ type') × (payload ≡ payload')
unfolding pae
pae_inj type payload type' payload' e =
    let (same, rest) =
      framed_inj type type' (b' ' ∷ framed payload []) (b' ' ∷ framed payload' []) (cc e) in
    let (same', nothing) = framed_inj payload payload' [] [] (cc rest) in (same, same')
