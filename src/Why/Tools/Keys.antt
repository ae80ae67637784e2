-- ===== src/Why/Tools/Keys.antt =====
-- The keys of an object: a key that stands once is found, and of two objects with as many keys
-- neither has a key that the other has not.
use behalf.Prelude.{
  ◌+◌, ◌≤◌, ◌≡◌, refl, sym, ◌∙◌, subst, ◌⊎◌, inl, inr, some, List, [], ◌∷◌, arith, if◌then◌else◌,
  Bool-cases, length, Bytes, eqb, eqb_iff,
}
use mathlib.Core.List.{Memᴰ}
use behalf.Why.Tools.Value.{Value, Fields, end, field, find, keys}

abbrev pub Distinct : List Bytes → Type 0
Distinct [] = Unit
Distinct (k ∷ ks) = (Memᴰ k ks → ⊥) × Distinct ks

pub find-keys : (k : Bytes) (fs : Fields) → Memᴰ k (keys fs) → (v : Value) × (find k fs ≡ some v)
unfolding find keys
find-keys k end m = elim m [ ]
find-keys k (field j v fs) m = elim (Bool-cases (eqb j k)) [
  | inl same ↦ (v, rw same refl)
  | inr other ↦ elim m [
    | Memᴰ.head is ↦ absurd (cc (other, (eqb_iff j k).1 (sym is)))
    | Memᴰ.tail later ↦ let (w, at) = find-keys k fs later in (w, rw other at)
  ]
]

pub keys-find : (k : Bytes) (v : Value) (fs : Fields) → find k fs ≡ some v → Memᴰ k (keys fs)
unfolding find keys
keys-find k v end e = absurd (cc e)
keys-find k v (field j w fs) e = elim (Bool-cases (eqb j k)) [
  | inl same ↦ Memᴰ.head (sym ((eqb_iff j k).0 same))
  | inr other ↦ Memᴰ.tail (keys-find k v fs (ground arith))
]

erase : Bytes → List Bytes → List Bytes
erase k [] = []
erase k (j ∷ ks) = let rest = erase k ks in if eqb j k then ks else j ∷ rest

Memᴰ-erase : (k j : Bytes) (ks : List Bytes) → Memᴰ j ks → (j ≡ k) ⊎ Memᴰ j (erase k ks)
unfolding erase
Memᴰ-erase k j (i ∷ ks) m = elim (Bool-cases (eqb i k)) [
  | inl same ↦ elim m [
    | Memᴰ.head is ↦ inl (is ∙ (eqb_iff i k).0 same)
    | Memᴰ.tail later ↦ inr (rw same later)
  ]
  | inr other ↦ elim m [
    | Memᴰ.head is ↦ inr (rw other (Memᴰ.head is))
    | Memᴰ.tail later ↦ elim (Memᴰ-erase k j ks later) [
      | inl e ↦ inl e
      | inr in_rest ↦ inr (rw other (Memᴰ.tail in_rest))
    ]
  ]
]
Memᴰ-erase k j [] m = elim m [ ]

length-erase : (k : Bytes) (ks : List Bytes) → Memᴰ k ks → length (erase k ks) + 1 ≡ length ks
unfolding erase
length-erase k [] m = elim m [ ]
length-erase k (i ∷ ks) m = elim (Bool-cases (eqb i k)) [
  | inl same ↦ rw same (omega arith)
  | inr other ↦ elim m [
    | Memᴰ.head is ↦ absurd (cc (other, (eqb_iff i k).1 (sym is)))
    | Memᴰ.tail later ↦ rw other (omega (arith, length-erase k ks later))
  ]
]

-- As many distinct keys, all of them among the others: then these are all of the others.
pub keys_back :
    (ks js : List Bytes)
    → Distinct ks
    → length js ≤ length ks
    → ((k : Bytes) → Memᴰ k ks → Memᴰ k js)
    → (j : Bytes) → Memᴰ j js
    → Memᴰ j ks
keys_back [] [] d le sub j m = m
keys_back [] (i ∷ js) d le sub j m = absurd (omega arith)
keys_back (k ∷ ks) js d le sub j m = elim (Memᴰ-erase k j js m) [
  | inl is ↦ Memᴰ.head is
  | inr rest ↦
      let shorter = length-erase k js (sub k (Memᴰ.head refl)) in
      Memᴰ.tail (
        keys_back ks (erase k js) d.1 (omega (arith, shorter))
          (λ i at. keep i at (Memᴰ-erase k i js (sub i (Memᴰ.tail at)))) j rest)
]
  where
    keep : (i : Bytes) → Memᴰ i ks → (i ≡ k) ⊎ Memᴰ i (erase k js) → Memᴰ i (erase k js)
    keep i at (inl is) = absurd (d.0 (subst (λ x. Memᴰ x ks) is at))
    keep i at (inr rest) = rest
