-- ===== src/Why/Tools/Permits/Keys.antt =====
-- internal/why/aat_i4.go: `sortedKeys` and `keyDiff`.
use behalf.Prelude.{
  ◌≡◌, refl, sym, ap, ◌∙◌, subst, ◌≢◌, ◌↔◌, inl, inr, true, false, none, some, List, [], ◌∷◌, arith,
  if◌then◌else◌, Bool-cases, Option-cases, Bytes, eqb, eqb_iff, Dict, lookup,
}
use mathlib.Core.List.{Memᴰ}
use behalf.Why.Compare.{before, insert_sorted, sort}
use behalf.Why.Compare.Ceilings.{Memᴰ-sort}
use behalf.Why.Tools.Compare.{names, sorted_keys, first_missing, key_diff, is_empty, same_keys}
use behalf.Why.Tools.Equality.{both}
use behalf.Why.Tools.Permits.{SameKeys}

module _ {A : Type 0} where
  lookup-names : (k : Bytes) (v : A) (m : Dict A) → lookup k m ≡ some v → Memᴰ k (names m)
  unfolding lookup names
  lookup-names k v [] e = absurd (cc e)
  lookup-names k v ((j, w) ∷ m) e = elim (Bool-cases (eqb j k)) [
    | inl same ↦ Memᴰ.head (sym ((eqb_iff j k).0 same))
    | inr other ↦ Memᴰ.tail (lookup-names k v m (ground arith))
  ]

  pub lookup-sorted_keys :
      (k : Bytes) (v : A) (m : Dict A) → lookup k m ≡ some v → Memᴰ k (sorted_keys m)
  unfolding sorted_keys
  lookup-sorted_keys k v m e = Memᴰ-sort k (names m) (lookup-names k v m e)

  names-lookup : (k : Bytes) (m : Dict A) → Memᴰ k (names m) → lookup k m ≢ none
  unfolding lookup names
  names-lookup k [] at = elim at [ ]
  names-lookup k ((j, w) ∷ m) at = elim (Bool-cases (eqb j k)) [
    | inl same ↦ λ out. absurd (ground arith)
    | inr other ↦ elim at [
      | Memᴰ.head is ↦ absurd (cc (other, (eqb_iff j k).1 (sym is)))
      | Memᴰ.tail later ↦ λ out. names-lookup k m later (ground arith)
    ]
  ]

  -- Where the empty key, if it is among them, is not missing, none of the keys is.
  first_missing-none :
      (k : Bytes) (ks : List Bytes) (m : Dict A)
      → (Memᴰ [] ks → lookup [] m ≢ none)
      → first_missing ks m ≡ []
      → Memᴰ k ks
      → lookup k m ≢ none
  unfolding first_missing
  first_missing-none k [] m some_empty h at = elim at [ ]
  first_missing-none k (j ∷ ks) m some_empty h at = elim (Option-cases (lookup j m)) [
    | inl out ↦
        let first : j ≡ [] = ground arith in
        absurd (some_empty (Memᴰ.head (sym first)) (subst (λ i. lookup i m ≡ none) first out))
    | inr (v, found) ↦ elim at [
      | Memᴰ.head is ↦ λ out. absurd (cc (is, out, found))
      | Memᴰ.tail later ↦
          first_missing-none k ks m (λ there. some_empty (Memᴰ.tail there)) (ground arith) later
    ]
  ]

insert_sorted-Memᴰ : (a b : Bytes) (s : List Bytes) → Memᴰ a (insert_sorted b s) → Memᴰ a (b ∷ s)
unfolding insert_sorted
insert_sorted-Memᴰ a b [] at = at
insert_sorted-Memᴰ a b (c ∷ s) at = elim (Bool-cases (before b c)) [
  | inl first ↦ subst (Memᴰ a) (insert_sorted-first first) at
  | inr later ↦ elim (subst (Memᴰ a) (insert_sorted-later later) at) [
    | Memᴰ.head is ↦ Memᴰ.tail (Memᴰ.head is)
    | Memᴰ.tail there ↦ elim (insert_sorted-Memᴰ a b s there) [
      | Memᴰ.head is ↦ Memᴰ.head is
      | Memᴰ.tail on ↦ Memᴰ.tail (Memᴰ.tail on)
    ]
  ]
]
  where
    insert_sorted-first :
        before b c ≡ true → (if before b c then b ∷ c ∷ s else c ∷ insert_sorted b s) ≡ b ∷ c ∷ s
    insert_sorted-first h = rw h refl

    insert_sorted-later :
        before b c ≡ false
        → (if before b c then b ∷ c ∷ s else c ∷ insert_sorted b s) ≡ c ∷ insert_sorted b s
    insert_sorted-later h = rw h refl

sort-Memᴰ : (a : Bytes) (s : List Bytes) → Memᴰ a (sort s) → Memᴰ a s
unfolding sort
sort-Memᴰ a [] at = at
sort-Memᴰ a (b ∷ s) at = elim (insert_sorted-Memᴰ a b (sort s) at) [
  | Memᴰ.head is ↦ Memᴰ.head is
  | Memᴰ.tail there ↦ Memᴰ.tail (sort-Memᴰ a s there)
]

is_empty-nil : (s : Bytes) → is_empty s ≡ true → s ≡ []
unfolding is_empty
is_empty-nil [] h = refl
is_empty-nil (c ∷ t) h = absurd (cc h)

module _ {A B : Type 0} where
  first_missing-sorted :
      (m : Dict A) (n : Dict B)
      → (lookup [] n ≡ none → lookup [] m ≡ none)
      → first_missing (sorted_keys m) n ≡ []
      → (k : Bytes) → lookup k n ≡ none
      → lookup k m ≡ none
  unfolding sorted_keys
  first_missing-sorted m n agree h k out = elim (Option-cases (lookup k m)) [
    | inl out' ↦ out'
    | inr (v, found) ↦
        let some_empty : Memᴰ [] (sorted_keys m) → lookup [] n ≢ none =
          λ at nil_out. names-lookup [] m (sort-Memᴰ [] (names m) at) (agree nil_out) in
        absurd
          (first_missing-none k (sorted_keys m) n some_empty h (lookup-sorted_keys k v m found) out)
  ]

module _ {A : Type 0} where
  -- Where the maps agree on the empty key, no difference reported is no difference.
  pub same_keys-SameKeys :
      (parent child : Dict A)
      → (lookup [] parent ≡ none) ↔ (lookup [] child ≡ none)
      → same_keys parent child ≡ true
      → SameKeys parent child
  unfolding same_keys key_diff
  same_keys-SameKeys parent child agree h k =
      let (added, removed) = both _ _ h in
      (
        first_missing-sorted child parent agree.0 (is_empty-nil _ added) k,
        first_missing-sorted parent child agree.1 (is_empty-nil _ removed) k,
      )

insert_sorted-empty :
    (b : Bytes) (s : List Bytes) → (t : List Bytes) × (insert_sorted b ([] ∷ s) ≡ [] ∷ t)
unfolding insert_sorted before
insert_sorted-empty [] s = ([] ∷ s, refl)
insert_sorted-empty (c ∷ b) s = (insert_sorted (c ∷ b) s, refl)

-- The empty string sorts first.
sort-empty : (s : List Bytes) → Memᴰ [] s → (t : List Bytes) × (sort s ≡ [] ∷ t)
unfolding sort
sort-empty [] at = elim at [ ]
sort-empty (b ∷ s) (Memᴰ.head is) =
    (sort s, subst (λ x. insert_sorted x (sort s) ≡ [] ∷ sort s) is (first (sort s)))
  where
    first : (u : List Bytes) → insert_sorted [] u ≡ [] ∷ u
    first [] = unfold insert_sorted in refl
    first (c ∷ u) = unfold insert_sorted in unfold before in refl
sort-empty (b ∷ s) (Memᴰ.tail later) =
    let (t, e) = sort-empty s later in
    let (u, f) = insert_sorted-empty b t in (u, ap (insert_sorted b) e ∙ f)

module _ {A : Type 0} where
  -- Where the child names the empty argument and the parent does not, keyDiff reports no key that the
  -- child adds, whatever others it adds.
  pub key_diff-hides :
      (parent child : Dict A) (v : A)
      → lookup [] parent ≡ none
      → lookup [] child ≡ some v
      → (key_diff parent child).0 ≡ []
  unfolding key_diff first_missing sorted_keys
  key_diff-hides parent child v out found =
      let (t, e) = sort-empty (names child) (lookup-names [] v child found) in
      ap (λ ks. first_missing ks parent) e ∙ missing t
    where
      missing : (t : List Bytes) → first_missing ([] ∷ t) parent ≡ []
      missing t = ground (arith, out)
