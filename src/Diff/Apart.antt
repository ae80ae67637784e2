-- ===== src/Diff/Apart.antt =====
-- Lists without repetitions.
use behalf.Prelude.{
  ◌≡◌, refl, sym, ap, ◌∙◌, subst, inl, inr, List, [], ◌∷◌, ◌++◌, arith, length, length-append,
}
use mathlib.Core.List.{Memᴰ, Permᴰ}
use mathlib.Core.List.Memᴰ
use mathlib.Core.List.Permᴰ

module _ {A : Type 0} where
  -- No element stands in the list twice.
  abbrev pub Apart : List A → Type 0
  Apart [] = Unit
  Apart (x ∷ xs) = (Memᴰ x xs → ⊥) × Apart xs

  Memᴰ-split :
      (x : A) (ys : List A) → Memᴰ x ys → (before after : List A) × (ys ≡ before ++ (x ∷ after))
  Memᴰ-split x [] m = elim m [ ]
  Memᴰ-split x (y ∷ ys) (Memᴰ.head e) = ([], ys, ap (λ z. z ∷ ys) (sym e))
  Memᴰ-split x (y ∷ ys) (Memᴰ.tail m) =
      let (before, after, e) = Memᴰ-split x ys m in (y ∷ before, after, ap (◌∷◌ y) e)

  -- A list without repetitions, of elements of another that is no longer, is a permutation of it.
  pub Permᴰ-Apart :
      (xs ys : List A)
      → Apart xs
      → ((x : A) → Memᴰ x xs → Memᴰ x ys)
      → length xs ≡ length ys
      → Permᴰ xs ys
  Permᴰ-Apart [] [] apart sub e = Permᴰ.nil
  Permᴰ-Apart [] (y ∷ ys) apart sub e = absurd (omega (arith, e))
  Permᴰ-Apart (x ∷ xs) ys (new, apart) sub e =
      let (before, after, parts) = Memᴰ-split x ys (sub x (Memᴰ.head refl)) in
      let whole = ap length parts ∙ length-append before (x ∷ after) in
      let fits : length xs ≡ length (before ++ after) =
        omega (arith, e, whole, length-append before after) in
      subst (Permᴰ (x ∷ xs)) (sym parts) (
        Permᴰ.trans
          (Permᴰ.cons refl
            (Permᴰ-Apart xs (before ++ after) apart (inside before after parts) fits))
          (Permᴰ.symm (Permᴰ.middle x before after)))
    where
      inside :
          (before after : List A)
          → ys ≡ before ++ (x ∷ after)
          → (z : A) → Memᴰ z xs
          → Memᴰ z (before ++ after)
      inside before after parts z at =
          elim (Memᴰ.append_cases before (subst (Memᴰ z) parts (sub z (Memᴰ.tail at)))) [
            | inl early ↦ Memᴰ.append_left after early
            | inr late ↦ elim late [
              | Memᴰ.head is ↦ absurd (new (subst (λ y. Memᴰ y xs) is at))
              | Memᴰ.tail later ↦ Memᴰ.append_right before later
            ]
          ]
