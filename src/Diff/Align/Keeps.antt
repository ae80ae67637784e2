-- ===== src/Diff/Align/Keeps.antt =====
-- internal/diff/align.go: the two sides of the pairs that the second tier gives.
use behalf.Prelude.{
  ℕ, zero, suc, ◌≤◌, ◌≡◌, refl, sym, ap, ◌∙◌, Option, none, some, List, [], ◌∷◌, ◌++◌, append-nil,
  arith, length, get_elem?, take,
}
use mathlib.Core.List.{reverse, reverse-cons}
use behalf.Diff.Step.{Step, Pair, a_side, b_side, a_side-append, b_side-append, cons_some}
use behalf.Diff.Align.{Float, diagonal, up, left, trace, choose, table, needleman_wunsch}

-- The element at a place is the last of one more.
take-suc :
    (xs : List Step) (i : ℕ)
    → suc i ≤ length xs
    → (s : Step) × (get_elem? xs i ≡ some s) × (take (suc i) xs ≡ take i xs ++ s ∷ [])
take-suc [] i h = absurd (omega arith)
take-suc (x ∷ xs) zero h = (x, refl, refl)
take-suc (x ∷ xs) (suc i) h =
    let (s, at_i, longer) = take-suc xs i (omega arith) in (s, at_i, ap (◌∷◌ x) longer)

take_all : (xs : List Step) → take (length xs) xs ≡ xs
take_all [] = refl
take_all (x ∷ xs) = ap (◌∷◌ x) (take_all xs)

a_side_last :
    (ps : List Pair) (p : Pair) (ss : List Step)
    → a_side (reverse ps) ≡ ss
    → a_side (reverse (p ∷ ps)) ≡ ss ++ a_side (p ∷ [])
a_side_last ps p ss e =
    rw reverse-cons (a_side-append (reverse ps) (p ∷ []) ∙ ap (λ x. x ++ a_side (p ∷ [])) e)

b_side_last :
    (ps : List Pair) (p : Pair) (ss : List Step)
    → b_side (reverse ps) ≡ ss
    → b_side (reverse (p ∷ ps)) ≡ ss ++ b_side (p ∷ [])
b_side_last ps p ss e =
    rw reverse-cons (b_side-append (reverse ps) (p ∷ []) ∙ ap (λ x. x ++ b_side (p ∷ [])) e)

a_side_one : (o q : Option Step) → a_side (record { a = o; b = q } ∷ []) ≡ cons_some o []
unfolding a_side
a_side_one o q = refl

b_side_one : (o q : Option Step) → b_side (record { a = q; b = o } ∷ []) ≡ cons_some o []
unfolding b_side
b_side_one o q = refl

-- One more step of a run, taken or not.
taken :
    (xs : List Step) (i : ℕ)
    → suc i ≤ length xs
    → take i xs ++ cons_some (get_elem? xs i) [] ≡ take (suc i) xs
unfolding cons_some
taken xs i h = let (s, at_i, longer) = take-suc xs i h in rw at_i (sym longer)

not_taken : (xs : List Step) (i : ℕ) → take i xs ++ cons_some none [] ≡ take i xs
unfolding cons_some
not_taken xs i = append-nil (take i xs)

module _ {F : Type 0} (fl : Float F) (a b : List Step) where
  Sides : List Pair → ℕ → ℕ → Type 0
  Sides ps i j = (a_side (reverse ps) ≡ take i a) × (b_side (reverse ps) ≡ take j b)

  Sides-diagonal :
      (ps : List Pair) (i j : ℕ)
      → suc i ≤ length a
      → suc j ≤ length b
      → Sides ps i j
      → Sides (record { a = get_elem? a i; b = get_elem? b j } ∷ ps) (suc i) (suc j)
  unfolding Sides
  Sides-diagonal ps i j hi hj (ea, eb) = (
    a_side_last ps _ (take i a) ea
        ∙ ap (λ x. take i a ++ x) (a_side_one (get_elem? a i) (get_elem? b j))
        ∙ taken a i hi,
    b_side_last ps _ (take j b) eb
        ∙ ap (λ x. take j b ++ x) (b_side_one (get_elem? b j) (get_elem? a i))
        ∙ taken b j hj,
  )

  Sides-up :
      (ps : List Pair) (i j : ℕ)
      → suc i ≤ length a
      → Sides ps i j
      → Sides (record { a = get_elem? a i; b = none } ∷ ps) (suc i) j
  unfolding Sides
  Sides-up ps i j hi (ea, eb) = (
    a_side_last ps _ (take i a) ea
        ∙ ap (λ x. take i a ++ x) (a_side_one (get_elem? a i) none)
        ∙ taken a i hi,
    b_side_last ps _ (take j b) eb
        ∙ ap (λ x. take j b ++ x) (b_side_one none (get_elem? a i))
        ∙ not_taken b j,
  )

  Sides-left :
      (ps : List Pair) (i j : ℕ)
      → suc j ≤ length b
      → Sides ps i j
      → Sides (record { a = none; b = get_elem? b j } ∷ ps) i (suc j)
  unfolding Sides
  Sides-left ps i j hj (ea, eb) = (
    a_side_last ps _ (take i a) ea
        ∙ ap (λ x. take i a ++ x) (a_side_one none (get_elem? b j))
        ∙ not_taken a i,
    b_side_last ps _ (take j b) eb
        ∙ ap (λ x. take j b ++ x) (b_side_one (get_elem? b j) none)
        ∙ taken b j hj,
  )

  Sides-trace :
      (dp : List F) (i j : ℕ) → i ≤ length a → j ≤ length b → Sides (trace fl a b dp i j) i j
  unfolding trace
  Sides-trace dp zero zero hi hj = unfold Sides a_side b_side in (refl, refl)
  Sides-trace dp zero (suc j) hi hj =
      Sides-left (trace fl a b dp zero j) zero j hj (Sides-trace dp zero j hi (omega arith))
  Sides-trace dp (suc i) zero hi hj =
      Sides-up (trace fl a b dp i zero) i zero hi (Sides-trace dp i zero (omega arith) hj)
  Sides-trace dp (suc i) (suc j) hi hj =
      elim (choose fl a b dp i j)
        as (λ m.
          Sides
            (elim m [
              | diagonal ↦ record { a = get_elem? a i; b = get_elem? b j } ∷ trace fl a b dp i j
              | up ↦ record { a = get_elem? a i; b = none } ∷ trace fl a b dp i (suc j)
              | left ↦ record { a = none; b = get_elem? b j } ∷ trace fl a b dp (suc i) j
            ])
            (suc i) (suc j)) [
              | diagonal ↦
                  Sides-diagonal (trace fl a b dp i j) i j hi hj
                    (Sides-trace dp i j (omega arith) (omega arith))
              | up ↦
                  Sides-up (trace fl a b dp i (suc j)) i (suc j) hi
                    (Sides-trace dp i (suc j) (omega arith) hj)
              | left ↦
                  Sides-left (trace fl a b dp (suc i) j) (suc i) j hj
                    (Sides-trace dp (suc i) j hi (omega arith))
            ]

  -- The alignment holds the steps of both runs, each once and in order, whatever the scores are.
  pub needleman_wunsch-Sides :
      (a_side (needleman_wunsch fl a b) ≡ a) × (b_side (needleman_wunsch fl a b) ≡ b)
  unfolding needleman_wunsch Sides
  needleman_wunsch-Sides =
      let (ea, eb) = Sides-trace (table fl a b) (length a) (length b) (omega arith) (omega arith) in
      (ea ∙ take_all a, eb ∙ take_all b)
