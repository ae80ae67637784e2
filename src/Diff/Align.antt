-- ===== src/Diff/Align.antt =====
-- internal/diff/align.go: the two tiers of the aligner. `max_cells` is the variable of that name.
pub mod Keeps
use behalf.Prelude.{
  ℕ, zero, suc, ◌+◌, ◌-◌, ◌*◌, Bool, true, false, not, ◌&&◌, Option, none, some, List, [], ◌∷◌,
  ◌++◌, map, ◌==◌, if◌then◌else◌, length, get_elem?, set, replicate, get_or, Bytes, eqb,
}
use behalf.Prelude.Int.{ℤ, pos, negsuc, sub_ℕ}
use mathlib.Core.List.{reverse}
use behalf.Diff.Step.{Step, Pair}

-- float64: `decimal m e` is the constant m / 10^e.
pub record Float (F : Type 0) : Type 0 where
  pub decimal : ℤ → ℕ → F
  pub of_int : ℤ → F
  pub add : F → F → F
  pub sub : F → F → F
  pub mul : F → F → F
  pub div : F → F → F
  pub abs : F → F
  pub lt : F → F → Bool
  pub eq : F → F → Bool

unfoldable pub not_empty : Bytes → Bool
not_empty [] = false
not_empty (c ∷ s) = true

prefix_to_dot : Bytes → Option Bytes
prefix_to_dot [] = none
prefix_to_dot (c ∷ s) =
    let rest = prefix_to_dot s in
    if c == b'.' then some [] else elim rest [ none ↦ none | some p ↦ some (c ∷ p) ]

-- `namespaceOf`: the part before the first full stop, unless that part is empty.
unfoldable pub namespace_of : Bytes → Bytes
unfolding prefix_to_dot
namespace_of name = elim (prefix_to_dot name) [ none ↦ [] | some p ↦ p ]

module _ {F : Type 0} (fl : Float F) where
  open fl use {decimal, of_int, add, sub, mul, div, abs, lt, eq}

  abbrev zero_score : F
  zero_score = decimal (pos 0) 0

  abbrev gap_penalty : F
  gap_penalty = decimal (negsuc 29) 2

  namespace_similarity : Bytes → Bytes → F
  namespace_similarity ns other =
      if not_empty ns && eqb ns other then decimal (pos 15) 2 else zero_score

  -- `simProximity * (1 - d/proximityWindow)`, inside the window.
  with_proximity : F → F → F
  with_proximity s d =
      if lt d (decimal (pos 16) 0)
      then add s (mul (decimal (pos 8) 2) (sub (decimal (pos 1) 0) (div d (decimal (pos 16) 0))))
      else s

  -- `similarity`.
  unfoldable pub similarity : Step → Step → ℕ → ℕ → F
  unfolding not_empty namespace_similarity with_proximity
  similarity a b i j =
      if not_empty a.step_key && eqb a.step_key b.step_key
      then decimal (pos 1) 0
      else if not (eqb a.operation b.operation)
      then namespace_similarity (namespace_of a.operation) (namespace_of b.operation)
      else let s₁ = decimal (pos 60) 2 in
        let s₂ = if eqb a.target b.target then add s₁ (decimal (pos 20) 2) else s₁ in
        let s₃ = if eqb a.arg_shape b.arg_shape then add s₂ (decimal (pos 12) 2) else s₂ in
        with_proximity s₃ (abs (of_int (sub_ℕ i j)))

  -- `score`.
  unfoldable pub score : Step → Step → ℕ → ℕ → F
  score a b i j = sub (mul (decimal (pos 2) 0) (similarity a b i j)) (decimal (pos 1) 0)

  -- Outside both runs the loops never score.
  score_at : Option Step → Option Step → ℕ → ℕ → F
  score_at (some a) (some b) i j = score a b i j
  score_at _ _ i j = zero_score

  better : F → F → F
  better best other = if lt best other then other else best

  module _ (a b : List Step) where
    -- The matrix, flattened: the cell of row i and column j.
    cell : ℕ → ℕ → ℕ
    cell i j = i * (length b + 1) + j

    -- `for i := 1; i <= n; i++` over the first column, with the rounds left.
    fill_column : ℕ → ℕ → List F → List F
    fill_column zero i dp = dp
    fill_column (suc rounds) i dp =
        fill_column rounds (i + 1)
          (set dp (cell i 0) (add (get_or dp (cell (i - 1) 0) zero_score) gap_penalty))

    fill_row : ℕ → ℕ → List F → List F
    fill_row zero j dp = dp
    fill_row (suc rounds) j dp =
        fill_row rounds (j + 1)
          (set dp (cell 0 j) (add (get_or dp (cell 0 (j - 1)) zero_score) gap_penalty))

    best_at : List F → ℕ → ℕ → F
    unfolding better score_at cell
    best_at dp i j =
        let diag =
          add (get_or dp (cell (i - 1) (j - 1)) zero_score)
            (score_at (get_elem? a (i - 1)) (get_elem? b (j - 1)) (i - 1) (j - 1)) in
        let up = add (get_or dp (cell (i - 1) j) zero_score) gap_penalty in
        let left = add (get_or dp (cell i (j - 1)) zero_score) gap_penalty in
        better (better diag up) left

    fill_inner : ℕ → ℕ → ℕ → List F → List F
    unfolding best_at cell
    fill_inner zero i j dp = dp
    fill_inner (suc rounds) i j dp =
        fill_inner rounds i (j + 1) (set dp (cell i j) (best_at dp i j))

    fill_outer : ℕ → ℕ → List F → List F
    unfolding fill_inner
    fill_outer zero i dp = dp
    fill_outer (suc rounds) i dp = fill_outer rounds (i + 1) (fill_inner (length b) i 1 dp)

    unfoldable pub table : List F
    unfolding fill_column fill_row fill_outer cell
    table = fill_outer (length a) 1 (
        fill_row (length b) 1
          (fill_column (length a) 1 (replicate ((length a + 1) * (length b + 1)) zero_score)))

    pub data Move : Type 0 where
      diagonal up left : Move

    -- The switch of the traceback at a cell inside the matrix.
    choose : List F → ℕ → ℕ → Move
    unfolding cell score_at
    choose dp i j =
        let here = get_or dp (cell (suc i) (suc j)) zero_score in
        if eq here
          (add (get_or dp (cell i j) zero_score) (score_at (get_elem? a i) (get_elem? b j) i j))
        then diagonal
        else if eq here (add (get_or dp (cell i (suc j)) zero_score) gap_penalty)
        then up
        else left

    -- The pairs back to front. On the edges only one run is left.
    trace : List F → ℕ → ℕ → List Pair
    unfolding choose
    trace dp zero zero = []
    trace dp zero (suc j) = record { a = none; b = get_elem? b j } ∷ trace dp zero j
    trace dp (suc i) zero = record { a = get_elem? a i; b = none } ∷ trace dp i zero
    trace dp (suc i) (suc j) = elim (choose dp i j) [
      | diagonal ↦ record { a = get_elem? a i; b = get_elem? b j } ∷ trace dp i j
      | up ↦ record { a = get_elem? a i; b = none } ∷ trace dp i (suc j)
      | left ↦ record { a = none; b = get_elem? b j } ∷ trace dp (suc i) j
    ]

    -- `needlemanWunsch`.
    unfoldable pub needleman_wunsch : List Pair
    unfolding trace table
    needleman_wunsch = reverse (trace table (length a) (length b))

-- `onlyOneSide`.
unfoldable pub only_one_side : List Step → List Step → List Pair
only_one_side a b =
    map (λ s. record { a = some s; b = none }) a ++ map (λ s. record { a = none; b = some s }) b

-- `zipPositional`.
unfoldable pub zip_positional : List Step → List Step → List Pair
zip_positional [] b = map (λ s. record { a = none; b = some s }) b
zip_positional (s ∷ a) [] = record { a = some s; b = none } ∷ zip_positional a []
zip_positional (s ∷ a) (t ∷ b) = record { a = some s; b = some t } ∷ zip_positional a b
