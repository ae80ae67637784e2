-- ===== src/Why/Tools/Subsumes.antt =====
-- internal/why/aat_i4.go: `subsumes`. A decider is the comparison of one derived constraint: it takes
-- the parent's constraint, the depth and the steps left, and gives the answer and the steps left.
use behalf.Prelude.{
  ℕ, zero, suc, Bool, true, false, not, ◌&&◌, ◌||◌, Option, none, some, List, [], ◌∷◌, ◌++◌, ltb,
  if◌then◌else◌,
}
use Prim.Native.Nat.{Ordering}
use behalf.Why.Grant.{Rational}
use behalf.Why.Tools.Json.{Json, number_of, json_equal, contains_value}
use behalf.Why.Tools.Constraint.{
  Bounds, Constraint, Constraints, exact, range, one_of, not_one_of, contains, subset, wildcard,
  all, any, stop, clause, max_constraint_depth,
}

abbrev pub max_subsumption_steps : ℕ
max_subsumption_steps = 200000

module _ {Raw Q : Type 0} {rat : Rational Q} (json : Json Raw Q rat) where
  abbrev pub Decider : Type 0
  Decider = Constraint Raw Q → ℕ → ℕ → Bool × ℕ

  -- Every value of the first list is in the second: `for v in vs: containsValue(set, v)`.
  unfoldable pub all_contained : List Raw → List Raw → Bool
  all_contained [] set' = true
  all_contained (v ∷ vs) set' = contains_value json set' v && all_contained vs set'

  -- The lower bound of `inRange`, and the upper one.
  unfoldable pub above_min : Q → Option Q → Bool → Bool
  above_min n none inclusive = true
  above_min n (some m) inclusive = elim (rat.cmp n m) [
    | Ordering.lt ↦ false
    | Ordering.eq ↦ inclusive
    | Ordering.gt ↦ true
  ]

  unfoldable pub below_max : Q → Option Q → Bool → Bool
  below_max n none inclusive = true
  below_max n (some m) inclusive = elim (rat.cmp n m) [
    | Ordering.gt ↦ false
    | Ordering.eq ↦ inclusive
    | Ordering.lt ↦ true
  ]

  -- `inRange`.
  unfoldable pub in_range : Q → Bounds Q → Bool
  unfolding above_min below_max
  in_range n p = above_min n p.min p.min_inclusive && below_max n p.max p.max_inclusive

  unfoldable pub min_within : Option Q → Bool → Option Q → Bool → Bool
  min_within d d_in none p_in = true
  min_within none d_in (some p) p_in = false
  min_within (some d) d_in (some p) p_in = elim (rat.cmp d p) [
    | Ordering.lt ↦ false
    | Ordering.eq ↦ not d_in || p_in
    | Ordering.gt ↦ true
  ]

  unfoldable pub max_within : Option Q → Bool → Option Q → Bool → Bool
  max_within d d_in none p_in = true
  max_within none d_in (some p) p_in = false
  max_within (some d) d_in (some p) p_in = elim (rat.cmp d p) [
    | Ordering.gt ↦ false
    | Ordering.eq ↦ not d_in || p_in
    | Ordering.lt ↦ true
  ]

  -- `rangeSubsumes`.
  unfoldable pub range_subsumes : Bounds Q → Bounds Q → Bool
  unfolding min_within max_within
  range_subsumes d p =
      min_within d.min d.min_inclusive p.min p.min_inclusive
      && max_within d.max d.max_inclusive p.max p.max_inclusive

  unfoldable pub number_in : Option Q → Bounds Q → Bool
  unfolding in_range
  number_in none p = false
  number_in (some n) p = in_range n p

  -- The derived kinds that hold no clauses, under a parent that is no wildcard.
  unfoldable pub exact_subsumes : Raw → Constraint Raw Q → Bool
  unfolding number_in
  exact_subsumes v (exact w) = json_equal json v w
  exact_subsumes v (range p) = number_in (number_of json v) p
  exact_subsumes v (one_of ws) = contains_value json ws v
  exact_subsumes v _ = false

  unfoldable pub plain_subsumes : Constraint Raw Q → Constraint Raw Q → Bool
  unfolding exact_subsumes range_subsumes all_contained
  plain_subsumes (exact v) p = exact_subsumes v p
  plain_subsumes (range d) (range p) = range_subsumes d p
  plain_subsumes (one_of vs) (one_of ws) = all_contained vs ws
  plain_subsumes (not_one_of vs) (not_one_of ws) = all_contained ws vs
  plain_subsumes (contains vs) (contains ws) = all_contained ws vs
  plain_subsumes (subset vs) (subset ws) = all_contained vs ws
  plain_subsumes _ _ = false

  -- The derived clauses not yet used, from one on: the first that subsumes the parent's clause and
  -- leaves the others enough. `seen` are those before it, which go back to the unused ones.
  unfoldable pub try_clauses :
      Constraint Raw Q
      → (List Decider → ℕ → Bool × ℕ)
      → ℕ
      → List Decider
      → List Decider
      → ℕ
      → Bool × ℕ
  try_clauses p next depth seen [] steps = (false, steps)
  try_clauses p next depth seen (d ∷ unused) steps =
      let (fits, left) = d p depth steps in
      elim fits [
        | false ↦ try_clauses p next depth (seen ++ d ∷ []) unused left
        | true ↦
            let (matched, left') = next (seen ++ unused) left in
            elim matched [
              | true ↦ (true, left')
              | false ↦ try_clauses p next depth (seen ++ d ∷ []) unused left'
            ]
      ]

  -- `allSubsumes`: `match`, from one of the parent's clauses on.
  unfoldable pub match_clauses : ℕ → Constraints Raw Q → List Decider → ℕ → Bool × ℕ
  unfolding try_clauses
  match_clauses depth stop unused steps = (true, steps)
  match_clauses depth (clause p ps) unused zero = (false, zero)
  match_clauses depth (clause p ps) unused (suc steps) =
      try_clauses p (match_clauses depth ps) depth [] unused (suc steps)

  -- A clause of the parent's `any` that the derived clause subsumes.
  unfoldable pub some_clause : ℕ → Decider → Constraints Raw Q → ℕ → Bool × ℕ
  some_clause depth d stop steps = (false, steps)
  some_clause depth d (clause p ps) steps =
      let (fits, left) = d p depth steps in
      elim fits [ true ↦ (true, left) | false ↦ some_clause depth d ps left ]

  unfoldable pub every_clause : ℕ → List Decider → Constraints Raw Q → ℕ → Bool × ℕ
  unfolding some_clause
  every_clause depth [] ps steps = (true, steps)
  every_clause depth (d ∷ ds) ps steps =
      let (matched, left) = some_clause depth d ps steps in
      elim matched [ true ↦ every_clause depth ds ps left | false ↦ (false, left) ]

  -- The derived `any` has a clause.
  unfoldable pub any_subsumes : ℕ → List Decider → Constraints Raw Q → ℕ → Bool × ℕ
  unfolding every_clause
  any_subsumes depth [] ps steps = (false, steps)
  any_subsumes depth (d ∷ ds) ps steps = every_clause depth (d ∷ ds) ps steps

  unfoldable pub all_under : List Decider → Decider
  unfolding match_clauses
  all_under ds (all ps) depth steps = match_clauses (suc depth) ps ds steps
  all_under ds _ depth steps = (false, steps)

  unfoldable pub any_under : List Decider → Decider
  unfolding any_subsumes
  any_under ds (any ps) depth steps = any_subsumes (suc depth) ds ps steps
  any_under ds _ depth steps = (false, steps)

  unfoldable pub is_wild : Constraint Raw Q → Bool
  is_wild wildcard = true
  is_wild _ = false

  -- What stands before the switch: the budget, the depth and the parent's wildcard.
  unfoldable pub guarded : Decider → Decider
  unfolding is_wild
  guarded d p depth zero = (false, zero)
  guarded d p depth (suc steps) =
      if ltb max_constraint_depth depth
      then (false, steps)
      else if is_wild p
      then (true, steps)
      else d p depth steps

  unfoldable pub plain_under : Constraint Raw Q → Decider
  unfolding plain_subsumes
  plain_under d p depth steps = (plain_subsumes d p, steps)

  -- `subsumes`, the derived constraint first.
  unfoldable mutual
    unfolding guarded plain_under all_under any_under

    pub subsumes : Constraint Raw Q → Decider
    subsumes (all cs) = guarded (all_under (deciders cs))
    subsumes (any cs) = guarded (any_under (deciders cs))
    subsumes (exact v) = guarded (plain_under (exact v))
    subsumes (range d) = guarded (plain_under (range d))
    subsumes (one_of vs) = guarded (plain_under (one_of vs))
    subsumes (not_one_of vs) = guarded (plain_under (not_one_of vs))
    subsumes (contains vs) = guarded (plain_under (contains vs))
    subsumes (subset vs) = guarded (plain_under (subset vs))
    subsumes wildcard = guarded (plain_under wildcard)

    pub deciders : Constraints Raw Q → List Decider
    deciders stop = []
    deciders (clause c cs) = subsumes c ∷ deciders cs
