-- ===== src/Why/Tools/Constraint.antt =====
-- internal/why/aat_i4.go: argument constraints, and `parse`.
use behalf.Prelude.{
  ℕ, zero, suc, Bool, true, false, Option, none, some, List, [], ◌∷◌, if◌then◌else◌, ◌>>=◌, Bytes,
  codes, eqb, Dict, lookup,
}
use behalf.Why.Grant.{Rational}
use behalf.Why.Tools.Json.{Json, decode_object, number_of}

-- The bounds of a range, inclusive or not.
pub record Bounds (Q : Type 0) : Type 0 where
  pub min : Option Q
  pub max : Option Q
  pub min_inclusive : Bool
  pub max_inclusive : Bool

-- A `constraint`: its kind, with the members that the kind fills.
mutual
  pub data Constraint (Raw Q : Type 0) : Type 0 where
    exact : Raw → Constraint Raw Q
    range : Bounds Q → Constraint Raw Q
    one_of : List Raw → Constraint Raw Q
    not_one_of : List Raw → Constraint Raw Q
    contains : List Raw → Constraint Raw Q
    subset : List Raw → Constraint Raw Q
    wildcard : Constraint Raw Q
    all : Constraints Raw Q → Constraint Raw Q
    any : Constraints Raw Q → Constraint Raw Q

  pub data Constraints (Raw Q : Type 0) : Type 0 where
    stop : Constraints Raw Q
    clause : Constraint Raw Q → Constraints Raw Q → Constraints Raw Q

abbrev pub max_constraint_depth : ℕ
max_constraint_depth = 32

module _ {Raw Q : Type 0} {rat : Rational Q} (json : Json Raw Q rat) where
  -- `arrayMember`.
  unfoldable pub array_member : Dict Raw → Bytes → Option (List Raw)
  array_member obj name = elim (lookup name obj) [ none ↦ none | some raw ↦ json.array_of raw ]

  -- A bound that the object may name: `none` outside is an error, `none` inside no bound.
  unfoldable pub bound_of : Dict Raw → Bytes → Option (Option Q)
  bound_of obj name = elim (lookup name obj) [
    | none ↦ some none
    | some raw ↦ elim (number_of json raw) [ none ↦ none | some n ↦ some (some n) ]
  ]

  unfoldable pub inclusive_of : Dict Raw → Bytes → Option Bool
  inclusive_of obj name = elim (lookup name obj) [
    | none ↦ some true
    | some raw ↦ json.bool_into raw true
  ]

  some_bound : Option Q → Option Q → Bool
  some_bound none none = false
  some_bound none (some b) = true
  some_bound (some a) o = true

  -- A range has a bound.
  bounded : Bool → Bounds Q → Option (Constraint Raw Q)
  bounded true r = some (range r)
  bounded false r = none

  unfoldable pub range_of : Dict Raw → Option (Constraint Raw Q)
  unfolding bound_of inclusive_of some_bound bounded
  range_of obj = do
    low ← bound_of obj (codes "min")
    high ← bound_of obj (codes "max")
    low_in ← inclusive_of obj (codes "min_inclusive")
    high_in ← inclusive_of obj (codes "max_inclusive")
    bounded (some_bound low high)
        record { min = low; max = high; min_inclusive = low_in; max_inclusive = high_in }

  unfoldable pub values_as :
      (List Raw → Constraint Raw Q) → Option (List Raw) → Option (Constraint Raw Q)
  values_as kind none = none
  values_as kind (some values) = some (kind values)

  -- The clauses of an `all` or an `any`, each read by `parse` one level deeper.
  unfoldable pub clauses_with :
      (Raw → Option (Constraint Raw Q)) → List Raw → Option (Constraints Raw Q)
  clauses_with parse [] = some stop
  clauses_with parse (raw ∷ raws) = do
    c ← parse raw
    cs ← clauses_with parse raws
    some (clause c cs)

  unfoldable pub nested_with :
      (Raw → Option (Constraint Raw Q))
      → (Constraints Raw Q → Constraint Raw Q)
      → Option (List Raw)
      → Option (Constraint Raw Q)
  unfolding clauses_with
  nested_with parse kind none = none
  nested_with parse kind (some raws) = do cs ← clauses_with parse raws; some (kind cs)

  -- The switch on `constraint_type`.
  unfoldable pub of_kind :
      (Raw → Option (Constraint Raw Q)) → Bytes → Dict Raw → Option (Constraint Raw Q)
  unfolding range_of values_as nested_with array_member
  of_kind parse kind obj =
      if eqb kind (codes "exact")
      then elim (lookup (codes "value") obj) [ none ↦ none | some raw ↦ some (exact raw) ]
      else if eqb kind (codes "range")
      then range_of obj
      else if eqb kind (codes "one_of")
      then values_as one_of (array_member obj (codes "values"))
      else if eqb kind (codes "not_one_of")
      then values_as not_one_of (array_member obj (codes "excluded"))
      else if eqb kind (codes "contains")
      then values_as contains (array_member obj (codes "required"))
      else if eqb kind (codes "subset")
      then values_as subset (array_member obj (codes "allowed"))
      else if eqb kind (codes "wildcard")
      then some wildcard
      else if eqb kind (codes "all")
      then nested_with parse all (array_member obj (codes "constraints"))
      else if eqb kind (codes "any")
      then nested_with parse any (array_member obj (codes "constraints"))
      else none

  -- `parse`, with as many levels left as the constraint's depth allows: `parse_at 0` is past it.
  unfoldable pub parse_at : ℕ → Raw → Option (Constraint Raw Q)
  unfolding of_kind decode_object
  parse_at zero raw = none
  parse_at (suc levels) raw = do
    obj ← decode_object json raw
    kind_raw ← lookup (codes "constraint_type") obj
    kind ← json.string_into kind_raw []
    of_kind (parse_at levels) kind obj

  unfoldable pub parse_constraint : Raw → Option (Constraint Raw Q)
  unfolding parse_at
  parse_constraint raw = parse_at (suc max_constraint_depth) raw
