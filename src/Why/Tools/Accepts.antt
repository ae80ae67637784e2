-- ===== src/Why/Tools/Accepts.antt =====
-- internal/why/aat_i4.go: which arguments a constraint accepts, by Table 2 of
-- docs/vendor/draft-niyikiza-oauth-attenuating-agent-tokens-01.txt.
pub mod Ranges
pub mod Plain
pub mod Clauses
use behalf.Prelude.{◌≡◌, ◌⊎◌, true, some, List, [], ◌∷◌, Bytes}
use behalf.Why.Grant.{Rational}
use behalf.Why.Tools.Value.{Value, Values, nil, cons, number, array, value_equal}
use behalf.Why.Tools.Json.{Json}
use behalf.Why.Tools.Constraint.{
  Bounds, Constraint, Constraints, exact, range, one_of, not_one_of, contains, subset, wildcard,
  all, any, stop, clause,
}
use behalf.Why.Tools.Subsumes.{in_range}

-- An element of an array.
abbrev pub In : Value → Values → Type 0
In x nil = ⊥
In x (cons y ys) = (y ≡ x) ⊎ In x ys

module _ {Raw Q : Type 0} {rat : Rational Q} (json : Json Raw Q rat) where
  -- The argument is the value that the raw message decodes to.
  abbrev pub Matches : Raw → Value → Type 0
  Matches raw x = (v : Value) × (json.value_of raw ≡ some v) × (value_equal rat v x ≡ true)

  abbrev pub Listed : List Raw → Value → Type 0
  Listed [] x = ⊥
  Listed (raw ∷ raws) x = Matches raw x ⊎ Listed raws x

  -- The argument is a number within the bounds.
  abbrev pub Within : Bounds Q → Value → Type 0
  Within b x =
      (s : Bytes) × (q : Q) × (x ≡ number s)
      × (rat.set_string s ≡ some q)
      × (in_range json q b ≡ true)

  -- The argument is an array with every listed value among its elements.
  abbrev pub HasAll : List Raw → Value → Type 0
  HasAll [] x = (ys : Values) × (x ≡ array ys)
  HasAll (raw ∷ raws) x =
      ((ys : Values) × (y : Value) × (x ≡ array ys) × In y ys × Matches raw y) × HasAll raws x

  -- The argument is an array whose elements are all listed.
  abbrev pub AllListed : List Raw → Value → Type 0
  AllListed raws x = (ys : Values) × (x ≡ array ys) × ((y : Value) → In y ys → Listed raws y)

  unfoldable mutual
    pub Accepts : Constraint Raw Q → Value → Type 0
    Accepts (exact raw) x = Matches raw x
    Accepts (range b) x = Within b x
    Accepts (one_of raws) x = Listed raws x
    Accepts (not_one_of raws) x = Listed raws x → ⊥
    Accepts (contains raws) x = HasAll raws x
    Accepts (subset raws) x = AllListed raws x
    Accepts wildcard x = Unit
    Accepts (all cs) x = AllAccept cs x
    Accepts (any cs) x = SomeAccepts cs x

    pub AllAccept : Constraints Raw Q → Value → Type 0
    AllAccept stop x = Unit
    AllAccept (clause c cs) x = Accepts c x × AllAccept cs x

    pub SomeAccepts : Constraints Raw Q → Value → Type 0
    SomeAccepts stop x = ⊥
    SomeAccepts (clause c cs) x = Accepts c x ⊎ SomeAccepts cs x
