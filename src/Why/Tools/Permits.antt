-- ===== src/Why/Tools/Permits.antt =====
-- internal/why/aat_i4.go: the invocations that a tool map permits, by section 3.3 of the draft, and what
-- `compareAAT` says of them.
pub mod Keys
pub mod Narrows
use behalf.Prelude.{◌≡◌, ◌↔◌, none, some, [], ◌∷◌, Bytes, Dict, lookup}
use behalf.Why.Grant.{Rational}
use behalf.Why.Tools.Value.{Value}
use behalf.Why.Tools.Json.{Json}
use behalf.Why.Tools.Constraint.{Constraint, parse_constraint}
use behalf.Why.Tools.Accepts.{Accepts}
use behalf.Why.Tools.Entry.{ToolMap}

-- The two maps name the same keys.
abbrev pub SameKeys : {A B : Type 0} → Dict A → Dict B → Type 0
SameKeys m n = (k : Bytes) → (lookup k m ≡ none) ↔ (lookup k n ≡ none)

module _ {Raw Q : Type 0} {rat : Rational Q} (json : Json Raw Q rat) where
  -- Every constraint of the map can be read and accepts the argument of its name.
  abbrev pub Satisfied : Dict Raw → Dict Value → Type 0
  Satisfied cs args =
      (k : Bytes) (raw : Raw)
      → lookup k cs ≡ some raw
      → (c : Constraint Raw Q) × (v : Value) × (parse_constraint json raw ≡ some c)
        × (lookup k args ≡ some v)
        × Accepts json c v

  -- An empty map is open: it permits all arguments. Any other is closed.
  abbrev pub Fits : Dict Raw → Dict Value → Type 0
  Fits [] args = Unit
  Fits (c ∷ cs) args = SameKeys (c ∷ cs) args × Satisfied (c ∷ cs) args

  -- The tool map permits the invocation of a tool with these arguments.
  abbrev pub Permits : ToolMap Raw → Bytes → Dict Value → Type 0
  Permits tools tool args = (cs : Dict Raw) × (lookup tool tools ≡ some cs) × Fits cs args

  -- The two maps name the empty argument in the same tools.
  abbrev pub EmptyNameAgrees : ToolMap Raw → ToolMap Raw → Type 0
  EmptyNameAgrees parent child =
      (tool : Bytes) (p c : Dict Raw)
      → lookup tool parent ≡ some p
      → lookup tool child ≡ some c
      → (lookup [] p ≡ none) ↔ (lookup [] c ≡ none)
