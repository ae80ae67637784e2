-- ===== src/Why/Tools/Entry.antt =====
-- internal/why/aat_i4.go: capability entries and their tool maps.
use behalf.Prelude.{
  Bool, true, false, Option, none, some, List, [], ◌∷◌, if◌then◌else◌, ◌>>=◌, codes, eqb, Dict,
}
use behalf.Why.Grant.{Rational, Grant}
use behalf.Why.Tools.Json.{Json, decode_object}

-- A grant with its `tools` member, which is nothing where the grant has none.
pub record Entry (Raw : Type 0) : Type 0 where
  pub grant : Grant
  pub tools : Raw
  -- `len(g.Tools) == 0`
  pub no_tools : Bool

-- `toolMap`: the tool, the argument, the raw constraint.
abbrev pub ToolMap : Type 0 → Type 0
ToolMap Raw = Dict (Dict Raw)

-- `splitAAT`: the entries of the draft's type, and the others.
unfoldable pub aat_of : {Raw : Type 0} → List (Entry Raw) → List (Entry Raw)
aat_of [] = []
aat_of (g ∷ grants) =
    let rest = aat_of grants in
    if eqb g.grant.type (codes "attenuating_agent_token") then g ∷ rest else rest

unfoldable pub others_of : {Raw : Type 0} → List (Entry Raw) → List (Entry Raw)
others_of [] = []
others_of (g ∷ grants) =
    let rest = others_of grants in
    if eqb g.grant.type (codes "attenuating_agent_token") then rest else g ∷ rest

module _ {Raw Q : Type 0} {rat : Rational Q} (json : Json Raw Q rat) where
  -- The constraint maps of the tools, of which each names an argument once.
  unfoldable pub read_args : Dict Raw → Option (ToolMap Raw)
  read_args [] = some []
  read_args ((name, raw) ∷ top) = do
    args ← decode_object json raw
    rest ← read_args top
    some ((name, args) ∷ rest)

  -- `readTools`: no entry is an empty map.
  unfoldable pub read_tools : List (Entry Raw) → Option (ToolMap Raw)
  unfolding read_args
  read_tools [] = some []
  read_tools (g ∷ entries) = elim g.no_tools [
    | true ↦ none
    | false ↦ do top ← decode_object json g.tools; read_args top
  ]
