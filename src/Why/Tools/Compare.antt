-- ===== src/Why/Tools/Compare.antt =====
-- internal/why/aat_i4.go: `compareAAT`; internal/why/chain.go: `compareOther`, `CompareGrantsDetail`.
use behalf.Prelude.{
  ℕ, Bool, true, false, not, ◌&&◌, ◌||◌, Option, none, some, List, [], ◌∷◌, ltb, if◌then◌else◌,
  length, Bytes, Dict, lookup,
}
use behalf.Aat.Result.{Attenuation, unchanged, attenuated, broadened, unknown}
use behalf.Why.Grant.{Rational, Grant}
use behalf.Why.Compare.{sort, compare_v1}
use behalf.Why.Tools.Json.{Json, json_equal}
use behalf.Why.Tools.Constraint.{Constraint, parse_constraint}
use behalf.Why.Tools.Subsumes.{subsumes, max_subsumption_steps}
use behalf.Why.Tools.Entry.{Entry, ToolMap, aat_of, others_of, read_tools}

unfoldable pub names {ℓ} : {A : Type ℓ} → Dict A → List Bytes
names [] = []
names ((k, v) ∷ m) = k ∷ names m

-- `sortedKeys`.
unfoldable pub sorted_keys {ℓ} : {A : Type ℓ} → Dict A → List Bytes
unfolding names
sorted_keys m = sort (names m)

-- The first of the keys that the map does not have; the empty string where there is none.
unfoldable pub first_missing {ℓ} : {A : Type ℓ} → List Bytes → Dict A → Bytes
first_missing [] m = []
first_missing (k ∷ ks) m = elim (lookup k m) [ none ↦ k | some v ↦ first_missing ks m ]

-- `keyDiff`: the first key added, and the first removed.
unfoldable pub key_diff {ℓ} : {A : Type ℓ} → Dict A → Dict A → Bytes × Bytes
unfolding first_missing sorted_keys
key_diff parent child =
    (first_missing (sorted_keys child) parent, first_missing (sorted_keys parent) child)

unfoldable pub is_empty : Bytes → Bool
is_empty [] = true
is_empty (c ∷ t) = false

-- `added == "" && removed == ""`
unfoldable pub same_keys {ℓ} : {A : Type ℓ} → Dict A → Dict A → Bool
unfolding key_diff is_empty
same_keys parent child =
    let (added, removed) = key_diff parent child in is_empty added && is_empty removed

-- Where the comparison stands: refused, or `narrowed` and the steps left.
pub data Progress : Type 0 where
  denied : Progress
  so_far : Bool → ℕ → Progress

unfoldable pub on : Progress → (Bool → ℕ → Progress) → Progress
on denied next = denied
on (so_far n steps) next = next n steps

module _ {Raw Q : Type 0} {rat : Rational Q} (json : Json Raw Q rat) where
  -- Step 4p4 for one argument that both sides constrain.
  unfoldable pub compare_parsed :
      Option (Constraint Raw Q) → Option (Constraint Raw Q) → Bool → Bool → ℕ → Progress
  compare_parsed (some pc) (some cc') equal narrowed steps =
      let (fits, left) = subsumes json cc' pc 0 steps in
      if fits then so_far (narrowed || not equal) left else denied
  compare_parsed _ _ equal narrowed steps = denied

  unfoldable pub compare_arg : Option Raw → Option Raw → Bool → ℕ → Progress
  unfolding compare_parsed
  compare_arg (some p) (some c) narrowed steps =
      compare_parsed (parse_constraint json p) (parse_constraint json c) (json_equal json p c)
        narrowed steps
  compare_arg _ _ narrowed steps = so_far narrowed steps

  unfoldable pub compare_args : Dict Raw → Dict Raw → List Bytes → Bool → ℕ → Progress
  unfolding compare_arg on
  compare_args parent child [] narrowed steps = so_far narrowed steps
  compare_args parent child (arg ∷ args) narrowed steps =
      on (compare_arg (lookup arg parent) (lookup arg child) narrowed steps)
        (λ n left. compare_args parent child args n left)

  -- Steps 4p2 and 4p3: the closed-world key sets.
  unfoldable pub check_shape : Dict Raw → Dict Raw → Bool → Option Bool
  unfolding same_keys
  check_shape [] [] narrowed = some narrowed
  check_shape [] (c ∷ child) narrowed = some true
  check_shape (p ∷ parent) child narrowed =
      if same_keys (p ∷ parent) child then some narrowed else none

  unfoldable pub compare_tool : Option (Dict Raw) → Option (Dict Raw) → Bool → ℕ → Progress
  unfolding check_shape compare_args sorted_keys
  compare_tool none c narrowed steps = denied
  compare_tool (some p) none narrowed steps = so_far narrowed steps
  compare_tool (some p) (some c) narrowed steps = elim (check_shape p c narrowed) [
    | none ↦ denied
    | some n ↦ compare_args p c (sorted_keys c) n steps
  ]

  -- Step 4p1 and what follows, for the child's tools in their order.
  unfoldable pub compare_tools : ToolMap Raw → ToolMap Raw → List Bytes → Bool → ℕ → Progress
  unfolding compare_tool on
  compare_tools parent child [] narrowed steps = so_far narrowed steps
  compare_tools parent child (tool ∷ tools) narrowed steps =
      on (compare_tool (lookup tool parent) (lookup tool child) narrowed steps)
        (λ n left. compare_tools parent child tools n left)

  -- A tool of the parent's that the child does not have.
  unfoldable pub gave_up : ToolMap Raw → ToolMap Raw → Bool
  gave_up [] child = false
  gave_up ((tool, args) ∷ parent) child = elim (lookup tool child) [
    | none ↦ true
    | some a ↦ gave_up parent child
  ]

  unfoldable pub verdict : Progress → Bool → Attenuation
  verdict denied given_up = broadened
  verdict (so_far narrowed steps) given_up = if narrowed || given_up then attenuated else unchanged

  unfoldable pub compare_maps : Option (ToolMap Raw) → Option (ToolMap Raw) → Attenuation
  unfolding verdict compare_tools gave_up sorted_keys
  compare_maps (some p) (some c) =
      verdict (compare_tools p c (sorted_keys c) false max_subsumption_steps) (gave_up p c)
  compare_maps _ _ = broadened

  -- `compareAAT`.
  unfoldable pub compare_aat : List (Entry Raw) → List (Entry Raw) → Attenuation
  unfolding compare_maps
  compare_aat parent child =
      if ltb 1 (length parent)
      then broadened
      else if ltb 1 (length child)
      then broadened
      else compare_maps (read_tools json parent) (read_tools json child)

  unfoldable pub grants_of : List (Entry Raw) → List Grant
  grants_of [] = []
  grants_of (g ∷ entries) = g.grant ∷ grants_of entries

  -- The stricter of the two answers, as `CompareGrantsDetail` takes it.
  unfoldable pub stricter : Attenuation → Attenuation → Attenuation
  stricter broadened other = broadened
  stricter aat broadened = broadened
  stricter aat unknown = unknown
  stricter aat attenuated = attenuated
  stricter aat unchanged = aat

  module _ (order : Dict (List Bytes) → Dict (List Bytes))
      (set_order : List Bytes → List Bytes) where
    -- `compareOther`.
    unfoldable pub compare_other : List Grant → List Grant → Attenuation
    compare_other [] [] = unchanged
    compare_other [] (c ∷ child) = broadened
    compare_other (p ∷ parent) [] = attenuated
    compare_other (p ∷ parent) (c ∷ child) = compare_v1 rat order set_order (p ∷ parent) (c ∷ child)

    unfoldable pub compare_split :
        List (Entry Raw) → List (Entry Raw) → List (Entry Raw) → List (Entry Raw) → Attenuation
    unfolding compare_other grants_of stricter
    compare_split [] [] parent child =
        compare_v1 rat order set_order (grants_of parent) (grants_of child)
    compare_split p_aat c_aat parent child =
        stricter (compare_aat p_aat c_aat)
          (compare_other (grants_of (others_of parent)) (grants_of (others_of child)))

    -- `CompareGrantsDetail`.
    unfoldable pub compare_grants : List (Entry Raw) → List (Entry Raw) → Attenuation
    unfolding compare_split
    compare_grants parent child = compare_split (aat_of parent) (aat_of child) parent child
