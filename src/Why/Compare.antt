-- ===== src/Why/Compare.antt =====
-- internal/why/chain.go: `compareV1`. A Go map is ranged over in an order that the runtime chooses:
-- `order` and `set_order` are that choice.
pub mod Sets
pub mod Answers
pub mod Narrows
pub mod Ceilings
pub mod Order
use behalf.Prelude.{
  Bool, true, false, ◌&&◌, ◌||◌, Option, none, some, List, [], ◌∷◌, ◌++◌, ltb, ◌==◌, if◌then◌else◌,
  length, Bytes, eqb, Dict, lookup,
}
use Prim.Native.Nat.{Ordering}
use behalf.Aat.Result.{Attenuation, unchanged, attenuated, broadened, unknown}
use behalf.Why.Grant.{
  Rational, Limit, Grant, ActionSet, comparable, mem, action_set, is_wildcard, decimal, limit_for,
}

-- An early return, or the value of `narrowed` to go on with.
pub data Outcome : Type 0 where
  answer : Attenuation → Outcome
  continue : Bool → Outcome

unfoldable pub then_with : Outcome → (Bool → Outcome) → Outcome
then_with (answer a) next = answer a
then_with (continue n) next = next n

unfoldable pub wild_match : Bytes → List Bytes → Bool
wild_match a [] = false
wild_match a (p ∷ ps) = ((is_wildcard p a).0 && (is_wildcard p a).1) || wild_match a ps

-- One action of the child against the parent's actions of its type.
unfoldable pub check_action : (List Bytes → List Bytes) → List Bytes → Bytes → Option Attenuation
unfolding mem wild_match is_wildcard
check_action set_order pa a =
    if mem a pa then none else if wild_match a (set_order pa) then some unknown else some broadened

unfoldable pub check_actions :
    (List Bytes → List Bytes) → List Bytes → List Bytes → Option Attenuation
unfolding check_action
check_actions set_order pa [] = none
check_actions set_order pa (a ∷ actions) =
    let rest = check_actions set_order pa actions in
    elim (check_action set_order pa a) [ none ↦ rest | some att ↦ some att ]

-- The child's actions of one type.
unfoldable pub check_type :
    (List Bytes → List Bytes) → Option (List Bytes) → List Bytes → Bool → Outcome
unfolding check_actions
check_type set_order none actions narrowed = answer broadened
check_type set_order (some pa) actions narrowed =
    elim (check_actions set_order pa (set_order actions)) [
      | none ↦ continue (narrowed || ltb (length actions) (length pa))
      | some att ↦ answer att
    ]

unfoldable pub check_types :
    (List Bytes → List Bytes) → Dict (List Bytes) → Dict (List Bytes) → Bool → Outcome
unfolding check_type then_with
check_types set_order parent [] narrowed = continue narrowed
check_types set_order parent ((typ, actions) ∷ child) narrowed =
    then_with (check_type set_order (lookup typ parent) actions narrowed)
      (λ n. check_types set_order parent child n)

-- A type of the parent that the child does not have.
unfoldable pub dropped_type : Dict (List Bytes) → Dict (List Bytes) → Bool
dropped_type [] child = false
dropped_type ((typ, actions) ∷ parent) child = elim (lookup typ child) [
  | none ↦ true
  | some s ↦ dropped_type parent child
]

-- sort.Strings, over the order of bytes.
unfoldable pub before : Bytes → Bytes → Bool
before [] t = true
before (x ∷ s) [] = false
before (x ∷ s) (y ∷ t) = ltb x y || (x == y && before s t)

unfoldable pub insert_sorted : Bytes → List Bytes → List Bytes
unfolding before
insert_sorted a [] = a ∷ []
insert_sorted a (b ∷ s) = if before a b then a ∷ b ∷ s else b ∷ insert_sorted a s

unfoldable pub sort : List Bytes → List Bytes
unfolding insert_sorted
sort [] = []
sort (a ∷ s) = insert_sorted a (sort s)

unfoldable pub all_actions : Dict (List Bytes) → List Bytes
all_actions [] = []
all_actions ((typ, actions) ∷ child) = actions ++ all_actions child

-- `sortedActions`.
unfoldable pub sorted_actions : Dict (List Bytes) → List Bytes
unfolding sort all_actions
sorted_actions child = sort (all_actions child)

module _ {Q : Type 0} (rat : Rational Q) where
  -- Both amounts have been read by `limitFor` before.
  unfoldable pub compare_amounts : Option Q → Option Q → Bool → Outcome
  compare_amounts (some cv) (some pv) narrowed = elim (rat.cmp cv pv) [
    | Ordering.gt ↦ answer broadened
    | Ordering.lt ↦ continue true
    | Ordering.eq ↦ continue narrowed
  ]
  compare_amounts _ _ narrowed = answer unknown

  unfoldable pub compare_limits : Option Limit → Option Limit → Bool → Outcome
  unfolding compare_amounts
  compare_limits none cl narrowed = continue narrowed
  compare_limits (some pl) none narrowed = answer broadened
  compare_limits (some pl) (some cl) narrowed =
      if eqb pl.currency cl.currency
      then compare_amounts (decimal rat cl.amount) (decimal rat pl.amount) narrowed
      else answer unknown

  unfoldable pub check_limit : Option (Option Limit) → Option (Option Limit) → Bool → Outcome
  unfolding compare_limits
  check_limit (some pl) (some cl) narrowed = compare_limits pl cl narrowed
  check_limit _ _ narrowed = answer unknown

  -- The ceilings of the child's actions: they may tighten, and neither rise nor go.
  unfoldable pub check_limits : List Grant → List Grant → List Bytes → Bool → Outcome
  unfolding check_limit then_with
  check_limits parent child [] narrowed = continue narrowed
  check_limits parent child (a ∷ actions) narrowed =
      then_with (check_limit (limit_for rat parent a) (limit_for rat child a) narrowed)
        (λ n. check_limits parent child actions n)

  unfoldable pub conclude : Outcome → Attenuation
  conclude (answer att) = att
  conclude (continue true) = attenuated
  conclude (continue false) = unchanged

  module _ (order : Dict (List Bytes) → Dict (List Bytes))
      (set_order : List Bytes → List Bytes) where
    unfoldable pub compare_sets : List Grant → List Grant → ActionSet → ActionSet → Attenuation
    unfolding conclude then_with dropped_type
    compare_sets parent child (comparable pa) (comparable ca) = conclude (
        then_with (check_types set_order pa (order ca) false)
          (λ n. check_limits parent child (sorted_actions (order ca)) (n || dropped_type pa ca)))
    compare_sets parent child _ _ = unknown

    -- `compareV1`.
    unfoldable pub compare_v1 : List Grant → List Grant → Attenuation
    unfolding compare_sets
    compare_v1 [] child = unknown
    compare_v1 (p ∷ parent) [] = unknown
    compare_v1 (p ∷ parent) (c ∷ child) =
        compare_sets (p ∷ parent) (c ∷ child) (action_set (p ∷ parent)) (action_set (c ∷ child))
