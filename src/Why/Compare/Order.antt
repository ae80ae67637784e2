-- ===== src/Why/Compare/Order.antt =====
-- internal/why/chain.go: two orders in which the set of a child's actions is ranged over.
use behalf.Prelude.{
  ◌≡◌, refl, ap, ◌∙◌, Bool, true, false, ◌||◌, Option, none, some, List, [], ◌∷◌, ltb, length,
  Bytes, eqb, Dict, lookup, insert,
}
use behalf.Aat.Result.{Attenuation, broadened, unknown}
use behalf.Why.Grant.{
  Rational, Grant, Privilege, comparable, mem, add_member, add_members, members_of, action_set,
  action_set_from,
}
use behalf.Why.Compare.{
  Outcome, continue, Outcome, answer, continue, then_with, check_action, check_actions, check_type,
  check_types, conclude, compare_sets, compare_v1, wild_match,
}

-- A grant of two actions.
abbrev pub two_actions : Bytes → Bytes → Bytes → List Privilege → Grant
two_actions t a w privileges = record { type = t; actions = a ∷ w ∷ []; privileges = privileges }

action_set-two :
    (t a w : Bytes) (privileges : List Privilege)
    → eqb a w ≡ false
    → action_set (two_actions t a w privileges ∷ []) ≡ comparable ((t, w ∷ a ∷ []) ∷ [])
unfolding action_set action_set_from add_members add_member members_of mem lookup insert
action_set-two t a w privileges other = rw other refl

-- The first action that is met and not named by the parent gives the verdict.
check_type-first :
    (set_order : List Bytes → List Bytes) (pa actions rest : List Bytes) (x : Bytes)
    (att : Attenuation) (narrowed : Bool)
    → set_order actions ≡ x ∷ rest
    → check_action set_order pa x ≡ some att
    → check_type set_order (some pa) actions narrowed ≡ answer att
unfolding check_type
check_type-first set_order pa actions rest x att narrowed at met =
    let first : check_actions set_order pa (set_order actions) ≡ some att =
      ap (check_actions set_order pa) at ∙ head_first in
    ap
      (λ (o : Option Attenuation). elim o as (λ x. Outcome) [
        | none ↦ continue (narrowed || ltb (length actions) (length pa))
        | some found ↦ answer found
      ])
      first
  where
    head_first : check_actions set_order pa (x ∷ rest) ≡ some att
    head_first =
        unfold check_actions in
        ap
          (λ (o : Option Attenuation). elim o [
            | none ↦ check_actions set_order pa rest
            | some found ↦ some found
          ])
          met

module _ {Q : Type 0} (rat : Rational Q) (order : Dict (List Bytes) → Dict (List Bytes))
    (one_type : (e : Bytes × List Bytes) → order (e ∷ []) ≡ e ∷ []) where
  compare_v1-first :
      (set_order : List Bytes → List Bytes) (p : Grant) (parent : List Grant)
      (pm : Dict (List Bytes)) (t a w x : Bytes) (pa rest : List Bytes)
      (privileges : List Privilege) (att : Attenuation)
      → action_set (p ∷ parent) ≡ comparable pm
      → lookup t pm ≡ some pa
      → eqb a w ≡ false
      → set_order (w ∷ a ∷ []) ≡ x ∷ rest
      → check_action set_order pa x ≡ some att
      → compare_v1 rat order set_order (p ∷ parent) (two_actions t a w privileges ∷ []) ≡ att
  unfolding compare_v1
  compare_v1-first set_order p parent pm t a w x pa rest privileges att at_parent at_type other at
        met =
      let child = two_actions t a w privileges ∷ [] in
      ap (λ s. compare_sets rat order set_order (p ∷ parent) child s (action_set child)) at_parent
      ∙ ap (compare_sets rat order set_order (p ∷ parent) child (comparable pm))
          (action_set-two t a w privileges other)
      ∙ decided
    where
      found : check_type set_order (lookup t pm) (w ∷ a ∷ []) false ≡ answer att
      found =
          ap (λ o. check_type set_order o (w ∷ a ∷ []) false) at_type
          ∙ check_type-first set_order pa (w ∷ a ∷ []) rest x att false at met

      types : check_types set_order pm (order ((t, w ∷ a ∷ []) ∷ [])) false ≡ answer att
      types =
          ap (λ m. check_types set_order pm m false) (one_type (t, w ∷ a ∷ []))
          ∙ unfold check_types in unfold then_with in rw found refl

      decided :
          compare_sets rat order set_order
            (p ∷ parent)
            (two_actions t a w privileges ∷ [])
            (comparable pm)
            (comparable ((t, w ∷ a ∷ []) ∷ []))
          ≡ att
      decided = unfold compare_sets in unfold then_with in unfold conclude in rw types refl

  -- A child's grant names two actions that the parent does not name under that type; one of them is
  -- matched by a wildcard of the parent, the other is not. Where the runtime ranges over the child's set
  -- from the one or from the other, the comparison answers `unknown` or `broadened`.
  pub compare_v1-order :
      (from_w from_a : List Bytes → List Bytes) (p : Grant) (parent : List Grant)
      (pm : Dict (List Bytes)) (t a w : Bytes) (pa : List Bytes) (privileges : List Privilege)
      → action_set (p ∷ parent) ≡ comparable pm
      → lookup t pm ≡ some pa
      → eqb a w ≡ false
      → from_w (w ∷ a ∷ []) ≡ w ∷ a ∷ []
      → from_a (w ∷ a ∷ []) ≡ a ∷ w ∷ []
      → mem a pa ≡ false
      → mem w pa ≡ false
      → wild_match a (from_a pa) ≡ false
      → wild_match w (from_w pa) ≡ true
      → (compare_v1 rat order from_w (p ∷ parent) (two_actions t a w privileges ∷ []) ≡ unknown)
        × (compare_v1 rat order from_a (p ∷ parent) (two_actions t a w privileges ∷ []) ≡ broadened)
  compare_v1-order from_w from_a p parent pm t a w pa privileges at_parent at_type other at_w at_a
        no_a no_w not_wild wild =
      (
        compare_v1-first from_w p parent pm t a w w pa (a ∷ []) privileges unknown at_parent at_type
            other at_w (unfold check_action in rw (no_w, wild) refl),
        compare_v1-first from_a p parent pm t a w a pa (w ∷ []) privileges broadened at_parent
            at_type other at_a (unfold check_action in rw (no_a, not_wild) refl),
      )
