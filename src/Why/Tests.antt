-- ===== src/Why/Tests.antt =====
-- internal/why/chain.go: a parent that allows two actions, and children of it.
use behalf.Prelude.{
  ℕ, ◌≤◌, ◌≡◌, refl, ◌≢◌, ◌↔◌, inl, inr, true, false, none, some, List, [], ◌∷◌, arith, ltb, ◌==◌,
  if◌then◌else◌, Bytes, codes, eqb, has_prefix, Dict, lookup, insert,
}
use mathlib.Core.List.{Memᴰ}
use Prim.Native.Nat.{Ordering}
use behalf.Encoding.Text.{parse_uint}
use behalf.Aat.Result.{attenuated, broadened, unknown}
use behalf.Why.Grant.{
  opposite, Rational, Limit, Grant, comparable, mem, add_member, add_members, members_of,
  action_set_from, action_set, is_wildcard, decimal, limit_in, limit_from, limit_for, tighter,
  next_tightest,
}
use behalf.Why.Compare.{
  then_with, wild_match, check_action, check_actions, check_type, check_types, dropped_type, before,
  insert_sorted, sort, all_actions, sorted_actions, compare_amounts, compare_limits, check_limit,
  check_limits, conclude, compare_sets, compare_v1,
}
use behalf.Why.Compare.Answers.{Narrowed}
use behalf.Why.Compare.Sets.{Granted, Has, action_set-Granted}
use behalf.Why.Compare.Narrows.{compare_v1-Granted}
use behalf.Why.Compare.Ceilings.{Capped, compare_v1-Tightens}
use behalf.Why.Scope.Least.{States}
use behalf.Why.Compare.Order.{two_actions, compare_v1-order}
use behalf.Why.Scope.{tightest_from, fold_limit, lower_of, exceeds, excess_over, check_scope}
use behalf.Why.Scope.Allows.{check_scope-Allows}

program : Unit {0}
unfolding mem add_member add_members members_of action_set_from action_set is_wildcard decimal
    limit_in limit_from limit_for tighter next_tightest then_with wild_match check_action
    check_actions check_type check_types dropped_type before insert_sorted sort all_actions
    sorted_actions compare_amounts compare_limits check_limit check_limits conclude compare_sets
    compare_v1 tightest_from fold_limit lower_of exceeds excess_over check_scope parse_uint eqb
    lookup insert has_prefix
program = tt

abbrev pub order_of : ℕ → ℕ → Ordering
order_of a b = if ltb a b then Ordering.lt else if a == b then Ordering.eq else Ordering.gt

pub order_of-not_gt : (a b : ℕ) → a ≤ b → order_of a b ≢ Ordering.gt
order_of-not_gt a b le is = ground arith

pub order_of-le : (a b : ℕ) → order_of a b ≢ Ordering.gt → a ≤ b
order_of-le a b h = ground arith

pub order_of-ge : (a b : ℕ) → order_of a b ≢ Ordering.lt → b ≤ a
order_of-ge a b h = ground arith

pub order_of-swap : (a b : ℕ) → order_of b a ≡ opposite (order_of a b)
order_of-swap a b = ground arith

-- Amounts without a fraction.
abbrev pub whole : Rational ℕ
whole = record {
  set_string = parse_uint;
  cmp = order_of;
  cmp_trans =
      λ a b c h k. order_of-not_gt a c (omega (arith, order_of-le a b h, order_of-le b c k));
  cmp_total = λ a b h. order_of-not_gt b a (order_of-ge a b h);
  cmp_refl = λ a. order_of-not_gt a a (omega arith);
  cmp_swap = λ a b. order_of-swap a b;
}

abbrev pay : Bytes
pay = codes "pay"

abbrev see : Bytes
see = codes "see"

abbrev eur : Bytes → Limit
eur amount = record { amount = amount; currency = codes "EUR" }

abbrev grant_of : List Bytes → Bytes → Grant
grant_of actions amount = record {
  type = codes "bank";
  actions = actions;
  privileges = record { operation = pay; limit = some (eur amount) } ∷ [];
}

abbrev parent : List Grant
parent = grant_of (pay ∷ see ∷ []) (codes "100") ∷ []

abbrev child : List Grant
child = grant_of (pay ∷ []) (codes "50") ∷ []

abbrev as_listed : {A : Type 0} → List A → List A
as_listed l = l

compared : compare_v1 whole as_listed as_listed parent child ≡ attenuated
unfolding program
compared = refl

raised : compare_v1 whole as_listed as_listed child parent ≡ broadened
unfolding program
raised = refl

narrowed : Narrowed (compare_v1 whole as_listed as_listed parent child)
unfolding Narrowed
narrowed = inr compared

pay-Granted : Granted child (codes "bank") pay
unfolding program
pay-Granted = inl (refl, refl)

abbrev child_set : Dict (List Bytes)
child_set = (codes "bank", pay ∷ []) ∷ []

child_set_at : action_set child ≡ comparable child_set
unfolding program
child_set_at = refl

parent_limit : limit_for whole parent pay ≡ some (some (eur (codes "100")))
unfolding program
parent_limit = refl

within : check_scope whole (parent ∷ child ∷ []) pay (codes "40") ≡ none
unfolding program
within = refl

forty : decimal whole (codes "40") ≡ some 40
unfolding program
forty = refl

hundred : decimal whole (codes "100") ≡ some 100
unfolding program
hundred = refl

compare_v1-Granted_example : Granted parent (codes "bank") pay
compare_v1-Granted_example =
    compare_v1-Granted whole as_listed as_listed (λ m e at. at) (λ s a at. at) parent child
      (codes "bank") pay narrowed pay-Granted

stated : States parent pay (eur (codes "100"))
stated = record {
  grant = grant_of (pay ∷ see ∷ []) (codes "100");
  privilege = record { operation = pay; limit = some (eur (codes "100")) };
  granted = Memᴰ.head refl;
  held = Memᴰ.head refl;
  on = refl;
  limited = refl;
}

compare_v1-Tightens_example : Capped whole parent child pay (eur (codes "100"))
compare_v1-Tightens_example =
    compare_v1-Tightens whole as_listed as_listed (λ m e at. at) parent child (codes "bank") pay
      (eur (codes "100")) narrowed pay-Granted stated

-- Ceilings in two currencies: the child drops the one in dollars.
abbrev two_currencies : List Grant
two_currencies =
    record {
      type = codes "bank";
      actions = pay ∷ [];
      privileges =
          record {
            operation = pay;
            limit = some (record { amount = codes "100"; currency = codes "USD" });
          }
          ∷ record { operation = pay; limit = some (eur (codes "50")) }
          ∷ [];
    }
    ∷ []

dropped_currency :
    compare_v1 whole as_listed as_listed two_currencies (grant_of (pay ∷ []) (codes "40") ∷ [])
    ≡ attenuated
unfolding program
dropped_currency = refl

action_set-Granted_example : Has child_set (codes "bank") pay ↔ Granted child (codes "bank") pay
action_set-Granted_example = action_set-Granted child child_set (codes "bank") pay child_set_at

check_scope-Allows_example : order_of 40 100 ≢ Ordering.gt
check_scope-Allows_example =
    check_scope-Allows whole (parent ∷ child ∷ []) b'p' (codes "ay") (codes "40") 40 100 parent
      (eur (codes "100")) within forty (Memᴰ.head refl) parent_limit hundred

abbrev wild_parent : List Bytes
wild_parent = codes "fs.*" ∷ []

not_named : mem pay wild_parent ≡ false
unfolding program
not_named = refl

read_not_named : mem (codes "fs.read") wild_parent ≡ false
unfolding program
read_not_named = refl

matched : wild_match (codes "fs.read") wild_parent ≡ true
unfolding program
matched = refl

-- A range that begins with the second of two.
swapped : List Bytes → List Bytes
swapped [] = []
swapped (x ∷ []) = x ∷ []
swapped (x ∷ y ∷ []) = y ∷ x ∷ []
swapped (x ∷ y ∷ z ∷ s) = x ∷ y ∷ z ∷ s

abbrev wild_grant : Grant
wild_grant = grant_of wild_parent (codes "100")

wild_set : action_set (wild_grant ∷ []) ≡ comparable ((codes "bank", wild_parent) ∷ [])
unfolding program
wild_set = refl

wild_type : lookup (codes "bank") ((codes "bank", wild_parent) ∷ []) ≡ some wild_parent
unfolding program
wild_type = refl

apart : eqb pay (codes "fs.read") ≡ false
unfolding program
apart = refl

not_matched_swapped : wild_match pay (swapped wild_parent) ≡ false
unfolding program swapped
not_matched_swapped = refl

swapped_two : swapped (codes "fs.read" ∷ pay ∷ []) ≡ pay ∷ codes "fs.read" ∷ []
unfolding swapped
swapped_two = refl

compare_v1-order_example :
    (compare_v1 whole as_listed as_listed
        (wild_grant ∷ [])
        (two_actions (codes "bank") pay (codes "fs.read") [] ∷ [])
      ≡ unknown)
    × (compare_v1 whole as_listed swapped
          (wild_grant ∷ [])
          (two_actions (codes "bank") pay (codes "fs.read") [] ∷ [])
        ≡ broadened)
compare_v1-order_example =
    compare_v1-order whole as_listed (λ e. refl) as_listed swapped wild_grant []
      ((codes "bank", wild_parent) ∷ []) (codes "bank") pay (codes "fs.read") wild_parent []
      wild_set wild_type apart refl swapped_two not_named read_not_named not_matched_swapped matched
