-- ===== src/Why/Grant.antt =====
-- internal/why/chain.go: grants, action sets, ceilings and decimals.
use behalf.Prelude.{
  ◌≡◌, ◌≢◌, Bool, true, false, ◌||◌, Option, none, some, List, [], ◌∷◌, ◌==◌, if◌then◌else◌, Bytes,
  codes, eqb, has_prefix, Dict, lookup, insert,
}
use Prim.Native.Nat.{Ordering}

abbrev pub opposite : Ordering → Ordering
opposite Ordering.lt = Ordering.gt
opposite Ordering.eq = Ordering.eq
opposite Ordering.gt = Ordering.lt

-- math/big's Rat, as `decimal` uses it: the parser, and `Cmp`.
pub record Rational (Q : Type 0) : Type 0 where
  pub set_string : Bytes → Option Q
  pub cmp : Q → Q → Ordering
  -- `Cmp` is a total order.
  pub cmp_trans :
      (a b c : Q) → cmp a b ≢ Ordering.gt → cmp b c ≢ Ordering.gt → cmp a c ≢ Ordering.gt
  pub cmp_total : (a b : Q) → cmp a b ≢ Ordering.lt → cmp b a ≢ Ordering.gt
  pub cmp_refl : (a : Q) → cmp a a ≢ Ordering.gt
  pub cmp_swap : (a b : Q) → cmp b a ≡ opposite (cmp a b)

pub record Limit : Type 0 where
  pub amount : Bytes
  pub currency : Bytes

pub record Privilege : Type 0 where
  pub operation : Bytes
  pub limit : Option Limit

-- The members of a grant that the comparison of behalf's own vocabulary reads.
pub record Grant : Type 0 where
  pub type : Bytes
  pub actions : List Bytes
  pub privileges : List Privilege

unfoldable pub mem : Bytes → List Bytes → Bool
mem a [] = false
mem a (b ∷ s) = eqb b a || mem a s

-- A set of strings is a list in which none stands twice.
unfoldable pub add_member : Bytes → List Bytes → List Bytes
unfolding mem
add_member a s = if mem a s then s else a ∷ s

unfoldable pub add_members : List Bytes → List Bytes → List Bytes
unfolding add_member
add_members [] s = s
add_members (a ∷ actions) s = add_members actions (add_member a s)

unfoldable pub members_of : Option (List Bytes) → List Bytes
members_of none = []
members_of (some s) = s

-- `(untyped)` stands for an empty type in the reason.
pub data ActionSet : Type 0 where
  comparable : Dict (List Bytes) → ActionSet
  uncomparable : Bytes → ActionSet

type_or_untyped : Bytes → Bytes
type_or_untyped [] = codes "(untyped)"
type_or_untyped (c ∷ t) = c ∷ t

unfoldable pub action_set_from : List Grant → Dict (List Bytes) → ActionSet
unfolding type_or_untyped members_of add_members
action_set_from [] out = comparable out
action_set_from (g ∷ grants) out =
    let rest =
      action_set_from grants
        (insert g.type (add_members g.actions (members_of (lookup g.type out))) out) in
    elim g.actions [ [] ↦ uncomparable (type_or_untyped g.type) | a ∷ as' ↦ rest ]

-- `actionSet`.
unfoldable pub action_set : List Grant → ActionSet
unfolding action_set_from
action_set grants = action_set_from grants []

ends_with_star : Bytes → Option Bytes
ends_with_star [] = none
ends_with_star (c ∷ []) = if c == b'*' then some [] else none
ends_with_star (c ∷ d ∷ s) = elim (ends_with_star (d ∷ s)) [
  | none ↦ none
  | some stem ↦ some (c ∷ stem)
]

-- `isWildcard`: the pattern is a wildcard, and it matches.
unfoldable pub is_wildcard : Bytes → Bytes → Bool × Bool
unfolding ends_with_star
is_wildcard action candidate =
    if eqb action (codes "*") then (true, true) else elim (ends_with_star action) [
      | none ↦ (false, false)
      | some stem ↦ (true, has_prefix candidate stem)
    ]

module _ {Q : Type 0} (rat : Rational Q) where
  -- `decimal`.
  unfoldable pub decimal : Bytes → Option Q
  decimal [] = none
  decimal (c ∷ s) = rat.set_string (c ∷ s)

  -- The tighter of the ceiling so far and one more, of which the first has been read before.
  unfoldable pub tighter : Option Q → Q → Limit → Limit → Limit
  tighter none r cur l = cur
  tighter (some c) r cur l = elim (rat.cmp r c) [ Ordering.lt ↦ l | _ ↦ cur ]

  unfoldable pub next_tightest : Option Limit → Q → Limit → Option Limit
  unfolding tighter decimal
  next_tightest none r l = some l
  next_tightest (some cur) r l = some (tighter (decimal cur.amount) r cur l)

  -- `none` is the second result `false` of `limitFor`.
  unfoldable pub limit_in : List Privilege → Bytes → Option Limit → Option (Option Limit)
  unfolding next_tightest decimal
  limit_in [] operation tightest = some tightest
  limit_in (p ∷ ps) operation tightest =
      let skip = limit_in ps operation tightest in
      if eqb p.operation operation
      then elim p.limit [
        | none ↦ skip
        | some l ↦ elim (decimal l.amount) [
          | none ↦ none
          | some r ↦ limit_in ps operation (next_tightest tightest r l)
        ]
      ]
      else skip

  unfoldable pub limit_from : List Grant → Bytes → Option Limit → Option (Option Limit)
  unfolding limit_in
  limit_from [] operation tightest = some tightest
  limit_from (g ∷ grants) operation tightest = elim (limit_in g.privileges operation tightest) [
    | none ↦ none
    | some t ↦ limit_from grants operation t
  ]

  -- `limitFor`.
  unfoldable pub limit_for : List Grant → Bytes → Option (Option Limit)
  unfolding limit_from
  limit_for grants operation = limit_from grants operation none
