-- ===== src/Why/Scope.antt =====
-- internal/why/chain.go: `CheckScope`.
pub mod Ceilings
pub mod Least
pub mod Allows
use behalf.Prelude.{
  Bool, true, false, Option, none, some, List, [], ◌∷◌, if◌then◌else◌, Bytes, codes,
}
use Prim.Native.Nat.{Ordering}
use behalf.Why.Grant.{Rational, Limit, Grant, decimal, limit_for}

abbrev pub comparator_version : Bytes
comparator_version = codes "behalf.sh/attenuation/v1"

pub record ScopeExcess : Type 0 where
  pub operation : Bytes
  pub limit : Bytes
  pub currency : Bytes
  pub amount : Bytes
  pub version : Bytes

module _ {Q : Type 0} (rat : Rational Q) where
  unfoldable pub lower_of : Option Q → Option Q → Limit → Limit → Limit
  lower_of (some lv) (some tv) tightest l = elim (rat.cmp lv tv) [ Ordering.lt ↦ l | _ ↦ tightest ]
  lower_of _ _ tightest l = tightest

  unfoldable pub fold_limit : Option Limit → Option (Option Limit) → Option Limit
  unfolding lower_of
  fold_limit tightest none = tightest
  fold_limit tightest (some none) = tightest
  fold_limit none (some (some l)) = some l
  fold_limit (some t) (some (some l)) =
      some (lower_of (decimal rat l.amount) (decimal rat t.amount) t l)

  -- The tightest ceiling that any hop's grants place on the operation.
  unfoldable pub tightest_from : List (List Grant) → Bytes → Option Limit → Option Limit
  unfolding fold_limit
  tightest_from [] operation tightest = tightest
  tightest_from (grants ∷ hops) operation tightest =
      tightest_from hops operation (fold_limit tightest (limit_for rat grants operation))

  unfoldable pub exceeds : Q → Option Q → Bool
  exceeds amt none = false
  exceeds amt (some lim) = elim (rat.cmp amt lim) [ Ordering.gt ↦ true | _ ↦ false ]

  unfoldable pub excess_over : Bytes → Bytes → Q → Option Limit → Option ScopeExcess
  unfolding exceeds
  excess_over operation amount amt none = none
  excess_over operation amount amt (some t) =
      if exceeds amt (decimal rat t.amount)
      then some (record {
        operation = operation;
        limit = t.amount;
        currency = t.currency;
        amount = amount;
        version = comparator_version;
      })
      else none

  -- `CheckScope`; an amount "" has no decimal either.
  unfoldable pub check_scope : List (List Grant) → Bytes → Bytes → Option ScopeExcess
  unfolding excess_over
  check_scope hops [] amount = none
  check_scope hops (c ∷ operation) amount = elim (decimal rat amount) [
    | none ↦ none
    | some amt ↦ excess_over (c ∷ operation) amount amt (tightest_from hops (c ∷ operation) none)
  ]
