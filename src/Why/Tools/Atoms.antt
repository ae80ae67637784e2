-- ===== src/Why/Tools/Atoms.antt =====
-- internal/why/aat_i4.go: the laws of `valueEqual` on booleans and numbers.
use behalf.Prelude.{
  ◌≡◌, refl, ap, ◌∙◌, ◌≢◌, Bool, true, false, Option, none, some, arith, Bytes, eqb_iff,
}
use Prim.Native.Nat.{Ordering}
use behalf.Why.Grant.{Rational, opposite}
use behalf.Why.Tools.Value.{bool_equal, is_eq, rationals_equal, numbers_equal}

pub bool_equal-sym : (a b : Bool) → bool_equal a b ≡ true → bool_equal b a ≡ true
unfolding bool_equal
bool_equal-sym true true h = refl
bool_equal-sym true false h = cc h
bool_equal-sym false true h = cc h
bool_equal-sym false false h = refl

pub bool_equal_trans :
    (a b c : Bool) → bool_equal a b ≡ true → bool_equal b c ≡ true → bool_equal a c ≡ true
unfolding bool_equal
bool_equal_trans true true c h k = k
bool_equal_trans true false c h k = cc h
bool_equal_trans false true c h k = cc h
bool_equal_trans false false c h k = k

module _ {Q : Type 0} (rat : Rational Q) where
  pub numbers_equal-sym :
      (s t : Bytes) → numbers_equal rat s t ≡ true → numbers_equal rat t s ≡ true
  unfolding numbers_equal rationals_equal is_eq
  numbers_equal-sym s t h = go (rat.set_string s) (rat.set_string t) h
    where
      go :
          (x y : Option Q) → rationals_equal rat x y s t ≡ true → rationals_equal rat y x t s ≡ true
      go (some x) (some y) h = ground (arith, rat.cmp_swap x y)
      go none none h = ground (arith, eqb_iff s t, eqb_iff t s)
      go none (some y) h = ground (arith, eqb_iff s t, eqb_iff t s)
      go (some x) none h = ground (arith, eqb_iff s t, eqb_iff t s)

  -- Equality of rationals passes on.
  pub cmp-eq_trans :
      (a b c : Q)
      → rat.cmp a b ≡ Ordering.eq
      → rat.cmp b c ≡ Ordering.eq
      → rat.cmp a c ≡ Ordering.eq
  cmp-eq_trans a b c h k =
      let le : rat.cmp a c ≢ Ordering.gt = rat.cmp_trans a b c (λ e. cc (e, h)) (λ e. cc (e, k)) in
      let h' : rat.cmp b a ≡ Ordering.eq = rat.cmp_swap a b ∙ ap opposite h in
      let k' : rat.cmp c b ≡ Ordering.eq = rat.cmp_swap b c ∙ ap opposite k in
      let ge : rat.cmp c a ≢ Ordering.gt =
        rat.cmp_trans c b a (λ e. cc (e, k')) (λ e. cc (e, h')) in
      go (rat.cmp a c) refl le (λ e. ge (rat.cmp_swap a c ∙ ap opposite e))
    where
      go :
          (o : Ordering)
          → rat.cmp a c ≡ o
          → rat.cmp a c ≢ Ordering.gt
          → rat.cmp a c ≢ Ordering.lt
          → rat.cmp a c ≡ Ordering.eq
      go Ordering.lt e le ge = absurd (ge e)
      go Ordering.eq e le ge = e
      go Ordering.gt e le ge = absurd (le e)

  pub is_eq-eq : (o : Ordering) → is_eq o ≡ true → o ≡ Ordering.eq
  unfolding is_eq
  is_eq-eq Ordering.lt h = cc h
  is_eq-eq Ordering.eq h = refl
  is_eq-eq Ordering.gt h = cc h

  pub numbers_equal_trans :
      (s t u : Bytes)
      → numbers_equal rat s t ≡ true
      → numbers_equal rat t u ≡ true
      → numbers_equal rat s u ≡ true
  unfolding numbers_equal rationals_equal
  numbers_equal_trans s t u h k =
      go (rat.set_string s) (rat.set_string t) (rat.set_string u) refl refl refl h k
    where
      go :
          (x y z : Option Q)
          → rat.set_string s ≡ x
          → rat.set_string t ≡ y
          → rat.set_string u ≡ z
          → rationals_equal rat x y s t ≡ true
          → rationals_equal rat y z t u ≡ true
          → rationals_equal rat x z s u ≡ true
      go (some x) (some y) (some z) ex ey ez h k =
          ap is_eq (cmp-eq_trans x y z (is_eq-eq (rat.cmp x y) h) (is_eq-eq (rat.cmp y z) k))
          ∙ unfold is_eq in refl
      go (some x) (some y) none ex ey ez h k =
          absurd (cc (ey, ez, ap rat.set_string ((eqb_iff t u).0 k)))
      go (some x) none (some z) ex ey ez h k =
          absurd (cc (ex, ey, ap rat.set_string ((eqb_iff s t).0 h)))
      go (some x) none none ex ey ez h k =
          absurd (cc (ex, ey, ap rat.set_string ((eqb_iff s t).0 h)))
      go none (some y) z ex ey ez h k = absurd (cc (ex, ey, ap rat.set_string ((eqb_iff s t).0 h)))
      go none none (some z) ex ey ez h k =
          absurd (cc (ey, ez, ap rat.set_string ((eqb_iff t u).0 k)))
      go none none none ex ey ez h k = ground (arith, eqb_iff s t, eqb_iff t u, eqb_iff s u)
