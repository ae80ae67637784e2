-- ===== src/Why/Tools/Accepts/Ranges.antt =====
-- internal/why/aat_i4.go: `inRange` and `rangeSubsumes`.
use behalf.Prelude.{
  ◌≡◌, refl, sym, ap, ◌∙◌, ◌≢◌, ◌⊎◌, inl, inr, Bool, true, Option, none, some, arith,
}
use Prim.Native.Nat.{Ordering}
use behalf.Why.Grant.{Rational, opposite}
use behalf.Why.Tools.Atoms.{cmp-eq_trans}
use behalf.Why.Tools.Equality.{both}
use behalf.Why.Tools.Json.{Json}
use behalf.Why.Tools.Constraint.{Bounds}
use behalf.Why.Tools.Subsumes.{
  in_range, above_min, below_max, min_within, max_within, range_subsumes,
}

Ordering-cases : (o : Ordering) → (o ≡ Ordering.lt) ⊎ (o ≡ Ordering.eq) ⊎ (o ≡ Ordering.gt)
Ordering-cases Ordering.lt = inl refl
Ordering-cases Ordering.eq = inr (inl refl)
Ordering-cases Ordering.gt = inr (inr refl)

module _ {Q : Type 0} (rat : Rational Q) where
  swapped : (a b : Q) (o : Ordering) → rat.cmp a b ≡ o → rat.cmp b a ≡ opposite o
  swapped a b o h = rat.cmp_swap a b ∙ ap opposite h

  not_gt-gt : (o : Ordering) → ((o ≢ Ordering.gt) → ⊥) → o ≡ Ordering.gt
  not_gt-gt Ordering.lt h = absurd (h (λ e. cc e))
  not_gt-gt Ordering.eq h = absurd (h (λ e. cc e))
  not_gt-gt Ordering.gt h = refl

  ge-gt_trans :
      (a b c : Q)
      → rat.cmp b a ≢ Ordering.gt
      → rat.cmp b c ≡ Ordering.gt
      → rat.cmp a c ≡ Ordering.gt
  ge-gt_trans a b c h k = not_gt-gt (rat.cmp a c) (λ le. rat.cmp_trans b a c h le k)

  gt-ge_trans :
      (a b c : Q)
      → rat.cmp a b ≡ Ordering.gt
      → rat.cmp c b ≢ Ordering.gt
      → rat.cmp a c ≡ Ordering.gt
  gt-ge_trans a b c h k = not_gt-gt (rat.cmp a c) (λ le. rat.cmp_trans a c b le k h)

  -- Equal rationals compare alike.
  pub cmp_congr : (a b c : Q) → rat.cmp a b ≡ Ordering.eq → rat.cmp a c ≡ rat.cmp b c
  cmp_congr a b c h = elim (Ordering-cases (rat.cmp b c)) [
    | inl lt ↦
        let above : rat.cmp c a ≡ Ordering.gt =
          gt-ge_trans c b a (swapped b c Ordering.lt lt) (λ e. cc (e, h)) in
        swapped c a Ordering.gt above ∙ sym lt
    | inr (inl eq) ↦ cmp-eq_trans rat a b c h eq ∙ sym eq
    | inr (inr gt) ↦
        let back = swapped a b Ordering.eq h in ge-gt_trans a b c (λ e. cc (e, back)) gt ∙ sym gt
  ]

module _ {Raw Q : Type 0} {rat : Rational Q} (json : Json Raw Q rat) where
  above_min-within :
      (n : Q) (d p : Option Q) (d_in p_in : Bool)
      → min_within json d d_in p p_in ≡ true
      → above_min json n d d_in ≡ true
      → above_min json n p p_in ≡ true
  unfolding min_within above_min
  above_min-within n d none d_in p_in h k = refl
  above_min-within n none (some m) d_in p_in h k = absurd (cc h)
  above_min-within n (some d) (some m) d_in p_in h k = elim (Ordering-cases (rat.cmp n d)) [
    | inl lt ↦ absurd (ground arith)
    | inr (inl eq) ↦ let same = cmp_congr rat n d m eq in ground arith
    | inr (inr gt) ↦ elim (Ordering-cases (rat.cmp d m)) [
      | inl lt' ↦ absurd (ground arith)
      | inr (inl eq') ↦
          let up : rat.cmp n m ≡ Ordering.gt =
            gt-ge_trans rat n d m gt (λ e. cc (e, swapped rat d m Ordering.eq eq')) in
          ground arith
      | inr (inr gt') ↦
          let up : rat.cmp n m ≡ Ordering.gt =
            gt-ge_trans rat n d m gt (λ e. cc (e, swapped rat d m Ordering.gt gt')) in
          ground arith
    ]
  ]

  below_max-within :
      (n : Q) (d p : Option Q) (d_in p_in : Bool)
      → max_within json d d_in p p_in ≡ true
      → below_max json n d d_in ≡ true
      → below_max json n p p_in ≡ true
  unfolding max_within below_max
  below_max-within n d none d_in p_in h k = refl
  below_max-within n none (some m) d_in p_in h k = absurd (cc h)
  below_max-within n (some d) (some m) d_in p_in h k = elim (Ordering-cases (rat.cmp n d)) [
    | inr (inr gt) ↦ absurd (ground arith)
    | inr (inl eq) ↦ let same = cmp_congr rat n d m eq in ground arith
    | inl lt ↦
        let above : rat.cmp d n ≡ Ordering.gt = swapped rat n d Ordering.lt lt in
        elim (Ordering-cases (rat.cmp d m)) [
          | inr (inr gt') ↦ absurd (ground arith)
          | inr (inl eq') ↦
              let up : rat.cmp m n ≡ Ordering.gt = ge-gt_trans rat m d n (λ e. cc (e, eq')) above in
              let below = swapped rat m n Ordering.gt up in ground arith
          | inl lt' ↦
              let up : rat.cmp m n ≡ Ordering.gt = ge-gt_trans rat m d n (λ e. cc (e, lt')) above in
              let below = swapped rat m n Ordering.gt up in ground arith
        ]
  ]

  pub in_range-within :
      (n : Q) (d p : Bounds Q)
      → range_subsumes json d p ≡ true
      → in_range json n d ≡ true
      → in_range json n p ≡ true
  unfolding range_subsumes in_range
  in_range-within n d p h k =
      let (low, high) = both _ _ h in
      let (above, below) = both _ _ k in
      rw (above_min-within n d.min p.min d.min_inclusive p.min_inclusive low above)
        (below_max-within n d.max p.max d.max_inclusive p.max_inclusive high below)

  -- Equal numbers are in the same ranges.
  pub in_range-equal :
      (a b : Q) (p : Bounds Q) → rat.cmp a b ≡ Ordering.eq → in_range json b p ≡ in_range json a p
  unfolding in_range above_min below_max
  in_range-equal a b p h = cc (above p.min, below p.max)
    where
      above :
          (low : Option Q)
          → above_min json b low p.min_inclusive ≡ above_min json a low p.min_inclusive
      above none = refl
      above (some l) = let same = cmp_congr rat a b l h in ground arith

      below :
          (high : Option Q)
          → below_max json b high p.max_inclusive ≡ below_max json a high p.max_inclusive
      below none = refl
      below (some u) = let same = cmp_congr rat a b u h in ground arith
