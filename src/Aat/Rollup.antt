-- ===== src/Aat/Rollup.antt =====
-- internal/aat/verify.go: `Weakest`, against the order broken < asserted < verified.
use behalf.Prelude.{
  ℕ, ◌≤◌, ◌≡◌, refl, sym, ◌∙◌, subst, ◌⊎◌, inl, inr, List, [], ◌∷◌, arith, All, All-map,
}
use behalf.Aat.Result.{
  Status, verified, asserted, broken, HopResult, weakest, weakest_from, lower, stop,
}

abbrev pub rank : Status → ℕ
rank broken = 0
rank asserted = 1
rank verified = 2

-- Some member has the state.
abbrev pub Some : Status → List HopResult → Type 0
Some s [] = ⊥
Some s (r ∷ rs) = (r.status ≡ s) ⊎ Some s rs

abbrev NoWeaker : Status → HopResult → Type 0
NoWeaker s r = rank s ≤ rank r.status

-- The state is below the start and below every member, and one of them has it.
record IsMin (start : Status) (rs : List HopResult) (s : Status) : Type 0 where
  below_start : rank s ≤ rank start
  below_all : All (NoWeaker s) rs
  attained : (s ≡ start) ⊎ Some s rs

rank-le : (s : Status) → rank s ≤ 2
rank-le verified = omega arith
rank-le asserted = omega arith
rank-le broken = omega arith

IsMin-stop :
    (start x : Status) (r : HopResult) (rs : List HopResult) (t : Status)
    → 1 ≤ rank start
    → r.status ≡ t
    → IsMin (lower t start) rs x
    → IsMin start (r ∷ rs) (stop t x)
unfolding lower stop
IsMin-stop start x r rs verified h e m = record {
  below_start = m.below_start;
  below_all = (subst (λ s. rank x ≤ rank s) (sym e) (rank-le x), m.below_all);
  attained = at m.attained;
}
  where
    at : (x ≡ start) ⊎ Some x rs → (x ≡ start) ⊎ Some x (r ∷ rs)
    at (inl same) = inl same
    at (inr s) = inr (inr s)
IsMin-stop start x r rs asserted h e m = record {
  below_start = omega (arith, m.below_start);
  below_all = (subst (λ s. rank x ≤ rank s) (sym e) m.below_start, m.below_all);
  attained = inr (at m.attained);
}
  where
    at : (x ≡ asserted) ⊎ Some x rs → Some x (r ∷ rs)
    at (inl same) = inl (e ∙ sym same)
    at (inr s) = inr s
IsMin-stop start x r rs broken h e m = record {
  below_start = omega arith;
  below_all =
      (omega arith, All-map (NoWeaker x) (NoWeaker broken) rs (λ s le. omega arith) m.below_all);
  attained = inr (inl e);
}

rank-lower : (t start : Status) → 1 ≤ rank start → 1 ≤ rank (lower t start)
unfolding lower
rank-lower verified start h = h
rank-lower asserted start h = omega arith
rank-lower broken start h = h

weakest_from-IsMin :
    (start : Status) (rs : List HopResult) → 1 ≤ rank start → IsMin start rs (weakest_from start rs)
unfolding weakest_from
weakest_from-IsMin start [] h = record {
  below_start = omega arith;
  below_all = tt;
  attained = inl refl;
}
weakest_from-IsMin start (r ∷ rs) h =
    IsMin-stop start (weakest_from (lower r.status start) rs) r rs r.status h refl
      (weakest_from-IsMin (lower r.status start) rs (rank-lower r.status start h))

-- On a chain with hops the rollup is the weakest state: no hop is weaker, and some hop has it.
pub weakest-IsLeast :
    (r : HopResult) (rs : List HopResult)
    → All (λ x. rank (weakest (r ∷ rs)) ≤ rank x.status) (r ∷ rs) × Some (weakest (r ∷ rs)) (r ∷ rs)
unfolding weakest
weakest-IsLeast r rs =
    let m = weakest_from-IsMin verified (r ∷ rs) (omega arith) in (m.below_all, go m)
  where
    go :
        IsMin verified (r ∷ rs) (weakest_from verified (r ∷ rs))
        → Some (weakest_from verified (r ∷ rs)) (r ∷ rs)
    go m = pick (weakest_from verified (r ∷ rs)) m.below_all.0 m.attained
      where
        top : (s : Status) → 2 ≤ rank s → s ≡ verified
        top verified h = refl
        top asserted h = absurd (omega arith)
        top broken h = absurd (omega arith)

        pick :
            (x : Status)
            → rank x ≤ rank r.status
            → (x ≡ verified) ⊎ Some x (r ∷ rs)
            → Some x (r ∷ rs)
        pick x le (inr s) = s
        pick x le (inl e) = inl (top r.status (subst (λ s. rank s ≤ rank r.status) e le) ∙ sym e)
