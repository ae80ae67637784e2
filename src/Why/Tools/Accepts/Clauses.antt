-- ===== src/Why/Tools/Accepts/Clauses.antt =====
-- internal/why/aat_i4.go: `subsumes` between constraints of any depth.
use behalf.Prelude.{
  ℕ, zero, suc, ◌≡◌, ◌⊎◌, inl, inr, Bool, true, false, List, [], ◌∷◌, ◌++◌, arith, ltb, Bool-cases,
  All, All-append,
}
use behalf.Why.Grant.{Rational}
use behalf.Why.Tools.Value.{Value}
use behalf.Why.Tools.Json.{Json}
use behalf.Why.Tools.Constraint.{
  Constraint, Constraints, exact, range, one_of, not_one_of, contains, subset, wildcard, all, any,
  stop, clause, max_constraint_depth,
}
use behalf.Why.Tools.Subsumes.{
  Decider, subsumes, deciders, try_clauses, match_clauses, some_clause, every_clause, any_subsumes,
  all_under, any_under, is_wild, guarded, plain_under,
}
use behalf.Why.Tools.Accepts.{Accepts, AllAccept, SomeAccepts}
use behalf.Why.Tools.Accepts.Plain.{plain_subsumes-Accepts}

module _ {Raw Q : Type 0} {rat : Rational Q} (json : Json Raw Q rat) (x : Value) where
  -- What the decider finds narrower than it, accepts the argument.
  Sound : Decider json → Type 0
  Sound d = (p : Constraint Raw Q) (depth steps : ℕ) → (d p depth steps).0 ≡ true → Accepts json p x

  SomeSound : List (Decider json) → Type 0
  SomeSound [] = ⊥
  SomeSound (d ∷ ds) = Sound d ⊎ SomeSound ds

  try_clauses-Accepts :
      (p : Constraint Raw Q) (ps : Constraints Raw Q) (next : List (Decider json) → ℕ → Bool × ℕ)
      (depth : ℕ)
      → ((ds : List (Decider json)) (steps : ℕ)
          → All Sound ds
          → (next ds steps).0 ≡ true
          → AllAccept json ps x)
      → (seen unused : List (Decider json)) (steps : ℕ) → All Sound seen
      → All Sound unused
      → (try_clauses json p next depth seen unused steps).0 ≡ true
      → AllAccept json (clause p ps) x
  unfolding try_clauses Accepts Sound
  try_clauses-Accepts p ps next depth sound seen [] steps before_all after_all h = absurd (cc h)
  try_clauses-Accepts p ps next depth sound seen (d ∷ unused) steps before_all (d_sound, rest) h =
      let left = (d p depth steps).1 in
      let seen_all = All-append Sound seen (d ∷ []) before_all (d_sound, tt) in
      let on = try_clauses-Accepts p ps next depth sound (seen ++ d ∷ []) unused in
      elim (Bool-cases (d p depth steps).0) [
        | inr refused ↦ on left seen_all rest (ground arith)
        | inl fits ↦ elim (Bool-cases (next (seen ++ unused) left).0) [
          | inl matched ↦ (
            d_sound p depth steps fits,
            sound (seen ++ unused) left (All-append Sound seen unused before_all rest) matched,
          )
          | inr failed ↦ on (next (seen ++ unused) left).1 seen_all rest (ground arith)
        ]
      ]

  match_clauses-Accepts :
      (depth : ℕ) (ps : Constraints Raw Q) (ds : List (Decider json)) (steps : ℕ)
      → All Sound ds
      → (match_clauses json depth ps ds steps).0 ≡ true
      → AllAccept json ps x
  unfolding match_clauses Accepts
  match_clauses-Accepts depth stop ds steps all_sound h = tt
  match_clauses-Accepts depth (clause p ps) ds zero all_sound h = absurd (cc h)
  match_clauses-Accepts depth (clause p ps) ds (suc steps) all_sound h =
      try_clauses-Accepts p ps (match_clauses json depth ps) depth
        (λ es left. match_clauses-Accepts depth ps es left) [] ds (suc steps) tt all_sound h

  some_clause-Accepts :
      (depth : ℕ) (d : Decider json) (ps : Constraints Raw Q) (steps : ℕ)
      → Sound d
      → (some_clause json depth d ps steps).0 ≡ true
      → SomeAccepts json ps x
  unfolding some_clause Accepts Sound
  some_clause-Accepts depth d stop steps d_sound h = cc h
  some_clause-Accepts depth d (clause p ps) steps d_sound h =
      elim (Bool-cases (d p depth steps).0) [
        | inl fits ↦ inl (d_sound p depth steps fits)
        | inr refused ↦
            inr (some_clause-Accepts depth d ps (d p depth steps).1 d_sound (ground arith))
      ]

  every_clause-Accepts :
      (depth : ℕ) (ds : List (Decider json)) (ps : Constraints Raw Q) (steps : ℕ)
      → SomeSound ds
      → (every_clause json depth ds ps steps).0 ≡ true
      → SomeAccepts json ps x
  unfolding every_clause SomeSound
  every_clause-Accepts depth (d ∷ ds) ps steps one h =
      elim (Bool-cases (some_clause json depth d ps steps).0) [
        | inr refused ↦ absurd (ground arith)
        | inl found ↦ elim one [
          | inl d_sound ↦ some_clause-Accepts depth d ps steps d_sound found
          | inr later ↦
              every_clause-Accepts depth ds ps (some_clause json depth d ps steps).1 later
                (ground arith)
        ]
      ]
  every_clause-Accepts depth [] ps steps one h = elim one [ ]

  guarded-Sound :
      (d : Decider json)
      → ((p : Constraint Raw Q) (depth steps : ℕ)
          → is_wild json p ≡ false
          → (d p depth steps).0 ≡ true
          → Accepts json p x)
      → Sound (guarded json d)
  unfolding guarded Sound
  guarded-Sound d sound p depth zero h = absurd (cc h)
  guarded-Sound d sound p depth (suc steps) h = elim (Bool-cases (ltb max_constraint_depth depth)) [
    | inl deep ↦ absurd (ground arith)
    | inr shallow ↦ elim (Bool-cases (is_wild json p)) [
      | inl wild ↦ accepts_wild p wild
      | inr plain ↦ sound p depth steps plain (ground arith)
    ]
  ]
    where
      accepts_wild : (q : Constraint Raw Q) → is_wild json q ≡ true → Accepts json q x
      accepts_wild q = elim q as (λ k. is_wild json k ≡ true → Accepts json k x) [
        | wildcard ↦ λ wild. unfold Accepts in tt
        | _ ↦ λ other. absurd (unfold is_wild in cc other)
      ]

  all_under-Accepts :
      (ds : List (Decider json)) (p : Constraint Raw Q) (depth steps : ℕ)
      → All Sound ds
      → (all_under json ds p depth steps).0 ≡ true
      → Accepts json p x
  unfolding all_under Accepts
  all_under-Accepts ds p depth steps all_sound =
      elim p as (λ k. (all_under json ds k depth steps).0 ≡ true → Accepts json k x) [
        | all ps ↦ λ matched. match_clauses-Accepts (suc depth) ps ds steps all_sound matched
        | _ ↦ λ differ. absurd (cc differ)
      ]

  any_subsumes-Accepts :
      (depth : ℕ) (ds : List (Decider json)) (ps : Constraints Raw Q) (steps : ℕ)
      → SomeSound ds
      → (any_subsumes json depth ds ps steps).0 ≡ true
      → SomeAccepts json ps x
  unfolding any_subsumes
  any_subsumes-Accepts depth [] ps steps one h = absurd (cc h)
  any_subsumes-Accepts depth (d ∷ ds) ps steps one h =
      every_clause-Accepts depth (d ∷ ds) ps steps one h

  any_under-Accepts :
      (ds : List (Decider json)) (p : Constraint Raw Q) (depth steps : ℕ)
      → SomeSound ds
      → (any_under json ds p depth steps).0 ≡ true
      → Accepts json p x
  unfolding any_under Accepts
  any_under-Accepts ds p depth steps one =
      elim p as (λ k. (any_under json ds k depth steps).0 ≡ true → Accepts json k x) [
        | any ps ↦ λ matched. any_subsumes-Accepts (suc depth) ds ps steps one matched
        | _ ↦ λ differ. absurd (cc differ)
      ]

  plain_under-Accepts :
      (d : Constraint Raw Q) → Accepts json d x → Sound (guarded json (plain_under json d))
  unfolding plain_under
  plain_under-Accepts d a =
      guarded-Sound (plain_under json d)
        (λ p depth steps tame h. plain_subsumes-Accepts json d p x h a)

  mutual
    unfolding subsumes Accepts SomeSound

    subsumes-Sound : (c : Constraint Raw Q) → Accepts json c x → Sound (subsumes json c)
    subsumes-Sound (all cs) a =
        let ds = deciders json cs in
        guarded-Sound (all_under json ds)
          (λ p depth steps tame h. all_under-Accepts ds p depth steps (deciders-All cs a) h)
    subsumes-Sound (any cs) a =
        let ds = deciders json cs in
        guarded-Sound (any_under json ds)
          (λ p depth steps tame h. any_under-Accepts ds p depth steps (deciders-SomeSound cs a) h)
    subsumes-Sound (exact v) a = plain_under-Accepts (exact v) a
    subsumes-Sound (range d) a = plain_under-Accepts (range d) a
    subsumes-Sound (one_of vs) a = plain_under-Accepts (one_of vs) a
    subsumes-Sound (not_one_of vs) a = plain_under-Accepts (not_one_of vs) a
    subsumes-Sound (contains vs) a = plain_under-Accepts (contains vs) a
    subsumes-Sound (subset vs) a = plain_under-Accepts (subset vs) a
    subsumes-Sound wildcard a = plain_under-Accepts wildcard a

    deciders-All : (cs : Constraints Raw Q) → AllAccept json cs x → All Sound (deciders json cs)
    deciders-All stop a = tt
    deciders-All (clause c cs) (a, as') = (subsumes-Sound c a, deciders-All cs as')

    deciders-SomeSound :
        (cs : Constraints Raw Q) → SomeAccepts json cs x → SomeSound (deciders json cs)
    deciders-SomeSound stop a = a
    deciders-SomeSound (clause c cs) (inl a) = inl (subsumes-Sound c a)
    deciders-SomeSound (clause c cs) (inr later) = inr (deciders-SomeSound cs later)

  -- Whatever the depth and the steps left, where `subsumes` finds the derived constraint at least as
  -- restrictive as the parent's, every argument that the derived one accepts the parent's accepts.
  pub subsumes-Accepts :
      (derived parent : Constraint Raw Q) (depth steps : ℕ)
      → (subsumes json derived parent depth steps).0 ≡ true
      → Accepts json derived x
      → Accepts json parent x
  unfolding Sound
  subsumes-Accepts derived parent depth steps h a = subsumes-Sound derived a parent depth steps h
