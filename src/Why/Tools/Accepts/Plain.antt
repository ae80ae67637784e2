-- ===== src/Why/Tools/Accepts/Plain.antt =====
-- internal/why/aat_i4.go: `subsumes` between the constraints that hold no clauses.
use behalf.Prelude.{
  ◌≡◌, sym, ap, ◌∙◌, subst, inl, inr, true, some, List, [], ◌∷◌, arith, Bool-cases, Option-cases,
  some_inj, Bytes, eqb, eqb_iff,
}
use behalf.Why.Grant.{Rational}
use behalf.Why.Tools.Value.{
  is_eq, Value, Values, number, array, value_equal, value_equal, numbers_equal, rationals_equal,
}
use behalf.Why.Tools.Atoms.{is_eq-eq}
use behalf.Why.Tools.Equality.{value_equal-Alike, both, value_equal-sym, value_equal_trans}
use behalf.Why.Tools.Json.{Json, json_equal, contains_value, number_of}
use behalf.Why.Tools.Constraint.{
  Bounds, Constraint, exact, range, one_of, not_one_of, contains, subset, wildcard, all, any,
}
use behalf.Why.Tools.Subsumes.{
  plain_subsumes, exact_subsumes, number_in, in_range, range_subsumes, all_contained,
}
use behalf.Why.Tools.Accepts.Ranges.{in_range-equal, in_range-within}
use behalf.Why.Tools.Accepts.{Accepts, Matches, Listed, Within, HasAll, In}

module _ {Raw Q : Type 0} {rat : Rational Q} (json : Json Raw Q rat) where
  json_equal-values :
      (a b : Raw)
      → json_equal json a b ≡ true
      → (v w : Value) × (json.value_of a ≡ some v)
        × (json.value_of b ≡ some w)
        × (value_equal rat v w ≡ true)
  unfolding json_equal
  json_equal-values a b h = elim (Option-cases (json.value_of a)) [
    | inl out ↦ absurd (ground arith)
    | inr (v, e) ↦ elim (Option-cases (json.value_of b)) [
      | inl out ↦ absurd (ground arith)
      | inr (w, f) ↦ (v, w, e, f, ground arith)
    ]
  ]

  -- What the second of two equal messages is, the first is.
  json_equal-Matches :
      (a b : Raw) (x : Value) → json_equal json a b ≡ true → Matches json b x → Matches json a x
  json_equal-Matches a b x h (w, f, same) =
      let (v, u, e, f', eq) = json_equal-values a b h in
      let is : u ≡ w = some_inj (sym f' ∙ f) in
      (v, e, value_equal_trans rat v w x (subst (λ t. value_equal rat v t ≡ true) is eq) same)

  json_equal-Matches_back :
      (a b : Raw) (x : Value) → json_equal json a b ≡ true → Matches json a x → Matches json b x
  json_equal-Matches_back a b x h (v, e, same) =
      let (u, w, e', f, eq) = json_equal-values a b h in
      let is : u ≡ v = some_inj (sym e' ∙ e) in
      let back = value_equal-sym rat u w (json.value_maps a u e') (json.value_maps b w f) eq in
      (w, f, value_equal_trans rat w v x (subst (λ t. value_equal rat w t ≡ true) is back) same)

  contains_value-Listed :
      (v : Raw) (raws : List Raw) (x : Value)
      → contains_value json raws v ≡ true
      → Matches json v x
      → Listed json raws x
  unfolding contains_value
  contains_value-Listed v [] x h m = cc h
  contains_value-Listed v (s ∷ raws) x h m = elim (Bool-cases (json_equal json s v)) [
    | inl same ↦ inl (json_equal-Matches s v x same m)
    | inr other ↦ inr (contains_value-Listed v raws x (ground arith) m)
  ]

  all_contained-Listed :
      (vs ws : List Raw) (x : Value)
      → all_contained json vs ws ≡ true
      → Listed json vs x
      → Listed json ws x
  unfolding all_contained
  all_contained-Listed [] ws x h l = elim l [ ]
  all_contained-Listed (v ∷ vs) ws x h (inl m) = contains_value-Listed v ws x (both _ _ h).0 m
  all_contained-Listed (v ∷ vs) ws x h (inr l) = all_contained-Listed vs ws x (both _ _ h).1 l

  contains_value-HasAll :
      (v : Raw) (raws : List Raw) (x : Value)
      → contains_value json raws v ≡ true
      → HasAll json raws x
      → (ys : Values) × (y : Value) × (x ≡ array ys) × In y ys × Matches json v y
  unfolding contains_value
  contains_value-HasAll v [] x h a = cc h
  contains_value-HasAll v (s ∷ raws) x h ((ys, y, e, at, m), rest) =
      elim (Bool-cases (json_equal json s v)) [
        | inl same ↦ (ys, y, e, at, json_equal-Matches_back s v y same m)
        | inr other ↦ contains_value-HasAll v raws x (ground arith) rest
      ]

  HasAll-array : (raws : List Raw) (x : Value) → HasAll json raws x → (ys : Values) × (x ≡ array ys)
  HasAll-array [] x h = h
  HasAll-array (r ∷ raws) x h = HasAll-array raws x h.1

  all_contained-HasAll :
      (ws vs : List Raw) (x : Value)
      → all_contained json ws vs ≡ true
      → HasAll json vs x
      → HasAll json ws x
  unfolding all_contained
  all_contained-HasAll [] vs x h a = HasAll-array vs x a
  all_contained-HasAll (w ∷ ws) vs x h a =
      (contains_value-HasAll w vs x (both _ _ h).0 a, all_contained-HasAll ws vs x (both _ _ h).1 a)

  number_of-literal :
      (raw : Raw) (q : Q) → number_of json raw ≡ some q → rat.set_string (json.text raw) ≡ some q
  unfolding number_of
  number_of-literal raw q h = ground arith

  -- A number that an equal value's literal reads as is in the same ranges.
  numbers_equal-Within :
      (t s : Bytes) (q : Q) (p : Bounds Q)
      → rat.set_string t ≡ some q
      → numbers_equal rat t s ≡ true
      → in_range json q p ≡ true
      → (r : Q) × (rat.set_string s ≡ some r) × (in_range json r p ≡ true)
  unfolding numbers_equal rationals_equal
  numbers_equal-Within t s q p e h k = elim (Option-cases (rat.set_string s)) [
    | inl out ↦
        let same : eqb t s ≡ true = ground arith in
        absurd (cc (e, out, ap rat.set_string ((eqb_iff t s).0 same)))
    | inr (r, f) ↦
        let same : is_eq (rat.cmp q r) ≡ true = ground arith in
        (r, f, in_range-equal json q r p (is_eq-eq rat (rat.cmp q r) same) ∙ k)
  ]

  exact-Within :
      (v : Raw) (p : Bounds Q) (x : Value)
      → number_in json (number_of json v) p ≡ true
      → Matches json v x
      → Within json p x
  unfolding number_in
  exact-Within v p x h (w, e, same) = elim (Option-cases (number_of json v)) [
    | inl out ↦ absurd (ground arith)
    | inr (q, at) ↦
        let read = number_of-literal v q at in
        let is : w ≡ number (json.text v) = some_inj (sym e ∙ json.value_number v q read) in
        let alike = value_equal-Alike rat (number (json.text v)) x (cc (is, same)) in
        let (s, f, equal) = alike in
        let inside : in_range json q p ≡ true = ground arith in
        let (r, g, within) = numbers_equal-Within (json.text v) s q p read equal inside in
        (s, r, f, g, within)
  ]

  range_subsumes-Within :
      (d p : Bounds Q) (x : Value)
      → range_subsumes json d p ≡ true
      → Within json d x
      → Within json p x
  range_subsumes-Within d p x h (s, q, e, f, inside) =
      (s, q, e, f, in_range-within json q d p h inside)

  pub exact_subsumes-Accepts :
      (v : Raw) (p : Constraint Raw Q) (x : Value)
      → exact_subsumes json v p ≡ true
      → Matches json v x
      → Accepts json p x
  unfolding exact_subsumes Accepts
  exact_subsumes-Accepts v p x h m =
      elim p as (λ k. exact_subsumes json v k ≡ true → Accepts json k x) [
        | exact w ↦ λ same. json_equal-Matches_back v w x same m
        | range b ↦ λ inside. exact-Within v b x inside m
        | one_of ws ↦ λ listed. contains_value-Listed v ws x listed m
        | _ ↦ λ differ. absurd (cc differ)
      ]
        h

  -- A derived constraint without clauses that subsumes the parent's accepts no more.
  pub plain_subsumes-Accepts :
      (d p : Constraint Raw Q) (x : Value)
      → plain_subsumes json d p ≡ true
      → Accepts json d x
      → Accepts json p x
  unfolding plain_subsumes Accepts
  plain_subsumes-Accepts (exact v) p x h m = exact_subsumes-Accepts v p x h m
  plain_subsumes-Accepts (range d) p x h m =
      elim p as (λ k. plain_subsumes json (range d) k ≡ true → Accepts json k x) [
        | range w ↦ λ same. range_subsumes-Within d w x same m
        | _ ↦ λ differ. absurd (cc differ)
      ]
        h
  plain_subsumes-Accepts (one_of vs) p x h m =
      elim p as (λ k. plain_subsumes json (one_of vs) k ≡ true → Accepts json k x) [
        | one_of w ↦ λ same. all_contained-Listed vs w x same m
        | _ ↦ λ differ. absurd (cc differ)
      ]
        h
  plain_subsumes-Accepts (not_one_of vs) p x h m =
      elim p as (λ k. plain_subsumes json (not_one_of vs) k ≡ true → Accepts json k x) [
        | not_one_of w ↦ λ same. λ listed. m (all_contained-Listed w vs x same listed)
        | _ ↦ λ differ. absurd (cc differ)
      ]
        h
  plain_subsumes-Accepts (contains vs) p x h m =
      elim p as (λ k. plain_subsumes json (contains vs) k ≡ true → Accepts json k x) [
        | contains w ↦ λ same. all_contained-HasAll w vs x same m
        | _ ↦ λ differ. absurd (cc differ)
      ]
        h
  plain_subsumes-Accepts (subset vs) p x h m =
      elim p as (λ k. plain_subsumes json (subset vs) k ≡ true → Accepts json k x) [
        | subset w ↦ λ same. (m.0, m.1, λ y at. all_contained-Listed vs w y same (m.2 y at))
        | _ ↦ λ differ. absurd (cc differ)
      ]
        h
  plain_subsumes-Accepts wildcard p x h m =
      elim p as (λ k. plain_subsumes json wildcard k ≡ true → Accepts json k x) [
        | exact w ↦ λ differ. absurd (cc differ)
        | _ ↦ λ differ. absurd (cc differ)
      ]
        h
  plain_subsumes-Accepts (all cs) p x h m =
      elim p as (λ k. plain_subsumes json (all cs) k ≡ true → Accepts json k x) [
        | exact w ↦ λ differ. absurd (cc differ)
        | _ ↦ λ differ. absurd (cc differ)
      ]
        h
  plain_subsumes-Accepts (any cs) p x h m =
      elim p as (λ k. plain_subsumes json (any cs) k ≡ true → Accepts json k x) [
        | exact w ↦ λ differ. absurd (cc differ)
        | _ ↦ λ differ. absurd (cc differ)
      ]
        h
