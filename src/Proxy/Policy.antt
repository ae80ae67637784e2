-- ===== src/Proxy/Policy.antt =====
-- internal/proxy/policy.go: which class of risk a tool has.
use behalf.Prelude.{
  ◌≡◌, refl, ap, ◌∙◌, subst, ◌≢◌, inl, inr, Bool, true, false, Option, none, some, List, [], ◌∷◌,
  ◌++◌, arith, if◌then◌else◌, Bool-cases, All, Bytes, codes,
}
use behalf.Aat.Hop.{is_set}

pub record Rule : Type 0 where
  pub pattern : Bytes
  pub risk : Bytes
  pub target_arg : Bytes
  pub outcome_fields : List Bytes

-- `source` and `digest` are left out: they only name the policy in a receipt.
pub record Policy : Type 0 where
  pub version : Bytes
  pub default : Bytes
  pub rules : List Rule

pub data PolicyError : Type 0 where
  not_json : PolicyError
  bad_pattern : Bytes → PolicyError
  no_class : Bytes → PolicyError

pub data Parsed : Type 0 where
  policy : Policy → Parsed
  failed : PolicyError → Parsed

-- `path.Match`, with the pattern first; `none` is ErrBadPattern.
module _ (path_match : Bytes → Bytes → Option Bool) where
  unfoldable pub first_error : List Rule → Option PolicyError
  unfolding is_set
  first_error [] = none
  first_error (r ∷ rules) =
      let rest = first_error rules in
      elim (path_match r.pattern (codes "probe")) [
        | none ↦ some (bad_pattern r.pattern)
        | some matches ↦ if is_set r.risk then rest else some (no_class r.pattern)
      ]

  unfoldable pub with_default : Policy → Policy
  unfolding is_set
  with_default p = if is_set p.default then p else record p { default = codes "low" }

  unfoldable pub checked : Policy → Option PolicyError → Parsed
  checked p none = policy p
  checked p (some e) = failed e

  -- `parsePolicy`, after encoding/json has read the policy.
  unfoldable pub parse_policy : Option Policy → Parsed
  unfolding first_error with_default checked
  parse_policy none = failed not_json
  parse_policy (some p) = checked (with_default p) (first_error (with_default p).rules)

  matches : Option Bool → Bool
  matches none = false
  matches (some b) = b

  -- `match`: the first rule whose pattern matches.
  unfoldable pub match_rule : List Rule → Bytes → Option Rule
  unfolding matches
  match_rule [] tool = none
  match_rule (r ∷ rules) tool =
      let rest = match_rule rules tool in
      if matches (path_match r.pattern tool) then some r else rest

  class_of : Bytes → Option Rule → Bytes × Bytes
  class_of default none = (default, [])
  class_of default (some r) = (r.risk, r.target_arg)

  -- `Classify`: the class, and the argument that names the target.
  unfoldable pub classify : Policy → Bytes → Bytes × Bytes
  unfolding match_rule class_of
  classify p tool = class_of p.default (match_rule p.rules tool)

  fields_of : Option Rule → List Bytes
  fields_of none = []
  fields_of (some r) = r.outcome_fields

  -- `OutcomeFields`.
  unfoldable pub outcome_fields_for : Policy → Bytes → List Bytes
  unfolding match_rule fields_of
  outcome_fields_for p tool = fields_of (match_rule p.rules tool)

  first_error-none :
      (r : Rule) (rules : List Rule)
      → first_error (r ∷ rules) ≡ none
      → (is_set r.risk ≡ true) × (first_error rules ≡ none)
  unfolding first_error
  first_error-none r rules e = go (path_match r.pattern (codes "probe")) (is_set r.risk) refl e
    where
      go :
          (m : Option Bool) (named : Bool)
          → is_set r.risk ≡ named
          → elim m [
            | none ↦ some (bad_pattern r.pattern)
            | some matches ↦ if named then first_error rules else some (no_class r.pattern)
          ]
            ≡ none
          → (is_set r.risk ≡ true) × (first_error rules ≡ none)
      go none named at e = absurd (cc e)
      go (some m) true at e = (at, e)
      go (some m) false at e = absurd (cc e)

  match_rule-class :
      (rules : List Rule) (tool : Bytes) (r : Rule)
      → first_error rules ≡ none
      → match_rule rules tool ≡ some r
      → is_set r.risk ≡ true
  unfolding match_rule
  match_rule-class [] tool r e at = absurd (cc at)
  match_rule-class (x ∷ rules) tool r e at =
      let (named, rest) = first_error-none x rules e in
      elim (Bool-cases (matches (path_match x.pattern tool))) [
        | inl hit ↦ let is_x : x ≡ r = ground arith in subst (λ y. is_set y.risk ≡ true) is_x named
        | inr miss ↦ match_rule-class rules tool r rest (ground arith)
      ]

  with_default-set : (p : Policy) → is_set (with_default p).default ≡ true
  unfolding with_default
  with_default-set p = elim (Bool-cases (is_set p.default)) [
    | inl named ↦ rw named named
    | inr bare ↦ rw bare (unfold is_set in refl)
  ]

  -- A policy that parses gives every tool a class that is not empty.
  pub classify-class :
      (decoded : Option Policy) (p : Policy) (tool : Bytes)
      → parse_policy decoded ≡ policy p
      → is_set (classify p tool).0 ≡ true
  unfolding parse_policy checked classify
  classify-class none p tool e = absurd (cc e)
  classify-class (some d) p tool e = go (first_error (with_default d).rules) refl e
    where
      named :
          (default : Bytes) (rules : List Rule) (o : Option Rule)
          → match_rule rules tool ≡ o
          → is_set default ≡ true
          → first_error rules ≡ none
          → is_set (class_of default o).0 ≡ true
      named default rules none at set_default ok = unfold class_of in set_default
      named default rules (some r) at set_default ok =
          unfold class_of in match_rule-class rules tool r ok at

      go :
          (o : Option PolicyError)
          → first_error (with_default d).rules ≡ o
          → checked (with_default d) o ≡ policy p
          → is_set (class_of p.default (match_rule p.rules tool)).0 ≡ true
      go (some x) at e = absurd (cc e)
      go none at e =
          subst (λ (q : Policy). is_set (class_of q.default (match_rule q.rules tool)).0 ≡ true)
            (same e)
            (named (with_default d).default (with_default d).rules
              (match_rule (with_default d).rules tool) refl (with_default-set d) at)
        where
          same : policy (with_default d) ≡ policy p → with_default d ≡ p
          same e = cc

  match_rule-first :
      (before after : List Rule) (r : Rule) (tool : Bytes)
      → All (λ x. path_match x.pattern tool ≢ some true) before
      → path_match r.pattern tool ≡ some true
      → match_rule (before ++ (r ∷ after)) tool ≡ some r
  unfolding match_rule matches
  match_rule-first [] after r tool skipped at = rw at refl
  match_rule-first (x ∷ before) after r tool skipped at =
      go (path_match x.pattern tool) skipped.0 (match_rule-first before after r tool skipped.1 at)
    where
      go :
          (o : Option Bool)
          → o ≢ some true
          → match_rule (before ++ (r ∷ after)) tool ≡ some r
          → (if matches o then some x else match_rule (before ++ (r ∷ after)) tool) ≡ some r
      go none miss rest = rest
      go (some false) miss rest = rest
      go (some true) miss rest = absurd (miss refl)

  -- The first rule of a policy that matches a tool decides its class and its target argument: the
  -- rules before it do not match, and the rules after it are not looked at.
  pub classify-first :
      (p : Policy) (before after : List Rule) (r : Rule) (tool : Bytes)
      → p.rules ≡ before ++ (r ∷ after)
      → All (λ x. path_match x.pattern tool ≢ some true) before
      → path_match r.pattern tool ≡ some true
      → classify p tool ≡ (r.risk, r.target_arg)
  unfolding classify
  classify-first p before after r tool e skipped at =
      ap (λ l. class_of p.default (match_rule l tool)) e
      ∙ ap (class_of p.default) (match_rule-first before after r tool skipped at)
      ∙ unfold class_of in refl
