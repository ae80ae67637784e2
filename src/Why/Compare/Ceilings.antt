-- ===== src/Why/Compare/Ceilings.antt =====
-- internal/why/chain.go: the ceilings behind a verdict that the child is no wider.
use behalf.Prelude.{
  ◌≡◌, refl, sym, ap, ◌∙◌, subst, ◌≢◌, inl, inr, Bool, true, false, Option, none, some, List, [],
  ◌∷◌, if◌then◌else◌, Bool-cases, some_inj, Bytes, eqb, eqb_iff, Dict,
}
use mathlib.Core.List.{Memᴰ}
use mathlib.Core.List.Memᴰ
use Prim.Native.Nat.{Ordering}
use behalf.Why.Grant.{Rational, Limit, Grant, decimal, limit_for}
use behalf.Why.Compare.{
  unknown, broadened, answer, continue, all_actions, sort, insert_sorted, before, sorted_actions,
  compare_amounts, compare_limits, check_limit, check_limits, compare_v1,
}
use behalf.Why.Compare.Answers.{Narrowed, then_with-continue}
use behalf.Why.Compare.Narrows.{compare_v1-Passed, mem-Memᴰ, lookup-Memᴰ}
use behalf.Why.Scope.Least.{States, AtMost, limit_for-stated}
use behalf.Why.Compare.Sets.{Granted, action_set-Granted}

Memᴰ-insert_sorted : (a b : Bytes) (s : List Bytes) → Memᴰ a (b ∷ s) → Memᴰ a (insert_sorted b s)
unfolding insert_sorted
Memᴰ-insert_sorted a b [] m = m
Memᴰ-insert_sorted a b (c ∷ s) m = go (before b c) (Memᴰ-insert_sorted a b s) m
  where
    go :
        (first : Bool)
        → (Memᴰ a (b ∷ s) → Memᴰ a (insert_sorted b s))
        → Memᴰ a (b ∷ c ∷ s)
        → Memᴰ a (if first then b ∷ c ∷ s else c ∷ insert_sorted b s)
    go true below m = m
    go false below (Memᴰ.head e) = Memᴰ.tail (below (Memᴰ.head e))
    go false below (Memᴰ.tail (Memᴰ.head e)) = Memᴰ.head e
    go false below (Memᴰ.tail (Memᴰ.tail m)) = Memᴰ.tail (below (Memᴰ.tail m))

pub Memᴰ-sort : (a : Bytes) (s : List Bytes) → Memᴰ a s → Memᴰ a (sort s)
unfolding sort
Memᴰ-sort a [] m = m
Memᴰ-sort a (b ∷ s) (Memᴰ.head e) = Memᴰ-insert_sorted a b (sort s) (Memᴰ.head e)
Memᴰ-sort a (b ∷ s) (Memᴰ.tail m) = Memᴰ-insert_sorted a b (sort s) (Memᴰ.tail (Memᴰ-sort a s m))

Memᴰ-all_actions :
    (t a : Bytes) (s : List Bytes) (m : Dict (List Bytes))
    → Memᴰ (t, s) m
    → Memᴰ a s
    → Memᴰ a (all_actions m)
unfolding all_actions
Memᴰ-all_actions t a s [] at h = elim at [ ]
Memᴰ-all_actions t a s ((k, v) ∷ m) (Memᴰ.head e) h =
    Memᴰ.append_left (all_actions m) (subst (Memᴰ a) (ap (λ x. x.1) e) h)
Memᴰ-all_actions t a s ((k, v) ∷ m) (Memᴰ.tail at) h =
    Memᴰ.append_right v (Memᴰ-all_actions t a s m at h)

module _ {Q : Type 0} (rat : Rational Q) where
  -- The ceiling is in the parent's currency, and its amount is not above the parent's.
  pub record Tightens (pl cl : Limit) : Type 0 where
    pub value : Q
    pub allowed : Q
    pub currency : cl.currency ≡ pl.currency
    pub value_at : decimal rat cl.amount ≡ some value
    pub allowed_at : decimal rat pl.amount ≡ some allowed
    pub not_above : rat.cmp value allowed ≢ Ordering.gt

  compare_amounts-Tightens :
      (pl cl : Limit) (cv pv : Option Q) (b n : Bool)
      → cl.currency ≡ pl.currency
      → decimal rat cl.amount ≡ cv
      → decimal rat pl.amount ≡ pv
      → compare_amounts rat cv pv b ≡ continue n
      → Tightens pl cl
  compare_amounts-Tightens pl cl none pv b n same ec ep e = absurd (unfold compare_amounts in cc e)
  compare_amounts-Tightens pl cl (some cv) none b n same ec ep e =
      absurd (unfold compare_amounts in cc e)
  compare_amounts-Tightens pl cl (some cv) (some pv) b n same ec ep e = record {
    value = cv;
    allowed = pv;
    currency = same;
    value_at = ec;
    allowed_at = ep;
    not_above = go (rat.cmp cv pv) (unfold compare_amounts in e);
  }
    where
      go :
          (o : Ordering)
          → elim o [
            | Ordering.gt ↦ answer broadened
            | Ordering.lt ↦ continue true
            | Ordering.eq ↦ continue b
          ]
            ≡ continue n
          → o ≢ Ordering.gt
      go Ordering.gt e is = cc e
      go Ordering.lt e is = cc is
      go Ordering.eq e is = cc is

  check_limit-Tightens :
      (pl : Limit) (c : Option (Option Limit)) (b n : Bool)
      → check_limit rat (some (some pl)) c b ≡ continue n
      → (cl : Limit) × (c ≡ some (some cl)) × Tightens pl cl
  unfolding check_limit compare_limits
  check_limit-Tightens pl none b n e = absurd (cc e)
  check_limit-Tightens pl (some none) b n e = absurd (cc e)
  check_limit-Tightens pl (some (some cl)) b n e = elim (Bool-cases (eqb pl.currency cl.currency)) [
    | inl same ↦ (
      cl,
      refl,
      compare_amounts-Tightens pl cl (decimal rat cl.amount) (decimal rat pl.amount) b n
          (sym ((eqb_iff pl.currency cl.currency).0 same)) refl refl
          (sym (
              ap
                (λ x.
                  if x
                  then compare_amounts rat (decimal rat cl.amount) (decimal rat pl.amount) b
                  else answer unknown)
                same)
            ∙ e),
    )
    | inr other ↦ absurd (
        cc (
          sym (
            ap
              (λ x.
                if x
                then compare_amounts rat (decimal rat cl.amount) (decimal rat pl.amount) b
                else answer unknown)
              other)
          ∙ e))
  ]

  check_limits-at :
      (parent child : List Grant) (actions : List Bytes) (b n : Bool) (a : Bytes)
      → check_limits rat parent child actions b ≡ continue n
      → Memᴰ a actions
      → (before_it after_it : Bool) × (check_limit rat
            (limit_for rat parent a)
            (limit_for rat child a)
            before_it
          ≡ continue after_it)
  unfolding check_limits
  check_limits-at parent child [] b n a e m = elim m [ ]
  check_limits-at parent child (x ∷ actions) b n a e m =
      let step =
        then_with-continue (check_limit rat (limit_for rat parent x) (limit_for rat child x) b)
          (λ k. check_limits rat parent child actions k) n e in
      elim m [
        | Memᴰ.head is ↦ (
          b,
          step.0,
          ap (λ y. check_limit rat (limit_for rat parent y) (limit_for rat child y) b) is ∙ step.1,
        )
        | Memᴰ.tail later ↦ check_limits-at parent child actions step.0 n a step.2 later
      ]

  -- A ceiling that the parent states is kept: the child's grants have one that is not above it in amount,
  -- in the currency of the parent's least.
  pub record Capped (parent child : List Grant) (a : Bytes) (l : Limit) : Type 0 where
    pub ceiling : Limit
    pub value : Q
    pub allowed : Q
    pub found : limit_for rat child a ≡ some (some ceiling)
    pub value_at : decimal rat ceiling.amount ≡ some value
    pub allowed_at : decimal rat l.amount ≡ some allowed
    pub not_above : rat.cmp value allowed ≢ Ordering.gt
    pub least : Limit
    pub least_at : limit_for rat parent a ≡ some (some least)
    pub currency : ceiling.currency ≡ least.currency

  -- Where an action is not answered, both sides' ceilings have been read.
  check_limit-read :
      (pa ca : Option (Option Limit)) (b n : Bool)
      → check_limit rat pa ca b ≡ continue n
      → (t : Option Limit) × (pa ≡ some t)
  unfolding check_limit
  check_limit-read none none b n e = absurd (cc e)
  check_limit-read none (some c) b n e = absurd (cc e)
  check_limit-read (some t) ca b n e = (t, refl)

  Capped-least :
      (parent child : List Grant) (a : Bytes) (l : Limit) (t : Option Limit)
      → limit_for rat parent a ≡ some t
      → States parent a l
      → ((pl : Limit)
          → limit_for rat parent a ≡ some (some pl)
          → (cl : Limit) × (limit_for rat child a ≡ some (some cl)) × Tightens pl cl)
      → Capped parent child a l
  Capped-least parent child a l none at states next =
      absurd (unfold AtMost in (limit_for-stated rat parent a none l at states).2)
  Capped-least parent child a l (some pl) at states next =
      let (cl, found, tight) = next pl at in
      let (q, q_at, below) = limit_for-stated rat parent a (some pl) l at states in
      let (v, v_at, le) : (v : Q) × (decimal rat pl.amount ≡ some v) × (rat.cmp v q ≢ Ordering.gt) =
        unfold AtMost in below in
      record {
        ceiling = cl;
        value = tight.value;
        allowed = q;
        found = found;
        value_at = tight.value_at;
        allowed_at = q_at;
        not_above =
            rat.cmp_trans tight.value v q
              (subst (λ x. rat.cmp tight.value x ≢ Ordering.gt)
                (some_inj (sym tight.allowed_at ∙ v_at)) tight.not_above)
              le;
        least = pl;
        least_at = at;
        currency = tight.currency;
      }

  module _ (order : Dict (List Bytes) → Dict (List Bytes))
      (set_order : List Bytes → List Bytes) where
    at_action :
        ((m : Dict (List Bytes)) (e : Bytes × List Bytes) → Memᴰ e m → Memᴰ e (order m))
        → (parent child : List Grant) (t a : Bytes)
        → Narrowed (compare_v1 rat order set_order parent child)
        → Granted child t a
        → (before_it after_it : Bool) × (check_limit rat
              (limit_for rat parent a)
              (limit_for rat child a)
              before_it
            ≡ continue after_it)
    at_action all_types parent child t a narrowed granted =
        let p = compare_v1-Passed rat order set_order parent child narrowed in
        let (s, at, held) = (action_set-Granted child p.children t a p.children_at).1 granted in
        let listed = all_types p.children (t, s) (lookup-Memᴰ t s p.children at) in
        check_limits-at parent child (sorted_actions (order p.children)) _ p.at_end a p.limits (
          unfold sorted_actions in
          Memᴰ-sort a (all_actions (order p.children))
            (Memᴰ-all_actions t a s (order p.children) listed (mem-Memᴰ a s held)))

    -- Where the comparison finds a child unchanged or attenuated, and a privilege of the parent states a
    -- ceiling on an action that the child's grants name, the child's grants have a ceiling on it whose
    -- amount is not above that one's, currencies apart, and which is in the currency of the parent's
    -- least ceiling on it, if the order passes over no entry.
    pub compare_v1-Tightens :
        ((m : Dict (List Bytes)) (e : Bytes × List Bytes) → Memᴰ e m → Memᴰ e (order m))
        → (parent child : List Grant) (t a : Bytes) (l : Limit)
        → Narrowed (compare_v1 rat order set_order parent child)
        → Granted child t a
        → States parent a l
        → Capped parent child a l
    compare_v1-Tightens all_types parent child t a l narrowed granted states =
        let (b, n, passed) = at_action all_types parent child t a narrowed granted in
        let (t', at) =
          check_limit-read (limit_for rat parent a) (limit_for rat child a) b n passed in
        Capped-least parent child a l t' at states (λ pl at_parent.
          check_limit-Tightens pl (limit_for rat child a) b n
            (ap (λ x. check_limit rat x (limit_for rat child a) b) (sym at_parent) ∙ passed))
