-- ===== src/Why/Compare/Narrows.antt =====
-- internal/why/chain.go: the actions behind a verdict that the child is no wider.
use behalf.Prelude.{
  ◌≡◌, refl, sym, ap, ◌∙◌, subst, inl, inr, Bool, true, false, ◌||◌, Option, none, some, List, [],
  ◌∷◌, arith, ltb, Bool-cases, length, some_inj, Bytes, eqb, eqb_iff, Dict, lookup,
}
use mathlib.Core.List.{Memᴰ}
use behalf.Aat.Result.{Attenuation}
use behalf.Why.Grant.{Rational, Grant, ActionSet, comparable, uncomparable, mem, action_set}
use behalf.Why.Compare.{
  answer, continue, then_with, check_action, check_actions, check_type, check_types, dropped_type,
  all_actions, sorted_actions, check_limits, compare_sets, compare_v1,
}
use behalf.Why.Compare.Answers.{
  Narrowed, Wider, Wider-unknown, Wider-then_with, Wider-check_types, Wider-check_limits,
  conclude-continue, then_with-continue,
}
use behalf.Why.Compare.Sets.{Granted, action_set-Granted}

pub mem-Memᴰ : (a : Bytes) (s : List Bytes) → mem a s ≡ true → Memᴰ a s
mem-Memᴰ a [] e = unfold mem in absurd (cc e)
mem-Memᴰ a (b ∷ s) e = elim (Bool-cases (eqb b a)) [
  | inl same ↦ Memᴰ.head (sym ((eqb_iff b a).0 same))
  | inr other ↦ Memᴰ.tail (mem-Memᴰ a s (sym (ap (λ x. x || mem a s) other) ∙ sym mem_cons ∙ e))
]
  where
    mem_cons : mem a (b ∷ s) ≡ (eqb b a || mem a s)
    mem_cons = unfold mem in refl

pub lookup-Memᴰ :
    (t : Bytes) (v : List Bytes) (m : Dict (List Bytes)) → lookup t m ≡ some v → Memᴰ (t, v) m
lookup-Memᴰ t v [] e = unfold lookup in absurd (cc e)
lookup-Memᴰ t v ((k, w) ∷ m) e = elim (Bool-cases (eqb k t)) [
  | inl same ↦
      let at_k : k ≡ t = (eqb_iff k t).0 same in
      let is_v : w ≡ v = some_inj (sym (at_head same) ∙ e) in
      Memᴰ.head (sym (ap (λ x. (x, w)) at_k ∙ ap (λ x. (t, x)) is_v))
  | inr other ↦ Memᴰ.tail (lookup-Memᴰ t v m (sym (past_head other) ∙ e))
]
  where
    at_head : eqb k t ≡ true → lookup t ((k, w) ∷ m) ≡ some w
    at_head same = unfold lookup in rw same

    past_head : eqb k t ≡ false → lookup t ((k, w) ∷ m) ≡ lookup t m
    past_head other = unfold lookup in rw other

first_none :
    (x y : Option Attenuation)
    → elim x [ none ↦ y | some att ↦ some att ] ≡ none
    → (x ≡ none) × (y ≡ none)
first_none none y e = (refl, e)
first_none (some att) y e = absurd (cc e)

check_actions-cons :
    (set_order : List Bytes → List Bytes) (pa actions : List Bytes) (b : Bytes)
    → check_actions set_order pa (b ∷ actions) ≡ none
    → (check_action set_order pa b ≡ none) × (check_actions set_order pa actions ≡ none)
check_actions-cons set_order pa actions b e = first_none _ _ (unfold check_actions in e)

check_action-mem :
    (set_order : List Bytes → List Bytes) (pa : List Bytes) (b : Bytes)
    → check_action set_order pa b ≡ none
    → mem b pa ≡ true
unfolding check_action
check_action-mem set_order pa b e = ground arith

check_actions-mem :
    (set_order : List Bytes → List Bytes) (pa actions : List Bytes) (a : Bytes)
    → check_actions set_order pa actions ≡ none
    → Memᴰ a actions
    → mem a pa ≡ true
check_actions-mem set_order pa [] a e at = elim at [ ]
check_actions-mem set_order pa (b ∷ actions) a e (Memᴰ.head is_b) =
    subst (λ x. mem x pa ≡ true) (sym is_b)
      (check_action-mem set_order pa b (check_actions-cons set_order pa actions b e).0)
check_actions-mem set_order pa (b ∷ actions) a e (Memᴰ.tail at) =
    check_actions-mem set_order pa actions a (check_actions-cons set_order pa actions b e).1 at

check_type-continue :
    (set_order : List Bytes → List Bytes) (o : Option (List Bytes)) (actions : List Bytes)
    (b n : Bool)
    → check_type set_order o actions b ≡ continue n
    → (pa : List Bytes) × (o ≡ some pa) × (check_actions set_order pa (set_order actions) ≡ none)
check_type-continue set_order none actions b n e = unfold check_type in absurd (cc e)
check_type-continue set_order (some pa) actions b n e =
    (pa, refl, go (check_actions set_order pa (set_order actions)) refl (unfold check_type in e))
  where
    go :
        (c : Option Attenuation)
        → check_actions set_order pa (set_order actions) ≡ c
        → elim c [ none ↦ continue (b || ltb (length actions) (length pa)) | some att ↦ answer att ]
          ≡ continue n
        → check_actions set_order pa (set_order actions) ≡ none
    go none at e = at
    go (some att) at e = absurd (cc e)

check_types-cons :
    (set_order : List Bytes → List Bytes) (parent child : Dict (List Bytes)) (k : Bytes)
    (v : List Bytes) (b n : Bool)
    → check_types set_order parent ((k, v) ∷ child) b ≡ continue n
    → (m : Bool) × (check_type set_order (lookup k parent) v b ≡ continue m)
      × (check_types set_order parent child m ≡ continue n)
unfolding check_types
check_types-cons set_order parent child k v b n e =
    then_with-continue (check_type set_order (lookup k parent) v b)
      (λ m. check_types set_order parent child m) n e

check_types-continue :
    (set_order : List Bytes → List Bytes) (parent child : Dict (List Bytes)) (b n : Bool)
    → check_types set_order parent child b ≡ continue n
    → (t : Bytes) (actions : List Bytes) → Memᴰ (t, actions) child
    → (pa : List Bytes) × (lookup t parent ≡ some pa)
      × (check_actions set_order pa (set_order actions) ≡ none)
check_types-continue set_order parent [] b n e t actions at = elim at [ ]
check_types-continue set_order parent ((k, v) ∷ child) b n e t actions (Memᴰ.head is_k) =
    let step = check_types-cons set_order parent child k v b n e in
    let found = check_type-continue set_order (lookup k parent) v b step.0 step.1 in
    (
      found.0,
      ap (λ x. lookup x.0 parent) is_k ∙ found.1,
      ap (λ x. check_actions set_order found.0 (set_order x.1)) is_k ∙ found.2,
    )
check_types-continue set_order parent ((k, v) ∷ child) b n e t actions (Memᴰ.tail at) =
    let step = check_types-cons set_order parent child k v b n e in
    check_types-continue set_order parent child step.0 n step.2 t actions at

module _ {Q : Type 0} (rat : Rational Q) (order : Dict (List Bytes) → Dict (List Bytes))
    (set_order : List Bytes → List Bytes) where
  -- What a comparison has passed through, when it answers that the child is no wider.
  pub record Passed (parent child : List Grant) : Type 0 where
    pub parents : Dict (List Bytes)
    pub children : Dict (List Bytes)
    pub narrowed : Bool
    pub at_end : Bool
    pub parents_at : action_set parent ≡ comparable parents
    pub children_at : action_set child ≡ comparable children
    pub types : check_types set_order parents (order children) false ≡ continue narrowed
    pub limits :
        check_limits rat parent child
          (sorted_actions (order children))
          (narrowed || dropped_type parents children)
        ≡ continue at_end

  compare_sets-Passed :
      (parent child : List Grant) (p c : ActionSet)
      → action_set parent ≡ p
      → action_set child ≡ c
      → Narrowed (compare_sets rat order set_order parent child p c)
      → Passed parent child
  unfolding compare_sets
  compare_sets-Passed parent child (uncomparable r) c ep ec h =
      absurd (unfold Wider in Wider-unknown h)
  compare_sets-Passed parent child (comparable pa) (uncomparable r) ep ec h =
      absurd (unfold Wider in Wider-unknown h)
  compare_sets-Passed parent child (comparable pa) (comparable ca) ep ec h =
      let next = λ (n : Bool).
        check_limits rat parent child (sorted_actions (order ca)) (n || dropped_type pa ca) in
      let types = check_types set_order pa (order ca) false in
      let done =
        conclude-continue rat (then_with types next)
          (Wider-then_with types next (Wider-check_types set_order pa (order ca) false) (λ n.
            Wider-check_limits rat parent child (sorted_actions (order ca))
              (n || dropped_type pa ca)))
          h in
      let step = then_with-continue types next done.0 done.1 in
      record {
        parents = pa;
        children = ca;
        narrowed = step.0;
        at_end = done.0;
        parents_at = ep;
        children_at = ec;
        types = step.1;
        limits = step.2;
      }

  pub compare_v1-Passed :
      (parent child : List Grant)
      → Narrowed (compare_v1 rat order set_order parent child)
      → Passed parent child
  unfolding compare_v1
  compare_v1-Passed [] child h = absurd (unfold Wider in Wider-unknown h)
  compare_v1-Passed (p ∷ parent) [] h = absurd (unfold Wider in Wider-unknown h)
  compare_v1-Passed (p ∷ parent) (c ∷ child) h =
      compare_sets-Passed (p ∷ parent) (c ∷ child) (action_set (p ∷ parent))
        (action_set (c ∷ child)) refl refl h

  -- A child that the comparison finds unchanged or attenuated grants only actions that the parent
  -- grants under the same type, if both orders pass over no entry.
  pub compare_v1-Granted :
      ((m : Dict (List Bytes)) (e : Bytes × List Bytes) → Memᴰ e m → Memᴰ e (order m))
      → ((s : List Bytes) (a : Bytes) → Memᴰ a s → Memᴰ a (set_order s))
      → (parent child : List Grant) (t a : Bytes)
      → Narrowed (compare_v1 rat order set_order parent child)
      → Granted child t a
      → Granted parent t a
  compare_v1-Granted all_types all_actions parent child t a narrowed granted =
      let p = compare_v1-Passed parent child narrowed in
      let (s, at, held) = (action_set-Granted child p.children t a p.children_at).1 granted in
      let listed = all_types p.children (t, s) (lookup-Memᴰ t s p.children at) in
      let (pa, at_parent, passed) =
        check_types-continue set_order p.parents (order p.children) false p.narrowed p.types t s
          listed in
      let in_pa =
        check_actions-mem set_order pa (set_order s) a passed
          (all_actions s a (mem-Memᴰ a s held)) in
      (action_set-Granted parent p.parents t a p.parents_at).0 (pa, at_parent, in_pa)
