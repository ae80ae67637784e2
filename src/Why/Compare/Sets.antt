-- ===== src/Why/Compare/Sets.antt =====
-- internal/why/chain.go: the members of an action set.
use behalf.Prelude.{
  ◌≡◌, refl, sym, ap, ◌∙◌, subst, ◌↔◌, ◌⊎◌, inl, inr, Bool, true, false, ◌||◌, Option, none, some,
  List, [], ◌∷◌, arith, if◌then◌else◌, Bool-cases, some_inj, Bytes, eqb, eqb_iff, Dict, lookup,
  insert, lookup-insert,
}
use behalf.Why.Grant.{
  Grant, comparable, mem, add_member, add_members, members_of, action_set_from, action_set,
}

-- Some grant of the type names the action.
abbrev pub Granted : List Grant → Bytes → Bytes → Type 0
Granted [] t a = ⊥
Granted (g ∷ grants) t a = ((g.type ≡ t) × (mem a g.actions ≡ true)) ⊎ Granted grants t a

-- The map holds the action under the type.
abbrev pub Has : Dict (List Bytes) → Bytes → Bytes → Type 0
Has m t a = (s : List Bytes) × (lookup t m ≡ some s) × (mem a s ≡ true)

mem-add_member : (a b : Bytes) (s : List Bytes) → mem a (add_member b s) ≡ (eqb b a || mem a s)
unfolding mem add_member
mem-add_member a b s = elim (Bool-cases (eqb b a)) [
  | inl same ↦ let e : b ≡ a = (eqb_iff b a).0 same in ground (arith, ap (λ x. mem x s) e)
  | inr other ↦ ground arith
]

mem-add_members :
    (a : Bytes) (actions s : List Bytes)
    → mem a (add_members actions s) ≡ (mem a actions || mem a s)
mem-add_members a [] s = unfold add_members mem in refl
mem-add_members a (b ∷ actions) s =
    unfold_step
    ∙ ground (arith, mem-add_members a actions (add_member b s), mem-add_member a b s, mem_cons)
  where
    mem_cons : mem a (b ∷ actions) ≡ (eqb b a || mem a actions)
    mem_cons = unfold mem in refl

    unfold_step : mem a (add_members (b ∷ actions) s) ≡ mem a (add_members actions (add_member b s))
    unfold_step = unfold add_members in refl

abbrev added : Grant → Dict (List Bytes) → Dict (List Bytes)
added g out = insert g.type (add_members g.actions (members_of (lookup g.type out))) out

action_set_from-cons :
    (g : Grant) (grants : List Grant) (out m : Dict (List Bytes))
    → action_set_from (g ∷ grants) out ≡ comparable m
    → action_set_from grants (added g out) ≡ comparable m
unfolding action_set_from
action_set_from-cons g grants out m e = ground arith

mem-members_of :
    (a t : Bytes) (m : Dict (List Bytes)) → mem a (members_of (lookup t m)) ≡ true → Has m t a
mem-members_of a t m e = go (lookup t m) refl e
  where
    go : (o : Option (List Bytes)) → lookup t m ≡ o → mem a (members_of o) ≡ true → Has m t a
    go none at e = unfold members_of mem in absurd (cc e)
    go (some s) at e = (s, at, unfold members_of in e)

lookup-added :
    (g : Grant) (out : Dict (List Bytes)) (t : Bytes)
    → lookup t (added g out) ≡ (
        if eqb g.type t
        then some (add_members g.actions (members_of (lookup g.type out)))
        else lookup t out)
lookup-added g out t =
    lookup-insert g.type t (add_members g.actions (members_of (lookup g.type out))) out

if_true : (x y : Option (List Bytes)) (b : Bool) → b ≡ true → (if b then x else y) ≡ x
if_true x y b e = rw e

if_false : (x y : Option (List Bytes)) (b : Bool) → b ≡ false → (if b then x else y) ≡ y
if_false x y b e = rw e

Has-added :
    (g : Grant) (out : Dict (List Bytes)) (t a : Bytes)
    → Has (added g out) t a
    → Has out t a ⊎ ((g.type ≡ t) × (mem a g.actions ≡ true))
Has-added g out t a (s, at, held) = elim (Bool-cases (eqb g.type t)) [
  | inr other ↦ inl (s, sym (lookup-added g out t ∙ if_false _ _ _ other) ∙ at, held)
  | inl same ↦
      let e : g.type ≡ t = (eqb_iff g.type t).0 same in
      let is_s : add_members g.actions (members_of (lookup g.type out)) ≡ s =
        some_inj (sym (lookup-added g out t ∙ if_true _ _ _ same) ∙ at) in
      let both : (mem a g.actions || mem a (members_of (lookup g.type out))) ≡ true =
        sym (mem-add_members a g.actions (members_of (lookup g.type out)))
        ∙ ap (mem a) is_s
        ∙ held in
      elim (Bool-cases (mem a g.actions)) [
        | inl new ↦ inr (e, new)
        | inr old ↦
            let before : mem a (members_of (lookup g.type out)) ≡ true = ground arith in
            inl (subst (λ x. Has out x a) e (mem-members_of a g.type out before))
      ]
]

added-Has :
    (g : Grant) (out : Dict (List Bytes)) (t a : Bytes)
    → Has out t a ⊎ ((g.type ≡ t) × (mem a g.actions ≡ true))
    → Has (added g out) t a
added-Has g out t a h = elim (Bool-cases (eqb g.type t)) [
  | inr other ↦ elim h [
    | inl old ↦ (old.0, lookup-added g out t ∙ rw other old.1, old.2)
    | inr new ↦ absurd (cc (other, (eqb_iff g.type t).1 new.0))
  ]
  | inl same ↦
      let e : g.type ≡ t = (eqb_iff g.type t).0 same in
      (
        add_members g.actions (members_of (lookup g.type out)),
        lookup-added g out t ∙ rw same,
        rw mem-add_members
            (elim h [ inr new ↦ ground (arith, new.1) | inl old ↦ held_before e old ]),
      )
]
  where
    held_before :
        g.type ≡ t
        → Has out t a
        → (mem a g.actions || mem a (members_of (lookup g.type out))) ≡ true
    held_before e old =
        let at_g : lookup g.type out ≡ some old.0 = ap (λ x. lookup x out) e ∙ old.1 in
        rw at_g (unfold members_of in ground (arith, old.2))

Has-action_set_from :
    (grants : List Grant) (out m : Dict (List Bytes)) (t a : Bytes)
    → action_set_from grants out ≡ comparable m
    → Has m t a
    → Has out t a ⊎ Granted grants t a
Has-action_set_from [] out m t a e h =
    inl (subst (λ x. Has x t a) (same_map (unfold action_set_from in e)) h)
  where
    same_map : comparable out ≡ comparable m → m ≡ out
    same_map e = cc
Has-action_set_from (g ∷ grants) out m t a e h =
    elim (Has-action_set_from grants (added g out) m t a (action_set_from-cons g grants out m e)
      h) [
        | inr later ↦ inr (inr later)
        | inl now ↦ elim (Has-added g out t a now) [ inl old ↦ inl old | inr new ↦ inr (inl new) ]
      ]

action_set_from-Has :
    (grants : List Grant) (out m : Dict (List Bytes)) (t a : Bytes)
    → action_set_from grants out ≡ comparable m
    → Has out t a ⊎ Granted grants t a
    → Has m t a
action_set_from-Has [] out m t a e h = elim h [
  | inl old ↦ subst (λ x. Has x t a) (same_map (unfold action_set_from in e)) old
  | inr none_left ↦ absurd none_left
]
  where
    same_map : comparable out ≡ comparable m → out ≡ m
    same_map e = cc
action_set_from-Has (g ∷ grants) out m t a e h =
    action_set_from-Has grants (added g out) m t a (action_set_from-cons g grants out m e) (elim h [
      | inl old ↦ inl (added-Has g out t a (inl old))
      | inr (inl new) ↦ inl (added-Has g out t a (inr new))
      | inr (inr later) ↦ inr later
    ])

-- The action set holds exactly the actions that the grants name, each under its grant's type.
pub action_set-Granted :
    (grants : List Grant) (m : Dict (List Bytes)) (t a : Bytes)
    → action_set grants ≡ comparable m
    → Has m t a ↔ Granted grants t a
unfolding action_set
action_set-Granted grants m t a e = (
  λ h. elim (Has-action_set_from grants [] m t a e h) [
    | inl old ↦ absurd (nothing old)
    | inr found ↦ found
  ],
  λ h. action_set_from-Has grants [] m t a e (inr h),
)
  where
    nothing : Has [] t a → ⊥
    nothing (s, at, held) = unfold lookup in cc at
