-- ===== src/Why/Scope/Least.antt =====
-- internal/why/chain.go: the ceiling that `limitFor` returns, among those that the grants state.
use behalf.Prelude.{
  ◌≡◌, refl, sym, ap, ◌∙◌, subst, ◌≢◌, ◌⊎◌, inl, inr, Bool, true, false, Option, none, some, List,
  [], ◌∷◌, if◌then◌else◌, some_inj, Bytes, eqb, eqb_iff,
}
use mathlib.Core.List.{Memᴰ}
use Prim.Native.Nat.{Ordering}
use behalf.Why.Grant.{
  Rational, Limit, Grant, Privilege, decimal, limit_for, limit_in, limit_from, tighter,
  next_tightest,
}
use behalf.Why.Scope.Ceilings.{Readable, Readable-next}

-- A privilege of one of the grants states the ceiling on the operation.
pub record States (grants : List Grant) (operation : Bytes) (l : Limit) : Type 0 where
  pub grant : Grant
  pub privilege : Privilege
  pub granted : Memᴰ grant grants
  pub held : Memᴰ privilege grant.privileges
  pub on : privilege.operation ≡ operation
  pub limited : privilege.limit ≡ some l

module _ {Q : Type 0} (rat : Rational Q) where
  -- There is a ceiling, and its amount is not above the number.
  unfoldable pub AtMost : Option Limit → Q → Type 0
  AtMost none q = ⊥
  AtMost (some l) q = (v : Q) × (decimal rat l.amount ≡ some v) × (rat.cmp v q ≢ Ordering.gt)

  AtMost-lower : (t : Option Limit) (q r : Q) → AtMost t q → rat.cmp q r ≢ Ordering.gt → AtMost t r
  unfolding AtMost
  AtMost-lower none q r h le = h
  AtMost-lower (some l) q r (v, at, below) le = (v, at, rat.cmp_trans v q r below le)

  tighter-least :
      (cur l : Limit) (r c : Q)
      → decimal rat cur.amount ≡ some c
      → decimal rat l.amount ≡ some r
      → AtMost (some (tighter rat (some c) r cur l)) r
        × AtMost (some (tighter rat (some c) r cur l)) c
  unfolding tighter
  tighter-least cur l r c cur_at at = go (rat.cmp r c) refl
    where
      go :
          (o : Ordering)
          → rat.cmp r c ≡ o
          → AtMost (some (elim o [ Ordering.lt ↦ l | _ ↦ cur ])) r
            × AtMost (some (elim o [ Ordering.lt ↦ l | _ ↦ cur ])) c
      go Ordering.lt is =
          unfold AtMost in ((r, at, rat.cmp_refl r), (r, at, λ gt. absurd (cc (is, gt))))
      go Ordering.eq is =
          unfold AtMost in
          ((c, cur_at, rat.cmp_total r c (λ lt. absurd (cc (is, lt)))), (c, cur_at, rat.cmp_refl c))
      go Ordering.gt is =
          unfold AtMost in
          ((c, cur_at, rat.cmp_total r c (λ lt. absurd (cc (is, lt)))), (c, cur_at, rat.cmp_refl c))

  -- The next tightest ceiling is at most the new one, and at most what the one before was.
  next_tightest-least :
      (t : Option Limit) (l : Limit) (r : Q)
      → Readable rat t
      → decimal rat l.amount ≡ some r
      → AtMost (next_tightest rat t r l) r
        × ((q : Q) → AtMost t q → AtMost (next_tightest rat t r l) q)
  unfolding next_tightest
  next_tightest-least none l r h at =
      (unfold AtMost in (r, at, rat.cmp_refl r), λ q below. absurd (unfold AtMost in below))
  next_tightest-least (some cur) l r h at =
      let (c, cur_at) : (c : Q) × (decimal rat cur.amount ≡ some c) = unfold Readable in h in
      let both = tighter-least cur l r c cur_at at in
      let same : some (tighter rat (decimal rat cur.amount) r cur l)
          ≡ some (tighter rat (some c) r cur l) =
        ap (λ d. some (tighter rat d r cur l)) cur_at in
      (
        subst (λ x. AtMost x r) (sym same) both.0,
        λ q below.
            let (v, v_at, le) : (v : Q) × (decimal rat cur.amount ≡ some v)
                × (rat.cmp v q ≢ Ordering.gt) =
              unfold AtMost in below in
            subst (λ x. AtMost x q) (sym same)
              (AtMost-lower (some (tighter rat (some c) r cur l)) c q both.1
                (subst (λ x. rat.cmp x q ≢ Ordering.gt) (some_inj (sym v_at ∙ cur_at)) le)),
      )

  -- What one privilege does to the ceiling so far.
  Step : Privilege → Bytes → Option Limit → Option Limit → Type 0
  Step p operation t t1 =
      ((t1 ≡ t) × ((l : Limit) → p.operation ≡ operation → p.limit ≡ some l → ⊥))
      ⊎ ((l : Limit) × (r : Q) × (p.limit ≡ some l)
          × (decimal rat l.amount ≡ some r)
          × (t1 ≡ next_tightest rat t r l))

  limit_in-Step :
      (p : Privilege) (ps : List Privilege) (operation : Bytes) (t t' : Option Limit)
      → limit_in rat (p ∷ ps) operation t ≡ some t'
      → (t1 : Option Limit) × (limit_in rat ps operation t1 ≡ some t') × Step p operation t t1
  unfolding limit_in Step
  limit_in-Step p ps operation t t' e = go (eqb p.operation operation) refl p.limit refl e
    where
      read :
          (l : Limit) (d : Option Q)
          → p.limit ≡ some l
          → decimal rat l.amount ≡ d
          → elim d [ none ↦ none | some r ↦ limit_in rat ps operation (next_tightest rat t r l) ]
            ≡ some t'
          → (t1 : Option Limit) × (limit_in rat ps operation t1 ≡ some t') × Step p operation t t1
      read l none has at e = absurd (cc e)
      read l (some r) has at e = (next_tightest rat t r l, e, inr (l, r, has, at, refl))

      go :
          (same : Bool)
          → eqb p.operation operation ≡ same
          → (limit : Option Limit) → p.limit ≡ limit
          → (if same
              then elim limit [
                | none ↦ limit_in rat ps operation t
                | some l ↦ elim (decimal rat l.amount) [
                  | none ↦ none
                  | some r ↦ limit_in rat ps operation (next_tightest rat t r l)
                ]
              ]
              else limit_in rat ps operation t)
            ≡ some t'
          → (t1 : Option Limit) × (limit_in rat ps operation t1 ≡ some t') × Step p operation t t1
      go false other limit has e =
          (t, e, inl (refl, λ l on h. cc ((eqb_iff p.operation operation).1 on, other)))
      go true same none has e = (t, e, inl (refl, λ l on h. cc (has, h)))
      go true same (some l) has e = read l (decimal rat l.amount) has refl e

  Step-Readable :
      (p : Privilege) (operation : Bytes) (t t1 : Option Limit)
      → Step p operation t t1
      → Readable rat t
      → Readable rat t1 × ((q : Q) → AtMost t q → AtMost t1 q)
  unfolding Step
  Step-Readable p operation t t1 (inl (same, skipped)) h =
      (subst (Readable rat) (sym same) h, λ q below. subst (λ x. AtMost x q) (sym same) below)
  Step-Readable p operation t t1 (inr (l, r, has, at, same)) h = (
    subst (Readable rat) (sym same) (Readable-next rat t l r h at),
    λ q below. subst (λ x. AtMost x q) (sym same) ((next_tightest-least t l r h at).1 q below),
  )

  -- What `limitFor` does with the privileges of a grant: the ceiling does not rise, and comes to lie at or
  -- below each that is stated.
  pub record Least (ps : List Privilege) (operation : Bytes) (t t' : Option Limit) : Type 0 where
    pub readable : Readable rat t'
    pub lower : (q : Q) → AtMost t q → AtMost t' q
    pub stated :
        (p : Privilege) (l : Limit)
        → Memᴰ p ps
        → p.operation ≡ operation
        → p.limit ≡ some l
        → (q : Q) × (decimal rat l.amount ≡ some q) × AtMost t' q

  limit_in-Least :
      (ps : List Privilege) (operation : Bytes) (t t' : Option Limit)
      → Readable rat t
      → limit_in rat ps operation t ≡ some t'
      → Least ps operation t t'
  limit_in-Least [] operation t t' h e =
      let same : t ≡ t' = unfold limit_in in some_inj e in
      record {
        readable = subst (Readable rat) same h;
        lower = λ q below. subst (λ x. AtMost x q) same below;
        stated = λ p l at on has. elim at [ ];
      }
  limit_in-Least (p ∷ ps) operation t t' h e =
      let (t1, rest, step) = limit_in-Step p ps operation t t' e in
      let (h1, lower1) = Step-Readable p operation t t1 step h in
      let later = limit_in-Least ps operation t1 t' h1 rest in
      record {
        readable = later.readable;
        lower = λ q below. later.lower q (lower1 q below);
        stated = λ x l at on has. elim at [
          | Memᴰ.tail m ↦ later.stated x l m on has
          | Memᴰ.head is ↦
              here t1 later.lower step l (ap (λ y. y.operation) (sym is) ∙ on)
                (ap (λ y. y.limit) (sym is) ∙ has)
        ];
      }
    where
      here :
          (t1 : Option Limit)
          → ((q : Q) → AtMost t1 q → AtMost t' q)
          → Step p operation t t1
          → (l : Limit) → p.operation ≡ operation
          → p.limit ≡ some l
          → (q : Q) × (decimal rat l.amount ≡ some q) × AtMost t' q
      here t1 lower step l on has = case (unfold Step in step)
        where
          case :
              ((t1 ≡ t) × ((l' : Limit) → p.operation ≡ operation → p.limit ≡ some l' → ⊥))
                ⊎ ((l' : Limit) × (r : Q) × (p.limit ≡ some l')
                    × (decimal rat l'.amount ≡ some r)
                    × (t1 ≡ next_tightest rat t r l'))
              → (q : Q) × (decimal rat l.amount ≡ some q) × AtMost t' q
          case (inl (same, skipped)) = absurd (skipped l on has)
          case (inr (l', r, has', at, same)) = (
            r,
            ap (λ x. decimal rat x.amount) (some_inj (sym has ∙ has')) ∙ at,
            lower r (subst (λ x. AtMost x r) (sym same) (next_tightest-least t l' r h at).0),
          )

  limit_from-cons :
      (g : Grant) (grants : List Grant) (operation : Bytes) (t t' : Option Limit)
      → limit_from rat (g ∷ grants) operation t ≡ some t'
      → (t1 : Option Limit) × (limit_in rat g.privileges operation t ≡ some t1)
        × (limit_from rat grants operation t1 ≡ some t')
  unfolding limit_from
  limit_from-cons g grants operation t t' e = go (limit_in rat g.privileges operation t) refl e
    where
      go :
          (o : Option (Option Limit))
          → limit_in rat g.privileges operation t ≡ o
          → elim o [ none ↦ none | some x ↦ limit_from rat grants operation x ] ≡ some t'
          → (t1 : Option Limit) × (limit_in rat g.privileges operation t ≡ some t1)
            × (limit_from rat grants operation t1 ≡ some t')
      go none at e = absurd (cc e)
      go (some x) at e = (x, at, e)

  limit_from-lower :
      (grants : List Grant) (operation : Bytes) (t t' : Option Limit) (q : Q)
      → Readable rat t
      → limit_from rat grants operation t ≡ some t'
      → AtMost t q
      → AtMost t' q
  limit_from-lower [] operation t t' q h e below =
      let same : t ≡ t' = unfold limit_from in some_inj e in subst (λ x. AtMost x q) same below
  limit_from-lower (g ∷ grants) operation t t' q h e below =
      let (t1, here, rest) = limit_from-cons g grants operation t t' e in
      let least = limit_in-Least g.privileges operation t t1 h here in
      limit_from-lower grants operation t1 t' q least.readable rest (least.lower q below)

  limit_from-stated :
      (grants : List Grant) (operation : Bytes) (t t' : Option Limit) (g : Grant) (p : Privilege)
      (l : Limit)
      → Readable rat t
      → limit_from rat grants operation t ≡ some t'
      → Memᴰ g grants
      → Memᴰ p g.privileges
      → p.operation ≡ operation
      → p.limit ≡ some l
      → (q : Q) × (decimal rat l.amount ≡ some q) × AtMost t' q
  limit_from-stated [] operation t t' g p l h e m held on has = elim m [ ]
  limit_from-stated (x ∷ grants) operation t t' g p l h e m held on has =
      let (t1, here, rest) = limit_from-cons x grants operation t t' e in
      let least = limit_in-Least x.privileges operation t t1 h here in
      elim m [
        | Memᴰ.tail later ↦
            limit_from-stated grants operation t1 t' g p l least.readable rest later held on has
        | Memᴰ.head is ↦
            let (q, at, below) =
              least.stated p l (subst (λ y. Memᴰ p y.privileges) is held) on has in
            (q, at, limit_from-lower grants operation t1 t' q least.readable rest below)
      ]

  -- The ceiling that `limitFor` returns is not above any that a grant states on the operation.
  pub limit_for-stated :
      (grants : List Grant) (operation : Bytes) (t : Option Limit) (l : Limit)
      → limit_for rat grants operation ≡ some t
      → States grants operation l
      → (q : Q) × (decimal rat l.amount ≡ some q) × AtMost t q
  unfolding limit_for
  limit_for-stated grants operation t l e s =
      limit_from-stated grants operation none t s.grant s.privilege l (unfold Readable in tt) e
        s.granted s.held s.on s.limited
