-- ===== src/Why/Scope/Allows.antt =====
-- internal/why/chain.go: the ceilings of the hops and the one that `CheckScope` compares with.
use behalf.Prelude.{
  ℕ, ◌≡◌, refl, sym, ap, ◌∙◌, subst, ◌≢◌, Bool, true, false, Option, none, some, List, [], ◌∷◌,
  if◌then◌else◌, some_inj, Bytes,
}
use mathlib.Core.List.{Memᴰ}
use Prim.Native.Nat.{Ordering}
use behalf.Why.Grant.{Rational, Limit, Grant, decimal, limit_for}
use behalf.Why.Scope.{
  comparator_version, ScopeExcess, lower_of, fold_limit, tightest_from, exceeds, excess_over,
  check_scope,
}
use behalf.Why.Scope.Ceilings.{Readable, Readable-limit_for}

module _ {Q : Type 0} (rat : Rational Q) where
  -- There is a ceiling, and it is not above `q`.
  AtMost : Q → Option Limit → Type 0
  AtMost q none = ⊥
  AtMost q (some l) = (v : Q) × (decimal rat l.amount ≡ some v) × (rat.cmp v q ≢ Ordering.gt)

  AtMost-lower_of :
      (t l : Limit) (lv tv : Q)
      → decimal rat l.amount ≡ some lv
      → decimal rat t.amount ≡ some tv
      → Readable rat (some (lower_of rat (some lv) (some tv) t l))
        × ((q : Q)
            → rat.cmp tv q ≢ Ordering.gt
            → AtMost q (some (lower_of rat (some lv) (some tv) t l)))
        × AtMost lv (some (lower_of rat (some lv) (some tv) t l))
  unfolding lower_of Readable AtMost
  AtMost-lower_of t l lv tv at_l at_t = go (rat.cmp lv tv) refl
    where
      pick : Ordering → Limit
      pick o = elim o [ Ordering.lt ↦ l | _ ↦ t ]

      go :
          (o : Ordering)
          → rat.cmp lv tv ≡ o
          → Readable rat (some (pick o))
            × ((q : Q) → rat.cmp tv q ≢ Ordering.gt → AtMost q (some (pick o)))
            × AtMost lv (some (pick o))
      go Ordering.lt e = (
        (lv, at_l),
        λ q le. (lv, at_l, rat.cmp_trans lv tv q (λ bad. cc (e, bad)) le),
        (lv, at_l, rat.cmp_refl lv),
      )
      go Ordering.eq e =
          ((tv, at_t), λ q le. (tv, at_t, le), (tv, at_t, rat.cmp_total lv tv (λ bad. cc (e, bad))))
      go Ordering.gt e =
          ((tv, at_t), λ q le. (tv, at_t, le), (tv, at_t, rat.cmp_total lv tv (λ bad. cc (e, bad))))

  -- What folding one hop's ceiling in keeps, and what it adds.
  record Folded (t t' : Option Limit) (p : Option (Option Limit)) : Type 0 where
    readable : Readable rat t'
    keeps : (q : Q) → AtMost q t → AtMost q t'
    adds : (l : Limit) (q : Q) → p ≡ some (some l) → decimal rat l.amount ≡ some q → AtMost q t'

  Folded-fold_limit :
      (t : Option Limit) (p : Option (Option Limit))
      → Readable rat t
      → ((l : Option Limit) → p ≡ some l → Readable rat l)
      → Folded t (fold_limit rat t p) p
  unfolding fold_limit
  Folded-fold_limit t none h hp = record {
    readable = h;
    keeps = λ q a. a;
    adds = λ l q e at. absurd (cc e);
  }
  Folded-fold_limit t (some none) h hp = record {
    readable = h;
    keeps = λ q a. a;
    adds = λ l q e at. absurd (cc e);
  }
  Folded-fold_limit none (some (some l)) h hp = record {
    readable = hp (some l) refl;
    keeps = λ q a. absurd (unfold AtMost in a);
    adds = λ l' q e at. at_self l l' q (same l l' e) at;
  }
    where
      same : (l l' : Limit) → some (some l) ≡ some (some l') → l ≡ l'
      same l l' e = some_inj (some_inj e)

      at_self : (l l' : Limit) (q : Q) → l ≡ l' → decimal rat l'.amount ≡ some q → AtMost q (some l)
      at_self l l' q e at =
          unfold AtMost in (q, ap (λ x. decimal rat x.amount) e ∙ at, rat.cmp_refl q)
  Folded-fold_limit (some t) (some (some l)) h hp =
      go (decimal rat l.amount) (decimal rat t.amount) refl refl
        (unfold Readable in hp (some l) refl) (unfold Readable in h)
    where
      go :
          (lv tv : Option Q)
          → decimal rat l.amount ≡ lv
          → decimal rat t.amount ≡ tv
          → (q : Q) × (decimal rat l.amount ≡ some q)
          → (q : Q) × (decimal rat t.amount ≡ some q)
          → Folded (some t) (some (lower_of rat lv tv t l)) (some (some l))
      go none tv el et (q, at) ht = absurd (cc (el, at))
      go (some lv) none el et hl (q, at) = absurd (cc (et, at))
      go (some lv) (some tv) el et hl ht =
          let (readable, keeps, adds) = AtMost-lower_of t l lv tv el et in
          record {
            readable = readable;
            keeps = λ q a. keeps q (below tv q et (unfold AtMost in a));
            adds = λ l' q e at.
                subst (λ x. AtMost x (some (lower_of rat (some lv) (some tv) t l)))
                  (value lv q l' el e at) adds;
          }
        where
          below :
              (tv q : Q)
              → decimal rat t.amount ≡ some tv
              → (v : Q) × (decimal rat t.amount ≡ some v) × (rat.cmp v q ≢ Ordering.gt)
              → rat.cmp tv q ≢ Ordering.gt
          below tv q et (v, at, le) =
              subst (λ x. rat.cmp x q ≢ Ordering.gt) (some_inj (sym at ∙ et)) le

          value :
              (lv q : Q) (l' : Limit)
              → decimal rat l.amount ≡ some lv
              → some (some l) ≡ some (some l')
              → decimal rat l'.amount ≡ some q
              → lv ≡ q
          value lv q l' el e at =
              some_inj (sym el ∙ ap (λ x. decimal rat x.amount) (some_inj (some_inj e)) ∙ at)

  AtMost-tightest_from :
      (hops : List (List Grant)) (operation : Bytes) (t : Option Limit)
      → Readable rat t
      → Readable rat (tightest_from rat hops operation t)
        × ((q : Q) → AtMost q t → AtMost q (tightest_from rat hops operation t))
  unfolding tightest_from
  AtMost-tightest_from [] operation t h = (h, λ q a. a)
  AtMost-tightest_from (g ∷ hops) operation t h =
      let f =
        Folded-fold_limit t (limit_for rat g operation) h
          (λ l e. Readable-limit_for rat g operation l e) in
      let (readable, keeps) =
        AtMost-tightest_from hops operation (fold_limit rat t (limit_for rat g operation))
          f.readable in
      (readable, λ q a. keeps q (f.keeps q a))

  AtMost-hop :
      (hops : List (List Grant)) (operation : Bytes) (t : Option Limit) (g : List Grant) (l : Limit)
      (q : Q)
      → Readable rat t
      → Memᴰ g hops
      → limit_for rat g operation ≡ some (some l)
      → decimal rat l.amount ≡ some q
      → AtMost q (tightest_from rat hops operation t)
  unfolding tightest_from
  AtMost-hop [] operation t g l q h m e at = elim m [ ]
  AtMost-hop (x ∷ hops) operation t g l q h m e at =
      let f =
        Folded-fold_limit t (limit_for rat x operation) h
          (λ l' e'. Readable-limit_for rat x operation l' e') in
      elim m [
        | Memᴰ.head is ↦
            (AtMost-tightest_from hops operation (fold_limit rat t (limit_for rat x operation))
                f.readable).1
              q (f.adds l q (ap (λ y. limit_for rat y operation) (sym is) ∙ e) at)
        | Memᴰ.tail later ↦
            AtMost-hop hops operation (fold_limit rat t (limit_for rat x operation)) g l q
              f.readable later e at
      ]

  if_none : (b : Bool) (x : ScopeExcess) → (if b then some x else none) ≡ none → b ≡ false
  if_none true x e = absurd (cc e)
  if_none false x e = refl

  exceeds-false : (amt v : Q) → exceeds rat amt (some v) ≡ false → rat.cmp amt v ≢ Ordering.gt
  unfolding exceeds
  exceeds-false amt v e = go (rat.cmp amt v) e
    where
      go : (o : Ordering) → elim o [ Ordering.gt ↦ true | _ ↦ false ] ≡ false → o ≢ Ordering.gt
      go Ordering.gt e is = cc e
      go Ordering.lt e is = cc is
      go Ordering.eq e is = cc is

  excess_over-none :
      (operation amount : Bytes) (amt q : Q) (t : Option Limit)
      → excess_over rat operation amount amt t ≡ none
      → AtMost q t
      → rat.cmp amt q ≢ Ordering.gt
  unfolding excess_over AtMost
  excess_over-none operation amount amt q none e a = absurd a
  excess_over-none operation amount amt q (some l) e (v, at, le) =
      let not_over : exceeds rat amt (decimal rat l.amount) ≡ false =
        if_none (exceeds rat amt (decimal rat l.amount))
          (record {
            operation = operation;
            limit = l.amount;
            currency = l.currency;
            amount = amount;
            version = comparator_version;
          })
          e in
      rat.cmp_trans amt v q (exceeds-false amt v (ap (exceeds rat amt) (sym at) ∙ not_over)) le

  -- Where `CheckScope` finds no excess, a readable amount is not above the ceiling that any hop's
  -- grants place on the operation.
  pub check_scope-Allows :
      (hops : List (List Grant)) (c : ℕ) (operation amount : Bytes) (amt q : Q) (g : List Grant)
      (l : Limit)
      → check_scope rat hops (c ∷ operation) amount ≡ none
      → decimal rat amount ≡ some amt
      → Memᴰ g hops
      → limit_for rat g (c ∷ operation) ≡ some (some l)
      → decimal rat l.amount ≡ some q
      → rat.cmp amt q ≢ Ordering.gt
  check_scope-Allows hops c operation amount amt q g l none_over at m e at_l =
      excess_over-none (c ∷ operation) amount amt q (tightest_from rat hops (c ∷ operation) none)
        (go (decimal rat amount) at (unfold check_scope in none_over))
        (AtMost-hop hops (c ∷ operation) none g l q (unfold Readable in tt) m e at_l)
    where
      go :
          (d : Option Q)
          → d ≡ some amt
          → elim d [
            | none ↦ none
            | some x ↦
                excess_over rat
                  (c ∷ operation)
                  amount
                  x
                  (tightest_from rat hops (c ∷ operation) none)
          ]
            ≡ none
          → excess_over rat (c ∷ operation) amount amt (tightest_from rat hops (c ∷ operation) none)
            ≡ none
      go none at e = absurd (cc at)
      go (some x) at e =
          subst
            (λ y.
              excess_over rat (c ∷ operation) amount y (tightest_from rat hops (c ∷ operation) none)
              ≡ none)
            (some_inj at) e
