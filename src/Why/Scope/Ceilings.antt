-- ===== src/Why/Scope/Ceilings.antt =====
-- internal/why/chain.go: the amounts of the ceilings that `limitFor` returns.
use behalf.Prelude.{
  ◌≡◌, refl, subst, Bool, true, false, Option, none, some, List, [], ◌∷◌, if◌then◌else◌, some_inj,
  Bytes, eqb,
}
use Prim.Native.Nat.{Ordering}
use behalf.Why.Grant.{
  Rational, Limit, Grant, Privilege, decimal, limit_for, limit_in, limit_from, tighter,
  next_tightest,
}

module _ {Q : Type 0} (rat : Rational Q) where
  -- A ceiling, where there is one, has an amount that reads as a decimal.
  unfoldable pub Readable : Option Limit → Type 0
  Readable none = Unit
  Readable (some l) = (q : Q) × (decimal rat l.amount ≡ some q)

  Readable-tighter :
      (cur l : Limit) (r : Q) (c : Option Q)
      → Readable (some cur)
      → Readable (some l)
      → Readable (some (tighter rat c r cur l))
  unfolding tighter
  Readable-tighter cur l r none hc hl = hc
  Readable-tighter cur l r (some c) hc hl = go (rat.cmp r c)
    where
      go : (o : Ordering) → Readable (some (elim o [ Ordering.lt ↦ l | _ ↦ cur ]))
      go Ordering.lt = hl
      go Ordering.eq = hc
      go Ordering.gt = hc

  pub Readable-next :
      (t : Option Limit) (l : Limit) (r : Q)
      → Readable t
      → decimal rat l.amount ≡ some r
      → Readable (next_tightest rat t r l)
  Readable-next none l r h at = unfold next_tightest Readable in (r, at)
  Readable-next (some cur) l r h at =
      unfold next_tightest in
      Readable-tighter cur l r (decimal rat cur.amount) h (unfold Readable in (r, at))

  Readable-limit_in :
      (ps : List Privilege) (operation : Bytes) (t t' : Option Limit)
      → Readable t
      → limit_in rat ps operation t ≡ some t'
      → Readable t'
  unfolding limit_in
  Readable-limit_in [] operation t t' h e = subst Readable (some_inj e) h
  Readable-limit_in (p ∷ ps) operation t t' h e =
      go (eqb p.operation operation) p.limit e (λ x hx. Readable-limit_in ps operation x t' hx)
    where
      read :
          (l : Limit) (d : Option Q)
          → decimal rat l.amount ≡ d
          → elim d [ none ↦ none | some r ↦ limit_in rat ps operation (next_tightest rat t r l) ]
            ≡ some t'
          → ((x : Option Limit) → Readable x → limit_in rat ps operation x ≡ some t' → Readable t')
          → Readable t'
      read l none at e later = absurd (cc e)
      read l (some r) at e later = later (next_tightest rat t r l) (Readable-next t l r h at) e

      go :
          (same : Bool) (limit : Option Limit)
          → (if same
              then elim limit [
                | none ↦ limit_in rat ps operation t
                | some l ↦ elim (decimal rat l.amount) [
                  | none ↦ none
                  | some r ↦ limit_in rat ps operation (next_tightest rat t r l)
                ]
              ]
              else limit_in rat ps operation t)
            ≡ some t'
          → ((x : Option Limit) → Readable x → limit_in rat ps operation x ≡ some t' → Readable t')
          → Readable t'
      go false limit e later = later t h e
      go true none e later = later t h e
      go true (some l) e later = read l (decimal rat l.amount) refl e later

  Readable-limit_from :
      (grants : List Grant) (operation : Bytes) (t t' : Option Limit)
      → Readable t
      → limit_from rat grants operation t ≡ some t'
      → Readable t'
  unfolding limit_from
  Readable-limit_from [] operation t t' h e = subst Readable (some_inj e) h
  Readable-limit_from (g ∷ grants) operation t t' h e =
      go (limit_in rat g.privileges operation t) refl e
        (λ x hx. Readable-limit_from grants operation x t' hx)
    where
      go :
          (o : Option (Option Limit))
          → limit_in rat g.privileges operation t ≡ o
          → elim o [ none ↦ none | some x ↦ limit_from rat grants operation x ] ≡ some t'
          → ((x : Option Limit)
              → Readable x
              → limit_from rat grants operation x ≡ some t'
              → Readable t')
          → Readable t'
      go none at e later = absurd (cc e)
      go (some x) at e later = later x (Readable-limit_in g.privileges operation t x h at) e

  pub Readable-limit_for :
      (grants : List Grant) (operation : Bytes) (t : Option Limit)
      → limit_for rat grants operation ≡ some t
      → Readable t
  unfolding limit_for
  Readable-limit_for grants operation t e =
      Readable-limit_from grants operation none t (unfold Readable in tt) e
