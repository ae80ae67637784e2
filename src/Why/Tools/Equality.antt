-- ===== src/Why/Tools/Equality.antt =====
-- internal/why/aat_i4.go: the laws of `valueEqual`, where no key stands twice in an object.
use behalf.Prelude.{
  ◌≡◌, refl, sym, ◌∙◌, subst, inl, inr, Bool, true, false, ◌&&◌, some, arith, ==_iff, Bool-cases,
  Option-cases, length, Bytes, eqb, eqb_iff, eqb_refl,
}
use mathlib.Core.List.{Memᴰ}
use behalf.Why.Grant.{Rational}
use behalf.Why.Tools.Value.{
  Value, null, boolean, number, text, array, object, Values, nil, cons, Fields, end, field, find,
  keys, bool_equal, numbers_equal, value_equal, values_equal, fields_within,
}
use behalf.Why.Tools.Keys.{keys-find, Distinct, find-keys, keys_back}
use behalf.Why.Tools.Atoms.{
  bool_equal-sym, bool_equal_trans, numbers_equal-sym, numbers_equal_trans,
}

-- What a Go map gives: in every object a key stands once.
unfoldable mutual
  pub IsMap : Value → Type 0
  IsMap null = Unit
  IsMap (boolean b) = Unit
  IsMap (number s) = Unit
  IsMap (text s) = Unit
  IsMap (array xs) = AreMaps xs
  IsMap (object fs) = Distinct (keys fs) × HoldsMaps fs

  pub AreMaps : Values → Type 0
  AreMaps nil = Unit
  AreMaps (cons x xs) = IsMap x × AreMaps xs

  pub HoldsMaps : Fields → Type 0
  HoldsMaps end = Unit
  HoldsMaps (field k v fs) = IsMap v × HoldsMaps fs

pub both : (a b : Bool) → (a && b) ≡ true → (a ≡ true) × (b ≡ true)
both true true h = (refl, refl)
both true false h = absurd (cc h)
both false b h = absurd (cc h)

module _ {Q : Type 0} (rat : Rational Q) where
  -- Every member of the first object is found in the second, with an equal value, seen from there.
  abbrev Back : Fields → Fields → Type 0
  Back end gs = Unit
  Back (field k v fs) gs =
      ((w : Value) × (find k gs ≡ some w) × (value_equal rat w v ≡ true)) × Back fs gs

  Back-find :
      (k : Bytes) (v : Value) (fs gs : Fields)
      → Back fs gs
      → find k fs ≡ some v
      → (w : Value) × (find k gs ≡ some w) × (value_equal rat w v ≡ true)
  unfolding find
  Back-find k v end gs b e = absurd (cc e)
  Back-find k v (field j u fs) gs ((w, found, same_value), bs) e = elim (Bool-cases (eqb j k)) [
    | inl same ↦
        let here : u ≡ v = ground arith in
        let is : j ≡ k = (eqb_iff j k).0 same in (w, cc (is, found), cc (here, same_value))
    | inr other ↦ Back-find k v fs gs bs (ground arith)
  ]

  Back-keys : (fs gs : Fields) → Back fs gs → (k : Bytes) → Memᴰ k (keys fs) → Memᴰ k (keys gs)
  Back-keys fs gs b k m =
      let (v, at) = find-keys k fs m in
      let (w, found, same) = Back-find k v fs gs b at in keys-find k w gs found

  -- The members of `part` stand in `gs`.
  abbrev Part : Fields → Fields → Type 0
  Part end gs = Unit
  Part (field k w part) gs = (find k gs ≡ some w) × Part part gs

  Part-later :
      (k : Bytes) (w : Value) (part gs : Fields)
      → (Memᴰ k (keys part) → ⊥)
      → Part part gs
      → Part part (field k w gs)
  unfolding find keys
  Part-later k w end gs out p = tt
  Part-later k w (field j u part) gs out (at, p) = elim (Bool-cases (eqb k j)) [
    | inl same ↦ absurd (out (Memᴰ.head ((eqb_iff k j).0 same)))
    | inr other ↦ (rw other at, Part-later k w part gs (λ m. out (Memᴰ.tail m)) p)
  ]

  Distinct-Part : (gs : Fields) → Distinct (keys gs) → Part gs gs
  unfolding find keys
  Distinct-Part end d = tt
  Distinct-Part (field k w gs) (out, d) =
      (rw (eqb_refl k) refl, Part-later k w gs gs out (Distinct-Part gs d))

  within-field :
      (k : Bytes) (v w : Value) (fs gs : Fields)
      → find k gs ≡ some w
      → value_equal rat v w ≡ true
      → fields_within rat fs gs ≡ true
      → fields_within rat (field k v fs) gs ≡ true
  unfolding value_equal
  within-field k v w fs gs found same rest = ground arith

  Back-within :
      (part fs gs : Fields)
      → Back fs gs
      → ((k : Bytes) → Memᴰ k (keys gs) → Memᴰ k (keys fs))
      → Part part gs
      → fields_within rat part fs ≡ true
  unfolding value_equal
  Back-within end fs gs b all p = refl
  Back-within (field k w part) fs gs b all (at, p) =
      let (v, found) = find-keys k fs (all k (keys-find k w gs at)) in
      let (u, there, same) = Back-find k v fs gs b found in
      let u_is : u ≡ w = ground arith in
      let same' : value_equal rat w v ≡ true = cc (u_is, same) in
      within-field k w v part fs found same' (Back-within part fs gs b all p)

  HoldsMaps-find :
      (k : Bytes) (v : Value) (fs : Fields) → HoldsMaps fs → find k fs ≡ some v → IsMap v
  unfolding find HoldsMaps
  HoldsMaps-find k v end h e = absurd (cc e)
  HoldsMaps-find k v (field j u fs) (h, hs) e = elim (Bool-cases (eqb j k)) [
    | inl same ↦ let here : u ≡ v = ground arith in subst IsMap here h
    | inr other ↦ HoldsMaps-find k v fs hs (ground arith)
  ]

  -- Equal values have the same constructor.
  abbrev pub Alike : Value → Value → Type 0
  Alike null b = b ≡ null
  Alike (boolean x) b = (y : Bool) × (b ≡ boolean y) × (bool_equal x y ≡ true)
  Alike (number x) b = (y : Bytes) × (b ≡ number y) × (numbers_equal rat x y ≡ true)
  Alike (text x) b = (y : Bytes) × (b ≡ text y) × (eqb x y ≡ true)
  Alike (array x) b = (y : Values) × (b ≡ array y) × (values_equal rat x y ≡ true)
  Alike (object x) b =
      (y : Fields) × (b ≡ object y)
      × (length (keys x) ≡ length (keys y))
      × (fields_within rat x y ≡ true)

  pub value_equal-Alike : (a b : Value) → value_equal rat a b ≡ true → Alike a b
  unfolding value_equal
  value_equal-Alike null null h = refl
  value_equal-Alike null (boolean y) h = absurd (cc h)
  value_equal-Alike null (number y) h = absurd (cc h)
  value_equal-Alike null (text y) h = absurd (cc h)
  value_equal-Alike null (array y) h = absurd (cc h)
  value_equal-Alike null (object y) h = absurd (cc h)
  value_equal-Alike (boolean x) null h = absurd (cc h)
  value_equal-Alike (boolean x) (boolean y) h = (y, refl, h)
  value_equal-Alike (boolean x) (number y) h = absurd (cc h)
  value_equal-Alike (boolean x) (text y) h = absurd (cc h)
  value_equal-Alike (boolean x) (array y) h = absurd (cc h)
  value_equal-Alike (boolean x) (object y) h = absurd (cc h)
  value_equal-Alike (number x) null h = absurd (cc h)
  value_equal-Alike (number x) (boolean y) h = absurd (cc h)
  value_equal-Alike (number x) (number y) h = (y, refl, h)
  value_equal-Alike (number x) (text y) h = absurd (cc h)
  value_equal-Alike (number x) (array y) h = absurd (cc h)
  value_equal-Alike (number x) (object y) h = absurd (cc h)
  value_equal-Alike (text x) null h = absurd (cc h)
  value_equal-Alike (text x) (boolean y) h = absurd (cc h)
  value_equal-Alike (text x) (number y) h = absurd (cc h)
  value_equal-Alike (text x) (text y) h = (y, refl, h)
  value_equal-Alike (text x) (array y) h = absurd (cc h)
  value_equal-Alike (text x) (object y) h = absurd (cc h)
  value_equal-Alike (array x) null h = absurd (cc h)
  value_equal-Alike (array x) (boolean y) h = absurd (cc h)
  value_equal-Alike (array x) (number y) h = absurd (cc h)
  value_equal-Alike (array x) (text y) h = absurd (cc h)
  value_equal-Alike (array x) (array y) h = (y, refl, h)
  value_equal-Alike (array x) (object y) h = absurd (cc h)
  value_equal-Alike (object x) null h = absurd (cc h)
  value_equal-Alike (object x) (boolean y) h = absurd (cc h)
  value_equal-Alike (object x) (number y) h = absurd (cc h)
  value_equal-Alike (object x) (text y) h = absurd (cc h)
  value_equal-Alike (object x) (array y) h = absurd (cc h)
  value_equal-Alike (object x) (object y) h =
      let (size, within) = both _ _ h in
      (y, refl, (==_iff (length (keys x)) (length (keys y))).0 size, within)

  mutual
    unfolding value_equal IsMap

    Alike-sym : (a b : Value) → IsMap a → IsMap b → Alike a b → value_equal rat b a ≡ true
    Alike-sym null b m n e = rw e refl
    Alike-sym (boolean x) b m n (y, e, h) = rw e (bool_equal-sym x y h)
    Alike-sym (number x) b m n (y, e, h) = rw e (numbers_equal-sym rat x y h)
    Alike-sym (text x) b m n (y, e, h) = rw e (cc ((eqb_iff x y).0 h, eqb_refl x))
    Alike-sym (array x) b m n (y, e, h) = rw e (values_equal-sym x y m (subst IsMap e n) h)
    Alike-sym (object x) b m n (y, e, size, h) =
        let ny : IsMap (object y) = subst IsMap e n in
        let back = fields_within-Back x y m.1 ny.1 h in
        let all =
          keys_back (keys x) (keys y) m.0 (omega (arith, size)) (λ k at. Back-keys x y back k at) in
        let within = Back-within y x y back all (Distinct-Part y ny.0) in
        rw (e, (==_iff (length (keys y)) (length (keys x))).1 (sym size)) within

    values_equal-sym :
        (xs ys : Values)
        → AreMaps xs
        → AreMaps ys
        → values_equal rat xs ys ≡ true
        → values_equal rat ys xs ≡ true
    values_equal-sym nil nil m n h = refl
    values_equal-sym (cons x xs) (cons y ys) (mx, ms) (ny, ns) h =
        let (first, later) = both _ _ h in
        rw (Alike-sym x y mx ny (value_equal-Alike x y first)) (values_equal-sym xs ys ms ns later)
    values_equal-sym nil (cons y ys) m n h = absurd (cc h)
    values_equal-sym (cons x xs) nil m n h = absurd (cc h)

    fields_within-Back :
        (fs gs : Fields) → HoldsMaps fs → HoldsMaps gs → fields_within rat fs gs ≡ true → Back fs gs
    fields_within-Back end gs m n h = tt
    fields_within-Back (field k v fs) gs (mv, ms) n h = elim (Option-cases (find k gs)) [
      | inl out ↦ absurd (ground arith)
      | inr (w, found) ↦
          let split : (value_equal rat v w && fields_within rat fs gs) ≡ true = ground arith in
          let (first, later) = both _ _ split in
          let back =
            Alike-sym v w mv (HoldsMaps-find k w gs n found) (value_equal-Alike v w first) in
          ((w, found, back), fields_within-Back fs gs ms n later)
    ]

  -- `valueEqual` is symmetric, where no key stands twice in an object.
  pub value_equal-sym :
      (a b : Value) → IsMap a → IsMap b → value_equal rat a b ≡ true → value_equal rat b a ≡ true
  value_equal-sym a b m n h = Alike-sym a b m n (value_equal-Alike a b h)

  fields_within-find :
      (k : Bytes) (v : Value) (fs gs : Fields)
      → fields_within rat fs gs ≡ true
      → find k fs ≡ some v
      → (w : Value) × (find k gs ≡ some w) × (value_equal rat v w ≡ true)
  unfolding value_equal find
  fields_within-find k v end gs h e = absurd (cc e)
  fields_within-find k v (field j u fs) gs h e = elim (Option-cases (find j gs)) [
    | inl out ↦ absurd (ground arith)
    | inr (w, found) ↦
        let split : (value_equal rat u w && fields_within rat fs gs) ≡ true = ground arith in
        let (first, later) = both (value_equal rat u w) (fields_within rat fs gs) split in
        elim (Bool-cases (eqb j k)) [
          | inl same ↦
              let here : u ≡ v = ground arith in
              let is : j ≡ k = (eqb_iff j k).0 same in (w, cc (is, found), cc (here, first))
          | inr other ↦ fields_within-find k v fs gs later (ground arith)
        ]
  ]

  mutual
    unfolding value_equal

    Alike-trans :
        (a b c : Value) → Alike a b → value_equal rat b c ≡ true → value_equal rat a c ≡ true
    Alike-trans null b c e k = cc (e, k)
    Alike-trans (boolean x) b c (y, e, h) k =
        let (z, f, l) = value_equal-Alike (boolean y) c (cc (e, k)) in
        rw f (bool_equal_trans x y z h l)
    Alike-trans (number x) b c (y, e, h) k =
        let (z, f, l) = value_equal-Alike (number y) c (cc (e, k)) in
        rw f (numbers_equal_trans rat x y z h l)
    Alike-trans (text x) b c (y, e, h) k =
        let (z, f, l) = value_equal-Alike (text y) c (cc (e, k)) in rw f (cc ((eqb_iff x y).0 h, l))
    Alike-trans (array x) b c (y, e, h) k =
        let (z, f, l) = value_equal-Alike (array y) c (cc (e, k)) in
        rw f (values_equal_trans x y z h l)
    Alike-trans (object x) b c (y, e, size, h) k =
        let (z, f, size', l) = value_equal-Alike (object y) c (cc (e, k)) in
        rw (f, (==_iff (length (keys x)) (length (keys z))).1 (size ∙ size'))
          (fields_within_trans x y z h l)

    values_equal_trans :
        (xs ys zs : Values)
        → values_equal rat xs ys ≡ true
        → values_equal rat ys zs ≡ true
        → values_equal rat xs zs ≡ true
    values_equal_trans nil nil zs h k = k
    values_equal_trans (cons x xs) (cons y ys) (cons z zs) h k =
        let (first, later) = both _ _ h in
        let (first', later') = both _ _ k in
        rw (Alike-trans x y z (value_equal-Alike x y first) first')
          (values_equal_trans xs ys zs later later')
    values_equal_trans nil (cons y ys) zs h k = absurd (cc h)
    values_equal_trans (cons x xs) nil zs h k = absurd (cc h)
    values_equal_trans (cons x xs) (cons y ys) nil h k = absurd (cc k)

    fields_within_trans :
        (fs gs hs : Fields)
        → fields_within rat fs gs ≡ true
        → fields_within rat gs hs ≡ true
        → fields_within rat fs hs ≡ true
    fields_within_trans end gs hs h k = refl
    fields_within_trans (field j v fs) gs hs h k = elim (Option-cases (find j gs)) [
      | inl out ↦ absurd (ground arith)
      | inr (w, found) ↦
          let split : (value_equal rat v w && fields_within rat fs gs) ≡ true = ground arith in
          let (first, later) = both _ _ split in
          let (u, at, same) = fields_within-find j w gs hs k found in
          within-field j v u fs hs at (Alike-trans v w u (value_equal-Alike v w first) same)
            (fields_within_trans fs gs hs later k)
    ]

  -- `valueEqual` is transitive.
  pub value_equal_trans :
      (a b c : Value)
      → value_equal rat a b ≡ true
      → value_equal rat b c ≡ true
      → value_equal rat a c ≡ true
  value_equal_trans a b c h k = Alike-trans a b c (value_equal-Alike a b h) k
