-- ===== src/Index/Rows/Lookup.antt =====
-- internal/index/index.go: what `lookupCanonical` returns, and where `record` puts a row.
use behalf.Prelude.{
  ℕ, ◌≤◌, ◌<◌, ◌≡◌, refl, sym, ap, ◌∙◌, subst, inl, inr, Bool, true, false, ◌&&◌, ◌||◌, Option,
  none, some, List, [], ◌∷◌, ◌++◌, arith, ltb, leb, ◌==◌, if◌then◌else◌, Bool-cases, All, some_inj,
  Bytes, eqb, eqb_iff, eqb_refl,
}
use mathlib.Core.List.{Memᴰ}
use behalf.Index.Rows.{
  Row, is_canonical, lesser, lookup_canonical, taken, replace, beside, upsert, is_none, below_bound,
  record_row, index_of,
}

-- The row is the first that the log holds of its receipt.
unfoldable pub IsFirst : Row → Type 0
IsFirst r = r.duplicate_of ≡ none

pub is_canonical-true :
    (id : Bytes) (bound : ℕ) (r : Row)
    → is_canonical id (some bound) r ≡ true
    → (r.receipt_id ≡ id) × IsFirst r × (r.log_index < bound)
unfolding is_canonical is_none below_bound IsFirst
is_canonical-true id bound r e = go r.duplicate_of refl e
  where
    go :
        (d : Option ℕ)
        → r.duplicate_of ≡ d
        → (eqb r.receipt_id id && (is_none d && ltb r.log_index bound)) ≡ true
        → (r.receipt_id ≡ id) × (r.duplicate_of ≡ none) × (r.log_index < bound)
    go none at e = (ground (arith, eqb_iff r.receipt_id id), at, ground arith)
    go (some n) at e = absurd (ground arith)

pub is_canonical-IsFirst :
    (bound : ℕ) (r : Row)
    → IsFirst r
    → r.log_index < bound
    → is_canonical r.receipt_id (some bound) r ≡ true
unfolding is_canonical is_none below_bound IsFirst
is_canonical-IsFirst bound r first lt = rw first (ground (arith, eqb_iff r.receipt_id r.receipt_id))

-- What a lookup that finds a row has found.
pub lookup_canonical-some :
    (id : Bytes) (bound : ℕ) (rows : List Row) (c : Row)
    → lookup_canonical id (some bound) rows ≡ some c
    → Memᴰ c rows × (is_canonical id (some bound) c ≡ true)
unfolding lookup_canonical lesser
lookup_canonical-some id bound [] c e = absurd (cc e)
lookup_canonical-some id bound (r ∷ rows) c e = elim (Bool-cases (is_canonical id (some bound) r)) [
  | inr other ↦
      let (m, k) = lookup_canonical-some id bound rows c (ground arith) in (Memᴰ.tail m, k)
  | inl here ↦
      go (lookup_canonical id (some bound) rows) refl here (ground arith)
        (λ c' e'. lookup_canonical-some id bound rows c' e')
]
  where
    pick :
        (first : Bool) (s : Row)
        → is_canonical id (some bound) r ≡ true
        → Memᴰ s rows
        → is_canonical id (some bound) s ≡ true
        → some (if first then r else s) ≡ some c
        → Memᴰ c (r ∷ rows) × (is_canonical id (some bound) c ≡ true)
    pick true s here m k e = (
      Memᴰ.head (sym (some_inj e)),
      subst (λ x. is_canonical id (some bound) x ≡ true) (some_inj e) here,
    )
    pick false s here m k e = (
      Memᴰ.tail (subst (λ x. Memᴰ x rows) (some_inj e) m),
      subst (λ x. is_canonical id (some bound) x ≡ true) (some_inj e) k,
    )

    go :
        (o : Option Row)
        → lookup_canonical id (some bound) rows ≡ o
        → is_canonical id (some bound) r ≡ true
        → lesser r o ≡ some c
        → ((c' : Row)
            → lookup_canonical id (some bound) rows ≡ some c'
            → Memᴰ c' rows × (is_canonical id (some bound) c' ≡ true))
        → Memᴰ c (r ∷ rows) × (is_canonical id (some bound) c ≡ true)
    go none at here e later = (
      Memᴰ.head (sym (some_inj e)),
      subst (λ x. is_canonical id (some bound) x ≡ true) (some_inj e) here,
    )
    go (some s) at here e later =
        let (m, k) = later s at in pick (leb r.log_index s.log_index) s here m k e

-- A lookup that finds nothing has passed no canonical row.
pub lookup_canonical-none :
    (id : Bytes) (bound : ℕ) (rows : List Row) (r : Row)
    → lookup_canonical id (some bound) rows ≡ none
    → Memᴰ r rows
    → is_canonical id (some bound) r ≡ false
unfolding lookup_canonical
lookup_canonical-none id bound [] r e m = elim m [ ]
lookup_canonical-none id bound (x ∷ rows) r e m =
    elim (Bool-cases (is_canonical id (some bound) x)) [
      | inl here ↦ absurd (found (lookup_canonical id (some bound) rows) (ground arith))
      | inr other ↦ elim m [
        | Memᴰ.head is ↦ ap (is_canonical id (some bound)) is ∙ other
        | Memᴰ.tail later ↦ lookup_canonical-none id bound rows r (ground arith) later
      ]
    ]
  where
    found : (o : Option Row) → lesser x o ≡ none → ⊥
    found none e = unfold lesser in cc e
    found (some s) e = unfold lesser in cc e

replace-above :
    (row : Row) (rows : List Row) (next : ℕ)
    → All (λ r. r.log_index < next) rows
    → next ≤ row.log_index
    → replace row rows ≡ rows ++ (row ∷ [])
unfolding replace
replace-above row [] next h le = refl
replace-above row (r ∷ rows) next h le =
    let ih = replace-above row rows next h.1 le in
    let other : (r.log_index == row.log_index) ≡ false = ground (arith, h.0) in
    rw other (ap (◌∷◌ r) ih)

lesser-some : (r : Row) (o : Option Row) → lesser r o ≡ none → ⊥
unfolding lesser
lesser-some r none e = cc e
lesser-some r (some s) e = cc e

-- Where no canonical row of the receipt lies below, and all rows do, the unique index holds none.
taken-none :
    (row : Row) (rows : List Row)
    → All (λ r. r.log_index < row.log_index) rows
    → lookup_canonical row.receipt_id (some row.log_index) rows ≡ none
    → taken row rows ≡ false
unfolding taken lookup_canonical is_canonical below_bound
taken-none row [] h e = refl
taken-none row (r ∷ rows) h e =
    elim (Bool-cases (is_canonical row.receipt_id (some row.log_index) r)) [
      | inl here ↦ absurd (
          lesser-some r (lookup_canonical row.receipt_id (some row.log_index) rows)
            (ground (arith, here, e)))
      | inr other ↦
          let low : ltb r.log_index row.log_index ≡ true = ground (arith, h.0) in
          let ih = taken-none row rows h.1 (ground (arith, other, e)) in
          ground (arith, other, low, ih)
    ]

-- A row past all others is put at the end, marked with the canonical row that the lookup finds.
pub record_row-above :
    (row : Row) (rows : List Row) (c : Option Row)
    → All (λ r. r.log_index < row.log_index) rows
    → lookup_canonical row.receipt_id (some row.log_index) rows ≡ c
    → record_row row rows ≡ some (rows ++ (record row { duplicate_of = index_of c } ∷ []), c)
unfolding record_row
record_row-above row rows c h e = rw e (ap (beside c) (put c e) ∙ unfold beside in refl)
  where
    put :
        (c : Option Row)
        → lookup_canonical row.receipt_id (some row.log_index) rows ≡ c
        → upsert (record row { duplicate_of = index_of c }) rows
          ≡ some (rows ++ (record row { duplicate_of = index_of c } ∷ []))
    put none e =
        unfold upsert in
        unfold is_none in
        unfold index_of in
        rw (taken-none (record row { duplicate_of = none }) rows h e) (
          ap some
            (replace-above (record row { duplicate_of = none }) rows row.log_index h (omega arith)))
    put (some s) e =
        unfold upsert in
        unfold is_none in
        unfold index_of in
        ap some (
          replace-above (record row { duplicate_of = some s.log_index }) rows row.log_index h
            (omega arith))

-- A lookup with no bound is one below a bound that all rows lie under.
pub lookup-bound :
    (id : Bytes) (next : ℕ) (rows : List Row)
    → All (λ r. r.log_index < next) rows
    → lookup_canonical id none rows ≡ lookup_canonical id (some next) rows
unfolding lookup_canonical is_canonical below_bound
lookup-bound id next [] h = refl
lookup-bound id next (r ∷ rows) h =
    let ih = lookup-bound id next rows h.1 in
    let low : ltb r.log_index next ≡ true = ground (arith, h.0) in rw (low, ih) refl

-- A row put at the end is found if it is the first of its receipt.
pub lookup-last_first :
    (row : Row) (rows : List Row)
    → row.duplicate_of ≡ none
    → lookup_canonical row.receipt_id none rows ≡ none
    → lookup_canonical row.receipt_id none (rows ++ (row ∷ [])) ≡ some row
unfolding lookup_canonical
lookup-last_first row [] first out = rw (canonical-here row first) (unfold lesser in refl)
  where
    canonical-here : (r : Row) → r.duplicate_of ≡ none → is_canonical r.receipt_id none r ≡ true
    canonical-here r e =
        unfold is_canonical in
        unfold is_none in unfold below_bound in rw (e, eqb_refl r.receipt_id) refl
lookup-last_first row (r ∷ rows) first out =
    elim (Bool-cases (is_canonical row.receipt_id none r)) [
      | inl here ↦ absurd (found (lookup_canonical row.receipt_id none rows) (ground arith))
      | inr other ↦ rw other (lookup-last_first row rows first (ground arith))
    ]
  where
    found : (o : Option Row) → lesser r o ≡ none → ⊥
    found none e = unfold lesser in cc e
    found (some s) e = unfold lesser in cc e

-- Another receipt's row changes no lookup.
pub lookup-last_other :
    (id : Bytes) (row : Row) (rows : List Row)
    → eqb row.receipt_id id ≡ false
    → lookup_canonical id none (rows ++ (row ∷ [])) ≡ lookup_canonical id none rows
unfolding lookup_canonical is_canonical
lookup-last_other id row [] other = rw other refl
lookup-last_other id row (r ∷ rows) other = rw (lookup-last_other id row rows other) refl

-- A row past all others whose receipt is new is put at the end, unmarked.
pub record_row-first :
    (row : Row) (rows : List Row)
    → All (λ r. r.log_index < row.log_index) rows
    → lookup_canonical row.receipt_id none rows ≡ none
    → record_row row rows ≡ some (rows ++ (record row { duplicate_of = none } ∷ []), none)
unfolding index_of
record_row-first row rows h out =
    record_row-above row rows none h (sym (lookup-bound row.receipt_id row.log_index rows h) ∙ out)

-- A row at or past the bound changes no lookup below it.
pub lookup-last_later :
    (id : Bytes) (bound : ℕ) (row : Row) (rows : List Row)
    → bound ≤ row.log_index
    → lookup_canonical id (some bound) (rows ++ (row ∷ [])) ≡ lookup_canonical id (some bound) rows
unfolding lookup_canonical is_canonical below_bound
lookup-last_later id bound row [] le =
    let high : ltb row.log_index bound ≡ false = ground (arith, le) in
    let out : is_canonical id (some bound) row ≡ false = ground (arith, high) in ground (arith, out)
lookup-last_later id bound row (r ∷ rows) le = rw (lookup-last_later id bound row rows le) refl

-- A canonical row after the row: the unique index refuses it.
pub record_row-taken :
    (row : Row) (rows : List Row) (later : Row)
    → lookup_canonical row.receipt_id (some row.log_index) rows ≡ none
    → later.receipt_id ≡ row.receipt_id
    → IsFirst later
    → row.log_index < later.log_index
    → record_row row (rows ++ (later ∷ [])) ≡ none
unfolding record_row upsert is_none index_of beside IsFirst
record_row-taken row rows later out same first lt =
    let missed : lookup_canonical row.receipt_id (some row.log_index) (rows ++ (later ∷ []))
        ≡ none =
      lookup-last_later row.receipt_id row.log_index later rows (omega (arith, lt)) ∙ out in
    rw missed (rw (taken-last rows) refl)
  where
    or-true : (x : Bool) → (x || true) ≡ true
    or-true true = refl
    or-true false = refl

    taken-last :
        (rs : List Row) → taken (record row { duplicate_of = none }) (rs ++ (later ∷ [])) ≡ true
    taken-last [] =
        let apart : (later.log_index == row.log_index) ≡ false = ground (arith, lt) in
        let equal : eqb later.receipt_id row.receipt_id ≡ true =
          (eqb_iff later.receipt_id row.receipt_id).1 same in
        unfold taken in unfold is_none in rw (first, apart, equal) refl
    taken-last (r ∷ rs) = let ih = taken-last rs in unfold taken in rw ih (or-true _)
