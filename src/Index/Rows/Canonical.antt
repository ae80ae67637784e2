-- ===== src/Index/Rows/Canonical.antt =====
-- internal/index/index.go: the canonical rows of a receipt, where the leaves of a log are recorded in
-- their order.
use behalf.Prelude.{
  ℕ, suc, ◌≤◌, ◌<◌, ◌≡◌, refl, sym, ap, ◌∙◌, subst, ◌⊎◌, inl, inr, Option, none, some, List, [],
  ◌∷◌, ◌++◌, map, append-nil, append_assoc, arith, All, All-append, All-map, some_inj, Bytes,
}
use mathlib.Core.List.{Memᴰ}
use mathlib.Core.List.Memᴰ
use behalf.Index.Rows.{Row, is_canonical, lookup_canonical, record_row, record_all, index_of}
use behalf.Index.Rows.Lookup.{
  IsFirst, is_canonical-true, is_canonical-IsFirst, lookup_canonical-some, lookup_canonical-none,
  record_row-above,
}

-- The place of a row in the log.
abbrev pub index : Row → ℕ
index r = r.log_index

-- A canonical row of the same receipt, before the row.
pub record Original (rows : List Row) (receipt_id : Bytes) (bound index : ℕ) : Type 0 where
  pub row : Row
  pub stored : Memᴰ row rows
  pub receipt : row.receipt_id ≡ receipt_id
  pub first : IsFirst row
  pub at : row.log_index ≡ index
  pub earlier : index < bound

-- The rows below a place of the log.
pub record Indexed (next : ℕ) (rows : List Row) : Type 0 where
  pub below : All (λ r. r.log_index < next) rows
  pub one_first :
      (r s : Row)
      → Memᴰ r rows
      → Memᴰ s rows
      → IsFirst r
      → IsFirst s
      → r.receipt_id ≡ s.receipt_id
      → r.log_index ≡ s.log_index
  pub pointed :
      (r : Row) (i : ℕ)
      → Memᴰ r rows
      → r.duplicate_of ≡ some i
      → Original rows r.receipt_id r.log_index i

Memᴰ-last : (x row : Row) (rows : List Row) → Memᴰ x (rows ++ (row ∷ [])) → Memᴰ x rows ⊎ (x ≡ row)
Memᴰ-last x row rows m = elim (Memᴰ.append_cases rows m) [
  | inl old ↦ inl old
  | inr new ↦ inr (Memᴰ.eq_of_singleton new)
]

Memᴰ-below :
    (next : ℕ) (rows : List Row) (r : Row)
    → All (λ x. x.log_index < next) rows
    → Memᴰ r rows
    → r.log_index < next
Memᴰ-below next (x ∷ rows) r h (Memᴰ.head e) = subst (λ y. y.log_index < next) (sym e) h.0
Memᴰ-below next (x ∷ rows) r h (Memᴰ.tail m) = Memᴰ-below next rows r h.1 m
Memᴰ-below next [] r h m = elim m [ ]

Original-weaken :
    (rows more : List Row) (id : Bytes) (bound i : ℕ)
    → Original rows id bound i
    → Original (rows ++ more) id bound i
Original-weaken rows more id bound i o = record {
  row = o.row;
  stored = Memᴰ.append_left more o.stored;
  receipt = o.receipt;
  first = o.first;
  at = o.at;
  earlier = o.earlier;
}

-- What the mark of a new row says.
Original-index_of :
    (id : Bytes) (bound i : ℕ) (rows : List Row) (c : Option Row)
    → lookup_canonical id (some bound) rows ≡ c
    → index_of c ≡ some i
    → Original rows id bound i
unfolding index_of
Original-index_of id bound i rows none e at = absurd (cc at)
Original-index_of id bound i rows (some c) e at =
    let (stored, k) = lookup_canonical-some id bound rows c e in
    let (receipt, first, lt) = is_canonical-true id bound c k in
    record {
      row = c;
      stored = stored;
      receipt = receipt;
      first = first;
      at = some_inj at;
      earlier = omega (arith, lt, some_inj at);
    }

index_of-none : (c : Option Row) → index_of c ≡ none → c ≡ none
unfolding index_of
index_of-none none e = refl
index_of-none (some c) e = absurd (cc e)

-- A new row is not canonical beside a canonical row of its receipt.
IsFirst-alone :
    (row : Row) (next : ℕ) (rows : List Row) (r : Row)
    → All (λ x. x.log_index < next) rows
    → next ≤ row.log_index
    → Memᴰ r rows
    → IsFirst r
    → r.receipt_id ≡ row.receipt_id
    → index_of (lookup_canonical row.receipt_id (some row.log_index) rows) ≡ none
    → ⊥
IsFirst-alone row next rows r below le m first same none_found =
    let not_found =
      index_of-none (lookup_canonical row.receipt_id (some row.log_index) rows) none_found in
    let passed = lookup_canonical-none row.receipt_id row.log_index rows r not_found m in
    let under = Memᴰ-below next rows r below m in
    let held = is_canonical-IsFirst row.log_index r first (omega (arith, under, le)) in
    cc (passed, ap (λ x. is_canonical x (some row.log_index) r) (sym same) ∙ held)

All-last :
    (next : ℕ) (row : Row) (rows : List Row)
    → All (λ x. x.log_index < next) rows
    → next ≤ row.log_index
    → All (λ x. x.log_index < suc row.log_index) (rows ++ (row ∷ []))
All-last next row rows h le =
    All-append (λ x. x.log_index < suc row.log_index) rows (row ∷ [])
      (All-map (λ x. x.log_index < next) (λ x. x.log_index < suc row.log_index) rows
        (λ x lt. omega (arith, lt, le)) h)
      (omega arith, tt)

Indexed-append :
    (next : ℕ) (row : Row) (rows : List Row) (mark : Option ℕ)
    → Indexed next rows
    → next ≤ row.log_index
    → mark ≡ index_of (lookup_canonical row.receipt_id (some row.log_index) rows)
    → Indexed (suc row.log_index) (rows ++ (record row { duplicate_of = mark } ∷ []))
unfolding IsFirst
Indexed-append next row rows mark ix le is_mark = record {
  below = All-last next (record row { duplicate_of = mark }) rows ix.below le;
  one_first = λ r s mr ms fr fs same.
      pair r s (Memᴰ-last r new rows mr) (Memᴰ-last s new rows ms) fr fs same;
  pointed = λ r i m at. mark_at r i (Memᴰ-last r new rows m) at;
}
  where
    new : Row
    new = record row { duplicate_of = mark }

    clash :
        (r : Row)
        → Memᴰ r rows
        → r.duplicate_of ≡ none
        → r.receipt_id ≡ row.receipt_id
        → mark ≡ none
        → ⊥
    clash r m first same bare =
        IsFirst-alone row next rows r ix.below le m (unfold IsFirst in first) same
          (sym is_mark ∙ bare)

    pair :
        (r s : Row)
        → Memᴰ r rows ⊎ (r ≡ new)
        → Memᴰ s rows ⊎ (s ≡ new)
        → r.duplicate_of ≡ none
        → s.duplicate_of ≡ none
        → r.receipt_id ≡ s.receipt_id
        → r.log_index ≡ s.log_index
    pair r s (inl mr) (inl ms) fr fs same = ix.one_first r s mr ms fr fs same
    pair r s (inr er) (inr es) fr fs same = ap (λ x. x.log_index) (er ∙ sym es)
    pair r s (inl mr) (inr es) fr fs same =
        absurd (
          clash r mr fr (same ∙ ap (λ x. x.receipt_id) es) (sym (ap (λ x. x.duplicate_of) es) ∙ fs))
    pair r s (inr er) (inl ms) fr fs same = absurd (
        clash s ms fs (sym same ∙ ap (λ x. x.receipt_id) er)
          (sym (ap (λ x. x.duplicate_of) er) ∙ fr))

    mark_at :
        (r : Row) (i : ℕ)
        → Memᴰ r rows ⊎ (r ≡ new)
        → r.duplicate_of ≡ some i
        → Original (rows ++ (new ∷ [])) r.receipt_id r.log_index i
    mark_at r i (inl m) at =
        Original-weaken rows (new ∷ []) r.receipt_id r.log_index i (ix.pointed r i m at)
    mark_at r i (inr e) at =
        subst (λ x. Original (rows ++ (new ∷ [])) x.receipt_id x.log_index i) (sym e)
          (Original-weaken rows (new ∷ []) row.receipt_id row.log_index i (
            Original-index_of row.receipt_id row.log_index i rows
              (lookup_canonical row.receipt_id (some row.log_index) rows) refl
              (sym is_mark ∙ sym (ap (λ x. x.duplicate_of) e) ∙ at)))

Indexed-record_row :
    (next : ℕ) (row : Row) (rows : List Row)
    → Indexed next rows
    → next ≤ row.log_index
    → (rows' : List Row) × (c : Option Row) × (record_row row rows ≡ some (rows', c))
      × Indexed (suc row.log_index) rows'
      × (map index rows' ≡ map index rows ++ (row.log_index ∷ []))
Indexed-record_row next row rows ix le =
    let c = lookup_canonical row.receipt_id (some row.log_index) rows in
    let below =
      All-map (λ r. r.log_index < next) (λ r. r.log_index < row.log_index) rows
        (λ r lt. omega (arith, lt, le)) ix.below in
    (
      _,
      c,
      record_row-above row rows c below refl,
      Indexed-append next row rows (index_of c) ix le refl,
      map-last rows (record row { duplicate_of = index_of c }),
    )
  where
    map-last :
        (rs : List Row) (r : Row) → map index (rs ++ (r ∷ [])) ≡ map index rs ++ (index r ∷ [])
    map-last [] r = refl
    map-last (x ∷ rs) r = ap (◌∷◌ (index x)) (map-last rs r)

-- The leaves come in the order of the log.
abbrev pub Ascending : ℕ → List Row → Type 0
Ascending next [] = Unit
Ascending next (row ∷ log) = (next ≤ row.log_index) × Ascending (suc row.log_index) log

record_all-cons :
    (row : Row) (log rows rows' : List Row) (c : Option Row)
    → record_row row rows ≡ some (rows', c)
    → record_all (row ∷ log) rows ≡ record_all log rows'
unfolding record_all
record_all-cons row log rows rows' c e =
    ap
      (λ (o : Option (List Row × Option Row)). elim o [
        | none ↦ none
        | some (rs, canonical) ↦ record_all log rs
      ])
      e

Indexed-record_all :
    (next : ℕ) (log rows : List Row)
    → Indexed next rows
    → Ascending next log
    → (k : ℕ) × (rows' : List Row) × (record_all log rows ≡ some rows')
      × Indexed k rows'
      × (map index rows' ≡ map index rows ++ map index log)
Indexed-record_all next [] rows ix asc =
    (next, rows, unfold record_all in refl, ix, sym (append-nil (map index rows)))
Indexed-record_all next (row ∷ log) rows ix asc =
    let (rows', c, put, ix', at) = Indexed-record_row next row rows ix asc.0 in
    let (k, all, done, ix'', at') = Indexed-record_all (suc row.log_index) log rows' ix' asc.1 in
    (
      k,
      all,
      record_all-cons row log rows rows' c put ∙ done,
      ix'',
      at'
          ∙ ap (λ x. x ++ map index log) at
          ∙ append_assoc (map index rows) (row.log_index ∷ []) (map index log),
    )

empty-Indexed : Indexed 0 []
empty-Indexed = record {
  below = tt;
  one_first = λ r s mr ms fr fs same. elim mr [ ];
  pointed = λ r i m at. elim m [ ];
}

Indexed-all :
    (log rows : List Row)
    → Ascending 0 log
    → record_all log [] ≡ some rows
    → (k : ℕ) × Indexed k rows
Indexed-all log rows asc e =
    let (k, rows', done, ix, at) = Indexed-record_all 0 log [] empty-Indexed asc in
    (k, subst (Indexed k) (some_inj (sym done ∙ e)) ix)

-- Where the leaves of a log are recorded in their order, none is refused by the unique index on
-- canonical rows, and there is one row for each leaf, in the order of the log.
record_all-every :
    (log : List Row)
    → Ascending 0 log
    → (rows : List Row) × (record_all log [] ≡ some rows) × (map index rows ≡ map index log)
record_all-every log asc =
    let (k, rows, done, ix, at) = Indexed-record_all 0 log [] empty-Indexed asc in (rows, done, at)

-- Where the leaves of a log are recorded in their order, a row that is marked as a duplicate points
-- at an earlier row of the same receipt that is canonical.
pub record_all-Original :
    (log rows : List Row) (r : Row) (i : ℕ)
    → Ascending 0 log
    → record_all log [] ≡ some rows
    → Memᴰ r rows
    → r.duplicate_of ≡ some i
    → Original rows r.receipt_id r.log_index i
record_all-Original log rows r i asc e m at =
    let (k, ix) = Indexed-all log rows asc e in ix.pointed r i m at
