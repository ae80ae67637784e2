-- ===== src/Index/Rows.antt =====
-- internal/index/index.go: `Row`, `lookupCanonical` and `record`, with the SQL that they run. Log
-- indices lie below 2 ^ 63, where the conversions to int64 change nothing.
pub mod Lookup
pub mod Canonical
use behalf.Prelude.{
  ℕ, Bool, true, false, not, ◌&&◌, ◌||◌, Option, none, some, List, [], ◌∷◌, ltb, leb, ◌==◌,
  if◌then◌else◌, Bytes, eqb,
}
use behalf.Prelude.Int.{ℤ}

pub record Row : Type 0 where
  pub log_index : ℕ
  pub receipt_id : Bytes
  pub leaf_hash : Bytes
  pub kind : Bytes
  pub run_id : Bytes
  pub run_id_provenance : Bytes
  pub trace_id : Bytes
  pub session_id : Bytes
  pub txn : Bytes
  pub acti : Bytes
  pub conversation_id : Bytes
  pub captured_at : Bytes
  pub emitter_jkt : Bytes
  pub emitter_counter : ℤ
  pub actor_jkt : Bytes
  pub operation_name : Bytes
  pub operation_target : Bytes
  pub outcome_status : Bytes
  pub attribution_verification : Bytes
  pub attribution_class : Bytes
  pub step_key : Bytes
  pub duplicate_of : Option ℕ

is_none : Option ℕ → Bool
is_none none = true
is_none (some n) = false

below_bound : ℕ → Option ℕ → Bool
below_bound i none = true
below_bound i (some bound) = ltb i bound

-- The WHERE clause; a negative `before` is no bound.
unfoldable pub is_canonical : Bytes → Option ℕ → Row → Bool
unfolding is_none below_bound
is_canonical receipt_id before r =
    eqb r.receipt_id receipt_id && (is_none r.duplicate_of && below_bound r.log_index before)

lesser : Row → Option Row → Option Row
lesser r none = some r
lesser r (some s) = some (if leb r.log_index s.log_index then r else s)

-- `lookupCanonical`: ORDER BY log_index LIMIT 1.
unfoldable pub lookup_canonical : Bytes → Option ℕ → List Row → Option Row
unfolding is_canonical lesser
lookup_canonical receipt_id before [] = none
lookup_canonical receipt_id before (r ∷ rows) =
    let rest = lookup_canonical receipt_id before rows in
    if is_canonical receipt_id before r then lesser r rest else rest

-- The partial UNIQUE index on receipt_id over the canonical rows: another row holds the receipt.
unfoldable pub taken : Row → List Row → Bool
unfolding is_none
taken row [] = false
taken row (r ∷ rows) =
    (eqb r.receipt_id row.receipt_id
      && (is_none r.duplicate_of && not (r.log_index == row.log_index)))
    || taken row rows

-- ON CONFLICT(log_index) DO UPDATE.
unfoldable pub replace : Row → List Row → List Row
replace row [] = row ∷ []
replace row (r ∷ rows) =
    let rest = replace row rows in if r.log_index == row.log_index then row ∷ rows else r ∷ rest

-- The INSERT: a second canonical row of a receipt is an error.
unfoldable pub upsert : Row → List Row → Option (List Row)
unfolding taken replace is_none
upsert row rows =
    if is_none row.duplicate_of && taken row rows then none else some (replace row rows)

unfoldable pub index_of : Option Row → Option ℕ
index_of none = none
index_of (some r) = some r.log_index

beside : Option Row → Option (List Row) → Option (List Row × Option Row)
beside canonical none = none
beside canonical (some rows) = some (rows, canonical)

-- `record`: the row marked with the canonical row before it, and that row.
unfoldable pub record_row : Row → List Row → Option (List Row × Option Row)
unfolding lookup_canonical upsert index_of beside
record_row row rows =
    let canonical = lookup_canonical row.receipt_id (some row.log_index) rows in
    beside canonical (upsert (record row { duplicate_of = index_of canonical }) rows)

-- The loop of follow.go over the rows that are extracted from the leaves; an error ends it.
unfoldable pub record_all : List Row → List Row → Option (List Row)
unfolding record_row
record_all [] rows = some rows
record_all (row ∷ log) rows = elim (record_row row rows) [
  | none ↦ none
  | some (rows', canonical) ↦ record_all log rows'
]
