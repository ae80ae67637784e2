-- ===== src/Tlog/Append/Sequence.antt =====
-- internal/tlog/tlog.go: appends of one holder, each waited for before the next begins.
pub mod Steps
pub mod Refines
use behalf.Prelude.{
  ℕ, ◌+◌, ◌<◌, ◌≡◌, Bool, true, false, Option, none, some, List, [], ◌∷◌, if◌then◌else◌, length,
  All, Bytes, Dict, lookup,
}
use behalf.Encoding.Hex.{encode, decode}
use behalf.Index.Rows.{Row}
use behalf.Tlog.Epoch.{EpochFile}
use behalf.Tlog.Promise.{Keys}
use behalf.Tlog.Append.{
  append_failed, Reply, failed, acked, Log, Begun, refused, begun, queued, known, behind,
  begin_append, remove_pending, duplicate_result, resolve, resolve_behind,
}

-- An envelope: the row that is extracted from it, and Tessera's hash of it.
pub record Envelope : Type 0 where
  pub row : Row
  pub leaf_hash : Bytes

-- What Tessera makes of an entry: its index is returned; or the entry is in the log and the future is
-- an error; or it is not in the log.
pub data Future : Type 0 where
  integrated : Future
  unanswered : Future
  rejected : Future

-- What the calls of one append meet: whether the index can be read, the future, and whether the index
-- can be written.
pub record Served : Type 0 where
  pub readable : Bool
  pub future : Future
  pub writable : Bool

-- The state between two appends: the log's size, the rows and the handle.
pub record LogState : Type 0 where
  pub size : ℕ
  pub rows : List Row
  pub log : Log

-- Tessera gives a new entry the size of the log as its index.
unfoldable pub index_in : Future → ℕ → Option ℕ
index_in integrated size = some size
index_in unanswered size = none
index_in rejected size = none

unfoldable pub grown : Future → ℕ → ℕ
grown rejected size = size
grown integrated size = size + 1
grown unanswered size = size + 1

module _ (file : EpochFile) (keys : Keys) (key_id now : Bytes) where
  -- `Append`: what `Wait` does with what `BeginAppend` returned. The append in flight that a duplicate
  -- stands behind has been waited for.
  unfoldable pub wait_begun : Begun × Log → LogState → Served → Reply × LogState
  unfolding index_in grown
  wait_begun (refused f, l) s v = (failed f, record s { log = l })
  wait_begun (begun (known row canonical), l) s v = (
    duplicate_result file keys key_id now l row.receipt_id canonical.log_index canonical.leaf_hash,
    record s { log = l },
  )
  wait_begun (begun (behind row ticket), l) s v =
      (resolve_behind file keys key_id now l row (failed append_failed), record s { log = l })
  wait_begun (begun (queued row leaf_hash), l) s v =
      let (reply, rows) =
        resolve file keys key_id now l row leaf_hash (index_in v.future s.size) v.writable s.rows in
      (
        reply,
        record {
          size = grown v.future s.size;
          rows = rows;
          log = remove_pending file row.receipt_id l;
        },
      )

  unfoldable pub append : LogState → Envelope → Served → Reply × LogState
  unfolding wait_begun
  append s e v =
      wait_begun (begin_append file s.rows v.readable e.leaf_hash s.size (some e.row) s.log) s v

  unfoldable pub append_all : LogState → List (Envelope × Served) → List Reply
  unfolding append
  append_all s [] = []
  append_all s ((e, v) ∷ envelopes) =
      let (reply, s') = append s e v in reply ∷ append_all s' envelopes

-- The answer to an append of a receipt that is not in the map: the map holds it from then on where it is
-- acknowledged, and the log grows where Tessera has taken the entry.
abbrev pub new_of : Dict ℕ → ℕ → Bytes → Future → Bool → Option (ℕ × Bool) × (Dict ℕ × ℕ)
new_of m next id integrated true = (some (next, false), ((id, next) ∷ m, next + 1))
new_of m next id integrated false = (none, (m, next + 1))
new_of m next id unanswered writable = (none, (m, next + 1))
new_of m next id rejected writable = (none, (m, next))

-- The answer to one append: an error where the index cannot be read, and the index of the first one that
-- was acknowledged, flagged, where there is one.
abbrev pub answer_at : Dict ℕ → ℕ → Bytes → Served → Option (ℕ × Bool) × (Dict ℕ × ℕ)
answer_at m next id v =
    if v.readable
    then elim (lookup id m) [
      | some i ↦ (some (i, true), (m, next))
      | none ↦ new_of m next id v.future v.writable
    ]
    else (none, (m, next))

-- What a log of receipts promises, append by append.
abbrev pub first_of : Dict ℕ → ℕ → List (Bytes × Served) → List (Option (ℕ × Bool))
first_of m next [] = []
first_of m next ((id, v) ∷ ids) =
    let (answer, (m', next')) = answer_at m next id v in answer ∷ first_of m' next' ids

abbrev pub answer_of : Reply → Option (ℕ × Bool)
answer_of (failed f) = none
answer_of (acked a) = some (a.index, a.duplicate)

abbrev pub receipts_of : List (Envelope × Served) → List (Bytes × Served)
receipts_of [] = []
receipts_of ((e, v) ∷ envelopes) = (e.row.receipt_id, v) ∷ receipts_of envelopes

-- A leaf hash as the index keeps it.
abbrev pub WholeLeaf : Bytes → Type 0
WholeLeaf hex = (raw : Bytes) × (decode hex ≡ some raw) × (length raw ≡ 32)

-- Extract's leaf hash is Tessera's, of 32 bytes.
abbrev pub Extracted : Envelope → Type 0
Extracted e =
    (encode e.leaf_hash ≡ e.row.leaf_hash)
    × (length e.leaf_hash ≡ 32)
    × All (λ b. b < 256) e.leaf_hash
