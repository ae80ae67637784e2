-- ===== src/Tlog/Append.antt =====
-- internal/tlog/tlog.go: `BeginAppend`, `Wait` and what they call, behind the epoch fence and over the
-- rows of the index. The appender of the log is Tessera: the index that its future returns is an
-- argument, and so is the row that `index.Extract` reads out of the envelope.
pub mod Fenced
pub mod Sequence
pub mod Race
mod Tests
use behalf.Prelude.{
  ℕ, Bool, true, false, Option, none, some, List, ◌==◌, if◌then◌else◌, length, Bytes, eqb, Dict,
  lookup, insert, remove,
}
use behalf.Encoding.Hex.{encode, decode}
use behalf.Index.Rows.{Row, lookup_canonical, record_row}
use behalf.Tlog.Epoch.{EpochFile, check_epoch}
use behalf.Tlog.Promise.{Keys, SignedPromise, new_promise, sign_promise}

pub data Fault : Type 0 where
  malformed : Fault
  fenced : Fault
  after_close : Fault
  index_failed : Fault
  hash_mismatch : Fault
  append_failed : Fault
  corrupt_leaf : Fault
  not_signed : Fault
  of_failed : Fault → Fault

-- `AppendResult`.
pub record Ack : Type 0 where
  pub index : ℕ
  pub duplicate : Bool
  pub leaf_hash : Bytes
  pub promise : SignedPromise

pub data Reply : Type 0 where
  failed : Fault → Reply
  acked : Ack → Reply

-- What an open handle keeps: `pending` holds a ticket for each append in flight.
pub record Log : Type 0 where
  pub epoch : ℕ
  pub pending : Dict ℕ
  pub closed : Bool

-- `Pending`: queued with Tessera's leaf hash, resolved to a row of the index, or behind another.
pub data Pending : Type 0 where
  queued : Row → Bytes → Pending
  known : Row → Row → Pending
  behind : Row → ℕ → Pending

pub data Begun : Type 0 where
  refused : Fault → Begun
  begun : Pending → Begun

module _ (file : EpochFile) where
  -- What is not in flight: the dedup window, then a new entry.
  unfoldable pub begin_new : List Row → Bool → Bytes → ℕ → Row → Log → Begun × Log
  begin_new rows readable entry_hash ticket row l =
      if readable
      then elim (lookup_canonical row.receipt_id none rows) [
        | some canonical ↦ (begun (known row canonical), l)
        | none ↦
            if eqb (encode entry_hash) row.leaf_hash
            then (
              begun (queued row entry_hash),
              record l { pending = insert row.receipt_id ticket l.pending },
            )
            else (refused hash_mismatch, l)
      ]
      else (refused index_failed, l)

  unfoldable pub begin_locked : List Row → Bool → Bytes → ℕ → Row → Log → Begun × Log
  unfolding begin_new
  begin_locked rows readable entry_hash ticket row l =
      if l.closed then (refused after_close, l) else elim (lookup row.receipt_id l.pending) [
        | some inflight ↦ (begun (behind row inflight), l)
        | none ↦ begin_new rows readable entry_hash ticket row l
      ]

  -- `BeginAppend`.
  unfoldable pub begin_append : List Row → Bool → Bytes → ℕ → Option Row → Log → Begun × Log
  unfolding begin_locked
  begin_append rows readable entry_hash ticket none l = (refused malformed, l)
  begin_append rows readable entry_hash ticket (some row) l =
      if check_epoch file l.epoch
      then begin_locked rows readable entry_hash ticket row l
      else (refused fenced, l)

  -- `removePending`.
  unfoldable pub remove_pending : Bytes → Log → Log
  remove_pending receipt_id l = record l { pending = remove receipt_id l.pending }

  module _ (keys : Keys) (key_id now : Bytes) where
    -- `signPromise`, and the result that it goes into.
    unfoldable pub promised : Bytes → ℕ → Bool → Bytes → Reply
    promised receipt_id index duplicate leaf_hash =
        elim (sign_promise keys key_id (new_promise receipt_id leaf_hash now)) [
          | none ↦ failed not_signed
          | some sp ↦
              acked
                record { index = index; duplicate = duplicate; leaf_hash = leaf_hash; promise = sp }
        ]

    duplicate_of_leaf : Bytes → ℕ → Option Bytes → Reply
    unfolding promised
    duplicate_of_leaf receipt_id index none = failed corrupt_leaf
    duplicate_of_leaf receipt_id index (some raw) =
        if length raw == 32 then promised receipt_id index true raw else failed corrupt_leaf

    -- `duplicateResult`.
    unfoldable pub duplicate_result : Log → Bytes → ℕ → Bytes → Reply
    unfolding duplicate_of_leaf
    duplicate_result l receipt_id index leaf_hex =
        if check_epoch file l.epoch
        then duplicate_of_leaf receipt_id index (decode leaf_hex)
        else failed fenced

    -- The row is recorded; with a canonical row before it, the ack is that row's.
    unfoldable pub acknowledged : Log → Row → Bytes → Option Row → Reply
    unfolding duplicate_result promised
    acknowledged l row leaf_hash none = promised row.receipt_id row.log_index false leaf_hash
    acknowledged l row leaf_hash (some canonical) =
        duplicate_result l row.receipt_id canonical.log_index canonical.leaf_hash

    after_insert : Log → Row → Bytes → List Row → Option (List Row × Option Row) → Reply × List Row
    unfolding acknowledged
    after_insert l row leaf_hash rows none = (failed index_failed, rows)
    after_insert l row leaf_hash rows (some (rows', canonical)) =
        (acknowledged l row leaf_hash canonical, rows')

    -- `Record` and what follows it; the index may refuse the row, or not be writable.
    unfoldable pub recorded : Log → Row → Bytes → Bool → List Row → Reply × List Row
    unfolding after_insert
    recorded l row leaf_hash writable rows =
        if writable
        then after_insert l row leaf_hash rows (record_row row rows)
        else (failed index_failed, rows)

    -- `resolve` of a queued entry, after the future and `removePending`.
    unfoldable pub resolve : Log → Row → Bytes → Option ℕ → Bool → List Row → Reply × List Row
    unfolding recorded
    resolve l row leaf_hash none writable rows = (failed append_failed, rows)
    resolve l row leaf_hash (some i) writable rows =
        if check_epoch file l.epoch
        then recorded l (record row { log_index = i }) leaf_hash writable rows
        else (failed fenced, rows)

    -- `resolve` of an append that stands behind another, whose result is given.
    unfoldable pub resolve_behind : Log → Row → Reply → Reply
    unfolding duplicate_result
    resolve_behind l row (failed f) = failed (of_failed f)
    resolve_behind l row (acked a) = duplicate_result l row.receipt_id a.index (encode a.leaf_hash)
