-- ===== src/Tlog/Append/Race.antt =====
-- internal/tlog/tlog.go: a second append of a receipt between `removePending` and `Record` of the first.
use behalf.Prelude.{
  ℕ, ◌<◌, ◌≡◌, refl, sym, ap, ◌∙◌, true, false, none, some, List, [], ◌∷◌, ◌++◌, arith, All,
  All-map, Bytes, eqb_refl, lookup, insert, lookup-remove,
}
use behalf.Encoding.Hex.{encode}
use behalf.Index.Rows.{Row, lookup_canonical, record_row}
use behalf.Index.Rows.Lookup.{lookup-bound, record_row-taken, IsFirst}
use behalf.Tlog.Epoch.{EpochFile, check_epoch}
use behalf.Tlog.Promise.{Keys, SignedPromise, new_promise, sign_promise}
use behalf.Tlog.Append.{
  index_failed, failed, after_insert, Log, begun, queued, begin_append, remove_pending, recorded,
  resolve,
}
use behalf.Tlog.Append.Sequence.{answer_of}
use behalf.Tlog.Append.Sequence.Steps.{begin-new, promised-answer, resolve-new}

-- The state that the two appends share after the first has left `pending`.
unfoldable pub settled : EpochFile → Row → ℕ → Log → Log
settled file row ticket l =
    remove_pending file row.receipt_id
      (record l { pending = insert row.receipt_id ticket l.pending })

lookup-settled :
    (file : EpochFile) (row : Row) (ticket : ℕ) (l : Log)
    → lookup row.receipt_id (settled file row ticket l).pending ≡ none
unfolding settled remove_pending
lookup-settled file row ticket l =
    lookup-remove row.receipt_id row.receipt_id (insert row.receipt_id ticket l.pending)
    ∙ rw (eqb_refl row.receipt_id) refl

module _ (file : EpochFile) (keys : Keys) (key_id now : Bytes)
    (signs : (id leaf : Bytes)
      → (sp : SignedPromise) × (sign_promise keys key_id (new_promise id leaf now) ≡ some sp)) where
  resolve-taken :
      (l : Log) (row : Row) (hash : Bytes) (i : ℕ) (rows : List Row)
      → check_epoch file l.epoch ≡ true
      → record_row (record row { log_index = i }) rows ≡ none
      → resolve file keys key_id now l row hash (some i) true rows ≡ (failed index_failed, rows)
  unfolding resolve recorded after_insert
  resolve-taken l row hash i rows holder refused_row = simp (holder, refused_row)

  -- A receipt is appended, and again after the first append has left `pending` and before its row is
  -- recorded: the second is queued as well. Where it is recorded first, at the later index, it is
  -- acknowledged as an original, and the first ends in an error of the index, without a row for its entry.
  pub append-twice :
      (l : Log) (row : Row) (hash : Bytes) (rows : List Row) (ticket ticket' i j : ℕ)
      → check_epoch file l.epoch ≡ true
      → l.closed ≡ false
      → All (λ r. r.log_index < i) rows
      → i < j
      → lookup_canonical row.receipt_id none rows ≡ none
      → encode hash ≡ row.leaf_hash
      → ((l' : Log) × (begin_append file rows true hash ticket'
              (some row)
              (settled file row ticket l)
            ≡ (begun (queued row hash), l')))
        × (answer_of (resolve file keys key_id now l row hash (some j) true rows).0
            ≡ some (j, false))
        × (resolve file keys key_id now l row hash
              (some i)
              true
              (resolve file keys key_id now l row hash (some j) true rows).1
            ≡ (
              failed index_failed,
              rows ++ (record row { log_index = j; duplicate_of = none } ∷ []),
            ))
  append-twice l row hash rows ticket ticket' i j holder open_still below lt out same =
      let below_j =
        All-map (λ r. r.log_index < i) (λ r. r.log_index < j) rows (λ r le. omega (arith, le, lt))
          below in
      let second = resolve-new file keys key_id now signs l row hash j rows holder below_j out in
      let out_i = sym (lookup-bound row.receipt_id i rows below) ∙ out in
      (
        (
          _,
          begin-new file keys key_id now signs rows hash ticket' row (settled file row ticket l)
              (unfold settled remove_pending in holder)
              (unfold settled remove_pending in open_still) (lookup-settled file row ticket l) out
              same,
        ),
        ap (λ r. answer_of r.0) second
            ∙ promised-answer file keys key_id now signs row.receipt_id j false hash,
        ap (λ r. resolve file keys key_id now l row hash (some i) true r.1) second
            ∙ resolve-taken l row hash i
                (rows ++ (record row { log_index = j; duplicate_of = none } ∷ [])) holder
                (record_row-taken (record row { log_index = i }) rows
                  (record row { log_index = j; duplicate_of = none }) out_i refl
                  (unfold IsFirst in refl) lt),
      )
