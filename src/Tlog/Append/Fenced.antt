-- ===== src/Tlog/Append/Fenced.antt =====
-- internal/tlog/tlog.go: what a holder that a newer one has fenced can do.
use behalf.Prelude.{
  ℕ, suc, ◌+◌, ◌<◌, ◌≡◌, refl, inl, inr, Bool, false, Option, none, some, List, arith, Bool-cases,
  length, get_elem?, Bytes,
}
use behalf.Encoding.Text.{uint64_mod}
use behalf.Index.Rows.{Row}
use behalf.Tlog.Epoch.{EpochFile, Claim, check_epoch, claim_all, epoch_of, check_epoch-latest}
use behalf.Tlog.Promise.{Keys}
use behalf.Tlog.Append.{
  Fault, fenced, append_failed, malformed, of_failed, Reply, failed, acked, Log, refused,
  begin_append, duplicate_result, resolve, resolve_behind,
}

-- An error, and the rows of the index as they were.
abbrev pub NothingDone : List Row → Reply × List Row → Type 0
NothingDone rows r = (f : Fault) × (r ≡ (failed f, rows))

older-check_epoch :
    (file : EpochFile) (claims : List Claim) (i mine : ℕ)
    → epoch_of file + length claims < uint64_mod
    → get_elem? (claim_all file claims).1 (suc i) ≡ some mine
    → check_epoch (claim_all file claims).0 mine ≡ false
older-check_epoch file claims i mine lt at =
    elim (Bool-cases (check_epoch (claim_all file claims).0 mine)) [
      | inl passes ↦
          absurd (omega (arith, check_epoch-latest file claims (suc i) mine lt at passes))
      | inr stopped ↦ stopped
    ]

module _ (file : EpochFile) (keys : Keys) (key_id now : Bytes) (l : Log) where
  resolve-fenced :
      (row : Row) (leaf_hash : Bytes) (future : Option ℕ) (writable : Bool) (rows : List Row)
      → check_epoch file l.epoch ≡ false
      → NothingDone rows (resolve file keys key_id now l row leaf_hash future writable rows)
  unfolding resolve
  resolve-fenced row leaf_hash none writable rows h = (append_failed, refl)
  resolve-fenced row leaf_hash (some i) writable rows h = (fenced, rw h refl)

-- Of the handles that claimed one log directory, one that is not the latest begins no append, and what
-- it has in flight ends in an error with the index as it was, while the epoch counter does not wrap.
pub older-nothing :
    (file : EpochFile) (claims : List Claim) (i : ℕ) (keys : Keys) (key_id now : Bytes) (l : Log)
    (row : Row) (extracted : Option Row) (leaf_hash : Bytes) (future : Option ℕ) (ok : Bool)
    (rows : List Row) (ticket : ℕ) (other : Reply)
    → epoch_of file + length claims < uint64_mod
    → get_elem? (claim_all file claims).1 (suc i) ≡ some l.epoch
    → ((f : Fault) × (begin_append (claim_all file claims).0 rows ok leaf_hash ticket extracted l
          ≡ (refused f, l)))
      × NothingDone rows
          (resolve (claim_all file claims).0 keys key_id now l row leaf_hash future ok rows)
      × ((f : Fault) × (resolve_behind (claim_all file claims).0 keys key_id now l row other
            ≡ failed f))
older-nothing file claims i keys key_id now l row extracted leaf_hash future ok rows ticket other lt
      at =
    let stopped = older-check_epoch file claims i l.epoch lt at in
    (
      begins extracted stopped,
      resolve-fenced (claim_all file claims).0 keys key_id now l row leaf_hash future ok rows
          stopped,
      behind_other other stopped,
    )
  where
    begins :
        (e : Option Row)
        → check_epoch (claim_all file claims).0 l.epoch ≡ false
        → (f : Fault) × (begin_append (claim_all file claims).0 rows ok leaf_hash ticket e l
            ≡ (refused f, l))
    begins none stopped = (malformed, unfold begin_append in refl)
    begins (some r) stopped = (fenced, unfold begin_append in rw stopped refl)

    behind_other :
        (r : Reply)
        → check_epoch (claim_all file claims).0 l.epoch ≡ false
        → (f : Fault) × (resolve_behind (claim_all file claims).0 keys key_id now l row r
            ≡ failed f)
    behind_other (failed f) stopped = (of_failed f, unfold resolve_behind in refl)
    behind_other (acked a) stopped =
        (fenced, unfold resolve_behind duplicate_result in rw stopped refl)
