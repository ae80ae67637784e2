-- ===== src/Tlog/Append/Sequence/Steps.antt =====
-- internal/tlog/tlog.go: one append on each of its paths, and what holds between two appends.
use behalf.Prelude.{
  ℕ, ◌+◌, ◌≤◌, ◌<◌, ◌≡◌, refl, sym, ap, ◌∙◌, subst, inl, inr, Bool, true, false, Option, none, some,
  List, [], ◌∷◌, ◌++◌, arith, ◌==◌, ==_iff, Bool-cases, length, All, All-append, All-map, Bytes,
  eqb, eqb_iff, eqb_refl, Dict, lookup, insert, remove,
}
use behalf.Encoding.Hex.{encode, decode}
use behalf.Encoding.Hex.{decode-encode}
use behalf.Index.Rows.{Row, lookup_canonical}
use behalf.Index.Rows.Lookup.{lookup-last_first, lookup-last_other, record_row-first}
use behalf.Tlog.Epoch.{EpochFile, check_epoch}
use behalf.Tlog.Promise.{Keys, SignedPromise, new_promise, sign_promise}
use behalf.Tlog.Append.{
  index_failed, after_insert, failed, refused, duplicate_of_leaf, Reply, Log, begun, queued, known,
  begin_append, begin_locked, begin_new, promised, remove_pending, duplicate_result, acknowledged,
  recorded, resolve,
}
use mathlib.Core.List.{Memᴰ}
use behalf.Tlog.Append.Sequence.{
  Served, index_in, grown, Envelope, LogState, wait_begun, append, answer_of, WholeLeaf, Extracted,
}

abbrev pub index_at : Option Row → Option ℕ
index_at none = none
index_at (some r) = some r.log_index

-- Between two appends of the current holder, where `m` holds the first index of each receipt.
pub record Kept (file : EpochFile) (m : Dict ℕ) (s : LogState) : Type 0 where
  pub below : All (λ r. r.log_index < s.size) s.rows
  pub whole : All (λ r. WholeLeaf r.leaf_hash) s.rows
  pub agrees : (id : Bytes) → index_at (lookup_canonical id none s.rows) ≡ lookup id m
  pub idle : s.log.pending ≡ []
  pub open_still : s.log.closed ≡ false
  pub holder : check_epoch file s.log.epoch ≡ true

pub Memᴰ-All :
    (rows : List Row) (c : Row)
    → All (λ r. WholeLeaf r.leaf_hash) rows
    → Memᴰ c rows
    → WholeLeaf c.leaf_hash
Memᴰ-All [] c h at = elim at [ ]
Memᴰ-All (r ∷ rows) c h (Memᴰ.head e) = subst (λ x. WholeLeaf x.leaf_hash) (sym e) h.0
Memᴰ-All (r ∷ rows) c h (Memᴰ.tail t) = Memᴰ-All rows c h.1 t

module _ (file : EpochFile) (keys : Keys) (key_id now : Bytes)
    (signs : (id leaf : Bytes)
      → (sp : SignedPromise) × (sign_promise keys key_id (new_promise id leaf now) ≡ some sp)) where
  pub promised-answer :
      (id : Bytes) (i : ℕ) (duplicate : Bool) (leaf : Bytes)
      → answer_of (promised file keys key_id now id i duplicate leaf) ≡ some (i, duplicate)
  unfolding promised
  promised-answer id i duplicate leaf = let (sp, e) = signs id leaf in ground (arith, e)

  pub duplicate_result-answer :
      (l : Log) (id : Bytes) (i : ℕ) (hex : Bytes)
      → check_epoch file l.epoch ≡ true
      → WholeLeaf hex
      → answer_of (duplicate_result file keys key_id now l id i hex) ≡ some (i, true)
  unfolding duplicate_result duplicate_of_leaf
  duplicate_result-answer l id i hex holder (raw, e, size) =
      let size' : (length raw == 32) ≡ true = (==_iff (length raw) 32).1 size in
      let opened : duplicate_result file keys key_id now l id i hex
          ≡ promised file keys key_id now id i true raw =
        simp (holder, e, size') in
      ap answer_of opened ∙ promised-answer id i true raw

  unfoldable pub waited : LogState → Envelope → ℕ → List Row → LogState
  waited s e size rows = record {
    size = size;
    rows = rows;
    log =
        remove_pending file e.row.receipt_id
          (record s.log { pending = insert e.row.receipt_id s.size s.log.pending });
  }

  unfoldable pub new_row : LogState → Envelope → Row
  new_row s e = record e.row { log_index = s.size; duplicate_of = none }

  begin-known :
      (rows : List Row) (hash : Bytes) (ticket : ℕ) (row c : Row) (l : Log)
      → check_epoch file l.epoch ≡ true
      → l.closed ≡ false
      → lookup row.receipt_id l.pending ≡ none
      → lookup_canonical row.receipt_id none rows ≡ some c
      → begin_append file rows true hash ticket (some row) l ≡ (begun (known row c), l)
  unfolding begin_append begin_locked begin_new
  begin-known rows hash ticket row c l holder open_still idle found =
      simp (holder, open_still, idle, found)

  pub begin-new :
      (rows : List Row) (hash : Bytes) (ticket : ℕ) (row : Row) (l : Log)
      → check_epoch file l.epoch ≡ true
      → l.closed ≡ false
      → lookup row.receipt_id l.pending ≡ none
      → lookup_canonical row.receipt_id none rows ≡ none
      → encode hash ≡ row.leaf_hash
      → begin_append file rows true hash ticket (some row) l
        ≡ (begun (queued row hash), record l { pending = insert row.receipt_id ticket l.pending })
  unfolding begin_append begin_locked begin_new
  begin-new rows hash ticket row l holder open_still idle out same =
      let same' : eqb (encode hash) row.leaf_hash ≡ true =
        (eqb_iff (encode hash) row.leaf_hash).1 same in
      simp (holder, open_still, idle, out, same')

  pub resolve-new :
      (l : Log) (row : Row) (hash : Bytes) (i : ℕ) (rows : List Row)
      → check_epoch file l.epoch ≡ true
      → All (λ r. r.log_index < i) rows
      → lookup_canonical row.receipt_id none rows ≡ none
      → resolve file keys key_id now l row hash (some i) true rows ≡ (
        promised file keys key_id now row.receipt_id i false hash,
        rows ++ (record row { log_index = i; duplicate_of = none } ∷ []),
      )
  unfolding resolve recorded after_insert acknowledged
  resolve-new l row hash i rows holder below out =
      let put = record_row-first (record row { log_index = i }) rows below out in simp (holder, put)

  pub append-unreadable :
      (m : Dict ℕ) (s : LogState) (e : Envelope) (v : Served)
      → Kept file m s
      → v.readable ≡ false
      → append file keys key_id now s e v ≡ (failed index_failed, s)
  unfolding append
  append-unreadable m s e v k blind =
      ap (λ b. wait_begun file keys key_id now b s v) refused_here ∙ unfold wait_begun in refl
    where
      refused_here :
          begin_append file s.rows v.readable e.leaf_hash s.size (some e.row) s.log
          ≡ (refused index_failed, s.log)
      refused_here =
          let idle : lookup e.row.receipt_id s.log.pending ≡ none =
            unfold lookup in ap (lookup e.row.receipt_id) k.idle in
          unfold begin_append in
          unfold begin_locked in unfold begin_new in simp (k.holder, k.open_still, idle, blind)

  pub append-known :
      (m : Dict ℕ) (s : LogState) (e : Envelope) (v : Served) (c : Row)
      → Kept file m s
      → v.readable ≡ true
      → lookup_canonical e.row.receipt_id none s.rows ≡ some c
      → append file keys key_id now s e v
        ≡ (duplicate_result file keys key_id now s.log e.row.receipt_id c.log_index c.leaf_hash, s)
  unfolding append wait_begun lookup
  append-known m s e v c k sees found =
      ap
        (λ r.
          wait_begun file keys key_id now
            (begin_append file s.rows r e.leaf_hash s.size (some e.row) s.log) s v)
        sees
      ∙ ap (λ b. wait_begun file keys key_id now b s v)
          (begin-known s.rows e.leaf_hash s.size e.row c s.log k.holder k.open_still
            (ap (lookup e.row.receipt_id) k.idle) found)

  -- A receipt that is new is queued, and its entry resolved.
  pub append-queued :
      (m : Dict ℕ) (s : LogState) (e : Envelope) (v : Served) (reply : Reply) (rows : List Row)
      → Kept file m s
      → Extracted e
      → v.readable ≡ true
      → lookup_canonical e.row.receipt_id none s.rows ≡ none
      → resolve file keys key_id now
          (record s.log { pending = insert e.row.receipt_id s.size s.log.pending })
          e.row
          e.leaf_hash
          (index_in v.future s.size)
          v.writable
          s.rows
        ≡ (reply, rows)
      → append file keys key_id now s e v ≡ (reply, waited s e (grown v.future s.size) rows)
  unfolding append wait_begun lookup waited
  append-queued m s e v reply rows k x sees out done =
      ap
        (λ r.
          wait_begun file keys key_id now
            (begin_append file s.rows r e.leaf_hash s.size (some e.row) s.log) s v)
        sees
      ∙ ap (λ b. wait_begun file keys key_id now b s v)
          (begin-new s.rows e.leaf_hash s.size e.row s.log k.holder k.open_still
            (ap (lookup e.row.receipt_id) k.idle) out x.0)
      ∙ ap (λ r. (r.0, waited s e (grown v.future s.size) r.1)) done

  agrees-entered :
      (m : Dict ℕ) (s : LogState) (row : Row)
      → ((id : Bytes) → index_at (lookup_canonical id none s.rows) ≡ lookup id m)
      → row.duplicate_of ≡ none
      → lookup_canonical row.receipt_id none s.rows ≡ none
      → (id : Bytes)
      → index_at (lookup_canonical id none (s.rows ++ (row ∷ [])))
        ≡ lookup id ((row.receipt_id, row.log_index) ∷ m)
  unfolding lookup
  agrees-entered m s row agrees first out id = elim (Bool-cases (eqb row.receipt_id id)) [
    | inl same ↦
        let is : row.receipt_id ≡ id = (eqb_iff row.receipt_id id).0 same in
        let found = lookup-last_first row s.rows first out in
        let there : lookup_canonical id none (s.rows ++ (row ∷ [])) ≡ some row = cc (is, found) in
        ap index_at there ∙ rw same refl
    | inr other ↦ ap index_at (lookup-last_other id row s.rows other) ∙ agrees id ∙ rw other refl
  ]

  idle-waited :
      (m : Dict ℕ) (s : LogState) (e : Envelope) (size : ℕ) (rows : List Row)
      → Kept file m s
      → (waited s e size rows).log.pending ≡ []
  unfolding waited remove_pending
  idle-waited m s e size rows k =
      ap (λ q. remove e.row.receipt_id (insert e.row.receipt_id s.size q)) k.idle ∙ emptied
    where
      emptied : remove e.row.receipt_id (insert e.row.receipt_id s.size []) ≡ []
      emptied = unfold remove in unfold insert in rw (eqb_refl e.row.receipt_id) refl

  pub Kept-missed :
      (m : Dict ℕ) (s : LogState) (e : Envelope) (size : ℕ)
      → Kept file m s
      → s.size ≤ size
      → Kept file m (waited s e size s.rows)
  unfolding waited remove_pending
  Kept-missed m s e size k le = record {
    below =
        All-map (λ r. r.log_index < s.size) (λ r. r.log_index < size) s.rows
          (λ r lt. omega (arith, lt, le)) k.below;
    whole = k.whole;
    agrees = k.agrees;
    idle = idle-waited m s e size s.rows k;
    open_still = k.open_still;
    holder = k.holder;
  }

  pub Kept-entered :
      (m : Dict ℕ) (s : LogState) (e : Envelope)
      → Kept file m s
      → Extracted e
      → lookup_canonical e.row.receipt_id none s.rows ≡ none
      → Kept file
          ((e.row.receipt_id, s.size) ∷ m)
          (waited s e (s.size + 1) (s.rows ++ (new_row s e ∷ [])))
  unfolding waited remove_pending new_row
  Kept-entered m s e k x out = record {
    below =
        All-append (λ r. r.log_index < s.size + 1) s.rows (new_row s e ∷ [])
          (All-map (λ r. r.log_index < s.size) (λ r. r.log_index < s.size + 1) s.rows
            (λ r lt. omega (arith, lt)) k.below)
          (omega arith, tt);
    whole =
        All-append (λ r. WholeLeaf r.leaf_hash) s.rows (new_row s e ∷ []) k.whole
          ((e.leaf_hash, ap decode (sym x.0) ∙ decode-encode e.leaf_hash x.2, x.1), tt);
    agrees = agrees-entered m s (new_row s e) k.agrees refl out;
    idle = idle-waited m s e (s.size + 1) (s.rows ++ (new_row s e ∷ [])) k;
    open_still = k.open_still;
    holder = k.holder;
  }
