-- ===== src/Tlog/Append/Tests.antt =====
-- internal/tlog: keys whose signature is the message, and appends of two receipts.
use behalf.Prelude.{
  ℕ, ◌≡◌, refl, ap, true, false, none, some, List, [], ◌∷◌, ◌++◌, arith, length, get_elem?, take,
  drop, some_inj, replicate, Bytes, codes, eqb, eqb_refl, lookup,
}
use behalf.Encoding.Hex.{encode, hex_digit}
use behalf.Prelude.Int.{pos}
use behalf.Index.Rows.{Row, lookup_canonical}
use behalf.Tlog.Epoch.{
  EpochFile, Claim, absent, holds, check_epoch, claim_all, claim_epoch, claim_from, next_record,
  write_epoch, add_holder, read_epoch, epoch_of,
}
use behalf.Tlog.Promise.{
  Keys, Promise, SignedPromise, new_promise, sign_promise, sign_statement, verify_promise,
  verify_promise-sign_promise,
}
use behalf.Tlog.Append.{
  append_failed, index_failed, Fault, failed, Log, refused, begun, queued, begin_append, resolve,
  resolve_behind,
}
use behalf.Tlog.Append.Fenced.{NothingDone, older-nothing}
use behalf.Tlog.Append.Sequence.{
  integrated, rejected, Served, Envelope, answer_of, first_of, receipts_of,
}
use behalf.Tlog.Append.Race.{settled, append-twice}

pack : Bytes → Bytes → Bytes
pack s t = length s ∷ (s ++ t)

unpack : Bytes → Bytes × Bytes
unpack [] = ([], [])
unpack (n ∷ s) = (take n s, drop n s)

take-length : (s t : Bytes) → take (length s) (s ++ t) ≡ s
take-length [] t = refl
take-length (c ∷ s) t = ap (◌∷◌ c) (take-length s t)

drop-length : (s t : Bytes) → drop (length s) (s ++ t) ≡ t
drop-length [] t = refl
drop-length (c ∷ s) t = drop-length s t

unpack-pack : (s t : Bytes) → unpack (pack s t) ≡ (s, t)
unfolding unpack pack
unpack-pack s t = cc (take-length s t, drop-length s t)

first_or_zero : Bytes → ℕ
first_or_zero [] = 0
first_or_zero (c ∷ s) = c

written : Promise → Bytes
written p = pack p.v (pack p.receipt_id (pack p.leaf_hash (pack p.issued_at (p.mmd_sec ∷ []))))

read_back : Bytes → Promise
read_back s =
    let (v, s1) = unpack s in
    let (id, s2) = unpack s1 in
    let (leaf, s3) = unpack s2 in
    let (at, s4) = unpack s3 in
    record { v = v; receipt_id = id; leaf_hash = leaf; issued_at = at; mmd_sec = first_or_zero s4 }

read_back-written : (p : Promise) → read_back (written p) ≡ p
unfolding read_back written first_or_zero
read_back-written p =
    rw
      (
        unpack-pack p.v _,
        unpack-pack p.receipt_id _,
        unpack-pack p.leaf_hash _,
        unpack-pack p.issued_at _,
      )
      refl

keys : Keys
keys = record {
  ed25519_sign = λ m. m;
  ed25519_verify = λ m s. eqb m s;
  marshal = λ p. some (written p);
  unmarshal = λ s. some (read_back s);
  verify_sign = λ m. eqb_refl m;
  unmarshal_marshal = λ p s ok e. cc (some_inj e, read_back-written p);
}

signs :
    (id leaf : Bytes)
    → (sp : SignedPromise) × (sign_promise keys [] (new_promise id leaf []) ≡ some sp)
unfolding sign_promise sign_statement new_promise keys eqb
signs id leaf = (_, refl)

abbrev leaf_of : ℕ → Bytes
leaf_of n = replicate 32 n

abbrev nothing : Bytes
nothing = []

row_of : Bytes → ℕ → Row
row_of id n = record {
  log_index = 0;
  receipt_id = id;
  leaf_hash = encode (leaf_of n);
  kind = nothing;
  run_id = nothing;
  run_id_provenance = nothing;
  trace_id = nothing;
  session_id = nothing;
  txn = nothing;
  acti = nothing;
  conversation_id = nothing;
  captured_at = nothing;
  emitter_jkt = nothing;
  emitter_counter = pos 0;
  actor_jkt = nothing;
  operation_name = nothing;
  operation_target = nothing;
  outcome_status = nothing;
  attribution_verification = nothing;
  attribution_class = nothing;
  step_key = nothing;
  duplicate_of = none;
}

envelope_of : Bytes → ℕ → Envelope
envelope_of id n = record { row = row_of id n; leaf_hash = leaf_of n }

abbrev file : EpochFile
file = holds record { epoch = 7; pid = 1; started_at = [] }

holder : check_epoch file 7 ≡ true
unfolding check_epoch read_epoch
holder = refl

abbrev serves : Served
serves = record { readable = true; future = integrated; writable = true }

five : List (Envelope × Served)
five =
    (envelope_of (codes "a") 1, serves)
    ∷ (envelope_of (codes "b") 2, record serves { writable = false })
    ∷ (envelope_of (codes "a") 3, serves)
    ∷ (envelope_of (codes "b") 2, record serves { future = rejected })
    ∷ (envelope_of (codes "b") 2, serves)
    ∷ []

promised_answers :
    first_of [] 0 (receipts_of five)
    ≡ some (0, false) ∷ none ∷ some (0, true) ∷ none ∷ some (2, false) ∷ []
unfolding five envelope_of row_of lookup eqb
promised_answers = refl

abbrev idle : Log
idle = record { epoch = 7; pending = []; closed = false }

append-twice_example :
    ((l' : Log) × (begin_append file [] true
          (leaf_of 1)
          1
          (some (row_of (codes "a") 1))
          (settled file (row_of (codes "a") 1) 0 idle)
        ≡ (begun (queued (row_of (codes "a") 1) (leaf_of 1)), l')))
    × (answer_of
          (resolve file keys [] [] idle (row_of (codes "a") 1) (leaf_of 1) (some 1) true []).0
        ≡ some (1, false))
    × (resolve file keys [] [] idle
          (row_of (codes "a") 1)
          (leaf_of 1)
          (some 0)
          true
          (resolve file keys [] [] idle (row_of (codes "a") 1) (leaf_of 1) (some 1) true []).1
        ≡ (
          failed index_failed,
          record (row_of (codes "a") 1) { log_index = 1; duplicate_of = none } ∷ [],
        ))
append-twice_example =
    append-twice file keys [] [] signs idle (row_of (codes "a") 1) (leaf_of 1) [] 0 1 0 1 holder
      refl tt (omega arith) (unfold lookup_canonical in refl) (unfold row_of in refl)

abbrev claim : Claim
claim = record { pid = 1; at = nothing; locked = true; written = true }

older_first : get_elem? (claim_all absent (claim ∷ claim ∷ [])).1 1 ≡ some 1
unfolding claim_all claim_epoch claim_from next_record write_epoch add_holder read_epoch
older_first = refl

older_log : Log
older_log = record idle { epoch = 1 }

older_at : get_elem? (claim_all absent (claim ∷ claim ∷ [])).1 1 ≡ some older_log.epoch
unfolding older_log
older_at = older_first

older-nothing_example :
    ((f : Fault) × (begin_append
          (claim_all absent (claim ∷ claim ∷ [])).0
          []
          true
          (leaf_of 1)
          0
          (some (row_of (codes "a") 1))
          older_log
        ≡ (refused f, older_log)))
    × NothingDone [] (
        resolve
          (claim_all absent (claim ∷ claim ∷ [])).0
          keys
          []
          []
          older_log
          (row_of (codes "a") 1)
          (leaf_of 1)
          (some 0)
          true
          [])
    × ((f : Fault) × (resolve_behind
            (claim_all absent (claim ∷ claim ∷ [])).0
            keys
            []
            []
            older_log
            (row_of (codes "a") 1)
            (failed append_failed)
          ≡ failed f))
older-nothing_example =
    older-nothing absent (claim ∷ claim ∷ []) 0 keys [] [] older_log (row_of (codes "a") 1)
      (some (row_of (codes "a") 1)) (leaf_of 1) (some 0) true [] 0 (failed append_failed)
      (unfold epoch_of in omega arith) older_at

verify_promise-sign_promise_example :
    verify_promise keys (signs (codes "a") (1 ∷ [])).0 ≡ some (new_promise (codes "a") (1 ∷ []) [])
verify_promise-sign_promise_example =
    verify_promise-sign_promise keys [] (codes "a") (1 ∷ []) [] (signs (codes "a") (1 ∷ [])).0
      (omega arith, tt) (unfold encode hex_digit in (omega arith, (omega arith, tt))) tt
      (signs (codes "a") (1 ∷ [])).1
