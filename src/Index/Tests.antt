-- ===== src/Index/Tests.antt =====
-- internal/index/index.go: three leaves, of which two hold one receipt.
use behalf.Prelude.{ℕ, ◌≡◌, refl, none, some, List, [], ◌∷◌, arith, Bytes, codes, eqb}
use behalf.Prelude.Int.{pos}
use mathlib.Core.List.{Memᴰ}
use behalf.Index.Rows.{
  Row, is_canonical, lookup_canonical, taken, replace, upsert, record_row, record_all,
}
use behalf.Index.Rows.Lookup.{IsFirst}
use behalf.Index.Rows.Canonical.{Original, record_all-Original}

program : Unit {0}
unfolding is_canonical lookup_canonical taken replace upsert record_row record_all IsFirst eqb
program = tt

abbrev leaf : ℕ → Bytes → Row
leaf i receipt = record {
  log_index = i;
  receipt_id = receipt;
  leaf_hash = [];
  kind = [];
  run_id = codes "r";
  run_id_provenance = [];
  trace_id = [];
  session_id = [];
  txn = [];
  acti = [];
  conversation_id = [];
  captured_at = [];
  emitter_jkt = [];
  emitter_counter = pos 0;
  actor_jkt = [];
  operation_name = [];
  operation_target = [];
  outcome_status = [];
  attribution_verification = [];
  attribution_class = [];
  step_key = [];
  duplicate_of = none;
}

abbrev log : List Row
log = leaf 0 (codes "a") ∷ leaf 1 (codes "b") ∷ leaf 4 (codes "a") ∷ []

abbrev again : Row
again = record (leaf 4 (codes "a")) { duplicate_of = some 0 }

abbrev log_rows : List Row
log_rows = leaf 0 (codes "a") ∷ leaf 1 (codes "b") ∷ again ∷ []

recorded : record_all log [] ≡ some log_rows
unfolding program
recorded = refl

again_stored : Memᴰ again log_rows
again_stored = Memᴰ.tail (Memᴰ.tail (Memᴰ.head refl))

record_all-Original_example : Original log_rows (codes "a") 4 0
record_all-Original_example =
    record_all-Original log log_rows again 0 (omega arith, (omega arith, (omega arith, tt)))
      recorded again_stored refl
