-- ===== src/Witness/Tests.antt =====
-- internal/witness: a log whose checkpoints are submitted twice and grown, with a restart between.
use behalf.Prelude.{
  ℕ, ◌≡◌, refl, ap, ◌∙◌, ◌↔◌, Bool, false, none, some, List, [], ◌∷◌, ◌++◌, arith, get_elem?, drop,
  Bytes, codes, eqb, Dict, lookup, insert, remove,
}
use behalf.Encoding.Hex
use behalf.Encoding.Base64
use behalf.Witness.Head.{Head, zero_root, IsHash, ok, err, fork_at_size, refused}
use behalf.Witness.Store.{
  held_state, roll_back, after_flush, flush_locked, set_origins, next_state, hash_of, state_head,
  empty_state, flushed, failed_after_rename, record_head, open_store, held_head,
}
use behalf.Witness.Held.{Recorded, record_head-Recorded}
use behalf.Witness.Chain.{Chain}
use behalf.Witness.Prepares.{Ready, prepare-Ready}
use behalf.Encoding.Text.{split_line, split_lines, parse_uint}
use behalf.Witness.Note.{origin_line, parse_body, is_print, parse_body-IsHash}
use behalf.Witness.Cosign.{
  Env, Witness, cosign, prepare, check_consistent, persist, parse, admit, cosign_text, is_empty,
  opened, refuse, verifier_for,
}
use behalf.Witness.Register.{new_witness, add_logs, add_log, Registered, new_witness-Registered}
use behalf.Witness.History.{Event, submit, restart, run, fresh, step, submitted, sign, reopen}
use behalf.Witness.Safety.{signed-Chain, no_split_view}

program : Unit {0}
unfolding new_witness add_logs add_log run step submitted sign reopen cosign persist prepare parse
    origin_line split_line lookup eqb parse_body split_lines parse_uint Base64.decode admit
    cosign_text insert state_head Hex.decode Hex.encode Hex.hex_value Hex.hex_digit check_consistent
    is_empty opened refuse verifier_for is_print hash_of record_head next_state set_origins
    flush_locked after_flush roll_back remove open_store held_head held_state
program = tt

-- A proof is the root that it leads to.
abbrev proves : List Bytes → Bytes → Bool
proves [] root = false
proves (p ∷ ps) root = eqb p root

abbrev env : Env ℕ
env = record {
  new_verifier = λ key. some 0;
  name = λ v. codes "log";
  trim_space = λ s. s;
  open_note = λ checkpoint v. some checkpoint;
  sign_note = λ now text. some (text ++ codes "\nsig\n");
  verify_consistency = λ size1 size2 proof root1 root2. proves proof root2;
}

abbrev one_root : Bytes
one_root = 4 ∷ drop 1 zero_root

abbrev first : Bytes
first = codes "log\n1\nAAAAAAAAAAAAAAAAAAAAAAAAAAAAAAAAAAAAAAAAAAA=\n"

abbrev second : Bytes
second = codes "log\n2\nBAAAAAAAAAAAAAAAAAAAAAAAAAAAAAAAAAAAAAAAAAA=\n"

abbrev head_1 : Head
head_1 = record { size = 1; root = zero_root }

abbrev head_2 : Head
head_2 = record { size = 2; root = one_root }

abbrev logs : Dict ℕ
logs = (codes "log", 0) ∷ []

abbrev events : List Event
events =
    submit first [] 5 flushed
    ∷ restart
    ∷ submit second (one_root ∷ []) 6 flushed
    ∷ submit second [] 7 failed_after_rename
    ∷ submit second [] 8 flushed
    ∷ []

all_signed :
    (run env (fresh logs) events).signed
    ≡ (codes "log", head_2) ∷ (codes "log", head_2) ∷ (codes "log", head_1) ∷ []
unfolding program
all_signed = refl

fork :
    check_consistent env (codes "log") head_1 (record { size = 1; root = one_root }) []
    ≡ err (
        refused (record {
          reason = fork_at_size;
          origin = codes "log";
          held = head_1;
          offered = record { size = 1; root = one_root };
        }))
unfolding program
fork = refl

at_place :
    (i : ℕ) (e : Bytes × Head)
    → get_elem? ((codes "log", head_2) ∷ (codes "log", head_2) ∷ (codes "log", head_1) ∷ []) i
      ≡ some e
    → get_elem? (run env (fresh logs) events).signed i ≡ some e
at_place i e at = ap (λ l. get_elem? l i) all_signed ∙ at

signed-Chain_example : Chain env head_1 head_2
signed-Chain_example =
    signed-Chain env logs events 1 2 (codes "log") head_2 head_1 (omega arith)
      (at_place 1 (codes "log", head_2) refl) (at_place 2 (codes "log", head_1) refl)

no_split_view_example : head_2 ≡ head_2
no_split_view_example =
    no_split_view env logs events 0 1 (codes "log") head_2 head_2
      (at_place 0 (codes "log", head_2) refl) (at_place 1 (codes "log", head_2) refl) refl

abbrev witness : Witness ℕ
witness = record { logs = logs; store = record { st = empty_state; disk = none } }

first_prepared : prepare env witness first [] 5 ≡ ok (codes "log", head_1, codes "sig\n")
unfolding program
first_prepared = refl

prepare-Ready_example :
    prepare env witness first [] 5 ≡ ok (codes "log", head_1, codes "sig\n")
    ↔ Ready env witness first [] 5 (codes "log") head_1 (codes "sig\n")
prepare-Ready_example = prepare-Ready env witness first [] 5 (codes "log") head_1 (codes "sig\n")

first_parsed : parse_body first ≡ ok head_1
unfolding program
first_parsed = refl

zero_root-IsHash : IsHash zero_root
zero_root-IsHash = parse_body-IsHash first head_1 first_parsed

record_head-Recorded_example :
    Recorded
      (codes "log")
      head_1
      witness.store
      (record_head witness.store (codes "log") head_1 first 5 failed_after_rename).0
      (record_head witness.store (codes "log") head_1 first 5 failed_after_rename).1
record_head-Recorded_example =
    record_head-Recorded witness.store (codes "log") head_1 first 5 failed_after_rename
      zero_root-IsHash

abbrev log_vkeys : List Bytes
log_vkeys = [] ∷ codes "key" ∷ []

set_up : new_witness env (record { st = empty_state; disk = none }) log_vkeys ≡ some witness
unfolding program
set_up = refl

log_registered : lookup (codes "log") witness.logs ≡ some 0
unfolding program
log_registered = refl

new_witness-Registered_example : Registered env log_vkeys (codes "log") 0
new_witness-Registered_example =
    new_witness-Registered env witness.store log_vkeys witness (codes "log") 0 set_up log_registered
