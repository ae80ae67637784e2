-- ===== src/Witness/Held.antt =====
-- internal/witness/store.go: what `Store.Head` returns after `Store.Record`, on every outcome of
-- the flush, in memory and on disk.
use behalf.Prelude.{
  ℕ, ◌≡◌, refl, sym, ◌⊎◌, inl, inr, Bool, true, false, Option, none, some, arith, if◌then◌else◌,
  ==_iff, Bool-cases, length, Bytes, eqb, eqb_iff, Dict, lookup, insert, lookup-insert,
  lookup-remove,
}
use behalf.Encoding.Hex
use behalf.Witness.Head.{Head, IsHash}
use behalf.Witness.Store.{
  open_store, flushed, failed_before_rename, failed_after_rename, Flush, after_flush, flush_locked,
  set_origins, empty_state, Store, record_head, roll_back, StateFile, OriginState, state_head,
  held_head, held_state, next_state, hash_of,
}

-- A head that is stored is read back.
state_head-next_state :
    (prev : Option OriginState) (h : Head) (cosigned : Bytes) (at : ℕ)
    → IsHash h.root
    → state_head (next_state prev h cosigned at) ≡ some h
unfolding state_head next_state hash_of
state_head-next_state prev h cosigned at v =
    rw (Hex.decode-encode h.root v.bytes) (rw ((==_iff (length h.root) 32).1 v.width))

held_head_lem : (st : StateFile) (o : Bytes) → held_head st o ≡ held_state (lookup o st.origins)
unfolding held_head
held_head_lem st o = refl

-- The head of one origin is replaced, and no other is touched.
held_head-insert :
    (st : StateFile) (o j : Bytes) (h : Head) (prev : Option OriginState) (cosigned : Bytes)
    (at : ℕ)
    → IsHash h.root
    → held_head (record st { origins = insert o (next_state prev h cosigned at) st.origins }) j
      ≡ (if eqb o j then some h else held_head st j)
held_head-insert st o j h prev cosigned at v =
    rw (held_head_lem, lookup-insert)
      (elim (Bool-cases (eqb o j)) [
        | inl e ↦ rw e (unfold held_state in state_head-next_state prev h cosigned at v)
        | inr e ↦ rw e (sym (held_head_lem st j))
      ])

-- The roll back undoes the insertion, at every origin.
lookup-roll_back :
    (m : Dict OriginState) (o j : Bytes) (x : OriginState)
    → lookup j (roll_back (lookup o m) o (insert o x m)) ≡ lookup j m
lookup-roll_back m o j x = go (lookup o m) refl
  where
    go :
        (prev : Option OriginState)
        → lookup o m ≡ prev
        → lookup j (roll_back prev o (insert o x m)) ≡ lookup j m
    go none e =
        unfold roll_back in rw (lookup-remove, lookup-insert) (ground (arith, eqb_iff o j, e))
    go (some prev) e =
        unfold roll_back in rw (lookup-insert, lookup-insert) (ground (arith, eqb_iff o j, e))

-- What a reader of the state sees: the head of each origin.
abbrev pub View : Type 0
View = Bytes → Option Head

-- The state file that a restart reads; without one the witness starts empty.
abbrev pub disk_state : Option StateFile → StateFile
disk_state none = empty_state
disk_state (some st) = st

-- One origin has a new head, and the others are as before.
pub record Moved (o : Bytes) (h : Head) (before after : View) : Type 0 where
  pub at : (j : Bytes) → after j ≡ (if eqb o j then some h else before j)

-- Every origin is as before.
pub record Kept (before after : View) : Type 0 where
  pub at : (j : Bytes) → after j ≡ before j

-- The two states after `Record`: memory moves exactly when the flush succeeds, and otherwise is as
-- before; the disk has moved or is as before.
pub record Recorded (o : Bytes) (h : Head) (before after : Store) (done : Bool) : Type 0 where
  pub memory_moved : done ≡ true → Moved o h (held_head before.st) (held_head after.st)
  pub disk_moved : done ≡ true → Moved o h (held_head before.st) (held_head (disk_state after.disk))
  pub memory_kept : done ≡ false → Kept (held_head before.st) (held_head after.st)
  pub disk_either :
      Moved o h (held_head before.st) (held_head (disk_state after.disk))
      ⊎ Kept (held_head (disk_state before.disk)) (held_head (disk_state after.disk))

-- After `Record` of a head with a root of 32 bytes the memory has the new head exactly when the flush
-- succeeded, and otherwise is as before; the disk has the new head or is as before.
pub record_head-Recorded :
    (s : Store) (o : Bytes) (h : Head) (cosigned : Bytes) (at : ℕ) (fl : Flush)
    → IsHash h.root
    → Recorded o h s (record_head s o h cosigned at fl).0 (record_head s o h cosigned at fl).1
unfolding record_head set_origins flush_locked after_flush
record_head-Recorded s o h cosigned at flushed v = record {
  memory_moved = λ e. record { at = λ j. held_head-insert s.st o j h _ cosigned at v };
  disk_moved = λ e. record { at = λ j. held_head-insert s.st o j h _ cosigned at v };
  memory_kept = λ e. cc;
  disk_either = inl (record { at = λ j. held_head-insert s.st o j h _ cosigned at v });
}
record_head-Recorded s o h cosigned at failed_before_rename v = record {
  memory_moved = λ e. cc;
  disk_moved = λ e. cc;
  memory_kept = λ e. record { at = λ j. simp (held_head_lem, lookup-roll_back) };
  disk_either = inr (record { at = λ j. refl });
}
record_head-Recorded s o h cosigned at failed_after_rename v = record {
  memory_moved = λ e. cc;
  disk_moved = λ e. cc;
  memory_kept = λ e. record { at = λ j. simp (held_head_lem, lookup-roll_back) };
  disk_either = inl (record { at = λ j. held_head-insert s.st o j h _ cosigned at v });
}

-- A state file that opens is the state in memory, and stays as it is.
pub open_store-same :
    (d : Option StateFile) (s : Store)
    → open_store d ≡ some s
    → (s.st ≡ disk_state d) × (disk_state s.disk ≡ disk_state d)
unfolding open_store
open_store-same none s e = (sym (ap_st e), sym (ap_disk e))
  where
    ap_st : some (record { st = empty_state; disk = none }) ≡ some s → empty_state ≡ s.st
    ap_st e = cc

    ap_disk :
        some (record { st = empty_state; disk = none }) ≡ some s → empty_state ≡ disk_state s.disk
    ap_disk e = ground arith
open_store-same (some st) s e = (ground arith, ground arith)
