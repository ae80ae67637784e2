-- ===== src/Witness/Store.antt =====
-- internal/witness/store.go: the heads that the witness holds, in memory and on disk.
use behalf.Prelude.{
  ℕ, ◌+◌, ◌%◌, Bool, true, false, Option, none, some, [], ◌∷◌, ◌==◌, if◌then◌else◌, length, Bytes,
  codes, eqb, Dict, lookup, insert, remove,
}
use behalf.Encoding.Hex
use behalf.Encoding.Base64
use behalf.Encoding.Text.{uint64_mod}
use behalf.Witness.Head.{Head}

pub record OriginState : Type 0 where
  pub size : ℕ
  pub root : Bytes
  pub cosigned_at : ℕ
  pub cosignatures : ℕ
  pub checkpoint : Bytes

abbrev pub state_version : Bytes
state_version = codes "behalf.sh/witness/state/v1"

pub record StateFile : Type 0 where
  pub version : Bytes
  pub origins : Dict OriginState

abbrev pub empty_state : StateFile
empty_state = record { version = state_version; origins = [] }

unfoldable pub hash_of : ℕ → Option Bytes → Option Head
hash_of size none = none
hash_of size (some raw) =
    if length raw == 32 then some (record { size = size; root = raw }) else none

-- `OriginState.Head`: the stored root must be the hexadecimal form of 32 bytes.
unfoldable pub state_head : OriginState → Option Head
unfolding hash_of
state_head o = hash_of o.size (Hex.decode o.root)

-- What is in memory, and the state file, if there is one.
pub record Store : Type 0 where
  pub st : StateFile
  pub disk : Option StateFile

roots_valid : Dict OriginState → Bool
roots_valid [] = true
roots_valid ((origin, o) ∷ rest) = elim (state_head o) [ none ↦ false | some h ↦ roots_valid rest ]

-- `OpenStore`: `none` is a refused state file.
unfoldable pub open_store : Option StateFile → Option Store
unfolding roots_valid
open_store none = some (record { st = empty_state; disk = none })
open_store (some loaded) =
    if eqb loaded.version state_version
    then (if roots_valid loaded.origins
        then some (record { st = loaded; disk = some loaded })
        else none)
    else none

unfoldable pub held_state : Option OriginState → Option Head
held_state none = none
held_state (some o) = state_head o

-- `Store.Head`; a stored root that does not decode reads as never seen.
unfoldable pub held_head : StateFile → Bytes → Option Head
unfolding held_state
held_head st origin = held_state (lookup origin st.origins)

-- How far `flushLocked` comes: up to the rename nothing that a reader opens has changed; after it
-- the directory's fsync can still fail.
pub data Flush : Type 0 where
  flushed failed_before_rename failed_after_rename : Flush

unfoldable pub flush_locked : Flush → Store → Store × Bool
flush_locked flushed s = (record s { disk = some s.st }, true)
flush_locked failed_before_rename s = (s, false)
flush_locked failed_after_rename s = (record s { disk = some s.st }, false)

next_count : Option OriginState → ℕ
next_count none = 1
next_count (some prev) = (prev.cosignatures + 1) % uint64_mod

unfoldable pub next_state : Option OriginState → Head → Bytes → ℕ → OriginState
unfolding next_count
next_state prev h cosigned at = record {
  size = h.size;
  root = Hex.encode h.root;
  cosigned_at = at;
  cosignatures = next_count prev;
  checkpoint = Base64.encode cosigned;
}

unfoldable pub set_origins : Store → Dict OriginState → Store
set_origins s origins = record s { st = record s.st { origins = origins } }

-- The entry of the origin is put back, or deleted if there was none.
unfoldable pub roll_back : Option OriginState → Bytes → Dict OriginState → Dict OriginState
roll_back none origin m = remove origin m
roll_back (some prev) origin m = insert origin prev m

unfoldable pub after_flush : Option OriginState → Bytes → Store × Bool → Store × Bool
unfolding roll_back
after_flush prev origin (s, true) = (s, true)
after_flush prev origin (s, false) = (set_origins s (roll_back prev origin s.st.origins), false)

-- `Store.Record`: the new state of the origin in memory, the flush, and the head before in memory
-- again if the flush fails.
unfoldable pub record_head : Store → Bytes → Head → Bytes → ℕ → Flush → Store × Bool
unfolding next_state set_origins flush_locked after_flush
record_head s origin h cosigned at flush =
    let prev = lookup origin s.st.origins in
    let next = next_state prev h cosigned at in
    after_flush prev origin (flush_locked flush (set_origins s (insert origin next s.st.origins)))
