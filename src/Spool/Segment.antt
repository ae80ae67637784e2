-- ===== src/Spool/Segment.antt =====
-- internal/spool/spool.go: segment files, and `scanSegment`.
pub mod Rest
pub mod Tail
use behalf.Prelude.{
  ℕ, ◌+◌, Bool, true, false, Option, none, some, List, [], ◌∷◌, ◌++◌, ◌==◌, if◌then◌else◌, length,
  take, drop, Bytes,
}
use behalf.Prelude.Int.{ℤ}

pub record Emitter : Type 0 where
  pub jkt : Bytes
  pub counter : ℤ

pub record Intent : Type 0 where
  pub intent_id : Bytes
  pub intent_digest : Bytes
  pub tool : Bytes
  pub target : Bytes
  pub captured_at : Bytes
  pub emitter : Emitter
  pub run_id : Bytes
  pub run_id_provenance : Bytes
  pub step_key : Bytes
  pub risk_class : Bytes
  pub risk_policy_digest : Bytes
  pub input_digest : Bytes
  pub input_size : ℤ
  pub chain_ref : Bytes

pub record Completion : Type 0 where
  pub intent_id : Bytes
  pub receipt_id : Bytes
  pub envelope : Bytes

-- encoding/json on one record: its type, the intent, the intent's id in a completion, and the
-- completion with the span of its envelope.
pub record Codec : Type 0 where
  pub record_type : Bytes → Option Bytes
  pub intent_of : Bytes → Option Intent
  pub completion_intent_id : Bytes → Option Bytes
  pub parse_completion : Bytes → Option Completion

-- The `.cursor` file beside a segment, as `readCursor` finds it; `writeCursor` writes no negative offset.
pub data Cursor : Type 0 where
  no_cursor : Cursor
  bad_cursor : Cursor
  cursor_at : ℕ → Cursor

-- A segment file: `live` while a writer holds its lock, `done` once it is renamed.
pub record Segment : Type 0 where
  pub content : Bytes
  pub live : Bool
  pub cursor : Cursor
  pub done : Bool

-- How a segment is read: to its end; not at all, where it cannot be opened or sought; or up to an offset.
pub data Reading : Type 0 where
  reads_all : Reading
  not_opened : Reading
  reads_until : ℕ → Reading

-- How the file system serves one segment: its reading, and whether the cursor is written, the lock can
-- be tried and the file's size be read, and the file renamed.
pub record Disk : Type 0 where
  pub reading : Reading
  pub written : Bool
  pub tried : Bool
  pub renamed : Bool

-- `segments`: the files that are not renamed. A directory is the list of its segments by name.
unfoldable pub segments : List Segment → List Segment
segments [] = []
segments (s ∷ dir) = let rest = segments dir in if s.done then rest else s ∷ rest

emit : ℕ → Bytes → List (ℕ × Bytes) → List (ℕ × Bytes)
emit end' [] records = records
emit end' (c ∷ rec) records = (end', c ∷ rec) ∷ records

-- The loop of `scanSegment`: the offset where the line begins, the line so far, and what is to be read.
unfoldable pub scan_from : ℕ → Bytes → Bytes → List (ℕ × Bytes)
unfolding emit
scan_from off line [] = []
scan_from off line (c ∷ rest) =
    let after = off + length line + 1 in
    let next = scan_from after [] rest in
    let more = scan_from off (line ++ (c ∷ [])) rest in
    if c == b'\n' then emit after line next else more

-- The records that are complete, each with the offset of its end.
unfoldable pub scan_records : Bytes → ℕ → List (ℕ × Bytes)
unfolding scan_from
scan_records content start = scan_from start [] (drop start content)

-- `scanSegment`: the records that are given to the callback, and whether the scan met no error of its
-- own. A line that a read error cuts off is not given.
unfoldable pub scan_segment : Reading → Bytes → ℕ → List (ℕ × Bytes) × Bool
unfolding scan_records
scan_segment reads_all content start = (scan_records content start, true)
scan_segment not_opened content start = ([], false)
scan_segment (reads_until n) content start = (scan_records (take n content) start, false)

-- `readCursor`.
unfoldable pub read_cursor : Cursor → Option ℕ
read_cursor no_cursor = some 0
read_cursor bad_cursor = none
read_cursor (cursor_at n) = some n
