-- ===== src/Spool/Tests.antt =====
-- internal/spool/spool.go: a pass over three segments, with a sink that takes two completions.
use behalf.Prelude.{
  ℕ, zero, suc, ◌≡◌, refl, ◌↔◌, ◌⊎◌, inl, inr, Bool, true, false, Option, none, some, List, [], ◌∷◌,
  ◌++◌, ◌==◌, if◌then◌else◌, drop, Bytes, codes, eqb,
}
use mathlib.Core.List.{Memᴰ}
use behalf.Prelude.Int.{pos}
use behalf.Spool.Recover.{
  mem_id, note_type, note_records, note_segment, note_segments, orphans_of, recover,
}
use behalf.Spool.Recover.Orphans.{all_intents, all_closed, recover-orphans}
use behalf.Spool.Segment.Tail.{torn}
use behalf.Spool.Writer.{Served, Writer, append_line, rotate, write_line}
use behalf.Spool.Writer.Acked.{append_line-reads}
use behalf.Spool.Segment.{
  Intent, Completion, Codec, no_cursor, Segment, segments, reads_all, reads_until, Disk,
  scan_segment, scan_from, scan_records, read_cursor,
}
use behalf.Spool.Recover.{type_intent, type_completion}
use behalf.Spool.Drain.{
  give, drain_type, after_record, drain_records, scan_completions, move_cursor, mark_done,
  settle_segment, drain_segment, go_on, keep_done, drain_from, drain,
}
use behalf.Spool.Drain.Delivery.{all_pending, drain-keeps}
use behalf.Spool.Drain.DonePrefix.{DonePrefix, drain-DonePrefix}

program : Unit {0}
unfolding segments scan_from scan_records scan_segment note_segment read_cursor give drain_type
    after_record drain_records scan_completions move_cursor mark_done settle_segment drain_segment
    go_on keep_done drain_from drain eqb DonePrefix note_type note_records note_segments orphans_of
    recover mem_id
program = tt

completion_of : Bytes → Completion
completion_of s = record { intent_id = s; receipt_id = s; envelope = s }

type_of : Bytes → Option Bytes
type_of [] = none
type_of (c ∷ s) = if c == b'c' then some type_completion else some type_intent

abbrev nothing : Bytes
nothing = []

intent_of_id : Bytes → Intent
intent_of_id id = record {
  intent_id = id;
  intent_digest = nothing;
  tool = nothing;
  target = nothing;
  captured_at = nothing;
  emitter = record { jkt = nothing; counter = pos 0 };
  run_id = nothing;
  run_id_provenance = nothing;
  step_key = nothing;
  risk_class = nothing;
  risk_policy_digest = nothing;
  input_digest = nothing;
  input_size = pos 0;
  chain_ref = nothing;
}

codec : Codec
codec = record {
  record_type = type_of;
  intent_of = λ rec. some (intent_of_id rec);
  completion_intent_id = λ rec. some (codes "i" ++ drop 1 rec);
  parse_completion = λ rec. some (completion_of rec);
}

take_one : ℕ → Completion → ℕ × Bool
take_one zero c = (zero, false)
take_one (suc n) c = (n, true)

abbrev newline : Bytes
newline = 10 ∷ []

abbrev file_of : Bytes → Bool → Bool → Segment
file_of content live done = record {
  content = content;
  live = live;
  cursor = no_cursor;
  done = done;
}

abbrev dir : List Segment
dir =
    file_of (codes "c0" ++ newline) false true
    ∷ file_of (codes "i1" ++ newline ++ codes "c1" ++ newline ++ codes "c2" ++ newline) false false
    ∷ file_of (codes "c3" ++ newline ++ codes "c4") true false
    ∷ []

abbrev served : ℕ → Disk
served n = record { reading = reads_all; written = true; tried = true; renamed = true }

two_taken :
    (drain codec take_one true served dir 2).accepted
    ≡ completion_of (codes "c1") ∷ completion_of (codes "c2") ∷ []
unfolding program codec type_of take_one
two_taken = refl

-- A read error in the second record of the second segment.
cut_short : ℕ → Disk
cut_short n = record { reading = reads_until 7; written = true; tried = true; renamed = true }

one_taken : (drain codec take_one true cut_short dir 2).accepted ≡ completion_of (codes "c1") ∷ []
unfolding program codec type_of take_one cut_short
one_taken = refl

third : Completion
third = completion_of (codes "c3")

third_pending : Memᴰ third (all_pending codec dir)
unfolding program codec type_of third
third_pending = Memᴰ.tail (Memᴰ.tail (Memᴰ.head refl))

drain-keeps_example :
    Memᴰ third (drain codec take_one true served dir 2).accepted
    ⊎ Memᴰ third (all_pending codec (drain codec take_one true served dir 2).dir)
drain-keeps_example = drain-keeps codec take_one true served dir 2 third third_pending

one_done : DonePrefix dir
unfolding program
one_done = inl (refl, inr (refl, (refl, tt)))

drain-DonePrefix_example : DonePrefix (drain codec take_one true served dir 2).dir
drain-DonePrefix_example = drain-DonePrefix codec take_one true served dir 2 one_done

-- The first intent is completed in the last segment, the second is an orphan, the third in flight.
abbrev calls : List Segment
calls =
    file_of (codes "i1" ++ newline ++ codes "i2" ++ newline) false false
    ∷ file_of (codes "i3" ++ newline ++ codes "c1" ++ newline) true false
    ∷ []

one_orphan : recover codec true served calls ≡ some (intent_of_id (codes "i2") ∷ [])
unfolding program codec type_of intent_of_id
one_orphan = refl

recover-orphans_example : Memᴰ (intent_of_id (codes "i2")) (intent_of_id (codes "i2") ∷ []) ↔ (
    Memᴰ (intent_of_id (codes "i2"), false) (all_intents codec (segments calls))
    × (mem_id (intent_of_id (codes "i2")).intent_id (all_closed codec (segments calls)) ≡ false))
recover-orphans_example =
    recover-orphans codec true served calls (intent_of_id (codes "i2") ∷ [])
      (intent_of_id (codes "i2")) one_orphan

abbrev all_served : Served
all_served = record { sealed = true; opened = true; cut = none; synced = true }

abbrev writer : Writer
writer = record {
  max = 8;
  before = [];
  seg = some (codes "i1" ++ newline);
  written = 3;
  closed = false;
}

acked : (append_line all_served writer (codes "c1" ++ newline)).1 ≡ true
unfolding append_line rotate write_line
acked = refl

no_torn : torn [] (codes "i1" ++ newline) ≡ []
unfolding torn
no_torn = refl

append_line-reads_example :
    (content : Bytes) × (e : ℕ) × (earlier : List (ℕ × Bytes)) × ((append_line all_served writer
        (codes "c1" ++ newline)).0.seg
      ≡ some content)
    × (torn [] content ≡ [])
    × (scan_records content 0 ≡ earlier ++ ((e, codes "c1") ∷ []))
append_line-reads_example =
    append_line-reads all_served writer (b'c') (codes "1") no_torn (refl, (refl, tt)) acked
