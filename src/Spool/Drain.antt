-- ===== src/Spool/Drain.antt =====
-- internal/spool/spool.go: `Drain` and `ReadAll`.
pub mod Scans
pub mod Delivery
pub mod DonePrefix
use behalf.Prelude.{
  ℕ, Bool, true, false, not, ◌&&◌, ◌||◌, Option, none, some, List, [], ◌∷◌, ◌++◌, ltb, ◌==◌,
  if◌then◌else◌, ◌>>=◌, length, Bytes, eqb,
}
use behalf.Spool.Segment.{
  Completion, Codec, no_cursor, cursor_at, Reading, Disk, Segment, segments, scan_segment,
  read_cursor,
}
use behalf.Spool.Recover.{type_completion}

-- A scan that stopped, at the end or at an error: the sink, what it accepted, and the offset consumed.
pub record Scanned (S : Type 0) : Type 0 where
  pub sink : S
  pub accepted : List Completion
  pub consumed : ℕ
  pub whole : Bool

module _ {S : Type 0} (codec : Codec) (sink : S → Completion → S × Bool) where
  -- One completion is given to the sink.
  unfoldable pub give : S → Option Completion → S × Option Completion
  give s none = (s, none)
  give s (some c) = let (s', ok) = sink s c in if ok then (s', some c) else (s', none)

  one_of_given : S × Option Completion → S × Option (List Completion)
  one_of_given (s, none) = (s, none)
  one_of_given (s, some c) = (s, some (c ∷ []))

  unfoldable pub drain_type : S → Bytes → Option Bytes → S × Option (List Completion)
  unfolding give one_of_given
  drain_type s rec none = (s, none)
  drain_type s rec (some type) =
      if eqb type type_completion
      then one_of_given (give s (codec.parse_completion rec))
      else (s, some [])

  -- The callback of the scan, record by record; it stops at the first error.
  unfoldable pub after_record :
      S × Option (List Completion) → ℕ → Scanned S → (Scanned S → Scanned S) → Scanned S
  after_record (s, none) end' r next = record r { sink = s; whole = false }
  after_record (s, some cs) end' r next =
      next record { sink = s; accepted = r.accepted ++ cs; consumed = end'; whole = r.whole }

  unfoldable pub drain_records : List (ℕ × Bytes) → Scanned S → Scanned S
  unfolding after_record
  drain_records [] r = r
  drain_records ((end', rec) ∷ records) r =
      after_record (drain_type r.sink rec (codec.record_type rec)) end' r
        (λ r'. drain_records records r')

  unfoldable pub scan_completions : Reading → S → Segment → ℕ → Scanned S
  unfolding drain_records
  scan_completions reading s seg start =
      let (records, scanned) = scan_segment reading seg.content start in
      drain_records records record { sink = s; accepted = []; consumed = start; whole = scanned }

-- `writeCursor`, which is called where something was consumed.
unfoldable pub move_cursor : ℕ → ℕ → Segment → Segment
move_cursor start consumed seg =
    if ltb start consumed then record seg { cursor = cursor_at consumed } else seg

-- What the pass goes on with: the value of `markDone`, or an early return.
pub data Next : Type 0 where
  on : Bool → Next
  stopped : Next

-- `finished`, and the rename that is tried while every segment before is done.
unfoldable pub mark_done : Bool → ℕ → Disk → Segment → Segment × Next
mark_done marking consumed disk seg =
    if marking && (not seg.live && consumed == length seg.content)
    then (if disk.renamed
        then (record seg { cursor = no_cursor; done = true }, on true)
        else (seg, stopped))
    else (seg, on false)

pub record Drained (S : Type 0) : Type 0 where
  pub sink : S
  pub accepted : List Completion
  pub dir : List Segment
  pub whole : Bool

module _ {S : Type 0} (codec : Codec) (sink : S → Completion → S × Bool) where
  -- One segment after its scan.
  unfoldable pub settle_segment : Bool → Disk → Segment → ℕ → Scanned S → Segment × Next
  unfolding move_cursor mark_done
  settle_segment marking disk seg start r =
      if ltb start r.consumed && not disk.written
      then (seg, stopped)
      else if not r.whole || not disk.tried
      then (move_cursor start r.consumed seg, stopped)
      else mark_done marking r.consumed disk (move_cursor start r.consumed seg)

  unfoldable pub drain_segment : Bool → Disk → S → Segment → Option ℕ → Scanned S × (Segment × Next)
  unfolding settle_segment scan_completions
  drain_segment marking disk s seg none =
      (record { sink = s; accepted = []; consumed = 0; whole = false }, (seg, stopped))
  drain_segment marking disk s seg (some start) =
      let r = scan_completions codec sink disk.reading s seg start in
      (r, settle_segment marking disk seg start r)

  unfoldable pub go_on :
      Scanned S → Segment → Next → List Segment → (Bool → S → Drained S) → Drained S
  go_on r seg stopped dir rest = record {
    sink = r.sink;
    accepted = r.accepted;
    dir = seg ∷ dir;
    whole = false;
  }
  go_on r seg (on marking) dir rest =
      let d = rest marking r.sink in
      record {
        sink = d.sink;
        accepted = r.accepted ++ d.accepted;
        dir = seg ∷ d.dir;
        whole = d.whole;
      }

  unfoldable pub keep_done : Segment → Drained S → Drained S
  keep_done seg d = record d { dir = seg ∷ d.dir }

  -- The loop of `Drain` over the segments that are not renamed; `disk` serves the segment that so many
  -- files follow.
  unfoldable pub drain_from : (ℕ → Disk) → List Segment → Bool → S → Drained S
  unfolding drain_segment go_on keep_done
  drain_from disk [] marking s = record { sink = s; accepted = []; dir = []; whole = true }
  drain_from disk (seg ∷ dir) marking s =
      let (r, (seg', next)) =
        drain_segment marking (disk (length dir)) s seg (read_cursor seg.cursor) in
      let rest : Bool → S → Drained S = λ marking' s'. drain_from disk dir marking' s' in
      if seg.done then keep_done seg (rest marking s) else go_on r seg' next dir rest

  -- `Drain`; where the directory cannot be listed, nothing is done.
  unfoldable pub drain : Bool → (ℕ → Disk) → List Segment → S → Drained S
  unfolding drain_from
  drain true disk dir s = drain_from disk dir true s
  drain false disk dir s = record { sink = s; accepted = []; dir = dir; whole = false }

module _ (codec : Codec) where
  read_type : Bytes → Option Bytes → Option Completion → Option (List Completion)
  read_type rec none parsed = none
  read_type rec (some type) parsed =
      if eqb type type_completion
      then elim parsed [ none ↦ none | some c ↦ some (c ∷ []) ]
      else some []

  unfoldable pub read_records : List (ℕ × Bytes) → Option (List Completion)
  unfolding read_type
  read_records [] = some []
  read_records ((end', rec) ∷ records) = do
    cs ← read_type rec (codec.record_type rec) (codec.parse_completion rec)
    rest ← read_records records
    some (cs ++ rest)

  if_scanned : Bool → Option (List Completion) → Option (List Completion)
  if_scanned true found = found
  if_scanned false found = none

  unfoldable pub read_segments : (ℕ → Reading) → List Segment → Option (List Completion)
  unfolding read_records if_scanned
  read_segments reading [] = some []
  read_segments reading (seg ∷ segs) =
      let (records, scanned) = scan_segment (reading (length segs)) seg.content 0 in
      do
        cs ← if_scanned scanned (read_records records)
        rest ← read_segments reading segs
        some (cs ++ rest)

  -- `ReadAll`; `none` is an error.
  unfoldable pub read_all : Bool → (ℕ → Reading) → List Segment → Option (List Completion)
  unfolding read_segments
  read_all true reading dir = read_segments reading (segments dir)
  read_all false reading dir = none
