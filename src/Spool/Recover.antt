-- ===== src/Spool/Recover.antt =====
-- internal/spool/spool.go: `Recover`.
pub mod Orphans
use behalf.Prelude.{
  ℕ, Bool, true, false, ◌&&◌, ◌||◌, Option, none, some, List, [], ◌∷◌, ◌++◌, if◌then◌else◌, ◌>>=◌,
  length, Bytes, codes, eqb,
}
use behalf.Spool.Segment.{Intent, Codec, Disk, Segment, segments, scan_segment}

-- What the scans of the segments have found so far.
pub record Found : Type 0 where
  pub candidates : List (Intent × Bool)
  pub completed : List Bytes

abbrev pub type_intent : Bytes
type_intent = codes "intent"

abbrev pub type_completion : Bytes
type_completion = codes "completion"

unfoldable pub mem_id : Bytes → List Bytes → Bool
mem_id id [] = false
mem_id id (x ∷ xs) = eqb x id || mem_id id xs

module _ (codec : Codec) where
  note_intent : Bool → Option Intent → Found → Option Found
  note_intent live none found = none
  note_intent live (some in') found =
      some (record found { candidates = found.candidates ++ ((in', live) ∷ []) })

  note_completion : Option Bytes → Found → Option Found
  note_completion none found = none
  note_completion (some id) found = some (record found { completed = id ∷ found.completed })

  -- The switch on the type of a record.
  unfoldable pub note_type : Bool → Bytes → Option Bytes → Found → Option Found
  unfolding note_intent note_completion
  note_type live rec none found = none
  note_type live rec (some type) found =
      if eqb type type_intent
      then note_intent live (codec.intent_of rec) found
      else if eqb type type_completion
      then note_completion (codec.completion_intent_id rec) found
      else some found

  unfoldable pub note_records : Bool → List (ℕ × Bytes) → Found → Option Found
  unfolding note_type
  note_records live [] found = some found
  note_records live ((end', rec) ∷ records) found = do
    found' ← note_type live rec (codec.record_type rec) found
    note_records live records found'

  -- One segment, whose lock is tried before it is scanned; an error of either ends the pass.
  unfoldable pub note_segment : Disk → Segment → Found → Option Found
  unfolding note_records
  note_segment disk s found =
      let (records, scanned) = scan_segment disk.reading s.content 0 in
      if disk.tried && scanned then note_records s.live records found else none

  unfoldable pub note_segments : (ℕ → Disk) → List Segment → Found → Option Found
  unfolding note_segment
  note_segments disk [] found = some found
  note_segments disk (s ∷ segs) found = do
    found' ← note_segment (disk (length segs)) s found
    note_segments disk segs found'

  -- The intents of quiescent segments that no completion closes.
  unfoldable pub orphans_of : List Bytes → List (Intent × Bool) → List Intent
  unfolding mem_id
  orphans_of completed [] = []
  orphans_of completed ((in', live) ∷ candidates) =
      let rest = orphans_of completed candidates in
      if live || mem_id in'.intent_id completed then rest else in' ∷ rest

  orphans_in : Option Found → Option (List Intent)
  unfolding orphans_of
  orphans_in none = none
  orphans_in (some found) = some (orphans_of found.completed found.candidates)

  -- `Recover`; `none` is an error, as where the directory cannot be listed.
  unfoldable pub recover : Bool → (ℕ → Disk) → List Segment → Option (List Intent)
  unfolding orphans_in note_segments
  recover true disk dir =
      orphans_in (note_segments disk (segments dir) record { candidates = []; completed = [] })
  recover false disk dir = none
