-- ===== src/Spool/Drain/DonePrefix.antt =====
-- internal/spool/spool.go: the segments that `Drain` renames.
use behalf.Prelude.{
  ℕ, ◌≡◌, refl, sym, ◌∙◌, subst, ◌⊎◌, inl, inr, Bool, true, false, not, ◌&&◌, ◌||◌, Option, none,
  some, List, [], ◌∷◌, arith, ltb, ◌==◌, Bool-cases, length, All,
}
use behalf.Spool.Segment.{Completion, Codec, Disk, Segment, read_cursor}
use behalf.Spool.Drain.Delivery.{drain_from-done, drain_from-active}
use behalf.Spool.Drain.{
  scan_completions, Scanned, Drained, Next, on, stopped, move_cursor, mark_done, settle_segment,
  drain_segment, go_on, keep_done, drain_from, drain,
}

abbrev pub NoneDone : List Segment → Type 0
NoneDone dir = All (λ s. s.done ≡ false) dir

-- Before a segment that is renamed stand only segments that are renamed.
unfoldable pub DonePrefix : List Segment → Type 0
DonePrefix [] = Unit
DonePrefix (s ∷ dir) = ((s.done ≡ true) × DonePrefix dir) ⊎ NoneDone (s ∷ dir)

NoneDone-DonePrefix : (dir : List Segment) → NoneDone dir → DonePrefix dir
unfolding DonePrefix
NoneDone-DonePrefix [] h = tt
NoneDone-DonePrefix (s ∷ dir) h = inr h

-- What the pass goes on with after a segment: a segment is renamed only while all before it are.
Marked : Bool → Segment × Next → Type 0
Marked marking (seg, stopped) = seg.done ≡ false
Marked marking (seg, on true) = (seg.done ≡ true) × (marking ≡ true)
Marked marking (seg, on false) = seg.done ≡ false

mark_done-Marked :
    (marking : Bool) (consumed : ℕ) (disk : Disk) (seg : Segment)
    → seg.done ≡ false
    → Marked marking (mark_done marking consumed disk seg)
unfolding Marked mark_done
mark_done-Marked marking consumed disk seg active =
    elim (Bool-cases (marking && (not seg.live && consumed == length seg.content))) [
      | inr unfinished ↦ rw unfinished active
      | inl finished ↦ elim (Bool-cases disk.renamed) [
        | inr failed ↦ rw (finished, failed) active
        | inl ok ↦ rw (finished, ok) (refl, ground (arith, finished))
      ]
    ]

move_cursor-done :
    (start consumed : ℕ) (seg : Segment) → (move_cursor start consumed seg).done ≡ seg.done
unfolding move_cursor
move_cursor-done start consumed seg = elim (Bool-cases (ltb start consumed)) [
  | inl moved ↦ rw moved refl
  | inr stays ↦ rw stays refl
]

module _ {S : Type 0} (codec : Codec) (sink : S → Completion → S × Bool) where
  settle_segment-Marked :
      (marking : Bool) (disk : Disk) (seg : Segment) (start : ℕ) (r : Scanned S)
      → seg.done ≡ false
      → Marked marking (settle_segment codec sink marking disk seg start r)
  unfolding settle_segment Marked
  settle_segment-Marked marking disk seg start r active =
      let moved = move_cursor-done start r.consumed seg ∙ active in
      let marked =
        mark_done-Marked marking r.consumed disk (move_cursor start r.consumed seg) moved in
      elim (Bool-cases (ltb start r.consumed && not disk.written)) [
        | inl lost ↦ rw lost active
        | inr kept ↦ elim (Bool-cases (not r.whole || not disk.tried)) [
          | inl early ↦ rw (kept, early) moved
          | inr late ↦ rw (kept, late) marked
        ]
      ]

  drain_segment-Marked :
      (marking : Bool) (disk : Disk) (s : S) (seg : Segment) (o : Option ℕ)
      → seg.done ≡ false
      → Marked marking (drain_segment codec sink marking disk s seg o).1
  unfolding drain_segment
  drain_segment-Marked marking disk s seg none active = unfold Marked in active
  drain_segment-Marked marking disk s seg (some start) active =
      settle_segment-Marked marking disk seg start
        (scan_completions codec sink disk.reading s seg start) active

  -- With a segment before that is not renamed, none is renamed; otherwise those renamed stand first.
  Kept : Bool → List Segment → Type 0
  Kept true dir = DonePrefix dir
  Kept false dir = NoneDone dir

  go_on-Kept :
      (marking : Bool) (r : Scanned S) (seg' : Segment) (next : Next) (dir : List Segment)
      (rest : Bool → S → Drained S)
      → Marked marking (seg', next)
      → NoneDone dir
      → ((marking' : Bool) (s : S) → Kept marking' (rest marking' s).dir)
      → Kept marking (go_on codec sink r seg' next dir rest).dir
  unfolding Kept Marked go_on DonePrefix
  go_on-Kept true r seg' stopped dir rest m none_done later = inr (m, none_done)
  go_on-Kept false r seg' stopped dir rest m none_done later = (m, none_done)
  go_on-Kept true r seg' (on true) dir rest m none_done later = inl (m.0, later true r.sink)
  go_on-Kept false r seg' (on true) dir rest m none_done later = absurd (cc m.1)
  go_on-Kept true r seg' (on false) dir rest m none_done later = inr (m, later false r.sink)
  go_on-Kept false r seg' (on false) dir rest m none_done later = (m, later false r.sink)

  drain_from-NoneDone :
      (disk : ℕ → Disk) (dir : List Segment) (marking : Bool) (s : S)
      → NoneDone dir
      → Kept marking (drain_from codec sink disk dir marking s).dir
  drain_from-NoneDone disk [] true s h = unfold Kept drain_from DonePrefix in tt
  drain_from-NoneDone disk [] false s h = unfold Kept drain_from in tt
  drain_from-NoneDone disk (seg ∷ dir) marking s (active, h) =
      subst (λ d. Kept marking d.dir)
        (sym (drain_from-active codec sink disk seg dir marking s active))
        (go_on-Kept marking _ _ _ dir (λ marking' s'. drain_from codec sink disk dir marking' s')
          (drain_segment-Marked marking (disk (length dir)) s seg (read_cursor seg.cursor) active) h
          (λ marking' s'. drain_from-NoneDone disk dir marking' s' h))

  drain_from-DonePrefix :
      (disk : ℕ → Disk) (dir : List Segment) (s : S)
      → DonePrefix dir
      → DonePrefix (drain_from codec sink disk dir true s).dir
  drain_from-DonePrefix disk [] s h = unfold DonePrefix drain_from in tt
  drain_from-DonePrefix disk (seg ∷ dir) s h =
      go (unfold DonePrefix in h) (drain_from-DonePrefix disk dir s)
    where
      go :
          ((seg.done ≡ true) × DonePrefix dir) ⊎ NoneDone (seg ∷ dir)
          → (DonePrefix dir → DonePrefix (drain_from codec sink disk dir true s).dir)
          → DonePrefix (drain_from codec sink disk (seg ∷ dir) true s).dir
      go (inr none_done) later =
          unfold Kept in drain_from-NoneDone disk (seg ∷ dir) true s none_done
      go (inl (gone, first)) later =
          subst (λ d. DonePrefix d.dir) (sym (drain_from-done codec sink disk seg dir true s gone))
            (unfold DonePrefix keep_done in inl (gone, later first))

  -- Where before every renamed segment stand only renamed ones, it is so after a pass of `Drain`, whatever
  -- the sink refuses, and whatever fails among listing the directory, opening, reading and locking a
  -- segment, writing its cursor and renaming it.
  pub drain-DonePrefix :
      (listed : Bool) (disk : ℕ → Disk) (dir : List Segment) (s : S)
      → DonePrefix dir
      → DonePrefix (drain codec sink listed disk dir s).dir
  unfolding drain
  drain-DonePrefix true disk dir s h = drain_from-DonePrefix disk dir s h
  drain-DonePrefix false disk dir s h = h
