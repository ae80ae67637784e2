-- ===== src/Spool/Drain/Delivery.antt =====
-- internal/spool/spool.go: what becomes of each completion in a pass of `Drain`.
use behalf.Prelude.{
  ℕ, ◌≡◌, refl, sym, ap, ◌∙◌, subst, ◌⊎◌, inl, inr, Bool, true, false, not, ◌&&◌, ◌||◌, Option,
  none, some, List, [], ◌∷◌, ◌++◌, arith, ltb, ◌==◌, if◌then◌else◌, ==_iff, Bool-cases, if_true,
  if_false, length, Bytes,
}
use mathlib.Core.List.{Memᴰ}
use mathlib.Core.List.Memᴰ
use behalf.Spool.Segment.{
  Completion, Codec, no_cursor, cursor_at, Disk, Segment, scan_records, scan_segment, read_cursor,
  scan_from,
}
use behalf.Spool.Drain.Scans.{completions, completions-append, Split, drain_records-Split}
use behalf.Spool.Segment.Rest.{scan_segment-prefix, drop-length_all}
use behalf.Spool.Drain.{
  Scanned, Drained, Next, on, stopped, drain_records, scan_completions, move_cursor, mark_done,
  settle_segment, drain_segment, go_on, keep_done, drain_from, drain,
}

scan_records-end : (content : Bytes) → scan_records content (length content) ≡ []
unfolding scan_records scan_from
scan_records-end content = ap (scan_from (length content) []) (drop-length_all content)

module _ (codec : Codec) where
  abbrev pub past : Segment → Option ℕ → List Completion
  past seg none = completions codec (scan_records seg.content 0)
  past seg (some start) = completions codec (scan_records seg.content start)

  -- The completions past the cursor of a segment that is not renamed.
  abbrev pub pending : Segment → List Completion
  pending seg = if seg.done then [] else past seg (read_cursor seg.cursor)

  abbrev pub all_pending : List Segment → List Completion
  all_pending [] = []
  all_pending (seg ∷ dir) = pending seg ++ all_pending dir

module _ {S : Type 0} (codec : Codec) (sink : S → Completion → S × Bool) where
  renamed : Segment → Segment
  renamed seg = record seg { cursor = no_cursor; done = true }

  mark_done-cases :
      (marking : Bool) (consumed : ℕ) (disk : Disk) (seg : Segment)
      → ((mark_done marking consumed disk seg).0 ≡ seg)
        ⊎ (((mark_done marking consumed disk seg).0 ≡ renamed seg)
            × (consumed ≡ length seg.content))
  unfolding mark_done renamed
  mark_done-cases marking consumed disk seg =
      elim (Bool-cases (marking && (not seg.live && consumed == length seg.content))) [
        | inr unfinished ↦ inl (rw unfinished refl)
        | inl finished ↦ elim (Bool-cases disk.renamed) [
          | inr failed ↦ inl (rw (finished, failed) refl)
          | inl ok ↦ inr (
            rw (finished, ok) refl,
            (==_iff consumed (length seg.content)).0 (ground (arith, finished)),
          )
        ]
      ]

  -- A segment after its scan: as it was, with its cursor moved, or renamed at its end.
  settle_segment-cases :
      (marking : Bool) (disk : Disk) (seg : Segment) (start : ℕ) (r : Scanned S)
      → ((settle_segment codec sink marking disk seg start r).0 ≡ seg)
        ⊎ ((settle_segment codec sink marking disk seg start r).0
            ≡ move_cursor start r.consumed seg)
        ⊎ (((settle_segment codec sink marking disk seg start r).0
              ≡ renamed (move_cursor start r.consumed seg))
            × (r.consumed ≡ length (move_cursor start r.consumed seg).content))
  unfolding settle_segment
  settle_segment-cases marking disk seg start r =
      elim (Bool-cases (ltb start r.consumed && not disk.written)) [
        | inl lost ↦ inl (rw lost refl)
        | inr kept ↦ elim (Bool-cases (not r.whole || not disk.tried)) [
          | inl early ↦ inr (inl (rw (kept, early) refl))
          | inr late ↦
              let marked =
                mark_done-cases marking r.consumed disk (move_cursor start r.consumed seg) in
              inr (rw (kept, late) marked)
        ]
      ]

  -- What was past the cursor has been accepted, or is past it still.
  Kept : List Completion → Segment → Segment → Type 0
  Kept accepted seg seg' =
      (c : Completion) → Memᴰ c (pending codec seg) → Memᴰ c accepted ⊎ Memᴰ c (pending codec seg')

  pending-active :
      (seg : Segment) (start : ℕ)
      → seg.done ≡ false
      → read_cursor seg.cursor ≡ some start
      → pending codec seg ≡ completions codec (scan_records seg.content start)
  pending-active seg start active at = rw (active, at) refl

  content-move_cursor :
      (start consumed : ℕ) (seg : Segment) → (move_cursor start consumed seg).content ≡ seg.content
  unfolding move_cursor
  content-move_cursor start consumed seg = elim (Bool-cases (ltb start consumed)) [
    | inl moved ↦ rw moved refl
    | inr stays ↦ rw stays refl
  ]

  move_cursor-stays :
      (start consumed : ℕ) (seg : Segment)
      → ltb start consumed ≡ false
      → move_cursor start consumed seg ≡ seg
  unfolding move_cursor
  move_cursor-stays start consumed seg stays = rw stays refl

  move_cursor-pending :
      (start consumed : ℕ) (seg : Segment)
      → seg.done ≡ false
      → ltb start consumed ≡ true
      → pending codec (move_cursor start consumed seg)
        ≡ completions codec (scan_records seg.content consumed)
  unfolding move_cursor read_cursor
  move_cursor-pending start consumed seg active moved =
      ap (pending codec) (opened moved)
      ∙ pending-active (record seg { cursor = cursor_at consumed }) consumed active refl
    where
      opened :
          ltb start consumed ≡ true
          → (if ltb start consumed then record seg { cursor = cursor_at consumed } else seg)
            ≡ record seg { cursor = cursor_at consumed }
      opened h = rw h refl

  Split-Memᴰ :
      (seg : Segment) (start : ℕ) (r : Scanned S) (c : Completion)
      → Split codec sink seg.content (scan_records seg.content start) [] r
      → Memᴰ c (completions codec (scan_records seg.content start))
      → Memᴰ c r.accepted ⊎ Memᴰ c (completions codec (scan_records seg.content r.consumed))
  unfolding Split
  Split-Memᴰ seg start r c (read, rest, parts, accepted, reads) at =
      let all = ap (completions codec) parts ∙ completions-append codec read rest in
      elim (Memᴰ.append_cases (completions codec read) (subst (Memᴰ c) all at)) [
        | inl early ↦ inl (subst (Memᴰ c) (sym accepted) early)
        | inr later ↦ inr (subst (λ x. Memᴰ c (completions codec x)) (sym reads) later)
      ]

  settle_segment-Kept :
      (marking : Bool) (disk : Disk) (seg : Segment) (start : ℕ) (r : Scanned S)
      → seg.done ≡ false
      → read_cursor seg.cursor ≡ some start
      → Split codec sink seg.content (scan_records seg.content start) [] r
      → Kept r.accepted seg (settle_segment codec sink marking disk seg start r).0
  unfolding Kept
  settle_segment-Kept marking disk seg start r active at parts c m =
      let m' = subst (Memᴰ c) (pending-active seg start active at) m in
      elim (settle_segment-cases marking disk seg start r) [
        | inl same ↦ inr (subst (λ x. Memᴰ c (pending codec x)) (sym same) m)
        | inr (inl moved) ↦ elim (move_cursor-Memᴰ m') [
          | inl ok ↦ inl ok
          | inr still ↦ inr (subst (λ x. Memᴰ c (pending codec x)) (sym moved) still)
        ]
        | inr (inr (gone, size)) ↦ elim (Split-Memᴰ seg start r c parts m') [
          | inl ok ↦ inl ok
          | inr rest ↦
              absurd (none_left (size ∙ ap length (content-move_cursor start r.consumed seg)) rest)
        ]
      ]
    where
      none_left :
          r.consumed ≡ length seg.content
          → Memᴰ c (completions codec (scan_records seg.content r.consumed))
          → ⊥
      none_left size rest =
          let nothing : scan_records seg.content r.consumed ≡ [] =
            ap (scan_records seg.content) size ∙ scan_records-end seg.content in
          elim (subst (λ x. Memᴰ c (completions codec x)) nothing rest) [ ]

      move_cursor-Memᴰ :
          Memᴰ c (completions codec (scan_records seg.content start))
          → Memᴰ c r.accepted ⊎ Memᴰ c (pending codec (move_cursor start r.consumed seg))
      move_cursor-Memᴰ m' = elim (Bool-cases (ltb start r.consumed)) [
        | inr stays ↦ inr (
            subst (λ x. Memᴰ c (pending codec x))
              (sym (move_cursor-stays start r.consumed seg stays)) m)
        | inl moved ↦ elim (Split-Memᴰ seg start r c parts m') [
          | inl ok ↦ inl ok
          | inr rest ↦
              inr
                (subst (Memᴰ c) (sym (move_cursor-pending start r.consumed seg active moved)) rest)
        ]
      ]

  drain_segment-Kept :
      (marking : Bool) (disk : Disk) (s : S) (seg : Segment) (o : Option ℕ)
      → seg.done ≡ false
      → read_cursor seg.cursor ≡ o
      → Kept
          (drain_segment codec sink marking disk s seg o).0.accepted
          seg
          (drain_segment codec sink marking disk s seg o).1.0
  unfolding drain_segment scan_completions
  drain_segment-Kept marking disk s seg none active at = unfold Kept in λ c m. inr m
  drain_segment-Kept marking disk s seg (some start) active at =
      let given = scan_segment disk.reading seg.content start in
      let (more, e) = scan_segment-prefix disk.reading seg.content start in
      let first : Scanned S = record {
        sink = s;
        accepted = [];
        consumed = start;
        whole = given.1;
      } in
      settle_segment-Kept marking disk seg start _ active at (
        subst (λ x. Split codec sink seg.content x [] (drain_records codec sink given.0 first))
          (sym e) (drain_records-Split codec sink seg.content start [] given.0 more first e e))

  -- Everything pending in the first directory is accepted, or pending in the second.
  AllKept : List Segment → Drained S → Type 0
  AllKept dir d =
      (c : Completion)
      → Memᴰ c (all_pending codec dir)
      → Memᴰ c d.accepted ⊎ Memᴰ c (all_pending codec d.dir)

  go_on-AllKept :
      (r : Scanned S) (seg seg' : Segment) (next : Next) (dir : List Segment)
      (rest : Bool → S → Drained S)
      → Kept r.accepted seg seg'
      → ((marking : Bool) (s : S) → AllKept dir (rest marking s))
      → AllKept (seg ∷ dir) (go_on codec sink r seg' next dir rest)
  unfolding Kept AllKept go_on
  go_on-AllKept r seg seg' stopped dir rest kept later c m =
      elim (Memᴰ.append_cases (pending codec seg) m) [
        | inr tail' ↦ inr (Memᴰ.append_right (pending codec seg') tail')
        | inl here ↦ elim (kept c here) [
          | inl ok ↦ inl ok
          | inr still ↦ inr (Memᴰ.append_left _ still)
        ]
      ]
  go_on-AllKept r seg seg' (on marking) dir rest kept later c m =
      elim (Memᴰ.append_cases (pending codec seg) m) [
        | inr tail' ↦ elim (later marking r.sink c tail') [
          | inl ok ↦ inl (Memᴰ.append_right r.accepted ok)
          | inr still ↦ inr (Memᴰ.append_right (pending codec seg') still)
        ]
        | inl here ↦ elim (kept c here) [
          | inl ok ↦ inl (Memᴰ.append_left _ ok)
          | inr still ↦ inr (Memᴰ.append_left _ still)
        ]
      ]

  pub drain_from-done :
      (disk : ℕ → Disk) (seg : Segment) (dir : List Segment) (marking : Bool) (s : S)
      → seg.done ≡ true
      → drain_from codec sink disk (seg ∷ dir) marking s
        ≡ keep_done codec sink seg (drain_from codec sink disk dir marking s)
  unfolding drain_from
  drain_from-done disk seg dir marking s h = if_true _ _ seg.done h

  pub drain_from-active :
      (disk : ℕ → Disk) (seg : Segment) (dir : List Segment) (marking : Bool) (s : S)
      → seg.done ≡ false
      → drain_from codec sink disk (seg ∷ dir) marking s
        ≡ go_on codec sink
            (drain_segment codec sink marking (disk (length dir)) s seg (read_cursor seg.cursor)).0
            (drain_segment codec sink marking
              (disk (length dir))
              s
              seg
              (read_cursor seg.cursor)).1.0
            (drain_segment codec sink marking
              (disk (length dir))
              s
              seg
              (read_cursor seg.cursor)).1.1
            dir
            (λ marking' s'. drain_from codec sink disk dir marking' s')
  unfolding drain_from
  drain_from-active disk seg dir marking s h = if_false _ _ seg.done h

  none_pending : (seg : Segment) → seg.done ≡ true → pending codec seg ≡ []
  none_pending seg gone = rw gone refl

  keep_done-Memᴰ :
      (seg : Segment) (d : Drained S) (c : Completion)
      → Memᴰ c d.accepted ⊎ Memᴰ c (all_pending codec d.dir)
      → Memᴰ c (keep_done codec sink seg d).accepted
        ⊎ Memᴰ c (all_pending codec (keep_done codec sink seg d).dir)
  unfolding keep_done
  keep_done-Memᴰ seg d c (inl ok) = inl ok
  keep_done-Memᴰ seg d c (inr still) = inr (Memᴰ.append_right (pending codec seg) still)

  drain_from-AllKept :
      (disk : ℕ → Disk) (dir : List Segment) (marking : Bool) (s : S)
      → AllKept dir (drain_from codec sink disk dir marking s)
  unfolding AllKept
  drain_from-AllKept disk [] marking s = λ c m. elim m [ ]
  drain_from-AllKept disk (seg ∷ dir) marking s = elim (Bool-cases seg.done) [
    | inl gone ↦ λ c m.
        subst (λ d. Memᴰ c d.accepted ⊎ Memᴰ c (all_pending codec d.dir))
          (sym (drain_from-done disk seg dir marking s gone))
          (keep_done-Memᴰ seg (drain_from codec sink disk dir marking s) c (
            drain_from-AllKept disk dir marking s c
              (subst (λ x. Memᴰ c (x ++ all_pending codec dir)) (none_pending seg gone) m)))
    | inr active ↦
        subst (AllKept (seg ∷ dir)) (sym (drain_from-active disk seg dir marking s active)) (
          go_on-AllKept _ seg _ _ dir _
            (drain_segment-Kept marking (disk (length dir)) s seg (read_cursor seg.cursor) active
              refl)
            (λ marking' s'. drain_from-AllKept disk dir marking' s'))
  ]

  -- In a pass of `Drain`, whatever the sink refuses, and whatever fails among listing the directory,
  -- opening, reading and locking a segment, writing its cursor and renaming it, every completion that is
  -- past the cursors is accepted by the sink, or is past the cursors afterwards.
  pub drain-keeps :
      (listed : Bool) (disk : ℕ → Disk) (dir : List Segment) (s : S) (c : Completion)
      → Memᴰ c (all_pending codec dir)
      → Memᴰ c (drain codec sink listed disk dir s).accepted
        ⊎ Memᴰ c (all_pending codec (drain codec sink listed disk dir s).dir)
  unfolding drain
  drain-keeps true disk dir s = unfold AllKept in drain_from-AllKept disk dir true s
  drain-keeps false disk dir s = λ c m. inr m
