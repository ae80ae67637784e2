-- ===== src/Spool/Segment/Tail.antt =====
-- internal/spool/spool.go: `scanSegment` of a segment that a record is added to.
use behalf.Prelude.{
  ℕ, ◌+◌, ◌≡◌, refl, ap, ◌∙◌, inl, inr, true, false, List, [], ◌∷◌, ◌++◌, append-nil, append_assoc,
  arith, ◌==◌, if◌then◌else◌, Bool-cases, if_true, if_false, length, All, length-append, Bytes,
}
use behalf.Spool.Segment.{scan_from, emit, scan_records}

-- The partial line that a segment ends in, after a line so far.
unfoldable pub torn : Bytes → Bytes → Bytes
torn line [] = line
torn line (c ∷ s) = if c == b'\n' then torn [] s else torn (line ++ (c ∷ [])) s

abbrev pub OneLine : Bytes → Type 0
OneLine rec = All (λ c. (c == b'\n') ≡ false) rec

emit-append :
    (e : ℕ) (line : Bytes) (xs ys : List (ℕ × Bytes))
    → emit e line (xs ++ ys) ≡ emit e line xs ++ ys
unfolding emit
emit-append e [] xs ys = refl
emit-append e (c ∷ line) xs ys = refl

torn-newline :
    (line : Bytes) (c : ℕ) (s : Bytes) → (c == b'\n') ≡ true → torn line (c ∷ s) ≡ torn [] s
unfolding torn
torn-newline line c s h = if_true _ _ _ h

torn-other :
    (line : Bytes) (c : ℕ) (s : Bytes)
    → (c == b'\n') ≡ false
    → torn line (c ∷ s) ≡ torn (line ++ (c ∷ [])) s
unfolding torn
torn-other line c s h = if_false _ _ _ h

scan-newline :
    (off : ℕ) (line : Bytes) (c : ℕ) (s : Bytes)
    → (c == b'\n') ≡ true
    → scan_from off line (c ∷ s)
      ≡ emit (off + length line + 1) line (scan_from (off + length line + 1) [] s)
unfolding scan_from
scan-newline off line c s h = if_true _ _ _ h

scan-other :
    (off : ℕ) (line : Bytes) (c : ℕ) (s : Bytes)
    → (c == b'\n') ≡ false
    → scan_from off line (c ∷ s) ≡ scan_from off (line ++ (c ∷ [])) s
unfolding scan_from
scan-other off line c s h = if_false _ _ _ h

-- More text after a segment is scanned on from its partial line.
scan_from-append :
    (off : ℕ) (line content more : Bytes)
    → (at : ℕ) × (at + length (torn line content) ≡ off + length line + length content)
      × (scan_from off line (content ++ more)
          ≡ scan_from off line content ++ scan_from at (torn line content) more)
scan_from-append off line [] more = (off, unfold torn in omega arith, unfold torn scan_from in refl)
scan_from-append off line (c ∷ content) more = elim (Bool-cases (c == b'\n')) [
  | inl newline ↦
      let after = off + length line + 1 in
      let (at, size, reads) = scan_from-append after [] content more in
      let line_torn = torn-newline line c content newline in
      let whole = scan-newline off line c (content ++ more) newline in
      let part = scan-newline off line c content newline in
      let moved =
        emit-append after line (scan_from after [] content) (scan_from at (torn [] content) more) in
      let longer : length (torn line (c ∷ content)) ≡ length (torn [] content) =
        ap length line_torn in
      (at, omega (arith, size, longer), cc (line_torn, whole, part, reads, moved))
  | inr other ↦
      let (at, size, reads) = scan_from-append off (line ++ (c ∷ [])) content more in
      let line_torn = torn-other line c content other in
      let whole = scan-other off line c (content ++ more) other in
      let part = scan-other off line c content other in
      let longer : length (torn line (c ∷ content)) ≡ length (torn (line ++ (c ∷ [])) content) =
        ap length line_torn in
      let one_more = length-append line (c ∷ []) in
      (at, omega (arith, size, longer, one_more), cc (line_torn, whole, part, reads))
]

scan_from-record :
    (off e : ℕ) (line rec : Bytes)
    → OneLine rec
    → e ≡ off + length line + length rec + 1
    → scan_from off line (rec ++ (b'\n' ∷ [])) ≡ emit e (line ++ rec) []
scan_from-record off e line [] one size =
    let last = scan-newline off line (b'\n') [] refl in
    let same : off + length line + 1 ≡ e = omega (arith, size) in
    last ∙ unfold scan_from in cc (same, append-nil line)
scan_from-record off e line (c ∷ rec) (plain, one) size =
    let one_more = length-append line (c ∷ []) in
    scan-other off line c (rec ++ (b'\n' ∷ [])) plain
    ∙ scan_from-record off e (line ++ (c ∷ [])) rec one (omega (arith, size, one_more))
    ∙ ap (λ l. emit e l []) (append_assoc line (c ∷ []) rec)

-- A record put after a segment with no partial line is its last record.
pub scan_records-added :
    (content : Bytes) (c : ℕ) (rec : Bytes)
    → torn [] content ≡ []
    → OneLine (c ∷ rec)
    → scan_records (content ++ (c ∷ (rec ++ (b'\n' ∷ [])))) 0
      ≡ scan_records content 0 ++ ((length content + length rec + 2, c ∷ rec) ∷ [])
unfolding scan_records
scan_records-added content c rec whole one =
    let (at, size, reads) = scan_from-append 0 [] content (c ∷ (rec ++ (b'\n' ∷ []))) in
    let none_torn : length (torn [] content) ≡ 0 = ap length whole in
    let record_read =
      scan_from-record at (length content + length rec + 2) [] (c ∷ rec) one
        (omega (arith, size, none_torn)) in
    reads ∙ unfold emit in cc (whole, record_read)

-- And it leaves no partial line.
pub torn-added : (content rec line : Bytes) → torn line (content ++ (rec ++ (b'\n' ∷ []))) ≡ []
torn-added [] [] line = torn-newline line (b'\n') [] refl ∙ unfold torn in refl
torn-added [] (c ∷ rec) line = elim (Bool-cases (c == b'\n')) [
  | inl newline ↦ torn-newline line c (rec ++ (b'\n' ∷ [])) newline ∙ torn-added [] rec []
  | inr other ↦ torn-other line c (rec ++ (b'\n' ∷ [])) other ∙ torn-added [] rec (line ++ (c ∷ []))
]
torn-added (c ∷ content) rec line = elim (Bool-cases (c == b'\n')) [
  | inl newline ↦
      torn-newline line c (content ++ (rec ++ (b'\n' ∷ []))) newline ∙ torn-added content rec []
  | inr other ↦
      torn-other line c (content ++ (rec ++ (b'\n' ∷ []))) other
      ∙ torn-added content rec (line ++ (c ∷ []))
]
