-- ===== src/Spool/Writer/Acked.antt =====
-- internal/spool/spool.go: what `appendLine` has done where it returns no error.
use behalf.Prelude.{
  ℕ, ◌+◌, ◌≡◌, refl, sym, ap, ◌∙◌, subst, inl, inr, Bool, true, false, Option, none, some, List, [],
  ◌∷◌, ◌++◌, arith, if◌then◌else◌, Bool-cases, if_true, if_false, length, Bytes,
}
use behalf.Spool.Segment.{scan_records}
use behalf.Spool.Segment.Tail.{torn, OneLine, scan_records-added, torn-added}
use behalf.Spool.Writer.{
  Served, Writer, open_new, rotate, must_rotate, write_cut, write_line, after_rotate, append_line,
}

-- The segment that is written ends in a line feed, or is empty.
abbrev pub NoTorn : Option Bytes → Type 0
NoTorn none = Unit
NoTorn (some content) = torn [] content ≡ []

-- The line stands after a segment with no partial line.
PutAfter : Writer × Bool → Bytes → Type 0
PutAfter r line = (content : Bytes) × (r.0.seg ≡ some (content ++ line)) × (torn [] content ≡ [])

write_cut-PutAfter :
    (cut : Option ℕ) (synced : Bool) (w : Writer) (content line : Bytes)
    → torn [] content ≡ []
    → (write_cut cut synced w content line).1 ≡ true
    → PutAfter (write_cut cut synced w content line) line
unfolding write_cut PutAfter
write_cut-PutAfter none true w content line whole h = (content, refl, whole)
write_cut-PutAfter none false w content line whole h = absurd (cc h)
write_cut-PutAfter (some n) synced w content line whole h = absurd (cc h)

write_line-PutAfter :
    (fs : Served) (w : Writer) (line : Bytes) (o : Option Bytes)
    → NoTorn o
    → (write_line fs w line o).1 ≡ true
    → PutAfter (write_line fs w line o) line
unfolding write_line
write_line-PutAfter fs w line none whole h = absurd (cc h)
write_line-PutAfter fs w line (some content) whole h =
    write_cut-PutAfter fs.cut fs.synced w content line whole h

open_new-empty : (ok : Bool) (w : Writer) → NoTorn (open_new ok w).0.seg
unfolding open_new torn
open_new-empty true w = refl
open_new-empty false w = tt

rotate-empty :
    (fs : Served) (w : Writer) (o : Option Bytes)
    → (rotate fs w o).1 ≡ true
    → NoTorn (rotate fs w o).0.seg
unfolding rotate
rotate-empty fs w none h = open_new-empty fs.opened w
rotate-empty fs w (some content) h = elim (Bool-cases fs.sealed) [
  | inl ok ↦
      subst {A = Writer × Bool} (λ r. NoTorn r.0.seg) (sym (if_true _ _ _ ok))
        (open_new-empty fs.opened record w { before = w.before ++ (content ∷ []); seg = none })
  | inr failed ↦ absurd (ground (arith, failed))
]

after_rotate-PutAfter :
    (fs : Served) (line : Bytes) (r : Writer × Bool)
    → (r.1 ≡ true → NoTorn r.0.seg)
    → (after_rotate fs line r).1 ≡ true
    → PutAfter (after_rotate fs line r) line
unfolding after_rotate
after_rotate-PutAfter fs line (w, false) whole h = absurd (cc h)
after_rotate-PutAfter fs line (w, true) whole h = write_line-PutAfter fs w line w.seg (whole refl) h

append_line-PutAfter :
    (fs : Served) (w : Writer) (line : Bytes)
    → NoTorn w.seg
    → (append_line fs w line).1 ≡ true
    → PutAfter (append_line fs w line) line
unfolding append_line
append_line-PutAfter fs w line whole h = elim (Bool-cases w.closed) [
  | inl shut ↦ absurd (
      cc (
        h,
        ap (λ r. r.1)
            (if_true (w, false)
              (if must_rotate w line w.seg
                then after_rotate fs line (rotate fs w w.seg)
                else write_line fs w line w.seg)
              _ shut),
      ))
  | inr open_still ↦ elim (Bool-cases (must_rotate w line w.seg)) [
    | inl new ↦
        let is =
          if_false (w, false)
            (if must_rotate w line w.seg
              then after_rotate fs line (rotate fs w w.seg)
              else write_line fs w line w.seg)
            _ open_still
          ∙ if_true _ _ _ new in
        subst (λ r. PutAfter r line) (sym is)
          (after_rotate-PutAfter fs line (rotate fs w w.seg) (λ ok. rotate-empty fs w w.seg ok)
            (sym (ap (λ r. r.1) is) ∙ h))
    | inr same ↦
        let is =
          if_false (w, false)
            (if must_rotate w line w.seg
              then after_rotate fs line (rotate fs w w.seg)
              else write_line fs w line w.seg)
            _ open_still
          ∙ if_false _ _ _ same in
        subst (λ r. PutAfter r line) (sym is)
          (write_line-PutAfter fs w line w.seg whole (sym (ap (λ r. r.1) is) ∙ h))
  ]
]

-- A record of one line that `appendLine` takes without an error, on a segment that ends in no partial line,
-- is the last record that a scan of the segment reads, and the segment ends in no partial line again.
pub append_line-reads :
    (fs : Served) (w : Writer) (c : ℕ) (rec : Bytes)
    → NoTorn w.seg
    → OneLine (c ∷ rec)
    → (append_line fs w (c ∷ (rec ++ (b'\n' ∷ [])))).1 ≡ true
    → (content : Bytes) × (e : ℕ) × (earlier : List (ℕ × Bytes)) × ((append_line fs w
          (c ∷ (rec ++ (b'\n' ∷ [])))).0.seg
        ≡ some content)
      × (torn [] content ≡ [])
      × (scan_records content 0 ≡ earlier ++ ((e, c ∷ rec) ∷ []))
unfolding PutAfter
append_line-reads fs w c rec whole one h =
    let (content, put, kept) = append_line-PutAfter fs w (c ∷ (rec ++ (b'\n' ∷ []))) whole h in
    (
      content ++ (c ∷ (rec ++ (b'\n' ∷ []))),
      length content + length rec + 2,
      scan_records content 0,
      put,
      torn-added content (c ∷ rec) [],
      scan_records-added content c rec kept one,
    )
