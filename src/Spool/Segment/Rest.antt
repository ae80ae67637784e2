-- ===== src/Spool/Segment/Rest.antt =====
-- internal/spool/spool.go: `scanSegment` from the end of one of its records.
use behalf.Prelude.{
  ℕ, zero, suc, ◌+◌, ◌≡◌, refl, sym, ap, ◌∙◌, subst, ◌⊎◌, inl, inr, true, false, List, [], ◌∷◌,
  ◌++◌, append-nil, arith, ◌==◌, if◌then◌else◌, Bool-cases, length, take, drop, length-append,
  Bytes,
}
use behalf.Spool.Segment.{
  Reading, reads_all, not_opened, reads_until, scan_from, emit, scan_records, scan_segment,
}

drop-nil : (n : ℕ) → drop {A = ℕ} n [] ≡ []
drop-nil zero = refl
drop-nil (suc n) = refl

drop-drop : (m n k : ℕ) (s : Bytes) → m + n ≡ k → drop n (drop m s) ≡ drop k s
drop-drop zero n k s e = let same : n ≡ k = omega (arith, e) in ap (λ j. drop j s) same
drop-drop (suc m) n zero s e = absurd (omega (arith, e))
drop-drop (suc m) n (suc k) [] e = drop-nil n
drop-drop (suc m) n (suc k) (c ∷ s) e = drop-drop m n k s (omega (arith, e))

pub drop-length_all : (s : Bytes) → drop (length s) s ≡ []
drop-length_all [] = refl
drop-length_all (c ∷ s) = drop-length_all s

-- Where the record of offset `e` ends, in what is still to be read, and what follows it.
abbrev Ends : ℕ → Bytes → ℕ → List (ℕ × Bytes) → Type 0
Ends at rest e ys = (k : ℕ) × (e ≡ at + k) × (scan_from e [] (drop k rest) ≡ ys)

Ends-later :
    (at after e : ℕ) (c : ℕ) (rest : Bytes) (ys : List (ℕ × Bytes))
    → after ≡ at + 1
    → Ends after rest e ys
    → Ends at (c ∷ rest) e ys
Ends-later at after e c rest ys is (k, ends, reads) = (suc k, omega (arith, ends, is), reads)

emit-Ends :
    (at after : ℕ) (c : ℕ) (line rest : Bytes) (xs ys : List (ℕ × Bytes)) (e : ℕ) (r : Bytes)
    → after ≡ at + 1
    → ((zs : List (ℕ × Bytes))
        → scan_from after [] rest ≡ zs ++ ((e, r) ∷ ys)
        → Ends after rest e ys)
    → emit after line (scan_from after [] rest) ≡ xs ++ ((e, r) ∷ ys)
    → Ends at (c ∷ rest) e ys
unfolding emit
emit-Ends at after c [] rest xs ys e r is on h = Ends-later at after e c rest ys is (on xs h)
emit-Ends at after c (d ∷ line) rest [] ys e r is on h =
    let ends : after ≡ e = cc h in
    let reads : scan_from after [] rest ≡ ys = cc h in
    (1, omega (arith, ends, is), subst (λ j. scan_from j [] rest ≡ ys) ends reads)
emit-Ends at after c (d ∷ line) rest (x ∷ xs) ys e r is on h =
    Ends-later at after e c rest ys is (on xs (cc h))

scan_from-Ends :
    (off at : ℕ) (line rest : Bytes) (xs ys : List (ℕ × Bytes)) (e : ℕ) (r : Bytes)
    → at ≡ off + length line
    → scan_from off line rest ≡ xs ++ ((e, r) ∷ ys)
    → Ends at rest e ys
unfolding scan_from
scan_from-Ends off at line [] [] ys e r is h = absurd (cc h)
scan_from-Ends off at line [] (x ∷ xs) ys e r is h = absurd (cc h)
scan_from-Ends off at line (c ∷ rest) xs ys e r is h =
    let after = off + length line + 1 in
    let on : (zs : List (ℕ × Bytes))
        → scan_from after [] rest ≡ zs ++ ((e, r) ∷ ys)
        → Ends after rest e ys =
      λ zs k. scan_from-Ends after after [] rest zs ys e r (omega arith) k in
    elim (Bool-cases (c == b'\n')) [
      | inl newline ↦
          emit-Ends at after c line rest xs ys e r (omega (arith, is)) on (first newline ∙ h)
      | inr other ↦
          let longer = length-append line (c ∷ []) in
          Ends-later at (at + 1) e c rest ys refl (
            scan_from-Ends off (at + 1) (line ++ (c ∷ [])) rest xs ys e r
              (omega (arith, longer, is)) (second other ∙ h))
    ]
  where
    first :
        (c == b'\n') ≡ true
        → emit (off + length line + 1) line (scan_from (off + length line + 1) [] rest) ≡ (
            if c == b'\n'
            then emit (off + length line + 1) line (scan_from (off + length line + 1) [] rest)
            else scan_from off (line ++ (c ∷ [])) rest)
    first newline = rw newline refl

    second :
        (c == b'\n') ≡ false
        → scan_from off (line ++ (c ∷ [])) rest ≡ (
            if c == b'\n'
            then emit (off + length line + 1) line (scan_from (off + length line + 1) [] rest)
            else scan_from off (line ++ (c ∷ [])) rest)
    second other = rw other refl

-- A scan from the end of a record reads what follows the record.
pub scan_records-rest :
    (content : Bytes) (start : ℕ) (xs ys : List (ℕ × Bytes)) (e : ℕ) (r : Bytes)
    → scan_records content start ≡ xs ++ ((e, r) ∷ ys)
    → scan_records content e ≡ ys
unfolding scan_records
scan_records-rest content start xs ys e r h =
    let (k, ends, reads) =
      scan_from-Ends start start [] (drop start content) xs ys e r (omega arith) h in
    ap (scan_from e []) (sym (drop-drop start k e content (sym ends))) ∙ reads

emit-append :
    (end' : ℕ) (line : Bytes) (xs ys : List (ℕ × Bytes))
    → emit end' line (xs ++ ys) ≡ emit end' line xs ++ ys
unfolding emit
emit-append end' [] xs ys = refl
emit-append end' (c ∷ line) xs ys = refl

-- The complete records of a prefix come first.
scan_from-prefix :
    (off : ℕ) (line xs ys : Bytes)
    → (more : List (ℕ × Bytes)) × (scan_from off line (xs ++ ys) ≡ scan_from off line xs ++ more)
scan_from-prefix off line [] ys = (scan_from off line ys, unfold scan_from in refl)
scan_from-prefix off line (c ∷ xs) ys =
    step (Bool-cases (c == b'\n')) (scan_from-prefix (off + length line + 1) [] xs ys)
      (scan_from-prefix off (line ++ (c ∷ [])) xs ys)
  where
    step :
        ((c == b'\n') ≡ true) ⊎ ((c == b'\n') ≡ false)
        → ((more : List (ℕ × Bytes)) × (scan_from (off + length line + 1) [] (xs ++ ys)
              ≡ scan_from (off + length line + 1) [] xs ++ more))
        → ((more : List (ℕ × Bytes)) × (scan_from off (line ++ (c ∷ [])) (xs ++ ys)
              ≡ scan_from off (line ++ (c ∷ [])) xs ++ more))
        → (more : List (ℕ × Bytes)) × (scan_from off line ((c ∷ xs) ++ ys)
            ≡ scan_from off line (c ∷ xs) ++ more)
    step (inl feed) ended longer = (
      ended.0,
      unfold scan_from in
          rw feed (
            ap (emit (off + length line + 1) line) ended.1
            ∙ emit-append (off + length line + 1) line (scan_from (off + length line + 1) [] xs)
                ended.0),
    )
    step (inr inside) ended longer = (longer.0, unfold scan_from in rw inside longer.1)

drop-take : (n start : ℕ) (s : Bytes) → (t : Bytes) × (drop start s ≡ drop start (take n s) ++ t)
drop-take n start [] = ([], unfold_nil n start)
  where
    unfold_nil : (n start : ℕ) → drop {A = ℕ} start [] ≡ drop start (take n []) ++ []
    unfold_nil zero zero = refl
    unfold_nil zero (suc start) = refl
    unfold_nil (suc n) zero = refl
    unfold_nil (suc n) (suc start) = refl
drop-take zero zero (c ∷ s) = (c ∷ s, refl)
drop-take zero (suc start) (c ∷ s) = (drop start s, refl)
drop-take (suc n) zero (c ∷ s) = let (t, e) = drop-take n zero s in (t, ap (◌∷◌ c) e)
drop-take (suc n) (suc start) (c ∷ s) = drop-take n start s

-- What a scan gives to its callback comes first among the complete records.
pub scan_segment-prefix :
    (reading : Reading) (content : Bytes) (start : ℕ)
    → (more : List (ℕ × Bytes)) × (scan_records content start
        ≡ (scan_segment reading content start).0 ++ more)
unfolding scan_segment
scan_segment-prefix reads_all content start = ([], sym (append-nil (scan_records content start)))
scan_segment-prefix not_opened content start = (scan_records content start, refl)
scan_segment-prefix (reads_until n) content start =
    let (t, parts) = drop-take n start content in
    let (more, e) = scan_from-prefix start [] (drop start (take n content)) t in
    (more, unfold scan_records in ap (scan_from start []) parts ∙ e)
