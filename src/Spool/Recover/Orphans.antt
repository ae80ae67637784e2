-- ===== src/Spool/Recover/Orphans.antt =====
-- internal/spool/spool.go: which intents `Recover` reports.
use behalf.Prelude.{
  ℕ, ◌≡◌, refl, sym, ap, ◌∙◌, subst, ◌↔◌, inl, inr, Bool, true, false, ◌&&◌, ◌||◌, Option, none,
  some, List, [], ◌∷◌, ◌++◌, append-nil, append_assoc, arith, if◌then◌else◌, Bool-cases,
  Option-cases, ◌>>=◌, if_true, if_false, length, some_inj, Bytes, eqb,
}
use mathlib.Core.List.{Memᴰ}
use behalf.Spool.Segment.{
  Intent, Codec, Reading, reads_all, not_opened, reads_until, Disk, Segment, segments, scan_records,
  scan_segment,
}
use behalf.Spool.Recover.{
  Found, type_intent, type_completion, mem_id, note_intent, note_completion, note_type,
  note_records, note_segment, note_segments, orphans_of, orphans_in, recover,
}

module _ (codec : Codec) where
  abbrev intent_in : Bool → Bytes → Option Bytes → List (Intent × Bool)
  intent_in live rec none = []
  intent_in live rec (some type) =
      if eqb type type_intent
      then elim (codec.intent_of rec) [ none ↦ [] | some i ↦ (i, live) ∷ [] ]
      else []

  abbrev closed_by : Bytes → Option Bytes → List Bytes
  closed_by rec none = []
  closed_by rec (some type) =
      if eqb type type_intent
      then []
      else if eqb type type_completion
      then elim (codec.completion_intent_id rec) [ none ↦ [] | some id ↦ id ∷ [] ]
      else []

  -- The intents of some records, each with whether its segment is live.
  abbrev pub intents_in : Bool → List (ℕ × Bytes) → List (Intent × Bool)
  intents_in live [] = []
  intents_in live ((end', rec) ∷ records) =
      intent_in live rec (codec.record_type rec) ++ intents_in live records

  -- The ids that the completions among some records name.
  abbrev pub closed_in : List (ℕ × Bytes) → List Bytes
  closed_in [] = []
  closed_in ((end', rec) ∷ records) = closed_by rec (codec.record_type rec) ++ closed_in records

  abbrev pub all_intents : List Segment → List (Intent × Bool)
  all_intents [] = []
  all_intents (s ∷ segs) = intents_in s.live (scan_records s.content 0) ++ all_intents segs

  abbrev pub all_closed : List Segment → List Bytes
  all_closed [] = []
  all_closed (s ∷ segs) = closed_in (scan_records s.content 0) ++ all_closed segs

  mem_id-append :
      (id : Bytes) (xs ys : List Bytes) → mem_id id (xs ++ ys) ≡ (mem_id id xs || mem_id id ys)
  unfolding mem_id
  mem_id-append id [] ys = refl
  mem_id-append id (x ∷ xs) ys = ground (arith, mem_id-append id xs ys)

  -- What was found, with these intents and these ids besides.
  Adds : Found → List (Intent × Bool) → List Bytes → Found → Type 0
  Adds found is ids found' =
      (found'.candidates ≡ found.candidates ++ is)
      × ((id : Bytes) → mem_id id found'.completed ≡ (mem_id id found.completed || mem_id id ids))

  Adds-nothing : (found : Found) → Adds found [] [] found
  unfolding Adds mem_id
  Adds-nothing found = (sym (append-nil found.candidates), λ id. ground arith)

  Adds-both :
      (a b c : Found) (is js : List (Intent × Bool)) (xs ys : List Bytes)
      → Adds a is xs b
      → Adds b js ys c
      → Adds a (is ++ js) (xs ++ ys) c
  unfolding Adds
  Adds-both a b c is js xs ys (e, h) (f, k) = (
    f ∙ ap (λ l. l ++ js) e ∙ append_assoc a.candidates is js,
    λ id. ground (arith, h id, k id, mem_id-append id xs ys),
  )

  Adds-cong :
      (a b c : Found) (is js : List (Intent × Bool)) (xs ys : List Bytes)
      → is ≡ js
      → xs ≡ ys
      → b ≡ c
      → Adds a js ys c
      → Adds a is xs b
  Adds-cong a b c is js xs ys e f g h =
      subst (λ z. Adds a is xs z) (sym g)
        (subst (λ z. Adds a is z c) (sym f) (subst (λ z. Adds a z ys c) (sym e) h))

  Adds-intent :
      (found : Found) (i : Intent × Bool)
      → Adds found (i ∷ []) [] (record found { candidates = found.candidates ++ (i ∷ []) })
  unfolding Adds mem_id
  Adds-intent found i = (refl, λ id. ground arith)

  Adds-completion :
      (found : Found) (id : Bytes)
      → Adds found [] (id ∷ []) (record found { completed = id ∷ found.completed })
  unfolding Adds mem_id
  Adds-completion found id = (sym (append-nil found.candidates), λ j. ground arith)

  note_records-rest :
      (live : Bool) (end' : ℕ) (rec : Bytes) (records : List (ℕ × Bytes)) (found mid found' : Found)
      → note_type codec live rec (codec.record_type rec) found ≡ some mid
      → note_records codec live ((end', rec) ∷ records) found ≡ some found'
      → note_records codec live records mid ≡ some found'
  unfolding note_records
  note_records-rest live end' rec records found mid found' noted h =
      sym (ap (λ o. o >>= (λ f. note_records codec live records f)) noted) ∙ h

  -- A segment that is noted has been read to its end.
  note_segment-read :
      (disk : Disk) (s : Segment) (found mid : Found)
      → note_segment codec disk s found ≡ some mid
      → note_records codec s.live (scan_records s.content 0) found ≡ some mid
  unfolding note_segment
  note_segment-read disk s found mid h = go disk.reading h
    where
      go :
          (r : Reading)
          → (if disk.tried && (scan_segment r s.content 0).1
              then note_records codec s.live (scan_segment r s.content 0).0 found
              else none)
            ≡ some mid
          → note_records codec s.live (scan_records s.content 0) found ≡ some mid
      go reads_all e = unfold scan_segment in ground (arith, e)
      go not_opened e = absurd (unfold scan_segment in ground (arith, e))
      go (reads_until n) e = absurd (unfold scan_segment in ground (arith, e))

  note_segments-rest :
      (disk : ℕ → Disk) (s : Segment) (segs : List Segment) (found mid found' : Found)
      → note_segment codec (disk (length segs)) s found ≡ some mid
      → note_segments codec disk (s ∷ segs) found ≡ some found'
      → note_segments codec disk segs mid ≡ some found'
  unfolding note_segments
  note_segments-rest disk s segs found mid found' noted h =
      sym (ap (λ o. o >>= (λ f. note_segments codec disk segs f)) noted) ∙ h

  note_type-Adds :
      (live : Bool) (rec : Bytes) (t : Option Bytes) (found found' : Found)
      → note_type codec live rec t found ≡ some found'
      → Adds found (intent_in live rec t) (closed_by rec t) found'
  note_type-Adds live rec none found found' h = unfold note_type in absurd (cc h)
  note_type-Adds live rec (some type) found found' h = elim (Bool-cases (eqb type type_intent)) [
    | inl intent ↦ elim (Option-cases (codec.intent_of rec)) [
      | inl bad ↦ absurd (unfold note_type note_intent in ground arith)
      | inr (i, read) ↦
          let noted : note_type codec live rec (some type) found
              ≡ some (record found { candidates = found.candidates ++ ((i, live) ∷ []) }) =
            unfold note_type note_intent in rw (intent, read) refl in
          Adds-cong found _ _ _ _ _ _ (rw (intent, read) refl) (rw intent refl)
            (some_inj (sym h ∙ noted)) (Adds-intent found (i, live))
    ]
    | inr other ↦ elim (Bool-cases (eqb type type_completion)) [
      | inl completion ↦ elim (Option-cases (codec.completion_intent_id rec)) [
        | inl bad ↦ absurd (unfold note_type note_completion in ground arith)
        | inr (id, read) ↦
            let noted : note_type codec live rec (some type) found
                ≡ some (record found { completed = id ∷ found.completed }) =
              unfold note_type note_completion in rw (other, completion, read) refl in
            Adds-cong found _ _ _ _ _ _ (rw other refl) (rw (other, completion, read) refl)
              (some_inj (sym h ∙ noted)) (Adds-completion found id)
      ]
      | inr neither ↦
          let noted : note_type codec live rec (some type) found ≡ some found =
            unfold note_type in rw (other, neither) refl in
          Adds-cong found _ _ _ _ _ _ (rw other refl) (rw (other, neither) refl)
            (some_inj (sym h ∙ noted)) (Adds-nothing found)
    ]
  ]

  note_records-Adds :
      (live : Bool) (records : List (ℕ × Bytes)) (found found' : Found)
      → note_records codec live records found ≡ some found'
      → Adds found (intents_in live records) (closed_in records) found'
  note_records-Adds live [] found found' h =
      let same : some found ≡ some found' = unfold note_records in h in
      subst (Adds found [] []) (some_inj same) (Adds-nothing found)
  note_records-Adds live ((end', rec) ∷ records) found found' h =
      elim (Option-cases (note_type codec live rec (codec.record_type rec) found)) [
        | inl bad ↦ absurd (unfold note_records in ground arith)
        | inr (mid, noted) ↦
            Adds-both found mid found' _ _ _ _
              (note_type-Adds live rec (codec.record_type rec) found mid noted)
              (note_records-Adds live records mid found'
                (note_records-rest live end' rec records found mid found' noted h))
      ]

  note_segments-Adds :
      (disk : ℕ → Disk) (segs : List Segment) (found found' : Found)
      → note_segments codec disk segs found ≡ some found'
      → Adds found (all_intents segs) (all_closed segs) found'
  note_segments-Adds disk [] found found' h =
      let same : some found ≡ some found' = unfold note_segments in h in
      subst (Adds found [] []) (some_inj same) (Adds-nothing found)
  note_segments-Adds disk (s ∷ segs) found found' h =
      elim (Option-cases (note_segment codec (disk (length segs)) s found)) [
        | inl bad ↦ absurd (unfold note_segments in ground arith)
        | inr (mid, noted) ↦
            Adds-both found mid found' _ _ _ _
              (note_records-Adds s.live (scan_records s.content 0) found mid
                (note_segment-read (disk (length segs)) s found mid noted))
              (note_segments-Adds disk segs mid found'
                (note_segments-rest disk s segs found mid found' noted h))
      ]

  orphans_of-in :
      (completed : List Bytes) (candidates : List (Intent × Bool)) (i : Intent)
      → Memᴰ i (orphans_of codec completed candidates)
      → Memᴰ (i, false) candidates × (mem_id i.intent_id completed ≡ false)
  unfolding orphans_of
  orphans_of-in completed [] i m = elim m [ ]
  orphans_of-in completed ((j, live) ∷ candidates) i m =
      elim (Bool-cases (live || mem_id j.intent_id completed)) [
        | inl passed ↦
            let (at, out) =
              orphans_of-in completed candidates i (subst (Memᴰ i) (if_true _ _ _ passed) m) in
            (Memᴰ.tail at, out)
        | inr orphan ↦
            let quiet : live ≡ false = ground (arith, orphan) in
            let out : mem_id j.intent_id completed ≡ false = ground (arith, orphan) in
            elim (subst (Memᴰ i) (if_false _ _ _ orphan) m) [
              | Memᴰ.head e ↦ (Memᴰ.head (cc (e, quiet)), cc (e, out))
              | Memᴰ.tail t ↦
                  let (at, out') = orphans_of-in completed candidates i t in (Memᴰ.tail at, out')
            ]
      ]

  orphans_of-all :
      (completed : List Bytes) (candidates : List (Intent × Bool)) (i : Intent)
      → Memᴰ (i, false) candidates
      → mem_id i.intent_id completed ≡ false
      → Memᴰ i (orphans_of codec completed candidates)
  unfolding orphans_of
  orphans_of-all completed [] i m out = elim m [ ]
  orphans_of-all completed ((j, live) ∷ candidates) i m out =
      elim (Bool-cases (live || mem_id j.intent_id completed)) [
        | inl passed ↦ elim m [
          | Memᴰ.head e ↦
              let quiet : false ≡ live = ap (λ p. p.1) e in
              let same : i ≡ j = ap (λ p. p.0) e in
              absurd (clash live (mem_id j.intent_id completed) quiet (cc (same, out)) passed)
          | Memᴰ.tail t ↦
              subst (Memᴰ i) (sym (if_true _ _ _ passed))
                (orphans_of-all completed candidates i t out)
        ]
        | inr orphan ↦ subst (Memᴰ i) (sym (if_false _ _ _ orphan)) (elim m [
          | Memᴰ.head e ↦ Memᴰ.head (ap (λ p. p.0) e)
          | Memᴰ.tail t ↦ Memᴰ.tail (orphans_of-all completed candidates i t out)
        ])
      ]
    where
      clash : (a b : Bool) → false ≡ a → b ≡ false → (a || b) ≡ true → ⊥
      clash a b e f h = ground (arith, e, f, h)

  recover-found :
      (listed : Bool) (disk : ℕ → Disk) (dir : List Segment) (os : List Intent)
      → recover codec listed disk dir ≡ some os
      → (found : Found) × (note_segments codec disk
            (segments dir)
            record { candidates = []; completed = [] }
          ≡ some found)
        × (orphans_of codec found.completed found.candidates ≡ os)
  unfolding recover orphans_in
  recover-found false disk dir os h = absurd (cc h)
  recover-found true disk dir os h =
      elim (Option-cases
        (note_segments codec disk (segments dir) record { candidates = []; completed = [] })) [
          | inl bad ↦ absurd (ground arith)
          | inr (found, e) ↦ (found, e, some_inj (sym (ap (orphans_in codec) e) ∙ h))
        ]

  -- Where `Recover` returns no error, it reports exactly the intents of quiescent segments whose id no
  -- completion in any of the segments names.
  pub recover-orphans :
      (listed : Bool) (disk : ℕ → Disk) (dir : List Segment) (os : List Intent) (i : Intent)
      → recover codec listed disk dir ≡ some os
      → Memᴰ i os ↔ (
          Memᴰ (i, false) (all_intents (segments dir))
          × (mem_id i.intent_id (all_closed (segments dir)) ≡ false))
  recover-orphans listed disk dir os i h =
      let (found, read, is) = recover-found listed disk dir os h in
      let (candidates, completed) = added found read in
      (
        λ m.
            let (at, out) =
              orphans_of-in found.completed found.candidates i (subst (Memᴰ i) (sym is) m) in
            (subst (Memᴰ (i, false)) candidates at, sym (completed i.intent_id) ∙ out),
        λ (at, out). subst (Memᴰ i) is (
            orphans_of-all found.completed found.candidates i
              (subst (Memᴰ (i, false)) (sym candidates) at) (completed i.intent_id ∙ out)),
      )
    where
      added :
          (found : Found)
          → note_segments codec disk (segments dir) record { candidates = []; completed = [] }
            ≡ some found
          → (found.candidates ≡ all_intents (segments dir))
            × ((id : Bytes) → mem_id id found.completed ≡ mem_id id (all_closed (segments dir)))
      added found read =
          unfold Adds mem_id in
          note_segments-Adds disk (segments dir) record { candidates = []; completed = [] } found
            read
