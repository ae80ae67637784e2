-- ===== src/Spool/Drain/Scans.antt =====
-- internal/spool/spool.go: what a scan of a segment in `Drain` has given to the sink.
use behalf.Prelude.{
  ℕ, ◌≡◌, refl, sym, ap, ◌∙◌, inl, inr, Bool, false, Option, none, some, List, [], ◌∷◌, ◌++◌,
  append-nil, append_assoc, arith, if◌then◌else◌, Bool-cases, Option-cases, some_inj, Bytes, eqb,
}
use behalf.Spool.Segment.{Completion, Codec, scan_records}
use behalf.Spool.Segment.Rest.{scan_records-rest}
use behalf.Spool.Recover.{type_completion}
use behalf.Spool.Drain.{Scanned, give, drain_type, after_record, drain_records}

module _ (codec : Codec) where
  -- The completion that a record is, if it is one and can be read.
  abbrev pub completion_in : Bytes → Option Bytes → List Completion
  completion_in rec none = []
  completion_in rec (some type) =
      if eqb type type_completion
      then elim (codec.parse_completion rec) [ none ↦ [] | some c ↦ c ∷ [] ]
      else []

  abbrev pub completions : List (ℕ × Bytes) → List Completion
  completions [] = []
  completions ((end', rec) ∷ records) =
      completion_in rec (codec.record_type rec) ++ completions records

  pub completions-append :
      (xs ys : List (ℕ × Bytes)) → completions (xs ++ ys) ≡ completions xs ++ completions ys
  completions-append [] ys = refl
  completions-append ((e, rec) ∷ xs) ys =
      ap (completion_in rec (codec.record_type rec) ++◌) (completions-append xs ys)
      ∙ sym (
          append_assoc (completion_in rec (codec.record_type rec)) (completions xs)
            (completions ys))

module _ {S : Type 0} (codec : Codec) (sink : S → Completion → S × Bool) where
  drain_type-completion :
      (s : S) (rec : Bytes) (t : Option Bytes) (cs : List Completion)
      → (drain_type codec sink s rec t).1 ≡ some cs
      → cs ≡ completion_in codec rec t
  drain_type-completion s rec none cs e = unfold drain_type in absurd (cc e)
  drain_type-completion s rec (some type) cs e = elim (Bool-cases (eqb type type_completion)) [
    | inr other ↦ unfold drain_type in ground arith
    | inl same ↦ elim (Option-cases (codec.parse_completion rec)) [
      | inl bad ↦ absurd (unfold drain_type give in ground arith)
      | inr (c, parsed) ↦ elim (Bool-cases (sink s c).1) [
        | inl ok ↦ unfold drain_type give in ground arith
        | inr refused ↦ absurd (unfold drain_type give in ground arith)
      ]
    ]
  ]

  drain_records-on :
      (end' : ℕ) (rec : Bytes) (records : List (ℕ × Bytes)) (r : Scanned S) (cs : List Completion)
      → (drain_type codec sink r.sink rec (codec.record_type rec)).1 ≡ some cs
      → drain_records codec sink ((end', rec) ∷ records) r
        ≡ drain_records codec sink records record {
          sink = (drain_type codec sink r.sink rec (codec.record_type rec)).0;
          accepted = r.accepted ++ cs;
          consumed = end';
          whole = r.whole;
        }
  unfolding drain_records after_record
  drain_records-on end' rec records r cs e =
      go (drain_type codec sink r.sink rec (codec.record_type rec)) e
    where
      go :
          (d : S × Option (List Completion))
          → d.1 ≡ some cs
          → after_record codec sink d end' r (λ r'. drain_records codec sink records r')
            ≡ drain_records codec sink records
                record { sink = d.0; accepted = r.accepted ++ cs; consumed = end'; whole = r.whole }
      go (s, some ds) h =
          ap
            (λ x.
              drain_records codec sink records
                record { sink = s; accepted = r.accepted ++ x; consumed = end'; whole = r.whole })
            (some_inj h)
      go (s, none) h = absurd (cc h)

  drain_records-stop :
      (end' : ℕ) (rec : Bytes) (records : List (ℕ × Bytes)) (r : Scanned S)
      → (drain_type codec sink r.sink rec (codec.record_type rec)).1 ≡ none
      → drain_records codec sink ((end', rec) ∷ records) r ≡ record r {
        sink = (drain_type codec sink r.sink rec (codec.record_type rec)).0;
        whole = false;
      }
  unfolding drain_records after_record
  drain_records-stop end' rec records r e =
      go (drain_type codec sink r.sink rec (codec.record_type rec)) e
    where
      go :
          (d : S × Option (List Completion))
          → d.1 ≡ none
          → after_record codec sink d end' r (λ r'. drain_records codec sink records r')
            ≡ record r { sink = d.0; whole = false }
      go (s, none) h = refl
      go (s, some ds) h = absurd (cc h)

  -- What a scan has read of a segment: all is accepted up to the offset consumed, from which a later scan
  -- reads the rest.
  unfoldable pub Split : Bytes → List (ℕ × Bytes) → List Completion → Scanned S → Type 0
  Split content records accepted q =
      (read rest : List (ℕ × Bytes)) × (records ≡ read ++ rest)
      × (q.accepted ≡ accepted ++ completions codec read)
      × (scan_records content q.consumed ≡ rest)

  pub drain_records-Split :
      (content : Bytes) (start : ℕ) (before records more : List (ℕ × Bytes)) (r : Scanned S)
      → scan_records content start ≡ before ++ (records ++ more)
      → scan_records content r.consumed ≡ records ++ more
      → Split content (records ++ more) r.accepted (drain_records codec sink records r)
  unfolding Split
  drain_records-Split content start before [] more r e f = (
    [],
    more,
    refl,
    unfold drain_records in sym (append-nil r.accepted),
    unfold drain_records in f,
  )
  drain_records-Split content start before ((end', rec) ∷ records) more r e f =
      elim (Option-cases (drain_type codec sink r.sink rec (codec.record_type rec)).1) [
        | inl none_given ↦
            let is = drain_records-stop end' rec records r none_given in
            (
              [],
              (end', rec) ∷ (records ++ more),
              refl,
              ap (λ q. q.accepted) is ∙ sym (append-nil r.accepted),
              ap (λ q. scan_records content q.consumed) is ∙ f,
            )
        | inr (cs, given) ↦
            let is = drain_records-on end' rec records r cs given in
            let here = drain_type-completion r.sink rec (codec.record_type rec) cs given in
            let (read, rest, parts, accepted, reads) =
              drain_records-Split content start (before ++ ((end', rec) ∷ [])) records more _
                (e ∙ sym (append_assoc before ((end', rec) ∷ []) (records ++ more)))
                (scan_records-rest content start before (records ++ more) end' rec e) in
            (
              (end', rec) ∷ read,
              rest,
              ap (◌∷◌ (end', rec)) parts,
              ap (λ q. q.accepted) is
                  ∙ accepted
                  ∙ append_assoc r.accepted cs (completions codec read)
                  ∙ ap (λ x. r.accepted ++ (x ++ completions codec read)) here,
              ap (λ q. scan_records content q.consumed) is ∙ reads,
            )
      ]
