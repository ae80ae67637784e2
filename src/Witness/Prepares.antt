-- ===== src/Witness/Prepares.antt =====
-- internal/witness/witness.go: exactly which submissions go on to be persisted and signed.
use behalf.Prelude.{
  ℕ, ◌<◌, ◌≡◌, refl, ◌↔◌, ◌⊎◌, inl, inr, true, Option, none, some, List, [], ◌∷◌, arith, ltb, ◌==◌,
  Bool-cases, Bytes, eqb, eqb_iff, lookup,
}
use behalf.Witness.Head.{Head, ok}
use behalf.Witness.Note.{parse_body, origin_line}
use behalf.Witness.Cosign.{
  Env, Witness, admit, check_consistent, prepare, parse, opened, verifier_for, cosign_text,
  is_empty, refuse,
}
use behalf.Witness.Store.{held_head}
use behalf.Witness.Admit.{prepare-Prepared}

is_empty-true : (proof : List Bytes) → is_empty proof ≡ true → proof ≡ []
unfolding is_empty
is_empty-true [] e = refl
is_empty-true (p ∷ ps) e = absurd (cc e)

module _ {V : Type 0} (env : Env V) where
  -- The safety rule: a first head comes without a proof; after it, the head that is held, again without
  -- a proof, or a larger one with a proof of consistency.
  abbrev pub Admits : Option Head → Head → List Bytes → Type 0
  Admits none offered proof = proof ≡ []
  Admits (some held) offered proof =
      ((offered.size ≡ held.size) × (offered.root ≡ held.root) × (proof ≡ []))
      ⊎ ((held.size < offered.size)
          × (env.verify_consistency held.size offered.size proof held.root offered.root ≡ true))

  check_consistent-Admits :
      (o : Bytes) (held offered : Head) (proof : List Bytes)
      → check_consistent env o held offered proof ≡ ok tt
      → Admits (some held) offered proof
  unfolding check_consistent refuse
  check_consistent-Admits o held offered proof h = elim (Bool-cases (ltb offered.size held.size)) [
    | inl smaller ↦ absurd (ground arith)
    | inr larger ↦ elim (Bool-cases (offered.size == held.size)) [
      | inr grows ↦ inr (ground arith, ground arith)
      | inl equal ↦ inl (
        ground arith,
        (eqb_iff offered.root held.root).0 (ground arith),
        is_empty-true proof (ground arith),
      )
    ]
  ]

  Admits-check_consistent :
      (o : Bytes) (held offered : Head) (proof : List Bytes)
      → Admits (some held) offered proof
      → check_consistent env o held offered proof ≡ ok tt
  unfolding check_consistent is_empty
  Admits-check_consistent o held offered proof (inl (size, root, empty)) =
      let root' : eqb offered.root held.root ≡ true = (eqb_iff offered.root held.root).1 root in
      let empty' : is_empty proof ≡ true = rw empty refl in ground (arith, size, root', empty')
  Admits-check_consistent o held offered proof (inr (grows, consistent)) =
      ground (arith, grows, consistent)

  admit-Admits :
      (o : Bytes) (held : Option Head) (offered : Head) (proof : List Bytes)
      → admit env o held offered proof ≡ ok tt ↔ Admits held offered proof
  unfolding admit
  admit-Admits o none offered proof = (
    λ e. is_empty-true proof (unfold refuse in ground (arith, e)),
    λ e. unfold is_empty in rw e refl,
  )
  admit-Admits o (some held) offered proof =
      (check_consistent-Admits o held offered proof, Admits-check_consistent o held offered proof)

  -- A submission that may be signed, with its origin, its head and the signature.
  pub record Ready (w : Witness V) (checkpoint : Bytes) (proof : List Bytes) (now : ℕ) (o : Bytes)
      (h : Head) (sig : Bytes) : Type 0 where
    pub verifier : V
    pub text : Bytes
    pub origin : origin_line checkpoint ≡ ok o
    pub registered : lookup o w.logs ≡ some verifier
    pub authentic : env.open_note checkpoint verifier ≡ some text
    pub body : parse_body text ≡ ok h
    pub admitted : Admits (held_head w.store.st o) h proof
    pub signed : cosign_text env now text ≡ ok sig

  -- A submission is prepared for signing exactly when a log that is registered under its origin signed
  -- its text, which holds the head, the witness can sign that text, and the head is the first of its
  -- origin or the one that is held, without a proof, or a larger one with a proof of consistency.
  pub prepare-Ready :
      (w : Witness V) (checkpoint : Bytes) (proof : List Bytes) (now : ℕ) (o : Bytes) (h : Head)
      (sig : Bytes)
      → prepare env w checkpoint proof now ≡ ok (o, h, sig) ↔ Ready w checkpoint proof now o h sig
  prepare-Ready w checkpoint proof now o h sig = (ready, prepared)
    where
      ready :
          prepare env w checkpoint proof now ≡ ok (o, h, sig) → Ready w checkpoint proof now o h sig
      ready e =
          let p = prepare-Prepared env w checkpoint proof now o h sig e in
          record {
            verifier = p.verifier;
            text = p.text;
            origin = p.origin;
            registered = p.registered;
            authentic = p.authentic;
            body = p.body;
            admitted = (admit-Admits o (held_head w.store.st o) h proof).0 p.admitted;
            signed = p.signed;
          }

      prepared :
          Ready w checkpoint proof now o h sig → prepare env w checkpoint proof now ≡ ok (o, h, sig)
      prepared r =
          let admitted = (admit-Admits o (held_head w.store.st o) h proof).1 r.admitted in
          unfold prepare in
          unfold parse in
          unfold verifier_for in
          unfold opened in simp (r.origin, r.registered, r.authentic, r.body, admitted, r.signed)
