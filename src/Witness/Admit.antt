-- ===== src/Witness/Admit.antt =====
-- internal/witness/witness.go: a submission that passes, and the head that is held.
use behalf.Prelude.{
  ℕ, ◌≡◌, subst, inl, inr, Option, none, some, List, arith, ltb, ◌==◌, Bool-cases, Bytes, eqb_iff,
  Dict, lookup,
}
use behalf.Witness.Head.{Head, ok, >>=-eq-ok}
use behalf.Witness.Note.{parse_body, origin_line}
use behalf.Witness.Cosign.{
  Env, Witness, admit, check_consistent, prepare, parse, opened, verifier_for, cosign_text,
}
use behalf.Witness.Chain.{Extends}
use behalf.Witness.Store.{held_head}

module _ {V : Type 0} (env : Env V) where
  -- What the witness may sign: the head that it holds, or one that extends it.
  pub data Follows (held offered : Head) : Type 0 where
    same : held ≡ offered → Follows held offered
    grown : Extends env held offered → Follows held offered

  pub check_consistent-Follows :
      (o : Bytes) (held offered : Head) (proof : List Bytes)
      → check_consistent env o held offered proof ≡ ok tt
      → Follows held offered
  unfolding check_consistent
  check_consistent-Follows o held offered proof h = elim (Bool-cases (ltb offered.size held.size)) [
    | inl smaller ↦ absurd (ground arith)
    | inr larger ↦ elim (Bool-cases (offered.size == held.size)) [
      | inl equal ↦ same (ground (arith, eqb_iff offered.root held.root))
      | inr grows ↦
          grown (record { grows = ground arith; proof = proof; consistent = ground arith })
    ]
  ]

  -- Where a head is held, only one that follows it is admitted.
  pub admit-Follows :
      (o : Bytes) (held offered : Head) (proof : List Bytes)
      → admit env o (some held) offered proof ≡ ok tt
      → Follows held offered
  unfolding admit
  admit-Follows o held offered proof h = check_consistent-Follows o held offered proof h

  -- What a checkpoint went through before its head is signed.
  pub record Prepared (w : Witness V) (checkpoint : Bytes) (proof : List Bytes) (now : ℕ)
      (o : Bytes) (h : Head) (sig : Bytes) : Type 0 where
    pub verifier : V
    pub text : Bytes
    pub origin : origin_line checkpoint ≡ ok o
    pub registered : lookup o w.logs ≡ some verifier
    pub authentic : env.open_note checkpoint verifier ≡ some text
    pub body : parse_body text ≡ ok h
    pub admitted : admit env o (held_head w.store.st o) h proof ≡ ok tt
    pub signed : cosign_text env now text ≡ ok sig

  opened-ok : (o : Bytes) (r : Option Bytes) (t : Bytes) → opened env o r ≡ ok t → r ≡ some t
  unfolding opened
  opened-ok o none t h = cc
  opened-ok o (some x) t h = ground arith

  verifier_for-ok : (o : Bytes) (r : Option V) (v : V) → verifier_for env o r ≡ ok v → r ≡ some v
  unfolding verifier_for
  verifier_for-ok o none v h = cc
  verifier_for-ok o (some x) v h = cc

  parse-ok :
      (logs : Dict V) (checkpoint : Bytes) (o : Bytes) (h : Head) (t : Bytes)
      → parse env logs checkpoint ≡ ok (o, h, t)
      → (v : V) × (origin_line checkpoint ≡ ok o)
        × (lookup o logs ≡ some v)
        × (env.open_note checkpoint v ≡ some t)
        × (parse_body t ≡ ok h)
  unfolding parse
  parse-ok logs checkpoint o h t e =
      let (o', eo, e₁) = >>=-eq-ok (origin_line checkpoint) _ e in
      let (v, ev, e₂) = >>=-eq-ok (verifier_for env o' (lookup o' logs)) _ e₁ in
      let (t', et, e₃) = >>=-eq-ok (opened env o' (env.open_note checkpoint v)) _ e₂ in
      let (h', eh, e₄) = >>=-eq-ok (parse_body t') _ e₃ in
      let same_o : o' ≡ o = cc e₄ in
      let same_t : t' ≡ t = cc e₄ in
      let same_h : h' ≡ h = cc e₄ in
      (
        v,
        subst (λ x. origin_line checkpoint ≡ ok x) same_o eo,
        subst (λ x. lookup x logs ≡ some v) same_o (verifier_for-ok o' (lookup o' logs) v ev),
        subst (λ x. env.open_note checkpoint v ≡ some x) same_t
            (opened-ok o' (env.open_note checkpoint v) t' et),
        subst (λ x. parse_body x ≡ ok h) same_t (subst (λ x. parse_body t' ≡ ok x) same_h eh),
      )

  pub prepare-Prepared :
      (w : Witness V) (checkpoint : Bytes) (proof : List Bytes) (now : ℕ) (o : Bytes) (h : Head)
      (sig : Bytes)
      → prepare env w checkpoint proof now ≡ ok (o, h, sig)
      → Prepared w checkpoint proof now o h sig
  unfolding prepare
  prepare-Prepared w checkpoint proof now o h sig e =
      let ((o', h', t), ep, e₁) = >>=-eq-ok (parse env w.logs checkpoint) _ e in
      let (u, ea, e₂) = >>=-eq-ok (admit env o' (held_head w.store.st o') h' proof) _ e₁ in
      let (sig', es, e₃) = >>=-eq-ok (cosign_text env now t) _ e₂ in
      let (v, eo, ev, et, eb) = parse-ok w.logs checkpoint o' h' t ep in
      let same_o : o' ≡ o = cc e₃ in
      let same_h : h' ≡ h = cc e₃ in
      let same_s : sig' ≡ sig = cc e₃ in
      record {
        verifier = v;
        text = t;
        origin = cc (eo, same_o);
        registered = cc (ev, same_o);
        authentic = et;
        body = cc (eb, same_h);
        admitted = cc (ea, same_o, same_h);
        signed = cc (es, same_s);
      }
