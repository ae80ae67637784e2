-- ===== src/Witness/Cosign.antt =====
-- internal/witness/witness.go and key.go: `parse`, `checkConsistent` and `Cosign`.
use behalf.Prelude.{
  ℕ, Bool, true, false, Option, none, some, List, [], ◌∷◌, ◌++◌, ltb, ◌==◌, if◌then◌else◌, Bytes,
  eqb, Dict, lookup,
}
use behalf.Witness.Head.{
  Head, zero_head, Reason, smaller_size, fork_at_size, inconsistent_proof, Result, ok, err,
  unknown_origin, log_signature, refused, not_signed, not_flushed, ◌>>=◌,
}
use behalf.Witness.Note.{origin_line, parse_body}
use behalf.Witness.Store.{Store, Flush, held_head, record_head}

-- What the witness calls and does not implement: golang.org/x/mod/sumdb/note with a log's
-- verifier, the same with the witness's own signer, and the RFC 6962 proof check of
-- transparency-dev/merkle.
pub record Env (V : Type 0) : Type 0 where
  -- `note.NewVerifier`, and the name of a verifier.
  pub new_verifier : Bytes → Option V
  pub name : V → Bytes
  -- `strings.TrimSpace`.
  pub trim_space : Bytes → Bytes
  -- `note.Open`: the text of a note that the verifier authenticates.
  pub open_note : Bytes → V → Option Bytes
  -- `note.Sign` at a time.
  pub sign_note : ℕ → Bytes → Option Bytes
  -- `proof.VerifyConsistency(size1, size2, proof, root1, root2)` returns no error.
  pub verify_consistency : ℕ → ℕ → List Bytes → Bytes → Bytes → Bool

pub record Witness (V : Type 0) : Type 0 where
  pub logs : Dict V
  pub store : Store

-- The note text that is signed ends with a line feed.
closed_text : Bytes → Bytes
closed_text [] = 10 ∷ []
closed_text (c ∷ []) = if c == 10 then c ∷ [] else c ∷ 10 ∷ []
closed_text (c ∷ d ∷ cs) = c ∷ closed_text (d ∷ cs)

-- What follows the first blank line of a signed note.
after_blank : Bytes → Option Bytes
after_blank [] = none
after_blank (c ∷ []) = none
after_blank (c ∷ d ∷ cs) =
    let rest = after_blank (d ∷ cs) in if c == 10 then (if d == 10 then some cs else rest) else rest

signature_block : Option Bytes → Result Bytes
signature_block none = err not_signed
signature_block (some signed) = elim (after_blank signed) [
  | none ↦ err not_signed
  | some sig ↦ ok sig
]

unfoldable pub refuse : Reason → Bytes → Head → Head → Result (Unit {0})
refuse reason origin held offered =
    err (refused (record { reason = reason; origin = origin; held = held; offered = offered }))

unfoldable pub is_empty : List Bytes → Bool
is_empty [] = true
is_empty (p ∷ ps) = false

module _ {V : Type 0} (env : Env V) where
  open env use {new_verifier, name, open_note, sign_note, verify_consistency}

  -- `CosignText`.
  unfoldable pub cosign_text : ℕ → Bytes → Result Bytes
  unfolding closed_text after_blank signature_block
  cosign_text now text = signature_block (sign_note now (closed_text text))

  unfoldable pub verifier_for : Bytes → Option V → Result V
  verifier_for origin none = err (unknown_origin origin)
  verifier_for origin (some v) = ok v

  unfoldable pub opened : Bytes → Option Bytes → Result Bytes
  opened origin none = err (log_signature origin)
  opened origin (some text) = ok text

  -- `parse`: the origin, the head and the authenticated text of a checkpoint.
  unfoldable pub parse : Dict V → Bytes → Result (Bytes × Head × Bytes)
  unfolding verifier_for opened
  parse logs checkpoint = do
    origin ← origin_line checkpoint
    verifier ← verifier_for origin (lookup origin logs)
    text ← opened origin (open_note checkpoint verifier)
    head ← parse_body text
    ok (origin, head, text)

  -- `checkConsistent`, the safety rule.
  unfoldable pub check_consistent : Bytes → Head → Head → List Bytes → Result (Unit {0})
  unfolding refuse is_empty
  check_consistent origin held offered proof =
      if ltb offered.size held.size
      then refuse smaller_size origin held offered
      else if offered.size == held.size
      then (if eqb offered.root held.root
          then (if is_empty proof then ok tt else refuse inconsistent_proof origin held offered)
          else refuse fork_at_size origin held offered)
      else if verify_consistency held.size offered.size proof held.root offered.root
      then ok tt
      else refuse inconsistent_proof origin held offered

  -- A first checkpoint of an origin comes without a proof.
  unfoldable pub admit : Bytes → Option Head → Head → List Bytes → Result (Unit {0})
  unfolding refuse is_empty
  admit origin (some held) offered proof = check_consistent origin held offered proof
  admit origin none offered proof =
      if is_empty proof then ok tt else refuse inconsistent_proof origin zero_head offered

  -- The safety rule and the signature, before anything is written.
  unfoldable pub prepare : Witness V → Bytes → List Bytes → ℕ → Result (Bytes × Head × Bytes)
  prepare w checkpoint proof now = do
    (origin, head, text) ← parse w.logs checkpoint
    _ ← admit origin (held_head w.store.st origin) head proof
    sig ← cosign_text now text
    ok (origin, head, sig)

  unfoldable pub finish : Witness V → Bytes → Store × Bool → Witness V × Result Bytes
  finish w sig (store, true) = (record w { store = store }, ok sig)
  finish w sig (store, false) = (record w { store = store }, err not_flushed)

  unfoldable pub persist :
      Witness V → Bytes → ℕ → Flush → Result (Bytes × Head × Bytes) → Witness V × Result Bytes
  unfolding finish
  persist w checkpoint now flush (err e) = (w, err e)
  persist w checkpoint now flush (ok (origin, head, sig)) =
      finish w sig (record_head w.store origin head (checkpoint ++ sig) now flush)

  -- `Cosign`: the head is persisted before the signature is returned.
  unfoldable pub cosign : Witness V → Bytes → List Bytes → ℕ → Flush → Witness V × Result Bytes
  unfolding persist prepare
  cosign w checkpoint proof now flush =
      persist w checkpoint now flush (prepare w checkpoint proof now)
