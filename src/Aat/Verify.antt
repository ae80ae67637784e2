-- ===== src/Aat/Verify.antt =====
-- internal/aat/verify.go: the state of each hop of a chain, from the root up.
pub mod Sound
pub mod Chains
use behalf.Prelude.{
  Bool, true, false, not, ◌&&◌, Option, none, some, List, [], ◌∷◌, ◌++◌, if◌then◌else◌, Bytes,
  codes, eqb,
}
use behalf.Prelude.Int.{ℤ, pos, ltb_ℤ, eqb_ℤ, suc_int}
use behalf.Aat.Hop.{
  Crypto, Claims, Hop, RootBinding, is_set, signed, root_par_hash, public_key, jkt, par_hash,
}
use behalf.Aat.Result.{
  Status, verified, asserted, broken, root_oidc, hop_jws, no_signature, no_root_material,
  root_degraded, parent_unverified, uncomparable_grant, unsupported_key, broken_signature,
  broken_par_hash, broken_depth, broken_expiry, broken_attenuation, broken_root, broken_malformed,
  Attenuation, broadened, unknown, state_degraded, state_broken, Report, RootMaterial, HopResult,
  asserted_with, broken_with, first_failure,
}
use behalf.Aat.Jws.{verify_signature}

expired_at : Option ℤ → ℤ → Bool
expired_at none exp = false
expired_at (some at) exp = ltb_ℤ exp at

outlives : Option ℤ → ℤ → Bool
outlives none exp = false
outlives (some parent_exp) exp = ltb_ℤ (pos 0) parent_exp && ltb_ℤ parent_exp exp

abbrev pub digest_ref : Bytes → Bytes
digest_ref digest = codes "sha256:" ++ digest

module _ {G : Type 0} (crypto : Crypto (Claims G)) where
  -- `checkRequiredClaims`.
  required_checks : Hop G → Bytes → List (Bool × HopResult)
  unfolding broken_with is_set
  required_checks h evidence =
      (not (is_set h.claims.jti), broken_with broken_malformed evidence) ∷ []

  -- `checkExpiry`; the second argument is the parent's expiry.
  expiry_checks : Hop G → Option ℤ → RootMaterial → Bytes → List (Bool × HopResult)
  unfolding broken_with expired_at outlives
  expiry_checks h parent_exp root evidence =
      (not (ltb_ℤ (pos 0) h.claims.exp), broken_with broken_malformed evidence)
      ∷ (outlives parent_exp h.claims.exp, broken_with broken_expiry evidence)
      ∷ (expired_at root.at h.claims.exp, broken_with broken_expiry evidence)
      ∷ []

  -- The root binding names the key that the hop confirms, where it names one.
  binding_checks : Bytes → Option RootBinding → Bytes → List (Bool × HopResult)
  unfolding broken_with is_set
  binding_checks key none evidence = []
  binding_checks key (some b) evidence =
      (is_set b.nonce && not (eqb b.nonce key), broken_with broken_root evidence)
      ∷ (is_set b.device_jkt && not (eqb b.device_jkt key), broken_with broken_root evidence)
      ∷ []

  statement_ref : Bytes → Bytes → Bytes
  statement_ref [] evidence = evidence
  statement_ref (c ∷ digest) evidence = digest_ref (c ∷ digest)

  -- Any state but `broken` and `degraded` falls through.
  by_state : Bytes → Bytes → Bytes → HopResult
  unfolding broken_with asserted_with statement_ref
  by_state state digest evidence =
      if eqb state state_broken
      then broken_with broken_root evidence
      else if eqb state state_degraded
      then asserted_with root_degraded evidence
      else record {
        status = verified;
        method = root_oidc;
        evidence_ref = statement_ref digest evidence;
        attenuation = none;
      }

  root_reported : Hop G → Option Report → Bytes → HopResult
  unfolding asserted_with binding_checks by_state is_set
  root_reported h none evidence = asserted_with no_root_material evidence
  root_reported h (some rep) evidence =
      let key = jkt crypto h in
      first_failure
        ((is_set rep.device_jkt && not (eqb rep.device_jkt key), broken_with broken_root evidence)
          ∷ binding_checks key h.claims.root_principal_binding evidence)
        (by_state rep.state rep.statement_digest evidence)

  root_keyed : Hop G → Option Bytes → RootMaterial → Bytes → HopResult
  unfolding asserted_with broken_with required_checks expiry_checks root_reported
  root_keyed h none root evidence = asserted_with unsupported_key evidence
  root_keyed h (some pub_key) root evidence =
      first_failure
        ((not (verify_signature crypto h.jws pub_key h.raw), broken_with broken_signature evidence)
          ∷ (required_checks h evidence ++ expiry_checks h none root evidence))
        (root_reported h root.report evidence)

  -- `verifyRootHop`.
  unfoldable pub verify_root_hop : Hop G → RootMaterial → HopResult
  unfolding asserted_with broken_with root_keyed
  verify_root_hop h root =
      let evidence = digest_ref (par_hash crypto h.jws) in
      first_failure
        ((not (eqb_ℤ h.claims.del_depth (pos 0)), broken_with broken_depth [])
          ∷ (not (signed h), asserted_with no_signature [])
          ∷ (not (eqb h.claims.par_hash root_par_hash), broken_with broken_par_hash evidence)
          ∷ [])
        (root_keyed h (public_key h.claims.cnf) root evidence)

  depth_checks : Claims G → Claims G → Bytes → List (Bool × HopResult)
  unfolding broken_with
  depth_checks c parent evidence =
      (not (eqb_ℤ c.del_depth (suc_int parent.del_depth)), broken_with broken_depth evidence)
      ∷ (ltb_ℤ parent.del_max_depth c.del_max_depth, broken_with broken_depth evidence)
      ∷ (ltb_ℤ c.del_max_depth c.del_depth, broken_with broken_depth evidence)
      ∷ []

  is_verified : Status → Bool
  is_verified verified = true
  is_verified asserted = false
  is_verified broken = false

  -- What the comparison and the parent's state leave.
  concluded : Status → Bytes → Attenuation → HopResult
  unfolding is_verified
  concluded parent_status evidence broadened = record {
    status = broken;
    method = broken_attenuation;
    evidence_ref = evidence;
    attenuation = some broadened;
  }
  concluded parent_status evidence unknown = record {
    status = asserted;
    method = if is_verified parent_status then uncomparable_grant else parent_unverified;
    evidence_ref = evidence;
    attenuation = some unknown;
  }
  concluded parent_status evidence att = record {
    status = if is_verified parent_status then verified else asserted;
    method = if is_verified parent_status then hop_jws else parent_unverified;
    evidence_ref = evidence;
    attenuation = some att;
  }

  -- `why.CompareGrants` over the projected grants of the parent and of the hop.
  module _ (compare_grants : List G → List G → Attenuation) where
    hop_keyed : Hop G → Hop G → Status → RootMaterial → Bytes → Option Bytes → HopResult
    unfolding asserted_with broken_with required_checks expiry_checks depth_checks concluded is_set
    hop_keyed h parent parent_status root evidence none = asserted_with unsupported_key evidence
    hop_keyed h parent parent_status root evidence (some parent_key) =
        first_failure
          ((
            not (verify_signature crypto h.jws parent_key h.raw),
            broken_with broken_signature evidence,
          )
            ∷ (not (is_set (jkt crypto h)), asserted_with unsupported_key evidence)
            ∷ (required_checks h evidence
                ++ (depth_checks h.claims parent.claims evidence
                    ++ (expiry_checks h (some parent.claims.exp) root evidence
                        ++ ((
                          signed parent && not (eqb h.claims.par_hash (par_hash crypto parent.jws)),
                          broken_with broken_par_hash evidence,
                        )
                            ∷ [])))))
          (concluded parent_status evidence
            (compare_grants parent.claims.authorization_details h.claims.authorization_details))

    -- `verifyHop`.
    unfoldable pub verify_hop : Hop G → Hop G → HopResult → RootMaterial → HopResult
    unfolding asserted_with hop_keyed
    verify_hop h parent parent_res root =
        first_failure ((not (signed h), asserted_with no_signature []) ∷ []) (
          hop_keyed h parent parent_res.status root (digest_ref (par_hash crypto h.jws))
            (public_key parent.claims.cnf))

    unfoldable pub verify_above : Hop G → HopResult → List (Hop G) → RootMaterial → List HopResult
    verify_above parent parent_res [] root = []
    verify_above parent parent_res (h ∷ chain) root =
        let res = verify_hop h parent parent_res root in res ∷ verify_above h res chain root

    -- `Verify`: one result for each hop, in chain order.
    unfoldable pub verify : List (Hop G) → RootMaterial → List HopResult
    unfolding verify_above
    verify [] root = []
    verify (h ∷ chain) root =
        let res = verify_root_hop h root in res ∷ verify_above h res chain root
