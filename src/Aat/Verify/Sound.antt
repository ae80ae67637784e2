-- ===== src/Aat/Verify/Sound.antt =====
-- internal/aat/verify.go: the checks behind a `verified` hop, each hop by itself.
use behalf.Prelude.{
  ◌≡◌, refl, ◌≢◌, ◌⊎◌, inl, inr, Bool, true, false, not, ◌&&◌, Option, none, some, List, [], ◌∷◌,
  arith, Bool-cases, All, Bytes, eqb, eqb_iff,
}
use behalf.Prelude.Int.{ℤ, pos, eqb_ℤ_iff, suc_int, ◌≤ℤ◌, ◌<ℤ◌}
use behalf.Aat.Hop.{
  Crypto, Claims, Hop, RootBinding, is_set, signed, root_par_hash, public_key, jkt, par_hash,
}
use behalf.Aat.Jws.{verify_signature}
use behalf.Aat.Result.{
  state_degraded, state_broken, Status, verified, asserted, broken, Attenuation, unchanged,
  attenuated, broadened, unknown, Report, RootMaterial, HopResult, first_failure,
}
use behalf.Aat.Verify.{
  verify_hop, verify_root_hop, hop_keyed, concluded, root_keyed, root_reported, by_state,
  binding_checks, digest_ref, expired_at,
}

abbrev NotVerified : Bool × HopResult → Type 0
NotVerified c = c.1.status ≢ verified

abbrev Passed : Bool × HopResult → Type 0
Passed c = c.0 ≡ false

-- The hop has not expired at the instant, if one is given.
abbrev pub NotPast : Option ℤ → ℤ → Type 0
NotPast none exp = Unit
NotPast (some at) exp = at ≤ℤ exp

-- The name of a key, if it is set, is that key.
abbrev pub Names : Bytes → Bytes → Type 0
Names [] key = Unit
Names (c ∷ name) key = c ∷ name ≡ key

abbrev pub Binds : Option RootBinding → Bytes → Type 0
Binds none key = Unit
Binds (some b) key = Names b.nonce key × Names b.device_jkt key

NotPast-expired_at : (at : Option ℤ) (exp : ℤ) → expired_at at exp ≡ false → NotPast at exp
unfolding expired_at
NotPast-expired_at none exp e = tt
NotPast-expired_at (some at) exp e = ground (arith, e)

Names-checked : (name key : Bytes) → (is_set name && not (eqb name key)) ≡ false → Names name key
unfolding is_set
Names-checked [] key e = tt
Names-checked (c ∷ name) key e = (eqb_iff (c ∷ name) key).0 (ground (arith, e))

-- Where no failing check gives `verified`, that state means that all checks have passed.
first_failure-verified :
    (checks : List (Bool × HopResult)) (passed : HopResult)
    → All NotVerified checks
    → (first_failure checks passed).status ≡ verified
    → All Passed checks × (passed.status ≡ verified)
unfolding first_failure
first_failure-verified [] passed n h = (tt, h)
first_failure-verified ((false, r) ∷ checks) passed n h =
    let (all, last) = first_failure-verified checks passed n.1 h in ((refl, all), last)
first_failure-verified ((true, r) ∷ checks) passed n h = absurd (n.0 h)

module _ {G : Type 0} (crypto : Crypto (Claims G))
    (compare_grants : List G → List G → Attenuation) where
  -- What a verified hop above the root has to its parent.
  pub record Delegates (h parent : Hop G) (root : RootMaterial) : Type 0 where
    pub is_signed : signed h ≡ true
    pub key : Bytes
    pub confirmed : public_key parent.claims.cnf ≡ some key
    pub signature : verify_signature crypto h.jws key h.raw ≡ true
    pub identified : is_set h.claims.jti ≡ true
    pub depth : h.claims.del_depth ≡ suc_int parent.claims.del_depth
    pub budget : h.claims.del_max_depth ≤ℤ parent.claims.del_max_depth
    pub within : h.claims.del_depth ≤ℤ h.claims.del_max_depth
    pub expires : pos 0 <ℤ h.claims.exp
    pub unexpired : NotPast root.at h.claims.exp
    pub outlived : pos 0 <ℤ parent.claims.exp → h.claims.exp ≤ℤ parent.claims.exp
    pub linked : signed parent ≡ true → h.claims.par_hash ≡ par_hash crypto parent.jws
    pub narrowed :
        (compare_grants parent.claims.authorization_details h.claims.authorization_details
          ≡ unchanged)
        ⊎ (compare_grants parent.claims.authorization_details h.claims.authorization_details
            ≡ attenuated)

  concluded-verified :
      (st : Status) (evidence : Bytes) (att : Attenuation)
      → (concluded crypto st evidence att).status ≡ verified
      → (st ≡ verified) × ((att ≡ unchanged) ⊎ (att ≡ attenuated))
  unfolding concluded
  concluded-verified verified evidence unchanged e = (refl, inl refl)
  concluded-verified verified evidence attenuated e = (refl, inr refl)
  concluded-verified st evidence broadened e = absurd (cc e)
  concluded-verified st evidence unknown e = absurd (cc e)
  concluded-verified asserted evidence att e = ground arith
  concluded-verified broken evidence att e = ground arith

  hop_keyed-verified :
      (h parent : Hop G) (st : Status) (root : RootMaterial) (evidence : Bytes) (k : Option Bytes)
      → public_key parent.claims.cnf ≡ k
      → signed h ≡ true
      → (hop_keyed crypto compare_grants h parent st root evidence k).status ≡ verified
      → (st ≡ verified) × Delegates h parent root
  unfolding hop_keyed
  hop_keyed-verified h parent st root evidence none found sig e = absurd (cc e)
  hop_keyed-verified h parent st root evidence (some key) found sig e =
      let (all, last) =
        first_failure-verified _ _
          (
            (λ x. cc),
            (
              (λ x. cc),
              (
                (λ x. cc),
                (
                  (λ x. cc),
                  ((λ x. cc), ((λ x. cc), ((λ x. cc), ((λ x. cc), ((λ x. cc), ((λ x. cc), tt)))))),
                ),
              ),
            ),
          )
          e in
      let (up, narrow) =
        concluded-verified st evidence
          (compare_grants parent.claims.authorization_details h.claims.authorization_details)
          last in
      (
        up,
        record {
          is_signed = sig;
          key = key;
          confirmed = found;
          signature = ground arith;
          identified = ground arith;
          depth = ground (arith, eqb_ℤ_iff h.claims.del_depth (suc_int parent.claims.del_depth));
          budget = ground arith;
          within = ground arith;
          expires = ground arith;
          unexpired = NotPast-expired_at root.at h.claims.exp (ground arith);
          outlived = ground arith;
          linked = ground (arith, eqb_iff h.claims.par_hash (par_hash crypto parent.jws));
          narrowed = narrow;
        },
      )

  -- A hop above the root is verified only over a verified parent that delegates to it: the parent's
  -- key signed it; its depth is the parent's plus one, with the wrap of an int, and within its budget,
  -- which is within the parent's;
  -- it has an expiry, which is not past the parent's, if that has one, nor before the instant of the
  -- crossing, if one is given; its par_hash is that of the parent's token, if the parent has one; and
  -- the comparison finds its grants unchanged or attenuated.
  pub verify_hop-verified :
      (h parent : Hop G) (res : HopResult) (root : RootMaterial)
      → (verify_hop crypto compare_grants h parent res root).status ≡ verified
      → (res.status ≡ verified) × Delegates h parent root
  unfolding verify_hop
  verify_hop-verified h parent res root e =
      let (all, last) = first_failure-verified _ _ ((λ x. cc), tt) e in
      hop_keyed-verified h parent res.status root (digest_ref (par_hash crypto h.jws))
        (public_key parent.claims.cnf) refl (ground arith) last

  -- What a verified root has: the login evidence, and a token of its own under the key it confirms.
  pub record Rooted (h : Hop G) (root : RootMaterial) : Type 0 where
    pub is_signed : signed h ≡ true
    pub depth : h.claims.del_depth ≡ pos 0
    pub no_parent : h.claims.par_hash ≡ root_par_hash
    pub key : Bytes
    pub confirmed : public_key h.claims.cnf ≡ some key
    pub signature : verify_signature crypto h.jws key h.raw ≡ true
    pub identified : is_set h.claims.jti ≡ true
    pub expires : pos 0 <ℤ h.claims.exp
    pub unexpired : NotPast root.at h.claims.exp
    pub report : Report
    pub logged_in : root.report ≡ some report
    pub not_broken : report.state ≢ state_broken
    pub not_degraded : report.state ≢ state_degraded
    pub device : Names report.device_jkt (jkt crypto h)
    pub bound : Binds h.claims.root_principal_binding (jkt crypto h)

  by_state-verified :
      (state digest evidence : Bytes)
      → (by_state crypto state digest evidence).status ≡ verified
      → (state ≢ state_broken) × (state ≢ state_degraded)
  unfolding by_state
  by_state-verified state digest evidence e = elim (Bool-cases (eqb state state_broken)) [
    | inl failed ↦ absurd (ground (arith, failed, e))
    | inr sound ↦ elim (Bool-cases (eqb state state_degraded)) [
      | inl partial ↦ absurd (ground (arith, sound, partial, e))
      | inr full ↦ (
        λ is. cc ((eqb_iff state state_broken).1 is, sound),
        λ is. cc ((eqb_iff state state_degraded).1 is, full),
      )
    ]
  ]

  Binds-checked :
      (key : Bytes) (b : Option RootBinding) (evidence : Bytes)
      → All Passed (binding_checks crypto key b evidence)
      → Binds b key
  unfolding binding_checks
  Binds-checked key none evidence h = tt
  Binds-checked key (some b) evidence (nonce, (device, last)) =
      (Names-checked b.nonce key nonce, Names-checked b.device_jkt key device)

  NotVerified-binding :
      (key : Bytes) (b : Option RootBinding) (evidence : Bytes)
      → All NotVerified (binding_checks crypto key b evidence)
  unfolding binding_checks
  NotVerified-binding key none evidence = tt
  NotVerified-binding key (some b) evidence = ((λ x. cc), ((λ x. cc), tt))

  root_reported-verified :
      (h : Hop G) (r : Option Report) (evidence : Bytes)
      → (root_reported crypto h r evidence).status ≡ verified
      → (rep : Report) × (r ≡ some rep)
        × ((rep.state ≢ state_broken) × (rep.state ≢ state_degraded))
        × Names rep.device_jkt (jkt crypto h)
        × Binds h.claims.root_principal_binding (jkt crypto h)
  unfolding root_reported
  root_reported-verified h none evidence e = absurd (cc e)
  root_reported-verified h (some rep) evidence e =
      let key = jkt crypto h in
      let (all, last) =
        first_failure-verified _ _
          ((λ x. cc), NotVerified-binding key h.claims.root_principal_binding evidence) e in
      (
        rep,
        refl,
        by_state-verified rep.state rep.statement_digest evidence last,
        Names-checked rep.device_jkt key all.0,
        Binds-checked key h.claims.root_principal_binding evidence all.1,
      )

  root_keyed-verified :
      (h : Hop G) (k : Option Bytes) (root : RootMaterial) (evidence : Bytes)
      → public_key h.claims.cnf ≡ k
      → signed h ≡ true
      → h.claims.del_depth ≡ pos 0
      → h.claims.par_hash ≡ root_par_hash
      → (root_keyed crypto h k root evidence).status ≡ verified
      → Rooted h root
  unfolding root_keyed
  root_keyed-verified h none root evidence found sig depth par e = absurd (cc e)
  root_keyed-verified h (some key) root evidence found sig depth par e =
      let (all, last) =
        first_failure-verified _ _
          ((λ x. cc), ((λ x. cc), ((λ x. cc), ((λ x. cc), ((λ x. cc), tt))))) e in
      let (rep, logged, sound, device, bound) =
        root_reported-verified h root.report evidence last in
      record {
        is_signed = sig;
        depth = depth;
        no_parent = par;
        key = key;
        confirmed = found;
        signature = ground arith;
        identified = ground arith;
        expires = ground arith;
        unexpired = NotPast-expired_at root.at h.claims.exp (ground arith);
        report = rep;
        logged_in = logged;
        not_broken = sound.0;
        not_degraded = sound.1;
        device = device;
        bound = bound;
      }

  -- A root is verified only at depth 0, without a parent, with a token that its own key signed, an
  -- expiry that is not before the instant of the crossing, if one is given, and a report of the login
  -- whose state is neither `broken` nor `degraded`; the key that the hop confirms is the one that the
  -- report names, if it names one, and the one that the hop's binding names as its nonce and as its
  -- device, where it does.
  pub verify_root_hop-verified :
      (h : Hop G) (root : RootMaterial)
      → (verify_root_hop crypto h root).status ≡ verified
      → Rooted h root
  unfolding verify_root_hop
  verify_root_hop-verified h root e =
      let (all, last) = first_failure-verified _ _ ((λ x. cc), ((λ x. cc), ((λ x. cc), tt))) e in
      root_keyed-verified h (public_key h.claims.cnf) root (digest_ref (par_hash crypto h.jws)) refl
        (ground arith) (ground (arith, eqb_ℤ_iff h.claims.del_depth (pos 0)))
        (ground (arith, eqb_iff h.claims.par_hash root_par_hash)) last
