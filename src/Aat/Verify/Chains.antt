-- ===== src/Aat/Verify/Chains.antt =====
-- internal/aat/verify.go: the hops of a chain beneath a verified one.
use behalf.Prelude.{
  ℕ, zero, suc, ◌+◌, ◌^◌, ◌≤◌, ◌<◌, ◌≡◌, refl, sym, ap, ◌∙◌, subst, ◌⊎◌, inl, inr, some, List, [],
  ◌∷◌, arith, get_elem?, some_inj,
}
use behalf.Prelude.Int.{pos, suc_int, ◌≤ℤ◌, ◌<ℤ◌}
use behalf.Aat.Hop.{Crypto, Claims, Hop}
use behalf.Aat.Result.{verified, Attenuation, RootMaterial, HopResult}
use behalf.Aat.Verify.{verify_hop, verify_root_hop, verify, verify_above}
use behalf.Aat.Verify.Sound.{Delegates, verify_hop-verified, verify_root_hop-verified}

module _ {G : Type 0} (crypto : Crypto (Claims G)) (compare_grants : List G → List G → Attenuation)
    (root : RootMaterial) where
  -- A verified result above implies a verified one below.
  below_above :
      (parent : Hop G) (res : HopResult) (chain : List (Hop G)) (i : ℕ) (r : HopResult)
      → get_elem? (verify_above crypto compare_grants parent res chain root) i ≡ some r
      → r.status ≡ verified
      → res.status ≡ verified
  unfolding verify_above
  below_above parent res [] i r at_i e = absurd (cc at_i)
  below_above parent res (h ∷ chain) zero r at_i e =
      (verify_hop-verified crypto compare_grants h parent res root
        (ap (λ x. x.status) (some_inj at_i) ∙ e)).0
  below_above parent res (h ∷ chain) (suc i) r at_i e =
      let mid = verify_hop crypto compare_grants h parent res root in
      (verify_hop-verified crypto compare_grants h parent res root
        (below_above h mid chain i r at_i e)).0

  prefix_above :
      (parent : Hop G) (res : HopResult) (chain : List (Hop G)) (i j : ℕ) (r s : HopResult)
      → j ≤ i
      → get_elem? (verify_above crypto compare_grants parent res chain root) i ≡ some r
      → get_elem? (verify_above crypto compare_grants parent res chain root) j ≡ some s
      → r.status ≡ verified
      → s.status ≡ verified
  unfolding verify_above
  prefix_above parent res [] i j r s le at_i at_j e = absurd (cc at_i)
  prefix_above parent res (h ∷ chain) zero zero r s le at_i at_j e =
      ap (λ x. x.status) (sym (some_inj at_j) ∙ some_inj at_i) ∙ e
  prefix_above parent res (h ∷ chain) zero (suc j) r s le at_i at_j e = absurd (omega arith)
  prefix_above parent res (h ∷ chain) (suc i) zero r s le at_i at_j e =
      let mid = verify_hop crypto compare_grants h parent res root in
      ap (λ x. x.status) (sym (some_inj at_j)) ∙ below_above h mid chain i r at_i e
  prefix_above parent res (h ∷ chain) (suc i) (suc j) r s le at_i at_j e =
      let mid = verify_hop crypto compare_grants h parent res root in
      prefix_above h mid chain i j r s (omega arith) at_i at_j e

  -- A verified hop stands on verified hops only: every hop beneath it is verified.
  pub verified_prefix :
      (chain : List (Hop G)) (i j : ℕ) (r s : HopResult)
      → j ≤ i
      → get_elem? (verify crypto compare_grants chain root) i ≡ some r
      → get_elem? (verify crypto compare_grants chain root) j ≡ some s
      → r.status ≡ verified
      → s.status ≡ verified
  unfolding verify
  verified_prefix [] i j r s le at_i at_j e = absurd (cc at_i)
  verified_prefix (h ∷ chain) zero zero r s le at_i at_j e =
      ap (λ x. x.status) (sym (some_inj at_j) ∙ some_inj at_i) ∙ e
  verified_prefix (h ∷ chain) zero (suc j) r s le at_i at_j e = absurd (omega arith)
  verified_prefix (h ∷ chain) (suc i) zero r s le at_i at_j e =
      ap (λ x. x.status) (sym (some_inj at_j))
      ∙ below_above h (verify_root_hop crypto h root) chain i r at_i e
  verified_prefix (h ∷ chain) (suc i) (suc j) r s le at_i at_j e =
      prefix_above h (verify_root_hop crypto h root) chain i j r s (omega arith) at_i at_j e

  -- A hop at depth `n` that lies within what the first hop of its chain allows.
  pub record Within (first : Hop G) (n : ℕ) (h : Hop G) : Type 0 where
    pub depth : h.claims.del_depth ≡ pos n
    pub budget : h.claims.del_max_depth ≤ℤ first.claims.del_max_depth
    pub reached : pos n ≤ℤ first.claims.del_max_depth ⊎ (n ≡ 0)
    pub expires : pos 0 <ℤ h.claims.exp
    pub outlived : h.claims.exp ≤ℤ first.claims.exp

  suc_int-pos : (n : ℕ) → suc n < 2 ^ 63 → suc_int (pos n) ≡ pos (suc n)
  unfolding suc_int
  suc_int-pos n lt = ground arith

  Within-Delegates :
      (first parent h : Hop G) (n : ℕ)
      → suc n < 2 ^ 63
      → Within first n parent
      → Delegates crypto compare_grants h parent root
      → Within first (suc n) h
  Within-Delegates first parent h n lt w d =
      let at_n : h.claims.del_depth ≡ pos (suc n) =
        d.depth ∙ ap suc_int w.depth ∙ suc_int-pos n lt in
      let outlived : h.claims.exp ≤ℤ parent.claims.exp = d.outlived w.expires in
      let inside : pos (suc n) ≤ℤ h.claims.del_max_depth =
        subst (λ x. x ≤ℤ h.claims.del_max_depth) at_n d.within in
      record {
        depth = at_n;
        budget = omega (arith, d.budget, w.budget);
        reached = inl (omega (arith, d.budget, w.budget, inside));
        expires = d.expires;
        outlived = omega (arith, outlived, w.outlived);
      }

  Within-above :
      (first parent : Hop G) (n : ℕ) (res : HopResult) (chain : List (Hop G)) (i : ℕ) (h : Hop G)
      (r : HopResult)
      → (res.status ≡ verified → Within first n parent)
      → suc (n + i) < 2 ^ 63
      → get_elem? chain i ≡ some h
      → get_elem? (verify_above crypto compare_grants parent res chain root) i ≡ some r
      → r.status ≡ verified
      → Within first (suc (n + i)) h
  unfolding verify_above
  Within-above first parent n res [] i h r w lt hop at_i e = absurd (cc hop)
  Within-above first parent n res (k ∷ chain) zero h r w lt hop at_i e =
      let (up, d) =
        verify_hop-verified crypto compare_grants k parent res root
          (ap (λ x. x.status) (some_inj at_i) ∙ e) in
      let here : Within first (suc n) k =
        Within-Delegates first parent k n (omega arith) (w up) d in
      let same_n : suc n ≡ suc (n + 0) = omega arith in
      subst (λ m. Within first m h) same_n (subst (Within first (suc n)) (some_inj hop) here)
  Within-above first parent n res (k ∷ chain) (suc i) h r w lt hop at_i e =
      let mid = verify_hop crypto compare_grants k parent res root in
      let next : mid.status ≡ verified → Within first (suc n) k = λ ok.
        let (up, d) = verify_hop-verified crypto compare_grants k parent res root ok in
        Within-Delegates first parent k n (omega arith) (w up) d in
      let same_n : suc (suc n + i) ≡ suc (n + suc i) = omega arith in
      subst (λ m. Within first m h) same_n
        (Within-above first k (suc n) mid chain i h r next (omega arith) hop at_i e)

  -- A verified hop, at a place below 2 ^ 63, stands at the depth of its place in the chain, inside
  -- the depth budget of the first hop, and expires no later than the first hop.
  pub verified-Within :
      (first : Hop G) (chain : List (Hop G)) (i : ℕ) (h : Hop G) (r : HopResult)
      → i < 2 ^ 63
      → get_elem? (first ∷ chain) i ≡ some h
      → get_elem? (verify crypto compare_grants (first ∷ chain) root) i ≡ some r
      → r.status ≡ verified
      → Within first i h
  unfolding verify
  verified-Within first chain i h r lt hop at_i e = go i lt hop at_i
    where
      rooted : (verify_root_hop crypto first root).status ≡ verified → Within first 0 first
      rooted ok =
          let f = verify_root_hop-verified crypto compare_grants first root ok in
          record {
            depth = f.depth;
            budget = omega arith;
            reached = inr refl;
            expires = f.expires;
            outlived = omega arith;
          }

      go :
          (i : ℕ)
          → i < 2 ^ 63
          → get_elem? (first ∷ chain) i ≡ some h
          → get_elem?
              (verify_root_hop crypto first root
                ∷ verify_above crypto compare_grants first
                    (verify_root_hop crypto first root)
                    chain
                    root)
              i
            ≡ some r
          → Within first i h
      go zero lt hop at_i =
          subst (Within first 0) (some_inj hop) (rooted (ap (λ x. x.status) (some_inj at_i) ∙ e))
      go (suc i) lt hop at_i =
          let same_n : suc (0 + i) ≡ suc i = omega arith in
          subst (λ m. Within first m h) same_n
            (Within-above first first 0 (verify_root_hop crypto first root) chain i h r rooted
              (omega arith) hop at_i e)
