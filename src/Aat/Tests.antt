-- ===== src/Aat/Tests.antt =====
-- internal/aat: a chain of a root hop and one delegation.
use behalf.Prelude.{
  ℕ, ◌≤◌, ◌≡◌, refl, none, some, List, [], ◌∷◌, arith, get_elem?, All, Bytes, codes, eqb,
}
use behalf.Encoding.Hex
use behalf.Encoding.Base64url
use behalf.Prelude.Int.{pos, suc_int}
use behalf.Aat.Hop.{
  Crypto, Claims, Hop, Jwk, is_set, signed, ed25519_jwk, public_key, thumbprint, jwk_thumbprint,
  jkt, par_hash, root_par_hash,
}
use behalf.Aat.Jws.{sign, verify_signature, split, split_dots, alg}
use behalf.Aat.Result.{
  verified, broken, no_signature, Attenuation, unchanged, RootMaterial, HopResult, state_verified,
  asserted_with, broken_with, first_failure, lower, stop, weakest_from, weakest,
}
use behalf.Aat.Rollup.{rank, Some, weakest-IsLeast}
use behalf.Aat.Verify.{verify_root_hop, verify_hop, verify_above, verify}
use behalf.Aat.Verify.Sound.{Delegates, Rooted, verify_hop-verified, verify_root_hop-verified}
use behalf.Aat.Verify.Chains.{verified_prefix, Within, verified-Within}

program : Unit {0}
unfolding is_set signed ed25519_jwk public_key thumbprint jwk_thumbprint jkt par_hash sign
    verify_signature split asserted_with broken_with first_failure lower stop weakest_from weakest
    verify_root_hop verify_hop verify_above verify suc_int Hex.encode Base64url.encode
    Base64url.decode eqb Hex.hex_digit Base64url.symbol split_dots
program = tt

abbrev crypto : Crypto (Claims ℕ)
crypto = record {
  sha256 = λ s. 7 ∷ 8 ∷ [];
  ed25519_verify = λ key message sig. eqb sig (9 ∷ []);
  ed25519_sign = λ key message. 9 ∷ [];
  marshal_header = λ kid. codes "h";
  header_alg = λ header. some alg;
  marshal_claims = λ claims. some (codes "x");
}

abbrev compare : List ℕ → List ℕ → Attenuation
compare parent child = unchanged

abbrev key : Jwk
key = record {
  kty = codes "OKP";
  crv = codes "Ed25519";
  x = codes "AAAAAAAAAAAAAAAAAAAAAAAAAAAAAAAAAAAAAAAAAAA";
}

abbrev key_name : Bytes
key_name = codes "Bwg"

abbrev root_claims : Claims ℕ
root_claims = record {
  del_depth = pos 0;
  del_max_depth = pos 3;
  par_hash = root_par_hash;
  cnf = key;
  authorization_details = [];
  exp = pos 100;
  jti = codes "a";
  credential = record { issuer = []; kind = []; id = [] };
  root_principal_binding = some (record { nonce = key_name; device_jkt = key_name });
  trigger = none;
}

abbrev root_hop : Hop ℕ
root_hop = record { claims = root_claims; raw = codes "x"; jws = codes "aA.eA.CQ" }

abbrev child : Hop ℕ
child = record {
  claims = record root_claims { del_depth = pos 1; par_hash = codes "0708"; exp = pos 90 };
  raw = codes "x";
  jws = codes "aA.eA.CQ";
}

abbrev material : RootMaterial
material = record {
  report = some (record { state = state_verified; device_jkt = key_name; statement_digest = [] });
  at = some (pos 50);
}

abbrev root_result : HopResult
root_result = verify_root_hop crypto root_hop material

root_verified : root_result.status ≡ verified
unfolding program
root_verified = refl

child_verified : (verify_hop crypto compare child root_hop root_result material).status ≡ verified
unfolding program
child_verified = refl

abbrev results : List HopResult
results = verify crypto compare (root_hop ∷ child ∷ []) material

at_root : get_elem? results 0 ≡ some root_result
unfolding program
at_root = refl

at_child :
    get_elem? results 1 ≡ some (verify_hop crypto compare child root_hop root_result material)
unfolding program
at_child = refl

rollup : weakest results ≡ verified
unfolding program
rollup = refl

-- A root hop without a token that claims a depth of its own is broken, not asserted.
unsigned_root :
    (verify_root_hop crypto
      (record root_hop { claims = record root_claims { del_depth = pos 1 }; jws = [] })
      material).status
    ≡ broken
unfolding program
unsigned_root = refl

verified_prefix_example : root_result.status ≡ verified
verified_prefix_example =
    verified_prefix crypto compare material (root_hop ∷ child ∷ []) 1 0
      (verify_hop crypto compare child root_hop root_result material) root_result (omega arith)
      at_child at_root child_verified

verified-Within_example : Within crypto compare material root_hop 1 child
verified-Within_example =
    verified-Within crypto compare material root_hop (child ∷ []) 1 child
      (verify_hop crypto compare child root_hop root_result material) (omega arith) refl at_child
      child_verified

verify_hop-verified_example :
    (root_result.status ≡ verified) × Delegates crypto compare child root_hop material
verify_hop-verified_example =
    verify_hop-verified crypto compare child root_hop root_result material child_verified

verify_root_hop-verified_example : Rooted crypto compare root_hop material
verify_root_hop-verified_example =
    verify_root_hop-verified crypto compare root_hop material root_verified

weakest-IsLeast_example :
    All
      (λ x. rank (weakest (root_result ∷ asserted_with no_signature [] ∷ [])) ≤ rank x.status)
      (root_result ∷ asserted_with no_signature [] ∷ [])
    × Some
        (weakest (root_result ∷ asserted_with no_signature [] ∷ []))
        (root_result ∷ asserted_with no_signature [] ∷ [])
weakest-IsLeast_example = weakest-IsLeast root_result (asserted_with no_signature [] ∷ [])
