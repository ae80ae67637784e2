-- ===== src/Aat/Hop.antt =====
-- internal/aat/aat.go and internal/dsse/jwk.go: claims, hops, keys and thumbprints. `G` is the type
-- of one authorization_details object.
use behalf.Prelude.{
  ◌++◌, Bool, true, false, ◌&&◌, Option, none, some, List, [], ◌∷◌, ◌==◌, if◌then◌else◌, length,
  Bytes, codes, eqb,
}
use behalf.Prelude.Int.{ℤ}
use behalf.Encoding.Hex
use behalf.Encoding.Base64url

-- Go's crypto/sha256 and crypto/ed25519 and the JSON of the token header and of the claims, which
-- the code calls.
pub record Crypto (C : Type 0) : Type 0 where
  pub sha256 : Bytes → Bytes
  -- `ed25519.Verify(pub, message, sig)` and `ed25519.Sign(priv, message)`.
  pub ed25519_verify : Bytes → Bytes → Bytes → Bool
  pub ed25519_sign : Bytes → Bytes → Bytes
  -- `json.Marshal` of a header with alg "EdDSA", typ "aat+jwt" and a kid; the alg of a header.
  pub marshal_header : Bytes → Bytes
  pub header_alg : Bytes → Option Bytes
  -- `json.Marshal` of a claim set; `none` is its error.
  pub marshal_claims : C → Option Bytes

-- The string members of a `cnf.jwk` map that the code reads; "" is a member that is not there or is
-- no string.
pub record Jwk : Type 0 where
  pub kty : Bytes
  pub crv : Bytes
  pub x : Bytes

pub record RootBinding : Type 0 where
  pub nonce : Bytes
  pub device_jkt : Bytes

pub record Credential : Type 0 where
  pub issuer : Bytes
  pub kind : Bytes
  pub id : Bytes

pub record Claims (G : Type 0) : Type 0 where
  pub del_depth : ℤ
  pub del_max_depth : ℤ
  pub par_hash : Bytes
  pub cnf : Jwk
  pub authorization_details : List G
  pub exp : ℤ
  pub jti : Bytes
  pub credential : Credential
  pub root_principal_binding : Option RootBinding
  pub trigger : Option Bytes

pub record Hop (G : Type 0) : Type 0 where
  pub claims : Claims G
  pub raw : Bytes
  pub jws : Bytes

-- A string is not "".
unfoldable pub is_set : Bytes → Bool
is_set [] = false
is_set (c ∷ s) = true

unfoldable pub signed : {G : Type 0} → Hop G → Bool
signed h = is_set h.jws

unfoldable pub unsigned : {G : Type 0} → Hop G → Hop G
unsigned h = record h { jws = [] }

abbrev pub root_par_hash : Bytes
root_par_hash = codes "0000000000000000000000000000000000000000000000000000000000000000"

-- `ed25519JWK` and `publicKey`.
unfoldable pub ed25519_jwk : Jwk → Bool
unfolding is_set
ed25519_jwk j = eqb j.kty (codes "OKP") && eqb j.crv (codes "Ed25519") && is_set j.x

key_of_size : Option Bytes → Option Bytes
key_of_size none = none
key_of_size (some raw) = if length raw == 32 then some raw else none

unfoldable pub public_key : Jwk → Option Bytes
unfolding key_of_size
public_key j = if ed25519_jwk j then key_of_size (Base64url.decode j.x) else none

unfoldable pub jwk_from_public : Bytes → Jwk
jwk_from_public pub_key = record {
  kty = codes "OKP";
  crv = codes "Ed25519";
  x = Base64url.encode pub_key;
}

module _ {C : Type 0} (crypto : Crypto C) where
  -- `JWK.Thumbprint`.
  unfoldable pub thumbprint : Jwk → Bytes
  thumbprint j = Base64url.encode (
      crypto.sha256 (
        codes "{\"crv\":\""
        ++ (j.crv
            ++ (codes "\",\"kty\":\""
                ++ (j.kty ++ (codes "\",\"x\":\"" ++ (j.x ++ codes "\"}")))))))

  -- `jwkThumbprint`: "" for a key that is no Ed25519 key.
  unfoldable pub jwk_thumbprint : Jwk → Bytes
  jwk_thumbprint j = if ed25519_jwk j then thumbprint j else []

  unfoldable pub jkt : {G : Type 0} → Hop G → Bytes
  jkt h = jwk_thumbprint h.claims.cnf

  -- `ParHash`.
  unfoldable pub par_hash : Bytes → Bytes
  par_hash [] = []
  par_hash (c ∷ jws) = Hex.encode (crypto.sha256 (c ∷ jws))
