-- ===== src/Aat/Jws.antt =====
-- internal/aat/aat.go: the compact serialization of a hop token, its signature and its check.
use behalf.Prelude.{
  ℕ, Bool, false, ◌&&◌, Option, none, some, List, [], ◌∷◌, ◌++◌, ◌==◌, if◌then◌else◌, Bytes, codes,
  eqb,
}
use behalf.Encoding.Base64url
use behalf.Aat.Hop.{Crypto}

-- `strings.Split(jws, ".")` up to three parts: the part up to the first full stop, and what follows.
cons_part : Bool → ℕ → List Bytes → List Bytes
cons_part stop c [] = if stop then [] ∷ [] ∷ [] else (c ∷ []) ∷ []
cons_part stop c (part ∷ parts) = if stop then [] ∷ part ∷ parts else (c ∷ part) ∷ parts

unfoldable pub split_dots : Bytes → List Bytes
unfolding cons_part
split_dots [] = [] ∷ []
split_dots (c ∷ cs) = cons_part (c == b'.') c (split_dots cs)

pub record Segments : Type 0 where
  pub protected : Bytes
  pub payload : Bytes
  pub sig : Bytes

three_parts : List Bytes → Option Segments
three_parts ((p ∷ ps) ∷ (q ∷ qs) ∷ (s ∷ ss) ∷ []) =
    some (record { protected = p ∷ ps; payload = q ∷ qs; sig = s ∷ ss })
three_parts _ = none

-- `split`: exactly three parts, none of them empty.
unfoldable pub split : Bytes → Option Segments
unfolding three_parts
split jws = three_parts (split_dots jws)

abbrev pub alg : Bytes
alg = codes "EdDSA"

module _ {C : Type 0} (crypto : Crypto C) where
  -- `sign`.
  unfoldable pub sign : Bytes → Bytes → Bytes → Bytes
  sign key kid payload =
      let input =
        Base64url.encode (crypto.marshal_header kid) ++ (b'.' ∷ Base64url.encode payload) in
      input ++ (b'.' ∷ Base64url.encode (crypto.ed25519_sign key input))

  alg_matches : Option Bytes → Bool
  alg_matches none = false
  alg_matches (some a) = eqb a alg

  header_accepted : Option Bytes → Bool
  unfolding alg_matches
  header_accepted none = false
  header_accepted (some protected) = alg_matches (crypto.header_alg protected)

  payload_matches : Option Bytes → Bytes → Bool
  payload_matches none payload = false
  payload_matches (some got) payload = eqb got payload

  sig_accepted : Option Bytes → Bytes → Bytes → Bool
  sig_accepted none pub_key input = false
  sig_accepted (some sig) pub_key input = crypto.ed25519_verify pub_key input sig

  segments_accepted : Option Segments → Bytes → Bytes → Bool
  unfolding header_accepted payload_matches sig_accepted
  segments_accepted none pub_key payload = false
  segments_accepted (some s) pub_key payload =
      header_accepted (Base64url.decode s.protected)
      && (payload_matches (Base64url.decode s.payload) payload
          && sig_accepted (Base64url.decode s.sig) pub_key (s.protected ++ (b'.' ∷ s.payload)))

  -- `verifySignature` returns no error.
  unfoldable pub verify_signature : Bytes → Bytes → Bytes → Bool
  unfolding segments_accepted
  verify_signature jws pub_key payload = segments_accepted (split jws) pub_key payload
