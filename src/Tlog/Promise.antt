-- ===== src/Tlog/Promise.antt =====
-- internal/tlog/promise.go: receipt promises; internal/dsse/dsse.go: `Sign` and `Verify`.
use behalf.Prelude.{
  ℕ, ◌<◌, ◌≡◌, refl, sym, ap, Bool, true, ◌&&◌, Option, none, some, [], ◌∷◌, arith, ltb,
  if◌then◌else◌, All, some_inj, Bytes, codes, eqb, eqb_refl,
}
use behalf.Encoding.Hex.{encode}
use behalf.Dsse.Pae.{pae}

pub record Promise : Type 0 where
  pub v : Bytes
  pub receipt_id : Bytes
  pub leaf_hash : Bytes
  pub issued_at : Bytes
  pub mmd_sec : ℕ

pub record SignedPromise : Type 0 where
  pub statement : Bytes
  pub key_id : Bytes
  pub sig : Bytes

abbrev pub promise_version : Bytes
promise_version = codes "behalf.sh/promise/v1"

abbrev pub payload_type_promise : Bytes
payload_type_promise = codes "application/vnd.behalf.promise+json"

abbrev pub promise_mmd_seconds : ℕ
promise_mmd_seconds = 10

abbrev pub Ascii : Bytes → Type 0
Ascii s = All (λ c. c < 128) s

-- A key pair of crypto/ed25519, and encoding/json on promises.
pub record Keys : Type 0 where
  pub ed25519_sign : Bytes → Bytes
  pub ed25519_verify : Bytes → Bytes → Bool
  pub marshal : Promise → Option Bytes
  pub unmarshal : Bytes → Option Promise
  -- The public key accepts the private key's signatures.
  pub verify_sign : (msg : Bytes) → ed25519_verify msg (ed25519_sign msg) ≡ true
  -- Strings of ASCII bytes are read back as they were written.
  pub unmarshal_marshal :
      (p : Promise) (s : Bytes)
      → Ascii p.v × Ascii p.receipt_id × Ascii p.leaf_hash × Ascii p.issued_at
      → marshal p ≡ some s
      → unmarshal s ≡ some p

-- `NewPromise`, at a time that is formatted already.
unfoldable pub new_promise : Bytes → Bytes → Bytes → Promise
new_promise receipt_id leaf_hash issued_at = record {
  v = promise_version;
  receipt_id = receipt_id;
  leaf_hash = encode leaf_hash;
  issued_at = issued_at;
  mmd_sec = promise_mmd_seconds;
}

is_ascii : Bytes → Bool
is_ascii [] = true
is_ascii (c ∷ s) = ltb c 128 && is_ascii s

is_ascii-Ascii : (s : Bytes) → is_ascii s ≡ true → Ascii s
unfolding is_ascii
is_ascii-Ascii [] h = tt
is_ascii-Ascii (c ∷ s) h = (ground arith, is_ascii-Ascii s (ground arith))

promise_version-Ascii : Ascii promise_version
unfolding is_ascii
promise_version-Ascii = is_ascii-Ascii promise_version refl

module _ (keys : Keys) where
  -- `dsse.Sign` and `dsse.Verify`.
  unfoldable pub dsse_sign : Bytes → Bytes → Bytes
  dsse_sign payload_type payload = keys.ed25519_sign (pae payload_type payload)

  unfoldable pub dsse_verify : Bytes → Bytes → Bytes → Bool
  dsse_verify payload_type payload sig = keys.ed25519_verify (pae payload_type payload) sig

  unfoldable pub sign_statement : Bytes → Option Bytes → Option SignedPromise
  unfolding dsse_sign
  sign_statement key_id none = none
  sign_statement key_id (some stmt) =
      some record { statement = stmt; key_id = key_id; sig = dsse_sign payload_type_promise stmt }

  -- `SignPromise`.
  unfoldable pub sign_promise : Bytes → Promise → Option SignedPromise
  unfolding sign_statement
  sign_promise key_id p =
      if eqb p.v promise_version then sign_statement key_id (keys.marshal p) else none

  right_version : Option Promise → Option Promise
  right_version none = none
  right_version (some p) = if eqb p.v promise_version then some p else none

  -- `VerifyPromise`.
  unfoldable pub verify_promise : SignedPromise → Option Promise
  unfolding dsse_verify right_version
  verify_promise sp =
      if dsse_verify payload_type_promise sp.statement sp.sig
      then right_version (keys.unmarshal sp.statement)
      else none

  dsse_verify-dsse_sign :
      (payload_type payload : Bytes)
      → dsse_verify payload_type payload (dsse_sign payload_type payload) ≡ true
  unfolding dsse_verify dsse_sign
  dsse_verify-dsse_sign payload_type payload = keys.verify_sign (pae payload_type payload)

  right_version-some :
      (p : Promise) → eqb p.v promise_version ≡ true → right_version (some p) ≡ some p
  unfolding right_version
  right_version-some p h = rw h refl

  sign_statement-signed :
      (key_id : Bytes) (stmt : Option Bytes) (sp : SignedPromise)
      → sign_statement key_id stmt ≡ some sp
      → (s : Bytes) × (stmt ≡ some s)
        × (sp.statement ≡ s)
        × (sp.sig ≡ dsse_sign payload_type_promise s)
  unfolding sign_statement
  sign_statement-signed key_id none sp e = absurd (cc e)
  sign_statement-signed key_id (some s) sp e =
      (s, refl, sym (ap (λ x. x.statement) (some_inj e)), sym (ap (λ x. x.sig) (some_inj e)))

  -- A signed promise, as `SignPromise` returns it for strings of ASCII bytes, passes `VerifyPromise`,
  -- which reads the promise that was signed.
  pub verify_promise-sign_promise :
      (key_id receipt_id leaf_hash issued_at : Bytes) (sp : SignedPromise)
      → Ascii receipt_id
      → Ascii (encode leaf_hash)
      → Ascii issued_at
      → sign_promise key_id (new_promise receipt_id leaf_hash issued_at) ≡ some sp
      → verify_promise sp ≡ some (new_promise receipt_id leaf_hash issued_at)
  unfolding sign_promise verify_promise new_promise
  verify_promise-sign_promise key_id receipt_id leaf_hash issued_at sp ok_id ok_leaf ok_time e =
      let p = new_promise receipt_id leaf_hash issued_at in
      let (s, written, is, sig) = sign_statement-signed key_id (keys.marshal p) sp (ground arith) in
      let read : keys.unmarshal s ≡ some p =
        keys.unmarshal_marshal p s (promise_version-Ascii, ok_id, ok_leaf, ok_time) written in
      let verified : dsse_verify payload_type_promise sp.statement sp.sig ≡ true =
        cc (is, sig, dsse_verify-dsse_sign payload_type_promise s) in
      let read' : keys.unmarshal sp.statement ≡ some p = cc (is, read) in
      let right : eqb promise_version promise_version ≡ true = eqb_refl promise_version in
      opened p verified read' right
    where
      opened :
          (p : Promise)
          → dsse_verify payload_type_promise sp.statement sp.sig ≡ true
          → keys.unmarshal sp.statement ≡ some p
          → eqb p.v promise_version ≡ true
          → (if dsse_verify payload_type_promise sp.statement sp.sig
              then right_version (keys.unmarshal sp.statement)
              else none)
            ≡ some p
      opened p verified read right = rw (verified, read) (right_version-some p right)
