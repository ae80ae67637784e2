-- ===== src/Witness/Head.antt =====
-- internal/witness/witness.go: heads, the refusal vocabulary and the errors of a submission.
use behalf.Prelude.{ℕ, ◌<◌, ◌≡◌, refl, [], ◌∷◌, length, All, Bytes, codes}

-- The highest tree size and root that a witness has cosigned for one origin.
pub record Head : Type 0 where
  pub size : ℕ
  pub root : Bytes

-- `[32]byte`: what a field of that type can hold.
pub record IsHash (root : Bytes) : Type 0 where
  pub width : length root ≡ 32
  pub bytes : All (λ b. b < 256) root

abbrev pub zero_root : Bytes
zero_root =
    0 ∷ 0 ∷ 0 ∷ 0 ∷ 0 ∷ 0 ∷ 0 ∷ 0 ∷ 0 ∷ 0 ∷ 0 ∷ 0 ∷ 0 ∷ 0 ∷ 0 ∷ 0 ∷ 0 ∷ 0 ∷ 0 ∷ 0 ∷ 0 ∷ 0 ∷ 0 ∷ 0
    ∷ 0 ∷ 0 ∷ 0 ∷ 0 ∷ 0 ∷ 0 ∷ 0 ∷ 0 ∷ []

abbrev pub zero_head : Head
zero_head = record { size = 0; root = zero_root }

pub data Reason : Type 0 where
  smaller_size fork_at_size inconsistent_proof : Reason

unfoldable pub class : Reason → Bytes
class smaller_size = codes "truncation"
class fork_at_size = codes "chain"
class inconsistent_proof = codes "chain"

pub record Refusal : Type 0 where
  pub reason : Reason
  pub origin : Bytes
  pub held : Head
  pub offered : Head

pub data Error : Type 0 where
  malformed_checkpoint : Error
  unknown_origin : Bytes → Error
  log_signature : Bytes → Error
  refused : Refusal → Error
  not_signed : Error
  not_flushed : Error

pub data Result {ℓ} (A : Type ℓ) : Type ℓ where
  err : Error → Result A
  ok : A → Result A

module _ {ℓ κ} {A : Type ℓ} {B : Type κ} where
  infixl 5 ◌>>=◌
  -- The first error ends a chain of calls.
  abbrev pub ◌>>=◌ : Result A → (A → Result B) → Result B
  err e >>= next = err e
  ok a >>= next = next a

  pub >>=-eq-ok :
      (r : Result A) (next : A → Result B) {b : B}
      → (r >>= next) ≡ ok b
      → (a : A) × (r ≡ ok a) × (next a ≡ ok b)
  >>=-eq-ok (err e) next done = cc
  >>=-eq-ok (ok a) next done = (a, refl, done)
