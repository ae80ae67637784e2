-- ===== src/Aat/Result.antt =====
-- internal/aat/verify.go: the states of a hop, its result, and the rollup over a chain.
use behalf.Prelude.{Bool, Option, none, some, List, [], ◌∷◌, if◌then◌else◌, Bytes, codes}
use behalf.Prelude.Int.{ℤ}

pub data Status : Type 0 where
  verified asserted broken : Status

pub data Method : Type 0 where
  root_oidc hop_jws no_signature no_root_material root_degraded parent_unverified : Method
  uncomparable_grant unsupported_key : Method
  broken_signature broken_par_hash broken_depth broken_expiry broken_attenuation : Method
  broken_root broken_malformed : Method

-- internal/why: the outcome of comparing a hop's grants with its parent's.
pub data Attenuation : Type 0 where
  unchanged attenuated broadened unknown : Attenuation

-- `oidclogin.State` is a string.
abbrev pub state_verified : Bytes
state_verified = codes "verified"

abbrev pub state_degraded : Bytes
state_degraded = codes "degraded"

abbrev pub state_broken : Bytes
state_broken = codes "broken"

-- What the verifier reads of internal/oidclogin's report on the login evidence.
pub record Report : Type 0 where
  pub state : Bytes
  pub device_jkt : Bytes
  pub statement_digest : Bytes

-- `at` is the instant of verification in seconds, `none` the zero time.
pub record RootMaterial : Type 0 where
  pub report : Option Report
  pub at : Option ℤ

pub record HopResult : Type 0 where
  pub status : Status
  pub method : Method
  pub evidence_ref : Bytes
  pub attenuation : Option Attenuation

unfoldable pub asserted_with : Method → Bytes → HopResult
asserted_with method evidence = record {
  status = asserted;
  method = method;
  evidence_ref = evidence;
  attenuation = none;
}

unfoldable pub broken_with : Method → Bytes → HopResult
broken_with method evidence = record {
  status = broken;
  method = method;
  evidence_ref = evidence;
  attenuation = none;
}

-- `StoredFlag`: `none` is the empty flag.
unfoldable pub stored_flag : HopResult → Option Attenuation
stored_flag r = elim r.attenuation [
  | none ↦ none
  | some a ↦ elim a [
    | unchanged ↦ some unchanged
    | attenuated ↦ some attenuated
    | unknown ↦ some unknown
    | broadened ↦ none
  ]
]

-- The first check that fails gives the result.
unfoldable pub first_failure : List (Bool × HopResult) → HopResult → HopResult
first_failure [] passed = passed
first_failure ((failed, result) ∷ checks) passed =
    let rest = first_failure checks passed in if failed then result else rest

-- An asserted hop lowers the rollup.
unfoldable pub lower : Status → Status → Status
lower asserted rollup = asserted
lower verified rollup = rollup
lower broken rollup = rollup

-- A broken hop ends the walk.
unfoldable pub stop : Status → Status → Status
stop broken rest = broken
stop asserted rest = rest
stop verified rest = rest

unfoldable pub weakest_from : Status → List HopResult → Status
unfolding lower stop
weakest_from rollup [] = rollup
weakest_from rollup (r ∷ results) =
    let rest = weakest_from (lower r.status rollup) results in stop r.status rest

-- `Weakest`: the rollup of a receipt.
unfoldable pub weakest : List HopResult → Status
unfolding weakest_from
weakest [] = asserted
weakest (r ∷ results) = weakest_from verified (r ∷ results)
