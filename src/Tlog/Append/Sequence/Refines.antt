-- ===== src/Tlog/Append/Sequence/Refines.antt =====
-- internal/tlog/tlog.go: appends one after the other, against what a log of receipts promises.
use behalf.Prelude.{ℕ, ◌≡◌, Bool, Option, some, Bytes, Dict}
use behalf.Tlog.Epoch.{EpochFile}
use behalf.Tlog.Promise.{Keys, SignedPromise, new_promise, sign_promise}
use behalf.Tlog.Append.{Reply}
use behalf.Tlog.Append.Sequence.Steps.{Kept}
use behalf.Tlog.Append.Sequence.{LogState, answer_of}

module _ (file : EpochFile) (keys : Keys) (key_id now : Bytes)
    (signs : (id leaf : Bytes)
      → (sp : SignedPromise) × (sign_promise keys key_id (new_promise id leaf now) ≡ some sp)) where
  -- One append does what the specification's step says, and keeps the two in agreement.
  record Follows (m : Dict ℕ) (s : LogState) (r : Reply × LogState)
      (step : Option (ℕ × Bool) × (Dict ℕ × ℕ)) : Type 0 where
    answered : answer_of r.0 ≡ step.0
    kept : Kept file step.1.0 r.1
    counted : r.1.size ≡ step.1.1
