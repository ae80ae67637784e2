-- ===== src/Witness/History.antt =====
-- internal/witness: a witness host over time. Submissions come with what the file system does to
-- the flush, and the process may stop and start again from its state file.
use behalf.Prelude.{
  ℕ, Bool, true, false, Option, none, some, List, [], ◌∷◌, if◌then◌else◌, Bytes, Dict,
}
use behalf.Witness.Head.{Head, Result, ok}
use behalf.Witness.Store.{Flush, Store, empty_state, open_store}
use behalf.Witness.Cosign.{Env, Witness, prepare, cosign}

module _ (V : Type 0) where
  -- `signed` lists the heads whose cosignature was returned, the latest first.
  pub record Host : Type 0 where
    pub witness : Witness V
    pub up : Bool
    pub signed : List (Bytes × Head)

pub data Event : Type 0 where
  submit : Bytes → List Bytes → ℕ → Flush → Event
  restart : Event

module _ {V : Type 0} (env : Env V) where
  -- The origin and the head of a checkpoint stand in what `prepare` made of it.
  unfoldable pub sign :
      List (Bytes × Head) → Result (Bytes × Head × Bytes) → Result Bytes → List (Bytes × Head)
  sign signed (ok (origin, head, sig)) (ok _) = (origin, head) ∷ signed
  sign signed _ _ = signed

  unfoldable pub submitted :
      Host V → Result (Bytes × Head × Bytes) → Witness V × Result Bytes → Host V
  unfolding sign
  submitted host prepared (w, answer) = record host {
    witness = w;
    signed = sign host.signed prepared answer;
  }

  unfoldable pub reopen : Host V → Option Store → Host V
  reopen host none = record host { up = false }
  reopen host (some store) = record host {
    witness = record host.witness { store = store };
    up = true;
  }

  -- A host that is down answers nothing.
  unfoldable pub step : Host V → Event → Host V
  unfolding submitted reopen
  step host (submit checkpoint proof now flush) =
      if host.up
      then submitted host (prepare env host.witness checkpoint proof now)
          (cosign env host.witness checkpoint proof now flush)
      else host
  step host restart = reopen host (open_store host.witness.store.disk)

  unfoldable pub run : Host V → List Event → Host V
  unfolding step
  run host [] = host
  run host (e ∷ es) = run (step host e) es

-- A host that has just been set up: no state file, nothing signed.
abbrev pub fresh : {V : Type 0} → Dict V → Host V
fresh logs = record {
  witness = record { logs = logs; store = record { st = empty_state; disk = none } };
  up = true;
  signed = [];
}
