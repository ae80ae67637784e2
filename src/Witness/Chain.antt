-- ===== src/Witness/Chain.antt =====
-- The order on the heads of one origin that the safety rule of internal/witness/witness.go checks.
use behalf.Prelude.{◌≤◌, ◌<◌, ◌≡◌, refl, true, List, arith, Bytes}
use behalf.Witness.Head.{Head}
use behalf.Witness.Cosign.{Env}

module _ {V : Type 0} (env : Env V) where
  -- A larger tree whose proof carries the root of the smaller one forward.
  pub record Extends (held offered : Head) : Type 0 where
    pub grows : held.size < offered.size
    pub proof : List Bytes
    pub consistent :
        env.verify_consistency held.size offered.size proof held.root offered.root ≡ true

  -- Any number of such steps.
  pub data Chain (first : Head) : Head → Type 0 where
    here : Chain first first
    next : {held offered : Head} → Chain first held → Extends held offered → Chain first offered

  pub Chain-size : {h k : Head} → Chain h k → h.size ≤ k.size
  Chain-size here = omega arith
  Chain-size (next c e) = omega (arith, Chain-size c, e.grows)

  pub Chain-trans : {h k l : Head} → Chain h k → Chain k l → Chain h l
  Chain-trans c here = c
  Chain-trans c (next d e) = next (Chain-trans c d) e

  pub Chain-eq : {h k : Head} → Chain h k → h.size ≡ k.size → h ≡ k
  Chain-eq here same = refl
  Chain-eq (next c e) same = absurd (omega (arith, Chain-size c, e.grows))
