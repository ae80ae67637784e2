-- ===== src/Witness/Register.antt =====
-- internal/witness/witness.go: `New`, which registers the verifier keys of the logs.
use behalf.Prelude.{
  ◌≡◌, refl, sym, ap, ◌∙◌, ◌⊎◌, inl, inr, Bool, true, false, Option, none, some, List, [], ◌∷◌,
  if◌then◌else◌, Bool-cases, some_inj, Bytes, eqb, eqb_iff, Dict, lookup, insert, lookup-insert,
}
use mathlib.Core.List.{Memᴰ}
use behalf.Witness.Store.{Store}
use behalf.Witness.Cosign.{Env, Witness}

module _ {V : Type 0} (env : Env V) where
  -- A second key for an origin is an error.
  unfoldable pub add_log : Dict V → Option V → Option (Dict V)
  add_log logs none = none
  add_log logs (some v) = elim (lookup (env.name v) logs) [
    | none ↦ some (insert (env.name v) v logs)
    | some dup ↦ none
  ]

  -- The loop over the keys; an empty key is passed over.
  unfoldable pub add_logs : List Bytes → Dict V → Option (Dict V)
  unfolding add_log
  add_logs [] logs = some logs
  add_logs (vkey ∷ vkeys) logs =
      let skip = add_logs vkeys logs in
      if eqb (env.trim_space vkey) []
      then skip
      else elim (add_log logs (env.new_verifier (env.trim_space vkey))) [
        | none ↦ none
        | some more ↦ add_logs vkeys more
      ]

  opened_with : Store → Option (Dict V) → Option (Witness V)
  opened_with store none = none
  opened_with store (some logs) = some (record { logs = logs; store = store })

  -- `New`.
  unfoldable pub new_witness : Store → List Bytes → Option (Witness V)
  unfolding add_logs opened_with
  new_witness store vkeys = opened_with store (add_logs vkeys [])

  -- The verifier of a key of the list, whose name is the origin.
  pub record Registered (vkeys : List Bytes) (origin : Bytes) (v : V) : Type 0 where
    pub vkey : Bytes
    pub listed : Memᴰ vkey vkeys
    pub made : env.new_verifier (env.trim_space vkey) ≡ some v
    pub named : env.name v ≡ origin

  Registered-more :
      (k : Bytes) (vkeys : List Bytes) (o : Bytes) (v : V)
      → Registered vkeys o v
      → Registered (k ∷ vkeys) o v
  Registered-more k vkeys o v r = record {
    vkey = r.vkey;
    listed = Memᴰ.tail r.listed;
    made = r.made;
    named = r.named;
  }

  add_log-cases :
      (logs more : Dict V) (made : Option V) (o : Bytes) (v : V)
      → add_log logs made ≡ some more
      → lookup o more ≡ some v
      → (lookup o logs ≡ some v) ⊎ ((made ≡ some v) × (env.name v ≡ o))
  unfolding add_log
  add_log-cases logs more none o v e at = absurd (cc e)
  add_log-cases logs more (some w) o v e at = go (lookup (env.name w) logs) e
    where
      put :
          insert (env.name w) w logs ≡ more
          → (lookup o logs ≡ some v) ⊎ ((some w ≡ some v) × (env.name v ≡ o))
      put is =
          let found : (if eqb (env.name w) o then some w else lookup o logs) ≡ some v =
            sym (lookup-insert (env.name w) o w logs) ∙ ap (lookup o) is ∙ at in
          elim (Bool-cases (eqb (env.name w) o)) [
            | inl same ↦
                let is_v : some w ≡ some v = sym (rw same refl) ∙ found in
                inr (is_v, ap env.name (sym (some_inj is_v)) ∙ (eqb_iff (env.name w) o).0 same)
            | inr other ↦ inl (sym (rw other refl) ∙ found)
          ]

      go :
          (dup : Option V)
          → elim dup [ none ↦ some (insert (env.name w) w logs) | some d ↦ none ] ≡ some more
          → (lookup o logs ≡ some v) ⊎ ((some w ≡ some v) × (env.name v ≡ o))
      go none e = put (some_inj e)
      go (some d) e = absurd (cc e)

  add_logs-Registered :
      (vkeys : List Bytes) (logs all : Dict V) (o : Bytes) (v : V)
      → add_logs vkeys logs ≡ some all
      → lookup o all ≡ some v
      → (lookup o logs ≡ some v) ⊎ Registered vkeys o v
  unfolding add_logs
  add_logs-Registered [] logs all o v e at = inl (ap (lookup o) (some_inj e) ∙ at)
  add_logs-Registered (k ∷ vkeys) logs all o v e at =
      go (eqb (env.trim_space k) []) (add_log logs (env.new_verifier (env.trim_space k))) refl e
        (λ m e'. add_logs-Registered vkeys m all o v e' at)
    where
      later :
          (m : Dict V)
          → (lookup o m ≡ some v) ⊎ Registered vkeys o v
          → (lookup o m ≡ some v) ⊎ Registered (k ∷ vkeys) o v
      later m (inl old) = inl old
      later m (inr new) = inr (Registered-more k vkeys o v new)

      here :
          (m : Dict V)
          → add_log logs (env.new_verifier (env.trim_space k)) ≡ some m
          → (lookup o m ≡ some v) ⊎ Registered (k ∷ vkeys) o v
          → (lookup o logs ≡ some v) ⊎ Registered (k ∷ vkeys) o v
      here m added (inr new) = inr new
      here m added (inl at_m) =
          elim (add_log-cases logs m (env.new_verifier (env.trim_space k)) o v added at_m) [
            | inl old ↦ inl old
            | inr new ↦
                inr (record { vkey = k; listed = Memᴰ.head refl; made = new.0; named = new.1 })
          ]

      go :
          (blank : Bool) (added : Option (Dict V))
          → add_log logs (env.new_verifier (env.trim_space k)) ≡ added
          → (if blank
              then add_logs vkeys logs
              else elim added [ none ↦ none | some more ↦ add_logs vkeys more ])
            ≡ some all
          → ((m : Dict V)
              → add_logs vkeys m ≡ some all
              → (lookup o m ≡ some v) ⊎ Registered vkeys o v)
          → (lookup o logs ≡ some v) ⊎ Registered (k ∷ vkeys) o v
      go true added is e below = later logs (below logs e)
      go false none is e below = absurd (cc e)
      go false (some m) is e below = here m is (later m (below m e))

  -- A witness that is set up trusts for an origin only the verifier of one of the given keys, and
  -- that verifier's name is the origin.
  pub new_witness-Registered :
      (store : Store) (vkeys : List Bytes) (w : Witness V) (o : Bytes) (v : V)
      → new_witness store vkeys ≡ some w
      → lookup o w.logs ≡ some v
      → Registered vkeys o v
  unfolding new_witness
  new_witness-Registered store vkeys w o v e at = go (add_logs vkeys []) refl e
    where
      fresh : (lookup o [] ≡ some v) ⊎ Registered vkeys o v → Registered vkeys o v
      fresh (inl old) = unfold lookup in absurd (cc old)
      fresh (inr new) = new

      go :
          (all : Option (Dict V))
          → add_logs vkeys [] ≡ all
          → opened_with store all ≡ some w
          → Registered vkeys o v
      go none is e = unfold opened_with in absurd (cc e)
      go (some logs) is e =
          fresh (add_logs-Registered vkeys [] logs o v is (ap (λ x. lookup o x.logs) (same e) ∙ at))
        where
          same : opened_with store (some logs) ≡ some w → record { logs = logs; store = store } ≡ w
          same e = unfold opened_with in some_inj e
