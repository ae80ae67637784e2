-- ===== src/Witness/Safety.antt =====
-- internal/witness: the heads that were cosigned over a history of submissions, failed flushes and
-- restarts.
use behalf.Prelude.{
  ℕ, zero, suc, ◌<◌, ◌≡◌, refl, sym, ap, ◌∙◌, subst, ◌⊎◌, inl, inr, Bool, true, false, Option, none,
  some, List, [], ◌∷◌, ◌++◌, arith, ltb, ◌==◌, if◌then◌else◌, ltb→lt, ==_iff, Bool-cases, get_elem?,
  All, All-map, some_inj, All-get_elem, Bytes, eqb, eqb_iff, eqb_refl, Dict,
}
use behalf.Witness.Head.{Head, IsHash, Result, ok, err}
use behalf.Witness.Note.{parse_body-IsHash}
use behalf.Witness.Store.{Flush, Store, open_store, held_head, record_head}
use behalf.Witness.Held.{
  open_store-same, View, disk_state, Moved, Kept, Recorded, record_head-Recorded,
}
use behalf.Witness.Chain.{Chain, here, next, Chain-eq}
use behalf.Witness.Admit.{Follows, same, grown, admit-Follows, prepare-Prepared}
use behalf.Witness.Cosign.{Env, admit, prepare, cosign, persist, finish}
use behalf.Witness.History.{Host, Event, submit, restart, step, run, fresh, submitted, reopen, sign}

module _ {V : Type 0} (env : Env V) where
  -- The view holds a head that the signed one leads to.
  abbrev pub Covers : View → Bytes × Head → Type 0
  Covers view e = (k : Head) × (view e.0 ≡ some k) × Chain env e.1 k

  abbrev pub LeadsTo : Bytes → Head → Bytes × Head → Type 0
  LeadsTo o h e = e.0 ≡ o → Chain env e.1 h

  -- Each signed head is led to by all earlier ones of its origin.
  abbrev pub Ordered : List (Bytes × Head) → Type 0
  Ordered [] = Unit
  Ordered ((o, h) ∷ rest) = All (LeadsTo o h) rest × Ordered rest

  pub record IsSafe (host : Host V) : Type 0 where
    pub in_memory : All (Covers (held_head host.witness.store.st)) host.signed
    pub on_disk : All (Covers (held_head (disk_state host.witness.store.disk))) host.signed
    pub ordered : Ordered host.signed

  Chain-Follows : {h k l : Head} → Chain env h k → Follows env k l → Chain env h l
  Chain-Follows {h} c (same e) = subst (λ x. Chain env h x) e c
  Chain-Follows c (grown e) = next c e

  module _ (before after : View) (o : Bytes) (h : Head) (proof : List Bytes)
      (admitted : admit env o (before o) h proof ≡ ok tt) where
    -- What was signed before leads to a head that is admitted.
    LeadsTo-admitted : (e : Bytes × Head) → Covers before e → LeadsTo o h e
    LeadsTo-admitted (o', h') (k, held, c) same_o =
        let seen : before o ≡ some k = cc in
        Chain-Follows c
          (admit-Follows env o k h proof (subst (λ x. admit env o x h proof ≡ ok tt) seen admitted))

    Covers-Moved : Moved o h before after → (e : Bytes × Head) → Covers before e → Covers after e
    Covers-Moved m (o', h') c = elim (Bool-cases (eqb o o')) [
      | inl equal ↦
          let same_o : o' ≡ o = sym ((eqb_iff o o').0 equal) in
          let led : Chain env h' h = LeadsTo-admitted (o', h') c same_o in
          (h, rw m.at (rw equal), led)
      | inr other ↦ (c.0, rw m.at (rw other c.1), c.2)
    ]

  Covers-Kept :
      (before after : View)
      → Kept before after
      → (e : Bytes × Head) → Covers before e
      → Covers after e
  Covers-Kept before after m (o', h') (k, held, c) = (k, rw m.at held, c)

  -- The store that `cosign` leaves, when the submission was prepared.
  IsSafe-submitted :
      (host : Host V) (cp sig : Bytes) (now : ℕ) (fl : Flush) (o : Bytes) (h : Head)
      (proof : List Bytes)
      → IsHash h.root
      → admit env o (held_head host.witness.store.st o) h proof ≡ ok tt
      → IsSafe host
      → (r : Store × Bool) → Recorded o h host.witness.store r.0 r.1
      → IsSafe (submitted env host (ok (o, h, sig)) (finish env host.witness sig r))
  unfolding submitted sign finish
  IsSafe-submitted host cp sig now fl o h proof v adm safe (store, true) rec =
      let before : View = held_head host.witness.store.st in
      record {
        in_memory = (
          (h, moved_self (rec.memory_moved refl), here),
          All-map _ _ host.signed
              (Covers-Moved before (held_head store.st) o h proof adm (rec.memory_moved refl))
              safe.in_memory,
        );
        on_disk = (
          (h, moved_self (rec.disk_moved refl), here),
          All-map _ _ host.signed
              (Covers-Moved before (held_head (disk_state store.disk)) o h proof adm
                (rec.disk_moved refl))
              safe.in_memory,
        );
        ordered = (
          All-map _ _ host.signed (LeadsTo-admitted before before o h proof adm) safe.in_memory,
          safe.ordered,
        );
      }
    where
      moved_self : {b a : View} → Moved o h b a → a o ≡ some h
      moved_self m = rw m.at (rw eqb_refl)
  IsSafe-submitted host cp sig now fl o h proof v adm safe (store, false) rec =
      let before : View = held_head host.witness.store.st in
      record {
        in_memory =
            All-map _ _ host.signed (Covers-Kept before (held_head store.st) (rec.memory_kept refl))
              safe.in_memory;
        on_disk = disk rec.disk_either;
        ordered = safe.ordered;
      }
    where
      disk :
          Moved o h (held_head host.witness.store.st) (held_head (disk_state store.disk))
            ⊎ Kept
                (held_head (disk_state host.witness.store.disk))
                (held_head (disk_state store.disk))
          → All (Covers (held_head (disk_state store.disk))) host.signed
      disk (inl m) =
          All-map _ _ host.signed (Covers-Moved (held_head host.witness.store.st) _ o h proof adm m)
            safe.in_memory
      disk (inr m) = All-map _ _ host.signed (Covers-Kept _ _ m) safe.on_disk

  IsSafe-persist :
      (host : Host V) (cp : Bytes) (proof : List Bytes) (now : ℕ) (fl : Flush)
      (r : Result (Bytes × Head × Bytes))
      → prepare env host.witness cp proof now ≡ r
      → IsSafe host
      → IsSafe (submitted env host r (persist env host.witness cp now fl r))
  IsSafe-persist host cp proof now fl (err e) made safe =
      unfold submitted persist sign in
      record { in_memory = safe.in_memory; on_disk = safe.on_disk; ordered = safe.ordered }
  IsSafe-persist host cp proof now fl (ok (o, h, sig)) made safe =
      let p = prepare-Prepared env host.witness cp proof now o h sig made in
      let v : IsHash h.root = parse_body-IsHash p.text h p.body in
      rw persist_lem (
        IsSafe-submitted host cp sig now fl o h proof v p.admitted safe
          (record_head host.witness.store o h (cp ++ sig) now fl)
          (record_head-Recorded host.witness.store o h (cp ++ sig) now fl v))
    where
      persist_lem :
          persist env host.witness cp now fl (ok (o, h, sig))
          ≡ finish env host.witness sig (record_head host.witness.store o h (cp ++ sig) now fl)
      persist_lem = unfold persist in refl

  IsSafe-reopen :
      (host : Host V) (r : Option Store)
      → open_store host.witness.store.disk ≡ r
      → IsSafe host
      → IsSafe (reopen env host r)
  unfolding reopen
  IsSafe-reopen host none e safe = record {
    in_memory = safe.in_memory;
    on_disk = safe.on_disk;
    ordered = safe.ordered;
  }
  IsSafe-reopen host (some store) e safe =
      let (same_st, same_disk) = open_store-same host.witness.store.disk store e in
      record {
        in_memory = rw same_st safe.on_disk;
        on_disk = rw same_disk safe.on_disk;
        ordered = safe.ordered;
      }

  IsSafe-if : (b : Bool) (x y : Host V) → IsSafe x → IsSafe y → IsSafe (if b then x else y)
  IsSafe-if true x y hx hy = hx
  IsSafe-if false x y hx hy = hy

  step-IsSafe : (host : Host V) (e : Event) → IsSafe host → IsSafe (step env host e)
  unfolding step cosign
  step-IsSafe host (submit cp proof now fl) safe =
      let made = prepare env host.witness cp proof now in
      IsSafe-if host.up (submitted env host made (persist env host.witness cp now fl made)) host
        (IsSafe-persist host cp proof now fl made refl safe) safe
  step-IsSafe host restart safe = IsSafe-reopen host (open_store host.witness.store.disk) refl safe

  pub run-IsSafe : (host : Host V) (es : List Event) → IsSafe host → IsSafe (run env host es)
  unfolding run
  run-IsSafe host [] safe = safe
  run-IsSafe host (e ∷ es) safe = run-IsSafe (step env host e) es (step-IsSafe host e safe)

  pub fresh-IsSafe : (logs : Dict V) → IsSafe (fresh logs)
  fresh-IsSafe logs = record { in_memory = tt; on_disk = tt; ordered = tt }

  Ordered-get_elem :
      (signed : List (Bytes × Head)) (i j : ℕ) (o : Bytes) (h k : Head)
      → Ordered signed
      → i < j
      → get_elem? signed i ≡ some (o, h)
      → get_elem? signed j ≡ some (o, k)
      → Chain env k h
  Ordered-get_elem [] i j o h k ord lt at_i at_j = absurd (ground arith)
  Ordered-get_elem (e ∷ rest) i zero o h k ord lt at_i at_j = absurd (omega arith)
  Ordered-get_elem (e ∷ rest) zero (suc j) o h k ord lt at_i at_j =
      let same_e : e ≡ (o, h) = some_inj at_i in
      let led : LeadsTo o h (o, k) =
        All-get_elem (LeadsTo o h) rest j (o, k)
          (subst (λ x. All (LeadsTo x.0 x.1) rest) same_e ord.0) at_j in
      led refl
  Ordered-get_elem (e ∷ rest) (suc i) (suc j) o h k ord lt at_i at_j =
      Ordered-get_elem rest i j o h k ord.1 (omega arith) at_i at_j

  -- From a fresh start, after any events, of two signed heads of one origin the later is reached
  -- from the earlier by consistency proofs.
  pub signed-Chain :
      (logs : Dict V) (es : List Event) (i j : ℕ) (o : Bytes) (h k : Head)
      → i < j
      → get_elem? (run env (fresh logs) es).signed i ≡ some (o, h)
      → get_elem? (run env (fresh logs) es).signed j ≡ some (o, k)
      → Chain env k h
  signed-Chain logs es i j o h k lt at_i at_j =
      Ordered-get_elem (run env (fresh logs) es).signed i j o h k
        (run-IsSafe (fresh logs) es (fresh-IsSafe logs)).ordered lt at_i at_j

  -- From a fresh start, after any events, two signed heads of one origin and one size are equal.
  pub no_split_view :
      (logs : Dict V) (es : List Event) (i j : ℕ) (o : Bytes) (h k : Head)
      → get_elem? (run env (fresh logs) es).signed i ≡ some (o, h)
      → get_elem? (run env (fresh logs) es).signed j ≡ some (o, k)
      → h.size ≡ k.size
      → h ≡ k
  no_split_view logs es i j o h k at_i at_j same_size = elim (Bool-cases (ltb i j)) [
    | inl lt ↦
        sym
          (Chain-eq env (signed-Chain logs es i j o h k (ltb→lt i j lt) at_i at_j) (sym same_size))
    | inr ge ↦ elim (Bool-cases (i == j)) [
      | inl equal ↦
          let same_i : i ≡ j = (==_iff i j).0 equal in
          let twice : some (o, h) ≡ some (o, k) =
            sym at_i ∙ ap (λ n. get_elem? (run env (fresh logs) es).signed n) same_i ∙ at_j in
          ap (λ x. x.1) (some_inj twice)
      | inr other ↦ Chain-eq env (signed-Chain logs es j i o k h (ground arith) at_j at_i) same_size
    ]
  ]
