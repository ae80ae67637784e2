-- ===== src/Diff/Tiers/Anchors.antt =====
-- internal/diff/align.go: the places that `anchorChain` returns.
use behalf.Prelude.{
  ℕ, suc, ◌+◌, ◌≤◌, ◌<◌, ◌≡◌, refl, Bool, true, false, not, ◌||◌, Option, none, some, List, [], ◌∷◌,
  arith, ltb, ◌==◌, if◌then◌else◌, length, Bytes, eqb_iff, Dict, lookup, insert, lookup-insert,
}
use behalf.Diff.Step.{Step}
use behalf.Diff.Align.{not_empty}
use behalf.Diff.Tiers.{
  anchor_chain, anchors_from, anchor_place, first_keys, first_if_new, count_keys, count_of,
}
use behalf.Diff.Tiers.Sides.{Growing}

-- Every place in the map lies below the bound.
Below : ℕ → Dict ℕ → Type 0
Below n m = (k : Bytes) (i : ℕ) → lookup k m ≡ some i → i < n

Below-first_if_new :
    (k : Bytes) (i n : ℕ) (m : Dict ℕ) → i < n → Below n m → Below n (first_if_new k i m)
unfolding Below first_if_new
Below-first_if_new k i n m lt h = go (lookup k m) refl
  where
    go : (o : Option ℕ) → lookup k m ≡ o → Below n (elim o [ none ↦ insert k i m | some j ↦ m ])
    go none e j x at_j = ground (arith, lookup-insert k j i m, h j x, eqb_iff k j)
    go (some y) e j x at_j = h j x at_j

Below-if :
    (t : Bool) (n : ℕ) (m m' : Dict ℕ) → Below n m → Below n m' → Below n (if t then m else m')
Below-if true n m m' h k = h
Below-if false n m m' h k = k

Below-first_keys :
    (i n : ℕ) (a : List Step) (m : Dict ℕ)
    → i + length a ≤ n
    → Below n m
    → Below n (first_keys i a m)
unfolding first_keys
Below-first_keys i n [] m le h = h
Below-first_keys i n (s ∷ a) m le h =
    Below-first_keys (suc i) n a (if not_empty s.step_key then first_if_new s.step_key i m else m)
      (omega arith)
      (Below-if (not_empty s.step_key) n (first_if_new s.step_key i m) m
        (Below-first_if_new s.step_key i n m (omega arith) h) h)

Growing-weaken :
    (la lb from_a from_b : ℕ) (l : List (ℕ × ℕ))
    → Growing la lb from_a (suc from_b) l
    → Growing la lb from_a from_b l
Growing-weaken la lb from_a from_b [] g = tt
Growing-weaken la lb from_a from_b (p ∷ l) (a, b, c, d, e) = (a, b, omega arith, d, e)

Growing-if :
    (t : Bool) (la lb from_a from_b : ℕ) (l l' : List (ℕ × ℕ))
    → Growing la lb from_a from_b l
    → Growing la lb from_a from_b l'
    → Growing la lb from_a from_b (if t then l else l')
Growing-if true la lb from_a from_b l l' g h = g
Growing-if false la lb from_a from_b l l' g h = h

anchor_place-some :
    (o : Option ℕ) (next i : ℕ) → anchor_place o next ≡ some i → (o ≡ some i) × (next ≤ i)
unfolding anchor_place
anchor_place-some none next i e = ground arith
anchor_place-some (some j) next i e = ground arith

-- One round of the loop, over what the rest of the loop gives.
Growing-step :
    (count_a first_a count_b : Dict ℕ) (next j la lb : ℕ) (t : Step) (b : List Step)
    → Below la first_a
    → j < lb
    → Growing la lb next j (anchors_from count_a first_a count_b next (suc j) b)
    → Growing la lb next j (
        anchors_from count_a first_a
          (insert t.step_key (count_of t.step_key count_b + 1) count_b)
          next
          (suc j)
          b)
    → ((i : ℕ)
        → Growing la lb (suc i) (suc j) (
            anchors_from count_a first_a
              (insert t.step_key (count_of t.step_key count_b + 1) count_b)
              (suc i)
              (suc j)
              b))
    → Growing la lb next j (anchors_from count_a first_a count_b next j (t ∷ b))
unfolding anchors_from Below
Growing-step count_a first_a count_b next j la lb t b below lt skip pass more =
    Growing-if (not (not_empty k)) la lb next j _ _ skip (
      Growing-if (ltb 1 (count_of k count_b + 1) || not (count_of k count_a == 1)) la lb next j _ _
        pass (go (anchor_place (lookup k first_a) next) refl))
  where
    k : Bytes
    k = t.step_key

    counted : Dict ℕ
    counted = insert k (count_of k count_b + 1) count_b

    go :
        (o : Option ℕ)
        → anchor_place (lookup k first_a) next ≡ o
        → Growing la lb next j (elim o [
          | none ↦ anchors_from count_a first_a counted next (suc j) b
          | some i ↦ (i, j) ∷ anchors_from count_a first_a counted (suc i) (suc j) b
        ])
    go none e = pass
    go (some i) e =
        let (found, le) = anchor_place-some (lookup k first_a) next i e in
        (le, below k i found, omega arith, lt, more i)

Growing-anchors :
    (count_a first_a count_b : Dict ℕ) (next j la lb : ℕ) (b : List Step)
    → Below la first_a
    → j + length b ≤ lb
    → Growing la lb next j (anchors_from count_a first_a count_b next j b)
Growing-anchors count_a first_a count_b next j la lb [] below le = unfold anchors_from in tt
Growing-anchors count_a first_a count_b next j la lb (t ∷ b) below le =
    let k = t.step_key in
    let counted = insert k (count_of k count_b + 1) count_b in
    let skip =
      Growing-weaken la lb next j (anchors_from count_a first_a count_b next (suc j) b)
        (Growing-anchors count_a first_a count_b next (suc j) la lb b below (omega arith)) in
    let pass =
      Growing-weaken la lb next j (anchors_from count_a first_a counted next (suc j) b)
        (Growing-anchors count_a first_a counted next (suc j) la lb b below (omega arith)) in
    let more = λ (i : ℕ).
      Growing-anchors count_a first_a counted (suc i) (suc j) la lb b below (omega arith) in
    Growing-step count_a first_a count_b next j la lb t b below (omega arith) skip pass more

-- The anchors of two runs grow on both sides and lie inside the runs.
pub anchor_chain-Growing : (a b : List Step) → Growing (length a) (length b) 0 0 (anchor_chain a b)
unfolding anchor_chain
anchor_chain-Growing a b =
    Growing-anchors (count_keys a []) (first_keys 0 a []) [] 0 0 (length a) (length b) b
      (Below-first_keys 0 (length a) a [] (omega arith) none_below) (omega arith)
  where
    none_below : Below (length a) []
    none_below = unfold Below lookup in λ k i e. absurd (cc e)
