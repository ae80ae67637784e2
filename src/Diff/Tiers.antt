-- ===== src/Diff/Tiers.antt =====
-- internal/diff/align.go: the step-key tier, the anchored blocks and `Align` itself.
pub mod Sides
pub mod Anchors
pub mod Keys
pub mod Whole
use behalf.Prelude.{
  ℕ, suc, ◌+◌, ◌-◌, ◌*◌, Bool, not, ◌||◌, Option, none, some, List, [], ◌∷◌, ◌++◌, ltb, leb, ◌==◌,
  if◌then◌else◌, length, get_elem?, take, drop, Bytes, Dict, lookup, insert,
}
use behalf.Diff.Step.{Step, Pair, Aligner, step_key, sequence, blocked}
use behalf.Diff.Align.{Float, needleman_wunsch, only_one_side, zip_positional, not_empty}

-- The map from the keys of the second run to its steps (the code keeps their places); an empty or repeated key ends the tier.
unfoldable pub index_keys : ℕ → List Step → Dict Step → Option (Dict Step)
unfolding not_empty
index_keys j [] by_key = some by_key
index_keys j (t ∷ b) by_key =
    let rest = index_keys (suc j) b (insert t.step_key t by_key) in
    if not_empty t.step_key
    then elim (lookup t.step_key by_key) [ none ↦ rest | some dup ↦ none ]
    else none

cons_pair : Step → Option Step → Option (List Pair) → Option (List Pair)
cons_pair s (some t) (some pairs) = some (record { a = some s; b = some t } ∷ pairs)
cons_pair s _ _ = none

-- The second loop: each key of the first run once, and in the map.
unfoldable pub match_keys : List Step → Dict (Unit {0}) → Dict Step → Option (List Pair)
unfolding not_empty cons_pair
match_keys [] seen by_key = some []
match_keys (s ∷ a) seen by_key =
    let rest = match_keys a (insert s.step_key tt seen) by_key in
    if not_empty s.step_key
    then elim (lookup s.step_key seen) [
      | none ↦ cons_pair s (lookup s.step_key by_key) rest
      | some dup ↦ none
    ]
    else none

matched : List Step → Option (Dict Step) → Option (List Pair)
matched a none = none
matched a (some by_key) = match_keys a [] by_key

-- `alignByStepKey`; `none` hands over to the second tier.
unfoldable pub align_by_step_key : List Step → List Step → Option (List Pair)
unfolding matched
align_by_step_key [] b = none
align_by_step_key (s ∷ a) b =
    if length (s ∷ a) == length b then matched (s ∷ a) (index_keys 0 b []) else none

-- The counts and first places of the keys of the first run.
count_of : Bytes → Dict ℕ → ℕ
count_of k counts = elim (lookup k counts) [ none ↦ 0 | some n ↦ n ]

unfoldable pub count_keys : List Step → Dict ℕ → Dict ℕ
unfolding not_empty count_of
count_keys [] counts = counts
count_keys (s ∷ a) counts = count_keys a (
    if not_empty s.step_key
    then insert s.step_key (count_of s.step_key counts + 1) counts
    else counts)

first_if_new : Bytes → ℕ → Dict ℕ → Dict ℕ
first_if_new k i firsts = elim (lookup k firsts) [ none ↦ insert k i firsts | some j ↦ firsts ]

unfoldable pub first_keys : ℕ → List Step → Dict ℕ → Dict ℕ
unfolding not_empty first_if_new
first_keys i [] firsts = firsts
first_keys i (s ∷ a) firsts =
    first_keys (suc i) a (if not_empty s.step_key then first_if_new s.step_key i firsts else firsts)

-- `lastA` starts at -1: `next` is the least place that an anchor may have.
anchor_place : Option ℕ → ℕ → Option ℕ
anchor_place none next = none
anchor_place (some i) next = if ltb i next then none else some i

-- The loop over the second run. An anchor is a pair of places.
unfoldable pub anchors_from : Dict ℕ → Dict ℕ → Dict ℕ → ℕ → ℕ → List Step → List (ℕ × ℕ)
unfolding not_empty count_of anchor_place
anchors_from count_a first_a count_b next j [] = []
anchors_from count_a first_a count_b next j (t ∷ b) =
    let k = t.step_key in
    let seen = count_of k count_b + 1 in
    let count_b' = insert k seen count_b in
    let skip = anchors_from count_a first_a count_b next (suc j) b in
    let pass = anchors_from count_a first_a count_b' next (suc j) b in
    if not (not_empty k)
    then skip
    else if ltb 1 seen || not (count_of k count_a == 1)
    then pass
    else elim (anchor_place (lookup k first_a) next) [
      | none ↦ pass
      | some i ↦ (i, j) ∷ anchors_from count_a first_a count_b' (suc i) (suc j) b
    ]

-- `anchorChain`.
unfoldable pub anchor_chain : List Step → List Step → List (ℕ × ℕ)
unfolding count_keys first_keys anchors_from
anchor_chain a b = anchors_from (count_keys a []) (first_keys 0 a []) [] 0 0 b

slice : List Step → ℕ → ℕ → List Step
slice steps from to = take (to - from) (drop from steps)

module _ {F : Type 0} (fl : Float F) (max_cells : ℕ) where
  fits : List Step → List Step → Bool
  fits a b = leb (length a * length b) max_cells

  -- `alignBySequence` where the matrix fits.
  unfoldable pub align_fitting : List Step → List Step → List Pair
  align_fitting [] b = only_one_side [] b
  align_fitting (s ∷ a) [] = only_one_side (s ∷ a) []
  align_fitting (s ∷ a) (t ∷ b) = needleman_wunsch fl (s ∷ a) (t ∷ b)

  -- `appendBlock`: the guard of the second case is that of `alignBySequence`, which then fits too.
  unfoldable pub align_block : List Step → List Step → List Pair
  unfolding fits
  align_block a b = if fits a b then align_fitting a b else zip_positional a b

  -- The blocks between the anchors, and the anchors themselves.
  unfoldable pub align_anchors : List Step → List Step → ℕ → ℕ → List (ℕ × ℕ) → List Pair
  unfolding slice
  align_anchors a b prev_a prev_b [] =
      align_block (slice a prev_a (length a)) (slice b prev_b (length b))
  align_anchors a b prev_a prev_b ((ia, ib) ∷ anchors) =
      align_block (slice a prev_a ia) (slice b prev_b ib)
      ++ (record { a = get_elem? a ia; b = get_elem? b ib }
          ∷ align_anchors a b (ia + 1) (ib + 1) anchors)

  -- `alignAnchored`.
  unfoldable pub align_anchored : List Step → List Step → List Pair
  align_anchored a b = align_anchors a b 0 0 (anchor_chain a b)

  -- `alignBySequence`.
  unfoldable pub align_by_sequence : List Step → List Step → List Pair × Aligner
  unfolding fits
  align_by_sequence [] b = (align_fitting [] b, sequence)
  align_by_sequence (s ∷ a) [] = (align_fitting (s ∷ a) [], sequence)
  align_by_sequence (s ∷ a) (t ∷ b) =
      if fits (s ∷ a) (t ∷ b)
      then (align_fitting (s ∷ a) (t ∷ b), sequence)
      else (align_anchored (s ∷ a) (t ∷ b), blocked)

  -- `Align`.
  unfoldable pub align : List Step → List Step → List Pair × Aligner
  align a b = elim (align_by_step_key a b) [
    | some pairs ↦ (pairs, step_key)
    | none ↦ align_by_sequence a b
  ]
