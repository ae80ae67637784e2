-- ===== src/Diff/Tests.antt =====
-- internal/diff/align.go: two short runs on every tier.
use behalf.Prelude.{
  ℕ, ◌+◌, ◌-◌, ◌*◌, ◌≡◌, refl, List, [], ◌∷◌, ltb, ◌==◌, Bytes, codes, eqb, lookup, insert,
}
use behalf.Prelude.Int.{pos_part}
use behalf.Diff.Step.{a_side, b_side, Step, step_key}
use behalf.Diff.Align.{Float, needleman_wunsch, not_empty}
use behalf.Diff.Tiers.{
  anchor_chain, align_by_sequence, align, align_by_step_key, index_keys, match_keys, count_keys,
  first_keys, anchors_from,
}
use behalf.Diff.Tiers.Sides.{Holds, Growing}
use behalf.Diff.Tiers.Anchors.{anchor_chain-Growing}
use behalf.Diff.Tiers.Whole.{Aligned, align-Aligned, align_by_sequence-Holds}
use behalf.Diff.Align.Keeps.{needleman_wunsch-Sides}

-- Numbers in place of floats.
abbrev fl : Float ℕ
fl = record {
  decimal = λ m e. pos_part m;
  of_int = λ i. pos_part i;
  add = λ x y. x + y;
  sub = λ x y. x - y;
  mul = λ x y. x * y;
  div = λ x y. x;
  abs = λ x. x;
  lt = λ x y. ltb x y;
  eq = λ x y. x == y;
}

abbrev step_of : Bytes → ℕ → Step
step_of key n = record {
  run_id = codes "r";
  ordinal = n;
  step_key = key;
  operation = codes "fs.read";
  target = codes "t";
  risk_class = codes "low";
  arg_shape = codes "s";
}

abbrev run_a : List Step
run_a = step_of (codes "a") 0 ∷ step_of (codes "b") 1 ∷ []

abbrev run_b : List Step
run_b = step_of (codes "b") 0 ∷ step_of (codes "a") 1 ∷ []

abbrev run_c : List Step
run_c = step_of (codes "b") 0 ∷ step_of (codes "c") 1 ∷ step_of (codes "a") 2 ∷ []

by_keys : (align fl 100 run_a run_b).1 ≡ step_key
unfolding align align_by_step_key index_keys match_keys not_empty lookup insert eqb
by_keys = refl

anchored : anchor_chain run_a run_c ≡ (1, 0) ∷ []
unfolding anchor_chain count_keys first_keys anchors_from not_empty lookup insert eqb
anchored = refl

align-Aligned_example : Aligned fl 100 run_a run_b (align fl 100 run_a run_b)
align-Aligned_example = align-Aligned fl 100 run_a run_b

align_by_sequence-Holds_example : Holds run_a run_c (align_by_sequence fl 1 run_a run_c).0
align_by_sequence-Holds_example = align_by_sequence-Holds fl 1 run_a run_c

anchor_chain-Growing_example : Growing 2 3 0 0 (anchor_chain run_a run_c)
anchor_chain-Growing_example = anchor_chain-Growing run_a run_c

needleman_wunsch-Sides_example :
    (a_side (needleman_wunsch fl run_a run_c) ≡ run_a)
    × (b_side (needleman_wunsch fl run_a run_c) ≡ run_c)
needleman_wunsch-Sides_example = needleman_wunsch-Sides fl run_a run_c
