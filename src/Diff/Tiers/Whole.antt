-- ===== src/Diff/Tiers/Whole.antt =====
-- internal/diff/align.go: the result of `Align`.
use behalf.Prelude.{
  ℕ, ◌≡◌, refl, ◌⊎◌, inl, inr, Bool, true, false, Option, none, some, List, [], ◌∷◌, if◌then◌else◌,
}
use behalf.Diff.Step.{Step, Pair, Aligner, step_key, sequence, blocked, a_side, b_side}
use behalf.Diff.Align.{Float}
use behalf.Diff.Tiers.{
  align_by_step_key, align_anchored, align_fitting, align_by_sequence, align, anchor_chain, fits,
}
use behalf.Diff.Tiers.Keys.{ByKeys, align_by_step_key-ByKeys}
use behalf.Diff.Tiers.Sides.{Holds, Holds-anchors, Holds-fitting}
use behalf.Diff.Tiers.Anchors.{anchor_chain-Growing}

module _ {F : Type 0} (fl : Float F) (max_cells : ℕ) where
  Holds-anchored : (a b : List Step) → Holds a b (align_anchored fl max_cells a b)
  unfolding align_anchored
  Holds-anchored a b =
      Holds-anchors fl max_cells a b 0 0 (anchor_chain a b) (anchor_chain-Growing a b)

  -- The sequence tiers hold the steps of both runs, each once and in order.
  pub align_by_sequence-Holds : (a b : List Step) → Holds a b (align_by_sequence fl max_cells a b).0
  unfolding align_by_sequence
  align_by_sequence-Holds [] b = Holds-fitting fl max_cells [] b
  align_by_sequence-Holds (s ∷ a) [] = Holds-fitting fl max_cells (s ∷ a) []
  align_by_sequence-Holds (s ∷ a) (t ∷ b) = go (fits fl max_cells (s ∷ a) (t ∷ b))
    where
      go :
          (t' : Bool)
          → Holds
              (s ∷ a)
              (t ∷ b)
              (if◌then◌else◌ {A = List Pair × Aligner} t'
                (align_fitting fl max_cells (s ∷ a) (t ∷ b), sequence)
                (align_anchored fl max_cells (s ∷ a) (t ∷ b), blocked)).0
      go true = Holds-fitting fl max_cells (s ∷ a) (t ∷ b)
      go false = Holds-anchored (s ∷ a) (t ∷ b)

  -- What an alignment keeps: the first run always, and the second by keys or as it is.
  pub record Aligned (a b : List Step) (r : List Pair × Aligner) : Type 0 where
    pub a_kept : a_side r.0 ≡ a
    pub b_kept : ((r.1 ≡ step_key) × ByKeys a b r.0) ⊎ (b_side r.0 ≡ b)

  -- `Align` pairs every step of each run once, and those of the first run in order, on every tier. The
  -- second run is in order too, or, on the key tier, each step of the first run, whose keys are distinct
  -- and not empty, is paired with a step that has its key, and those are the second run permuted.
  pub align-Aligned : (a b : List Step) → Aligned a b (align fl max_cells a b)
  unfolding align
  align-Aligned a b = go (align_by_step_key a b) refl
    where
      go :
          (o : Option (List Pair))
          → align_by_step_key a b ≡ o
          → Aligned a b (elim o [
            | some pairs ↦ (pairs, step_key)
            | none ↦ align_by_sequence fl max_cells a b
          ])
      go none e =
          let h = align_by_sequence-Holds a b in record { a_kept = h.a_kept; b_kept = inr h.b_kept }
      go (some pairs) e =
          let by_keys = align_by_step_key-ByKeys a b pairs e in
          record { a_kept = by_keys.a_kept; b_kept = inl (refl, by_keys) }
