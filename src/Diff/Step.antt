-- ===== src/Diff/Step.antt =====
-- internal/diff/diff.go and align.go: the fields of a step that the aligner reads, and pairs.
use behalf.Prelude.{ℕ, ◌≡◌, refl, Option, none, some, List, [], ◌∷◌, ◌++◌, Bytes}

pub record Step : Type 0 where
  pub run_id : Bytes
  pub ordinal : ℕ
  pub step_key : Bytes
  pub operation : Bytes
  pub target : Bytes
  pub risk_class : Bytes
  pub arg_shape : Bytes

-- One aligned position; `none` is a nil pointer.
pub record Pair : Type 0 where
  pub a : Option Step
  pub b : Option Step

pub data Aligner : Type 0 where
  step_key sequence blocked : Aligner

unfoldable pub cons_some : Option Step → List Step → List Step
cons_some none steps = steps
cons_some (some s) steps = s ∷ steps

-- The steps of the first run that the pairs hold, in order, and those of the second.
unfoldable pub a_side : List Pair → List Step
unfolding cons_some
a_side [] = []
a_side (p ∷ pairs) = cons_some p.a (a_side pairs)

unfoldable pub b_side : List Pair → List Step
unfolding cons_some
b_side [] = []
b_side (p ∷ pairs) = cons_some p.b (b_side pairs)

pub a_side-append : (ps qs : List Pair) → a_side (ps ++ qs) ≡ a_side ps ++ a_side qs
unfolding a_side
a_side-append [] qs = refl
a_side-append (p ∷ ps) qs = rw (a_side-append ps qs) (go p.a)
  where
    go :
        (o : Option Step)
        → cons_some o (a_side ps ++ a_side qs) ≡ cons_some o (a_side ps) ++ a_side qs
    go none = refl
    go (some s) = refl

pub b_side-append : (ps qs : List Pair) → b_side (ps ++ qs) ≡ b_side ps ++ b_side qs
unfolding b_side
b_side-append [] qs = refl
b_side-append (p ∷ ps) qs = rw (b_side-append ps qs) (go p.b)
  where
    go :
        (o : Option Step)
        → cons_some o (b_side ps ++ b_side qs) ≡ cons_some o (b_side ps) ++ b_side qs
    go none = refl
    go (some s) = refl
