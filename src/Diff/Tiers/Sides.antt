-- ===== src/Diff/Tiers/Sides.antt =====
-- internal/diff/align.go: the two sides of the pairs of a block and of a chain of anchors.
use behalf.Prelude.{
  ℕ, zero, suc, ◌+◌, ◌-◌, ◌≤◌, ◌<◌, ◌≡◌, refl, ap, ◌∙◌, subst, Bool, true, false, Option, none,
  some, List, [], ◌∷◌, ◌++◌, map, append-nil, arith, if◌then◌else◌, length, get_elem?, take, drop,
}
use behalf.Diff.Step.{Step, Pair, a_side, b_side, a_side-append, b_side-append}
use behalf.Diff.Align.{Float, only_one_side, zip_positional}
use behalf.Diff.Align.Keeps.{needleman_wunsch-Sides}
use behalf.Diff.Tiers.{align_fitting, align_block, align_anchors, slice, fits}

-- The pairs hold the steps of both runs, each once and in order.
pub record Holds (a b : List Step) (pairs : List Pair) : Type 0 where
  pub a_kept : a_side pairs ≡ a
  pub b_kept : b_side pairs ≡ b

Holds-append :
    {a b c d : List Step} {ps qs : List Pair}
    → Holds a b ps
    → Holds c d qs
    → Holds (a ++ c) (b ++ d) (ps ++ qs)
Holds-append {a} {b} {c} {d} {ps} {qs} h k = record {
  a_kept = a_side-append ps qs ∙ ap (λ x. x ++ a_side qs) h.a_kept ∙ ap (λ x. a ++ x) k.a_kept;
  b_kept = b_side-append ps qs ∙ ap (λ x. x ++ b_side qs) h.b_kept ∙ ap (λ x. b ++ x) k.b_kept;
}

Holds-only_a : (a : List Step) → Holds a [] (map (λ s. record { a = some s; b = none }) a)
unfolding a_side b_side
Holds-only_a [] = record { a_kept = refl; b_kept = refl }
Holds-only_a (s ∷ a) =
    let ih = Holds-only_a a in record { a_kept = ap (◌∷◌ s) ih.a_kept; b_kept = ih.b_kept }

Holds-only_b : (b : List Step) → Holds [] b (map (λ s. record { a = none; b = some s }) b)
unfolding a_side b_side
Holds-only_b [] = record { a_kept = refl; b_kept = refl }
Holds-only_b (s ∷ b) =
    let ih = Holds-only_b b in record { a_kept = ih.a_kept; b_kept = ap (◌∷◌ s) ih.b_kept }

Holds-only_one_side : (a b : List Step) → Holds (a ++ []) b (only_one_side a b)
unfolding only_one_side
Holds-only_one_side a b = Holds-append (Holds-only_a a) (Holds-only_b b)

-- Positional pairing loses nothing of the longer run.
pub zip_positional-Holds : (a b : List Step) → Holds a b (zip_positional a b)
unfolding zip_positional a_side b_side
zip_positional-Holds [] b = Holds-only_b b
zip_positional-Holds (s ∷ a) [] =
    let ih = zip_positional-Holds a [] in
    record { a_kept = ap (◌∷◌ s) ih.a_kept; b_kept = ih.b_kept }
zip_positional-Holds (s ∷ a) (t ∷ b) =
    let ih = zip_positional-Holds a b in
    record { a_kept = ap (◌∷◌ s) ih.a_kept; b_kept = ap (◌∷◌ t) ih.b_kept }

-- Places that grow on both sides and lie inside the runs.
abbrev pub Growing : ℕ → ℕ → ℕ → ℕ → List (ℕ × ℕ) → Type 0
Growing len_a len_b from_a from_b [] = Unit
Growing len_a len_b from_a from_b (p ∷ rest) =
    (from_a ≤ p.0)
    × (p.0 < len_a)
    × (from_b ≤ p.1)
    × (p.1 < len_b)
    × Growing len_a len_b (suc p.0) (suc p.1) rest

split_zero :
    (xs : List Step) (k : ℕ)
    → k < length xs
    → (s : Step) × (get_elem? xs k ≡ some s) × (xs ≡ take k xs ++ s ∷ drop (suc k) xs)
split_zero [] k lt = absurd (omega arith)
split_zero (x ∷ xs) zero lt = (x, refl, refl)
split_zero (x ∷ xs) (suc k) lt =
    let (s, at_k, e) = split_zero xs k (omega arith) in (s, at_k, ap (◌∷◌ x) e)

-- The block from one place up to another, the step there, and the rest.
split_at :
    (xs : List Step) (i k : ℕ)
    → i ≤ k
    → k < length xs
    → (s : Step) × (get_elem? xs k ≡ some s) × (drop i xs ≡ slice xs i k ++ s ∷ drop (suc k) xs)
unfolding slice
split_at [] i k le lt = absurd (omega arith)
split_at (x ∷ xs) zero k le lt =
    let (s, at_k, e) = split_zero (x ∷ xs) k lt in
    let same_n : k ≡ k - 0 = omega arith in
    (s, at_k, subst (λ n. x ∷ xs ≡ take n (x ∷ xs) ++ s ∷ drop (suc k) (x ∷ xs)) same_n e)
split_at (x ∷ xs) (suc i) zero le lt = absurd (omega arith)
split_at (x ∷ xs) (suc i) (suc k) le lt =
    let (s, at_k, e) = split_at xs i k (omega arith) (omega arith) in
    let same_n : k - i ≡ suc k - suc i = omega arith in
    (s, at_k, subst (λ n. drop i xs ≡ take n (drop i xs) ++ s ∷ drop (suc k) xs) same_n e)

take_all : (xs : List Step) → take (length xs) xs ≡ xs
take_all [] = refl
take_all (x ∷ xs) = ap (◌∷◌ x) (take_all xs)

take_nil : (n : ℕ) → take {A = Step} n [] ≡ []
take_nil zero = refl
take_nil (suc n) = refl

slice_all : (xs : List Step) (i : ℕ) → slice xs i (length xs) ≡ drop i xs
unfolding slice
slice_all xs zero =
    let same_n : length xs ≡ length xs - 0 = omega arith in
    subst (λ n. take n xs ≡ xs) same_n (take_all xs)
slice_all [] (suc i) = take_nil (0 - suc i)
slice_all (x ∷ xs) (suc i) =
    let same_n : length xs - i ≡ suc (length xs) - suc i = omega arith in
    subst (λ n. take n (drop i xs) ≡ drop i xs) same_n (slice_all xs i)

Holds-pair :
    (s t : Step) (a b : List Step) (ps : List Pair)
    → Holds a b ps
    → Holds (s ∷ a) (t ∷ b) (record { a = some s; b = some t } ∷ ps)
unfolding a_side b_side
Holds-pair s t a b ps h = record { a_kept = ap (◌∷◌ s) h.a_kept; b_kept = ap (◌∷◌ t) h.b_kept }

module _ {F : Type 0} (fl : Float F) (max_cells : ℕ) where
  pub Holds-fitting : (a b : List Step) → Holds a b (align_fitting fl max_cells a b)
  unfolding align_fitting
  Holds-fitting [] b = Holds-only_one_side [] b
  Holds-fitting (s ∷ a) [] =
      subst (λ x. Holds x [] (only_one_side (s ∷ a) [])) (append-nil (s ∷ a))
        (Holds-only_one_side (s ∷ a) [])
  Holds-fitting (s ∷ a) (t ∷ b) =
      let (ea, eb) = needleman_wunsch-Sides fl (s ∷ a) (t ∷ b) in
      record { a_kept = ea; b_kept = eb }

  Holds-if :
      (t : Bool) (a b : List Step) (ps qs : List Pair)
      → Holds a b ps
      → Holds a b qs
      → Holds a b (if t then ps else qs)
  Holds-if true a b ps qs h k = h
  Holds-if false a b ps qs h k = k

  Holds-block : (a b : List Step) → Holds a b (align_block fl max_cells a b)
  unfolding align_block
  Holds-block a b =
      Holds-if (fits fl max_cells a b) a b (align_fitting fl max_cells a b) (zip_positional a b)
        (Holds-fitting a b) (zip_positional-Holds a b)

  -- A block, an anchor and what follows.
  Holds-anchor :
      (a b xs ys a' b' : List Step) (s t : Step) (o q : Option Step) (block rest : List Pair)
      → o ≡ some s
      → q ≡ some t
      → a ≡ xs ++ s ∷ a'
      → b ≡ ys ++ t ∷ b'
      → Holds xs ys block
      → Holds a' b' rest
      → Holds a b (block ++ (record { a = o; b = q } ∷ rest))
  Holds-anchor a b xs ys a' b' s t o q block rest eo eq ea eb hb hr =
      rw (eo, eq, ea, eb) (Holds-append hb (Holds-pair s t a' b' rest hr))

  pub Holds-anchors :
      (a b : List Step) (prev_a prev_b : ℕ) (anchors : List (ℕ × ℕ))
      → Growing (length a) (length b) prev_a prev_b anchors
      → Holds (drop prev_a a) (drop prev_b b) (align_anchors fl max_cells a b prev_a prev_b anchors)
  unfolding align_anchors
  Holds-anchors a b prev_a prev_b [] g =
      let h = Holds-block (slice a prev_a (length a)) (slice b prev_b (length b)) in
      record { a_kept = h.a_kept ∙ slice_all a prev_a; b_kept = h.b_kept ∙ slice_all b prev_b }
  Holds-anchors a b prev_a prev_b ((ia, ib) ∷ anchors) (la, ka, lb, kb, g) =
      let (s, at_a, ea) = split_at a prev_a ia la ka in
      let (t, at_b, eb) = split_at b prev_b ib lb kb in
      let one_a : suc ia ≡ ia + 1 = omega arith in
      let one_b : suc ib ≡ ib + 1 = omega arith in
      let g' : Growing (length a) (length b) (ia + 1) (ib + 1) anchors =
        subst (λ x. Growing (length a) (length b) x (ib + 1) anchors) one_a
          (subst (λ x. Growing (length a) (length b) (suc ia) x anchors) one_b g) in
      Holds-anchor (drop prev_a a) (drop prev_b b) (slice a prev_a ia) (slice b prev_b ib)
        (drop (ia + 1) a) (drop (ib + 1) b) s t (get_elem? a ia) (get_elem? b ib)
        (align_block fl max_cells (slice a prev_a ia) (slice b prev_b ib))
        (align_anchors fl max_cells a b (ia + 1) (ib + 1) anchors) at_a at_b
        (ea ∙ ap (λ x. slice a prev_a ia ++ s ∷ drop x a) one_a)
        (eb ∙ ap (λ x. slice b prev_b ib ++ t ∷ drop x b) one_b)
        (Holds-block (slice a prev_a ia) (slice b prev_b ib))
        (Holds-anchors a b (ia + 1) (ib + 1) anchors g')
