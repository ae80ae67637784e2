-- ===== src/Diff/Tiers/Keys.antt =====
-- internal/diff/align.go: the pairs of the step-key tier.
use behalf.Prelude.{
  ℕ, suc, ◌≡◌, refl, sym, ap, ◌∙◌, subst, ◌⊎◌, inl, inr, true, false, Option, none, some, List, [],
  ◌∷◌, arith, ◌==◌, if◌then◌else◌, ==_iff, Bool-cases, Option-cases, length, All, some_inj, Bytes,
  eqb, eqb_iff, eqb_refl, Dict, lookup, insert, lookup-insert,
}
use mathlib.Core.List.{Memᴰ, Permᴰ}
use behalf.Diff.Apart.{Apart, Permᴰ-Apart}
use behalf.Diff.Step.{Step, Pair, a_side, b_side}
use behalf.Diff.Align.{not_empty}
use behalf.Diff.Tiers.{align_by_step_key, index_keys, match_keys, matched, cons_pair}

abbrev pub keys_of : List Step → List Bytes
keys_of [] = []
keys_of (s ∷ steps) = s.step_key ∷ keys_of steps

length-keys_of : (steps : List Step) → length (keys_of steps) ≡ length steps
length-keys_of [] = refl
length-keys_of (s ∷ steps) = ap suc (length-keys_of steps)

Memᴰ-keys_of : (s : Step) (steps : List Step) → Memᴰ s steps → Memᴰ s.step_key (keys_of steps)
Memᴰ-keys_of s [] m = elim m [ ]
Memᴰ-keys_of s (t ∷ steps) (Memᴰ.head e) = Memᴰ.head (ap (λ x. x.step_key) e)
Memᴰ-keys_of s (t ∷ steps) (Memᴰ.tail m) = Memᴰ.tail (Memᴰ-keys_of s steps m)

Apart-keys_of : (steps : List Step) → Apart (keys_of steps) → Apart steps
Apart-keys_of [] h = tt
Apart-keys_of (s ∷ steps) (new, h) = (λ m. new (Memᴰ-keys_of s steps m), Apart-keys_of steps h)

-- Both sides of a pair are there and carry one key, which is not empty; the second is of the run.
pub record SameKey (run : List Step) (p : Pair) : Type 0 where
  pub left : Step
  pub right : Step
  pub on_a : p.a ≡ some left
  pub on_b : p.b ≡ some right
  pub keyed : not_empty left.step_key ≡ true
  pub agree : left.step_key ≡ right.step_key
  pub of_run : Memᴰ right run

-- The map holds a step of the run under its own key.
Keyed : List Step → Dict Step → Type 0
Keyed run m = (k : Bytes) (t : Step) → lookup k m ≡ some t → (t.step_key ≡ k) × Memᴰ t run

Keyed-insert :
    (run : List Step) (t : Step) (m : Dict Step)
    → Memᴰ t run
    → Keyed run m
    → Keyed run (insert t.step_key t m)
unfolding Keyed
Keyed-insert run t m stored h k s at =
    go (Bool-cases (eqb t.step_key k)) (sym (lookup-insert t.step_key k t m) ∙ at)
  where
    go :
        (eqb t.step_key k ≡ true) ⊎ (eqb t.step_key k ≡ false)
        → (if eqb t.step_key k then some t else lookup k m) ≡ some s
        → (s.step_key ≡ k) × Memᴰ s run
    go (inl same) e =
        let is_s : t ≡ s = some_inj (sym (rw same refl) ∙ e) in
        (
          ap (λ x. x.step_key) (sym is_s) ∙ (eqb_iff t.step_key k).0 same,
          subst (λ x. Memᴰ x run) is_s stored,
        )
    go (inr other) e = h k s (sym (rw other refl) ∙ e)

Keyed-index_keys :
    (run : List Step) (j : ℕ) (b : List Step) (m m' : Dict Step)
    → ((x : Step) → Memᴰ x b → Memᴰ x run)
    → Keyed run m
    → index_keys j b m ≡ some m'
    → Keyed run m'
unfolding index_keys
Keyed-index_keys run j [] m m' sub h e = subst (Keyed run) (some_inj e) h
Keyed-index_keys run j (t ∷ b) m m' sub h e =
    Keyed-index_keys run (suc j) b (insert t.step_key t m) m' (λ x at. sub x (Memᴰ.tail at))
      (Keyed-insert run t m (sub t (Memᴰ.head refl)) h) (ground arith)

cons_pair-some :
    (s : Step) (o : Option Step) (r : Option (List Pair)) (ps : List Pair)
    → cons_pair s o r ≡ some ps
    → (t : Step) × (rest : List Pair) × (o ≡ some t)
      × (r ≡ some rest)
      × (ps ≡ record { a = some s; b = some t } ∷ rest)
unfolding cons_pair
cons_pair-some s none r ps e = absurd (cc e)
cons_pair-some s (some t) none ps e = absurd (cc e)
cons_pair-some s (some t) (some rest) ps e = (t, rest, refl, refl, sym (some_inj e))

match_keys-cons :
    (s : Step) (a : List Step) (seen : Dict (Unit {0})) (m : Dict Step) (ps : List Pair)
    → match_keys (s ∷ a) seen m ≡ some ps
    → (not_empty s.step_key ≡ true)
      × (lookup s.step_key seen ≡ none)
      × (cons_pair s (lookup s.step_key m) (match_keys a (insert s.step_key tt seen) m) ≡ some ps)
unfolding match_keys
match_keys-cons s a seen m ps e = elim (Option-cases (lookup s.step_key seen)) [
  | inl new ↦ (ground arith, new, ground arith)
  | inr (u, old) ↦ absurd (ground (arith, old))
]

-- Every step of the first run is paired, in order, with a step of its key.
match_keys-Holds :
    (run a : List Step) (seen : Dict (Unit {0})) (m : Dict Step) (ps : List Pair)
    → Keyed run m
    → match_keys a seen m ≡ some ps
    → (a_side ps ≡ a) × All (SameKey run) ps
match_keys-Holds run [] seen m ps h e =
    unfold match_keys a_side in
    subst (λ x. (a_side x ≡ []) × All (SameKey run) x) (some_inj e) (refl, tt)
match_keys-Holds run (s ∷ a) seen m ps h e =
    let (full, new, made) = match_keys-cons s a seen m ps e in
    let (t, rest, found, more, same) =
      cons_pair-some s (lookup s.step_key m) (match_keys a (insert s.step_key tt seen) m) ps made in
    let (kept, keyed) = match_keys-Holds run a (insert s.step_key tt seen) m rest h more in
    first_pair s t rest a ps same kept
      (record {
        left = s;
        right = t;
        on_a = refl;
        on_b = refl;
        keyed = full;
        agree = unfold Keyed in sym (h s.step_key t found).0;
        of_run = unfold Keyed in (h s.step_key t found).1;
      })
      keyed
  where
    first_pair :
        (s t : Step) (rest : List Pair) (a : List Step) (ps : List Pair)
        → ps ≡ record { a = some s; b = some t } ∷ rest
        → a_side rest ≡ a
        → SameKey run (record { a = some s; b = some t })
        → All (SameKey run) rest
        → (a_side ps ≡ s ∷ a) × All (SameKey run) ps
    first_pair s t rest a ps same kept key keyed =
        subst (λ x. (a_side x ≡ s ∷ a) × All (SameKey run) x) (sym same)
          (unfold a_side in ap (◌∷◌ s) kept, (key, keyed))

-- A key that is in the map of the keys seen is not in what follows; no key stands there twice; and
-- the second sides of the pairs have the keys of the first, and are of the run.
match_keys-Apart :
    (run a : List Step) (seen : Dict (Unit {0})) (m : Dict Step) (ps : List Pair)
    → Keyed run m
    → match_keys a seen m ≡ some ps
    → ((k : Bytes) → Memᴰ k (keys_of a) → lookup k seen ≡ none)
      × Apart (keys_of a)
      × (keys_of (b_side ps) ≡ keys_of a)
      × ((t : Step) → Memᴰ t (b_side ps) → Memᴰ t run)
unfolding b_side
match_keys-Apart run [] seen m ps h e =
    let is : [] ≡ ps = unfold match_keys in some_inj e in
    (
      λ k at. elim at [ ],
      tt,
      ap (λ x. keys_of (b_side x)) (sym is),
      λ t at. none_stored t (subst (λ x. Memᴰ t (b_side x)) (sym is) at),
    )
  where
    none_stored : (t : Step) → Memᴰ t [] → Memᴰ t run
    none_stored t at = elim at [ ]
match_keys-Apart run (s ∷ a) seen m ps h e =
    let (full, new, made) = match_keys-cons s a seen m ps e in
    let (t, rest, found, more, same) =
      cons_pair-some s (lookup s.step_key m) (match_keys a (insert s.step_key tt seen) m) ps made in
    let (out, apart, keyed, of_run) =
      match_keys-Apart run a (insert s.step_key tt seen) m rest h more in
    let key : (t.step_key ≡ s.step_key) × Memᴰ t run = unfold Keyed in h s.step_key t found in
    (
      λ k at. unseen new out k at,
      (λ at. later_seen (out s.step_key at), apart),
      ap (λ x. keys_of (b_side x)) same ∙ unfold b_side in (λ i. key.0 i ∷ keyed i),
      λ u at. stored t rest key.1 of_run u (subst (λ x. Memᴰ u (b_side x)) same at),
    )
  where
    later_seen : lookup s.step_key (insert s.step_key tt seen) ≡ none → ⊥
    later_seen e' =
        let hit = sym (lookup-insert s.step_key s.step_key tt seen) ∙ e' in
        ground (arith, hit, eqb_refl s.step_key)

    unseen :
        lookup s.step_key seen ≡ none
        → ((k : Bytes) → Memᴰ k (keys_of a) → lookup k (insert s.step_key tt seen) ≡ none)
        → (k : Bytes) → Memᴰ k (s.step_key ∷ keys_of a)
        → lookup k seen ≡ none
    unseen new out k (Memᴰ.head is) = ap (λ x. lookup x seen) is ∙ new
    unseen new out k (Memᴰ.tail at) =
        let miss = sym (lookup-insert s.step_key k tt seen) ∙ out k at in
        elim (Bool-cases (eqb s.step_key k)) [
          | inl hit ↦ absurd (ground (arith, hit, miss))
          | inr other ↦ ground (arith, other, miss)
        ]

    stored :
        (t : Step) (rest : List Pair)
        → Memᴰ t run
        → ((u : Step) → Memᴰ u (b_side rest) → Memᴰ u run)
        → (u : Step) → Memᴰ u (b_side (record { a = some s; b = some t } ∷ rest))
        → Memᴰ u run
    stored t rest at of_run u (Memᴰ.head is) = subst (λ x. Memᴰ x run) (sym is) at
    stored t rest at of_run u (Memᴰ.tail later) = of_run u later

-- What the key tier returns.
pub record ByKeys (a b : List Step) (ps : List Pair) : Type 0 where
  pub equal_length : length a ≡ length b
  pub a_kept : a_side ps ≡ a
  pub same_keys : All (SameKey b) ps
  pub distinct : Apart (keys_of a)
  pub b_kept : Permᴰ (b_side ps) b

-- The key tier pairs every step of the first run, in order, with the step of the second run that has
-- its key, and every step of the second run once.
pub align_by_step_key-ByKeys :
    (a b : List Step) (ps : List Pair) → align_by_step_key a b ≡ some ps → ByKeys a b ps
align_by_step_key-ByKeys [] b ps e = unfold align_by_step_key in absurd (cc e)
align_by_step_key-ByKeys (s ∷ a) b ps e = go (index_keys 0 b []) refl split_test.1
  where
    split_test :
        (length (s ∷ a) == length b ≡ true) × (matched (s ∷ a) (index_keys 0 b []) ≡ some ps)
    split_test = unfold align_by_step_key in (ground arith, ground arith)

    go :
        (o : Option (Dict Step))
        → index_keys 0 b [] ≡ o
        → matched (s ∷ a) o ≡ some ps
        → ByKeys (s ∷ a) b ps
    go none made e = unfold matched in absurd (cc e)
    go (some m) made e =
        let keyed =
          Keyed-index_keys b 0 b [] m (λ x at. at) (unfold Keyed lookup in λ k t x. absurd (cc x))
            made in
        let found : match_keys (s ∷ a) [] m ≡ some ps = unfold matched in e in
        let (kept, same) = match_keys-Holds b (s ∷ a) [] m ps keyed found in
        let (out, apart, keys, of_run) = match_keys-Apart b (s ∷ a) [] m ps keyed found in
        let wide = (==_iff (suc (length a)) (length b)).0 split_test.0 in
        record {
          equal_length = wide;
          a_kept = kept;
          same_keys = same;
          distinct = apart;
          b_kept =
              Permᴰ-Apart (b_side ps) b (Apart-keys_of (b_side ps) (subst Apart (sym keys) apart))
                of_run
                (sym (length-keys_of (b_side ps)) ∙ ap length keys ∙ length-keys_of (s ∷ a) ∙ wide);
        }
