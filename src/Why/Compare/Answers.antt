-- ===== src/Why/Compare/Answers.antt =====
-- internal/why/chain.go: the early returns of the comparison.
use behalf.Prelude.{
  ◌≡◌, refl, ◌⊎◌, inl, inr, Bool, true, false, ◌||◌, Option, none, some, List, [], ◌∷◌, ltb,
  if◌then◌else◌, length, Bytes, eqb, Dict, lookup,
}
use behalf.Aat.Result.{Attenuation, unchanged, attenuated, broadened, unknown}
use behalf.Why.Grant.{Rational, Limit, Grant, mem, decimal, limit_for}
use behalf.Why.Compare.{
  wild_match, Ordering, Outcome, answer, continue, then_with, check_action, check_actions,
  check_type, check_types, compare_amounts, compare_limits, check_limit, check_limits, conclude,
}

-- The two verdicts that say the child holds no more than the parent.
unfoldable pub Narrowed : Attenuation → Type 0
Narrowed att = (att ≡ unchanged) ⊎ (att ≡ attenuated)

pub then_with-continue :
    (o : Outcome) (next : Bool → Outcome) (n : Bool)
    → then_with o next ≡ continue n
    → (m : Bool) × (o ≡ continue m) × (next m ≡ continue n)
unfolding then_with
then_with-continue (answer att) next n e = absurd (cc e)
then_with-continue (continue m) next n e = (m, refl, e)

-- An early return never says that the child is no wider.
unfoldable pub Wider : Outcome → Type 0
Wider (answer att) = Narrowed att → ⊥
Wider (continue n) = Unit

pub Wider-broadened : Wider (answer broadened)
unfolding Narrowed Wider
Wider-broadened (inl e) = cc e
Wider-broadened (inr e) = cc e

pub Wider-unknown : Wider (answer unknown)
unfolding Narrowed Wider
Wider-unknown (inl e) = cc e
Wider-unknown (inr e) = cc e

pub Wider-then_with :
    (o : Outcome) (next : Bool → Outcome)
    → Wider o
    → ((n : Bool) → Wider (next n))
    → Wider (then_with o next)
unfolding then_with Wider
Wider-then_with (answer att) next h k = h
Wider-then_with (continue n) next h k = k n

-- What a list of actions answers, as an outcome.
first_answer : Option Attenuation → Bool → Outcome
first_answer none n = continue n
first_answer (some att) n = answer att

Wider-check_action :
    (set_order : List Bytes → List Bytes) (pa : List Bytes) (a : Bytes) (n : Bool)
    → Wider (first_answer (check_action set_order pa a) n)
unfolding check_action
Wider-check_action set_order pa a n = go (mem a pa) (wild_match a (set_order pa))
  where
    go :
        (held rests : Bool)
        → Wider
            (first_answer (if held then none else if rests then some unknown else some broadened) n)
    go true rests = unfold Wider first_answer in tt
    go false true = unfold first_answer in Wider-unknown
    go false false = unfold first_answer in Wider-broadened

Wider-check_actions :
    (set_order : List Bytes → List Bytes) (pa actions : List Bytes) (n : Bool)
    → Wider (first_answer (check_actions set_order pa actions) n)
unfolding check_actions
Wider-check_actions set_order pa [] n = unfold Wider first_answer in tt
Wider-check_actions set_order pa (a ∷ actions) n =
    go (check_action set_order pa a) (Wider-check_action set_order pa a n)
      (Wider-check_actions set_order pa actions n)
  where
    go :
        (c : Option Attenuation)
        → Wider (first_answer c n)
        → Wider (first_answer (check_actions set_order pa actions) n)
        → Wider (
            first_answer
              (elim c [ none ↦ check_actions set_order pa actions | some att ↦ some att ])
              n)
    go none h later = later
    go (some att) h later = h

Wider-check_type :
    (set_order : List Bytes → List Bytes) (o : Option (List Bytes)) (actions : List Bytes)
    (b : Bool)
    → Wider (check_type set_order o actions b)
unfolding check_type
Wider-check_type set_order none actions b = Wider-broadened
Wider-check_type set_order (some pa) actions b =
    go (check_actions set_order pa (set_order actions))
      (λ n. Wider-check_actions set_order pa (set_order actions) n)
  where
    go :
        (c : Option Attenuation)
        → ((n : Bool) → Wider (first_answer c n))
        → Wider (elim c [
          | none ↦ continue (b || ltb (length actions) (length pa))
          | some att ↦ answer att
        ])
    go none h = unfold first_answer in h (b || ltb (length actions) (length pa))
    go (some att) h = unfold first_answer in h b

pub Wider-check_types :
    (set_order : List Bytes → List Bytes) (parent child : Dict (List Bytes)) (b : Bool)
    → Wider (check_types set_order parent child b)
unfolding check_types
Wider-check_types set_order parent [] b = unfold Wider in tt
Wider-check_types set_order parent ((t, actions) ∷ child) b =
    Wider-then_with (check_type set_order (lookup t parent) actions b)
      (λ n. check_types set_order parent child n)
      (Wider-check_type set_order (lookup t parent) actions b)
      (λ n. Wider-check_types set_order parent child n)

module _ {Q : Type 0} (rat : Rational Q) where
  Wider-check_limit : (p c : Option (Option Limit)) (b : Bool) → Wider (check_limit rat p c b)
  unfolding check_limit compare_limits compare_amounts Wider
  Wider-check_limit none c b = Wider-unknown
  Wider-check_limit (some p) none b = Wider-unknown
  Wider-check_limit (some none) (some c) b = tt
  Wider-check_limit (some (some pl)) (some none) b = Wider-broadened
  Wider-check_limit (some (some pl)) (some (some cl)) b =
      go (eqb pl.currency cl.currency) (decimal rat cl.amount) (decimal rat pl.amount)
    where
      amounts :
          (cv pv : Q) (o : Ordering)
          → Wider (elim o [
            | Ordering.gt ↦ answer broadened
            | Ordering.lt ↦ continue true
            | Ordering.eq ↦ continue b
          ])
      amounts cv pv Ordering.gt = Wider-broadened
      amounts cv pv Ordering.lt = tt
      amounts cv pv Ordering.eq = tt

      go :
          (same : Bool) (cv pv : Option Q)
          → Wider (if same then compare_amounts rat cv pv b else answer unknown)
      go false cv pv = Wider-unknown
      go true none pv = Wider-unknown
      go true (some cv) none = Wider-unknown
      go true (some cv) (some pv) = amounts cv pv (rat.cmp cv pv)

  pub Wider-check_limits :
      (parent child : List Grant) (actions : List Bytes) (b : Bool)
      → Wider (check_limits rat parent child actions b)
  unfolding check_limits
  Wider-check_limits parent child [] b = unfold Wider in tt
  Wider-check_limits parent child (a ∷ actions) b =
      Wider-then_with (check_limit rat (limit_for rat parent a) (limit_for rat child a) b)
        (λ n. check_limits rat parent child actions n)
        (Wider-check_limit (limit_for rat parent a) (limit_for rat child a) b)
        (λ n. Wider-check_limits parent child actions n)

  pub conclude-continue :
      (o : Outcome) → Wider o → Narrowed (conclude rat o) → (n : Bool) × (o ≡ continue n)
  unfolding conclude Wider
  conclude-continue (answer att) w h = absurd (w h)
  conclude-continue (continue n) w h = (n, refl)
