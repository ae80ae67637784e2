-- ===== src/Why/Tools/Permits/Narrows.antt =====
-- internal/why/aat_i4.go: `compareAAT` and the invocations that the parent's tool map permits.
use behalf.Prelude.{
  ℕ, ◌≤◌, ◌≡◌, refl, sym, ap, ◌∙◌, subst, ◌≢◌, ◌↔◌, inl, inr, Bool, true, false, Option, none, some,
  List, [], ◌∷◌, ◌++◌, arith, ltb, Bool-cases, Option-cases, length, some_inj, Bytes, eqb_refl,
  Dict, lookup,
}
use mathlib.Core.List.{Memᴰ}
use behalf.Aat.Result.{Attenuation, unchanged, attenuated, broadened, unknown}
use behalf.Why.Grant.{Grant, Rational}
use behalf.Why.Tools.Value.{Value}
use behalf.Why.Tools.Json.{Json}
use behalf.Why.Tools.Constraint.{Constraint, parse_constraint}
use behalf.Why.Tools.Accepts.{Accepts}
use behalf.Why.Tools.Accepts.Clauses.{subsumes-Accepts}
use behalf.Why.Tools.Subsumes.{subsumes, max_subsumption_steps}
use behalf.Why.Tools.Entry.{aat_of, others_of, Entry, ToolMap, read_tools}
use behalf.Why.Tools.Compare.{
  stricter, compare_other, grants_of, compare_split, compare_grants, Progress, denied, so_far, on,
  sorted_keys, compare_parsed, compare_arg, compare_args, check_shape, compare_tool, compare_tools,
  verdict, compare_maps, compare_aat, gave_up,
}
use behalf.Why.Tools.Permits.{SameKeys, Satisfied, Fits, Permits, EmptyNameAgrees}
use behalf.Why.Tools.Permits.Keys.{lookup-sorted_keys, same_keys-SameKeys}

-- Not refused.
abbrev Going : Progress → Type 0
Going g = (n : Bool) × (steps : ℕ) × (g ≡ so_far n steps)

on-Going :
    (g : Progress) (next : Bool → ℕ → Progress)
    → Going (on g next)
    → (n : Bool) × (steps : ℕ) × (g ≡ so_far n steps) × Going (next n steps)
unfolding on
on-Going denied next (n, steps, e) = absurd (cc e)
on-Going (so_far m left) next h = (m, left, refl, h)

module _ {Raw Q : Type 0} {rat : Rational Q} (json : Json Raw Q rat) where
  -- Both constraints can be read, and the child's subsumes the parent's.
  abbrev Covered : Raw → Raw → Type 0
  Covered p c =
      (pc cc' : Constraint Raw Q) × (steps : ℕ) × (parse_constraint json p ≡ some pc)
      × (parse_constraint json c ≡ some cc')
      × ((subsumes json cc' pc 0 steps).0 ≡ true)

  compare_arg-Covered :
      (p c : Raw) (n : Bool) (steps : ℕ)
      → Going (compare_arg json (some p) (some c) n steps)
      → Covered p c
  unfolding compare_arg compare_parsed
  compare_arg-Covered p c n steps (m, left, e) = elim (Option-cases (parse_constraint json p)) [
    | inl out ↦ absurd (ground arith)
    | inr (pc, f) ↦ elim (Option-cases (parse_constraint json c)) [
      | inl out ↦ absurd (ground arith)
      | inr (d, g) ↦ elim (Bool-cases (subsumes json d pc 0 steps).0) [
        | inl fits ↦ (pc, d, steps, f, g, fits)
        | inr wider ↦ absurd (ground arith)
      ]
    ]
  ]

  compare_args-Covered :
      (parent child : Dict Raw) (ks : List Bytes) (n : Bool) (steps : ℕ)
      → Going (compare_args json parent child ks n steps)
      → (k : Bytes) (p c : Raw) → Memᴰ k ks
      → lookup k parent ≡ some p
      → lookup k child ≡ some c
      → Covered p c
  unfolding compare_args
  compare_args-Covered parent child [] n steps h k p c at e f = elim at [ ]
  compare_args-Covered parent child (j ∷ ks) n steps h k p c at e f =
      let (m, left, here, later) =
        on-Going (compare_arg json (lookup j parent) (lookup j child) n steps)
          (λ m left. compare_args json parent child ks m left) h in
      elim at [
        | Memᴰ.head is ↦
            let e' : lookup j parent ≡ some p = cc (is, e) in
            let f' : lookup j child ≡ some c = cc (is, f) in
            compare_arg-Covered p c n steps ((m, left, cc (e', f', here)))
        | Memᴰ.tail there ↦ compare_args-Covered parent child ks m left later k p c there e f
      ]

  check_shape-SameKeys :
      (q : Bytes × Raw) (p c : Dict Raw) (n m : Bool)
      → (lookup [] (q ∷ p) ≡ none) ↔ (lookup [] c ≡ none)
      → check_shape json (q ∷ p) c n ≡ some m
      → SameKeys (q ∷ p) c
  unfolding check_shape
  check_shape-SameKeys q p c n m agree h = same_keys-SameKeys (q ∷ p) c agree (ground arith)

  compare_tool-shape :
      (p c : Dict Raw) (n : Bool) (steps : ℕ)
      → Going (compare_tool json (some p) (some c) n steps)
      → (m : Bool) × (check_shape json p c n ≡ some m)
        × Going (compare_args json p c (sorted_keys c) m steps)
  unfolding compare_tool
  compare_tool-shape p c n steps h = elim (Option-cases (check_shape json p c n)) [
    | inl out ↦ absurd (ground (arith, h.2))
    | inr (m, e) ↦ (m, e, subst Going (opened m e) h)
  ]
    where
      opened :
          (m : Bool)
          → check_shape json p c n ≡ some m
          → (elim (check_shape json p c n) [
            | none ↦ denied
            | some k ↦ compare_args json p c (sorted_keys c) k steps
          ])
            ≡ compare_args json p c (sorted_keys c) m steps
      opened m e = rw e refl

  -- What the child's constraint map lets through, the parent's lets through.
  Fits-narrows :
      (p c : Dict Raw) (n : Bool) (steps : ℕ)
      → (lookup [] p ≡ none) ↔ (lookup [] c ≡ none)
      → Going (compare_tool json (some p) (some c) n steps)
      → (args : Dict Value) → Fits json c args
      → Fits json p args
  unfolding lookup
  Fits-narrows [] c n steps agree h args f = tt
  Fits-narrows (q ∷ p) [] n steps agree h args f =
      let (m, shape, rest) = compare_tool-shape (q ∷ p) [] n steps h in
      let same = check_shape-SameKeys q p [] n m agree shape in absurd (present ((same q.0).1 refl))
    where
      present : lookup q.0 (q ∷ p) ≢ none
      present out = ground (arith, out, eqb_refl q.0)
  Fits-narrows (q ∷ p) (d ∷ c) n steps agree h args (names, satisfied) =
      let (m, shape, rest) = compare_tool-shape (q ∷ p) (d ∷ c) n steps h in
      let same = check_shape-SameKeys q p (d ∷ c) n m agree shape in
      (
        λ k. (λ out. (names k).0 ((same k).0 out), λ out. (same k).1 ((names k).1 out)),
        λ k raw at.
            satisfied_by same
              (compare_args-Covered (q ∷ p) (d ∷ c) (sorted_keys (d ∷ c)) m steps rest) k raw at,
      )
    where
      satisfied_by :
          SameKeys (q ∷ p) (d ∷ c)
          → ((k : Bytes) (pr cr : Raw)
              → Memᴰ k (sorted_keys (d ∷ c))
              → lookup k (q ∷ p) ≡ some pr
              → lookup k (d ∷ c) ≡ some cr
              → Covered pr cr)
          → Satisfied json (q ∷ p) args
      satisfied_by same covered k raw at = elim (Option-cases (lookup k (d ∷ c))) [
        | inl out ↦ absurd (cc (at, (same k).1 out))
        | inr (cr, found) ↦
            let (pc, cc', left, read, read', fits) =
              covered k raw cr (lookup-sorted_keys k cr (d ∷ c) found) at found in
            let (con, v, e, given, accepts) = satisfied k cr found in
            let is : con ≡ cc' = some_inj (sym e ∙ read') in
            (
              pc,
              v,
              read,
              given,
              subsumes-Accepts json v cc' pc 0 left fits (subst (λ t. Accepts json t v) is accepts),
            )
      ]

  compare_tools-tool :
      (parent child : ToolMap Raw) (tools : List Bytes) (n : Bool) (steps : ℕ)
      → Going (compare_tools json parent child tools n steps)
      → (tool : Bytes) → Memᴰ tool tools
      → (m : Bool) × (left : ℕ) × Going
          (compare_tool json (lookup tool parent) (lookup tool child) m left)
  unfolding compare_tools
  compare_tools-tool parent child [] n steps h tool at = elim at [ ]
  compare_tools-tool parent child (t ∷ tools) n steps h tool at =
      let (m, left, here, later) =
        on-Going (compare_tool json (lookup t parent) (lookup t child) n steps)
          (λ m left. compare_tools json parent child tools m left) h in
      elim at [
        | Memᴰ.head is ↦
            let going =
              subst
                (λ x. compare_tool json (lookup x parent) (lookup x child) n steps ≡ so_far m left)
                (sym is) here in
            (n, steps, (m, left, going))
        | Memᴰ.tail there ↦ compare_tools-tool parent child tools m left later tool there
      ]

  Permits-narrows :
      (parent child : ToolMap Raw) (n : Bool) (steps : ℕ)
      → EmptyNameAgrees json parent child
      → Going (compare_tools json parent child (sorted_keys child) n steps)
      → (tool : Bytes) (args : Dict Value) → Permits json child tool args
      → Permits json parent tool args
  Permits-narrows parent child n steps agree h tool args (c, found, fits) =
      let (m, left, (k, last, e)) =
        compare_tools-tool parent child (sorted_keys child) n steps h tool
          (lookup-sorted_keys tool c child found) in
      elim (Option-cases (lookup tool parent)) [
        | inl out ↦ absurd (unfold compare_tool in cc (out, e))
        | inr (p, at) ↦ (
          p,
          at,
          Fits-narrows p c m left (agree tool p c at found) (k, last, cc (at, found, e)) args fits,
        )
      ]

  verdict-Going : (g : Progress) (given_up : Bool) → verdict json g given_up ≢ broadened → Going g
  unfolding verdict
  verdict-Going denied given_up h = absurd (h refl)
  verdict-Going (so_far n steps) given_up h = (n, steps, refl)

  compare_maps-read :
      (parent child : Option (ToolMap Raw))
      → compare_maps json parent child ≢ broadened
      → (p c : ToolMap Raw) × (parent ≡ some p) × (child ≡ some c)
  unfolding compare_maps
  compare_maps-read (some p) (some c) h = (p, c, refl, refl)
  compare_maps-read none child h = absurd (h refl)
  compare_maps-read (some p) none h = absurd (h refl)

  compare_aat-maps :
      (parent child : List (Entry Raw))
      → compare_aat json parent child ≢ broadened
      → compare_maps json (read_tools json parent) (read_tools json child) ≢ broadened
  unfolding compare_aat
  compare_aat-maps parent child h e = h (ground (arith, e))

  -- Where `compareAAT` does not refuse, both sides' tool maps can be read and have one entry at most.
  pub compare_aat-read :
      (parent child : List (Entry Raw))
      → compare_aat json parent child ≢ broadened
      → (p c : ToolMap Raw) × (read_tools json parent ≡ some p)
        × (read_tools json child ≡ some c)
        × (length parent ≤ 1)
        × (length child ≤ 1)
  compare_aat-read parent child h =
      let (p, c, e, f) = compare_maps-read _ _ (compare_aat-maps parent child h) in
      (p, c, e, f, single_parent, single_child)
    where
      single_parent : length parent ≤ 1
      single_parent = elim (Bool-cases (ltb 1 (length parent))) [
        | inl several ↦ absurd (h (unfold compare_aat in ground (arith, several)))
        | inr one ↦ ground arith
      ]

      single_child : length child ≤ 1
      single_child = elim (Bool-cases (ltb 1 (length child))) [
        | inl several ↦ absurd (h (unfold compare_aat in ground (arith, several)))
        | inr one ↦ ground arith
      ]

  compare_aat-Permits :
      (parent child : List (Entry Raw)) (p c : ToolMap Raw)
      → read_tools json parent ≡ some p
      → read_tools json child ≡ some c
      → EmptyNameAgrees json p c
      → compare_aat json parent child ≢ broadened
      → (tool : Bytes) (args : Dict Value) → Permits json c tool args
      → Permits json p tool args
  compare_aat-Permits parent child p c e f agree h =
      let kept : compare_maps json (some p) (some c) ≢ broadened =
        λ g. compare_aat-maps parent child h (cc (e, f, g)) in
      Permits-narrows p c false max_subsumption_steps agree
        (verdict-Going _ (gave_up json p c) (unfold compare_maps in kept))

  stricter-broadened :
      (aat other : Attenuation) → stricter json aat other ≢ broadened → aat ≢ broadened
  unfolding stricter
  stricter-broadened broadened other h e = absurd (h refl)
  stricter-broadened unchanged other h e = cc e
  stricter-broadened attenuated other h e = cc e
  stricter-broadened unknown other h e = cc e

  module _ (order : Dict (List Bytes) → Dict (List Bytes))
      (set_order : List Bytes → List Bytes) where
    compare_split-Permits :
        (p_aat c_aat parent child : List (Entry Raw)) (p c : ToolMap Raw)
        → read_tools json p_aat ≡ some p
        → read_tools json c_aat ≡ some c
        → EmptyNameAgrees json p c
        → compare_split json order set_order p_aat c_aat parent child ≢ broadened
        → (tool : Bytes) (args : Dict Value) → Permits json c tool args
        → Permits json p tool args
    unfolding compare_split
    compare_split-Permits [] [] parent child p c e f agree h tool args (cs, found, fits) =
        absurd (unfold read_tools lookup in cc (f, found))
    compare_split-Permits (g ∷ p_aat) c_aat parent child p c e f agree h tool args permitted =
        compare_aat-Permits (g ∷ p_aat) c_aat p c e f agree (stricter-broadened _ _ h) tool args
          permitted
    compare_split-Permits [] (g ∷ c_aat) parent child p c e f agree h tool args permitted =
        compare_aat-Permits [] (g ∷ c_aat) p c e f agree (stricter-broadened _ _ h) tool args
          permitted

    -- Where `CompareGrantsDetail` does not answer `broadened`, and the tool maps of the two hops'
    -- capability entries can be read and name the empty argument in the same tools, every invocation
    -- that the child's tool map permits the parent's permits.
    pub compare_grants-Permits :
        (parent child : List (Entry Raw)) (p c : ToolMap Raw)
        → read_tools json (aat_of parent) ≡ some p
        → read_tools json (aat_of child) ≡ some c
        → EmptyNameAgrees json p c
        → compare_grants json order set_order parent child ≢ broadened
        → (tool : Bytes) (args : Dict Value) → Permits json c tool args
        → Permits json p tool args
    unfolding compare_grants
    compare_grants-Permits parent child p c e f agree h =
        compare_split-Permits (aat_of parent) (aat_of child) parent child p c e f agree h

    -- Where one of the hops has a capability entry, the parent has no other grant and the child has one,
    -- the child is broadened.
    pub compare_grants-others :
        (parent child : List (Entry Raw)) (e : Entry Raw) (es : List (Entry Raw)) (g : Grant)
        (gs : List Grant)
        → aat_of parent ++ aat_of child ≡ e ∷ es
        → grants_of json (others_of parent) ≡ []
        → grants_of json (others_of child) ≡ g ∷ gs
        → compare_grants json order set_order parent child ≡ broadened
    unfolding compare_grants
    compare_grants-others parent child e es g gs entry none_there some_here =
        split (aat_of parent) (aat_of child) entry
      where
        answered : (aat : Attenuation) → stricter json aat broadened ≡ broadened
        answered unchanged = unfold stricter in refl
        answered attenuated = unfold stricter in refl
        answered broadened = unfold stricter in refl
        answered unknown = unfold stricter in refl

        other :
            compare_other json order set_order
              (grants_of json (others_of parent))
              (grants_of json (others_of child))
            ≡ broadened
        other = unfold compare_other in cc (none_there, some_here)

        split :
            (p_aat c_aat : List (Entry Raw))
            → p_aat ++ c_aat ≡ e ∷ es
            → compare_split json order set_order p_aat c_aat parent child ≡ broadened
        split [] [] h = absurd (cc h)
        split (a ∷ p_aat) c_aat h =
            unfold compare_split in
            ap (stricter json (compare_aat json (a ∷ p_aat) c_aat)) other
            ∙ answered (compare_aat json (a ∷ p_aat) c_aat)
        split [] (a ∷ c_aat) h =
            unfold compare_split in
            ap (stricter json (compare_aat json [] (a ∷ c_aat))) other
            ∙ answered (compare_aat json [] (a ∷ c_aat))
