-- ===== src/Why/Tools/Tests.antt =====
-- internal/why/aat_i4.go: a parent that allows sending amounts up to a hundred, and children of it.
use behalf.Prelude.{
  ℕ, ◌≡◌, refl, subst, ◌≢◌, ◌↔◌, inl, inr, true, false, Option, none, some, List, [], ◌∷◌, arith,
  Bool-cases, some_inj, Bytes, codes, eqb, eqb_iff, Dict, lookup, insert,
}
use behalf.Encoding.Text.{parse_uint}
use behalf.Aat.Result.{attenuated, broadened}
use behalf.Why.Grant.{Grant}
use behalf.Why.Tests.{whole}
use behalf.Why.Compare.{before, insert_sorted, sort}
use behalf.Why.Tools.Value.{
  Value, number, text, object, field, end, find, keys, bool_equal, value_equal, numbers_equal,
  rationals_equal, is_eq,
}
use behalf.Why.Tools.Equality.{IsMap, value_equal-sym}
use behalf.Why.Tools.Json.{
  Json, Members, closed, collect, contains_value, decode_object, json_equal, member, number_of,
}
use behalf.Why.Tools.Constraint.{
  Constraint, array_member, bound_of, clauses_with, inclusive_of, nested_with, of_kind,
  parse_constraint, parse_at, range, range_of, values_as,
}
use behalf.Why.Tools.Subsumes.{
  above_min, all_contained, all_under, any_subsumes, any_under, below_max, deciders, every_clause,
  exact_subsumes, guarded, in_range, is_wild, match_clauses, max_within, min_within, number_in,
  plain_subsumes, plain_under, range_subsumes, some_clause, subsumes, try_clauses,
}
use behalf.Why.Tools.Entry.{Entry, ToolMap, aat_of, others_of, read_args, read_tools}
use behalf.Why.Tools.Compare.{
  check_shape, compare_aat, compare_arg, compare_args, compare_grants, compare_maps, compare_other,
  compare_parsed, compare_split, compare_tool, compare_tools, first_missing, gave_up, grants_of,
  is_empty, key_diff, names, on, same_keys, sorted_keys, stricter, verdict,
}
use behalf.Why.Tools.Accepts.{Accepts}
use behalf.Why.Tools.Accepts.Clauses.{subsumes-Accepts}
use mathlib.Core.List.{Memᴰ}
use behalf.Why.Tools.Keys.{Distinct}
use behalf.Why.Tools.Permits.{Satisfied, Satisfied, Permits, EmptyNameAgrees}
use behalf.Why.Tools.Permits.Keys.{key_diff-hides}
use behalf.Why.Tools.Permits.Narrows.{compare_grants-Permits, compare_grants-others}

program : Unit {0}
unfolding value_equal numbers_equal rationals_equal is_eq bool_equal find keys IsMap parse_uint eqb
    lookup insert Accepts before insert_sorted sort collect decode_object number_of json_equal
    contains_value array_member bound_of inclusive_of range_of values_as clauses_with nested_with
    of_kind parse_at parse_constraint all_contained above_min below_max in_range min_within
    max_within range_subsumes number_in exact_subsumes plain_subsumes try_clauses match_clauses
    some_clause every_clause any_subsumes all_under any_under is_wild guarded plain_under subsumes
    deciders aat_of others_of read_args read_tools names sorted_keys first_missing key_diff is_empty
    same_keys on compare_parsed compare_arg compare_args check_shape compare_tool compare_tools
    gave_up verdict compare_maps compare_aat grants_of stricter compare_other compare_split
    compare_grants
program = tt

-- Messages: numbers and strings, and objects of one and of two members.
data Sample : Type 0 where
  literal : Bytes → Sample
  word : Bytes → Sample
  one : Bytes → Sample → Sample
  two : Bytes → Sample → Bytes → Sample → Sample

text_of : Sample → Bytes
text_of (literal s) = s
text_of (word s) = codes "w"
text_of (one k v) = codes "{"
text_of (two j v k w) = codes "{"

object_of : Sample → Option (Members Sample)
object_of (literal s) = none
object_of (word s) = none
object_of (one k v) = some (member k v closed)
object_of (two j v k w) = some (member j v (member k w closed))

value_of : Sample → Option Value
value_of (literal s) = some (number s)
value_of (word s) = some (text s)
value_of (one k v) = none
value_of (two j v k w) = none

string_into : Sample → Bytes → Option Bytes
string_into (word s) old = some s
string_into (literal s) old = none
string_into (one k v) old = none
string_into (two j v k w) old = none

value_of-IsMap : (raw : Sample) (v : Value) → value_of raw ≡ some v → IsMap v
unfolding program value_of
value_of-IsMap (literal s) v e = subst IsMap (some_inj e) tt
value_of-IsMap (word s) v e = subst IsMap (some_inj e) tt
value_of-IsMap (one k w) v e = absurd (cc e)
value_of-IsMap (two i u k w) v e = absurd (cc e)

value_of-number :
    (raw : Sample) (q : ℕ)
    → parse_uint (text_of raw) ≡ some q
    → value_of raw ≡ some (number (text_of raw))
unfolding program value_of text_of
value_of-number (literal s) q e = refl
value_of-number (word s) q e = absurd (cc e)
value_of-number (one k w) q e = absurd (cc e)
value_of-number (two i u k w) q e = absurd (cc e)

abbrev json : Json Sample ℕ whole
json = record {
  text = text_of;
  object_of = object_of;
  string_into = string_into;
  bool_into = λ raw old. none;
  array_of = λ raw. none;
  value_of = value_of;
  value_maps = λ raw v e. value_of-IsMap raw v e;
  value_number = λ raw q e. value_of-number raw q e;
}

abbrev up_to : Bytes → Sample
up_to amount = two (codes "constraint_type") (word (codes "range")) (codes "max") (literal amount)

abbrev entry_of : Bytes → Entry Sample
entry_of amount = record {
  grant = record { type = codes "attenuating_agent_token"; actions = []; privileges = [] };
  tools = one (codes "send") (one (codes "amount") (up_to amount));
  no_tools = false;
}

abbrev map_of : Bytes → ToolMap Sample
map_of amount = (codes "send", (codes "amount", up_to amount) ∷ []) ∷ []

as_given : Dict (List Bytes) → Dict (List Bytes)
as_given m = m

all_listed : List Bytes → List Bytes
all_listed s = s

parent_map : read_tools json (aat_of (entry_of (codes "100") ∷ [])) ≡ some (map_of (codes "100"))
unfolding program text_of object_of
parent_map = refl

narrowed :
    compare_grants json as_given all_listed
      (entry_of (codes "100") ∷ [])
      (entry_of (codes "40") ∷ [])
    ≡ attenuated
unfolding program text_of object_of string_into value_of
narrowed = refl

child_map : read_tools json (aat_of (entry_of (codes "40") ∷ [])) ≡ some (map_of (codes "40"))
unfolding program text_of object_of
child_map = refl

at_most : ℕ → Constraint Sample ℕ
at_most n = range record { min = none; max = some n; min_inclusive = true; max_inclusive = true }

abbrev forty : Value
forty = number (codes "40")

within : Accepts json (at_most 40) forty
unfolding program at_most
within = (codes "40", 40, refl, refl, refl)

subsumes-Accepts_example : Accepts json (at_most 100) forty
subsumes-Accepts_example =
    subsumes-Accepts json forty (at_most 40) (at_most 100) 0 5 narrower within
  where
    narrower : (subsumes json (at_most 40) (at_most 100) 0 5).0 ≡ true
    narrower = unfold program in unfold at_most in refl

abbrev sent : Dict Value
sent = (codes "amount", forty) ∷ []

single : {A : Type 0} (j k : Bytes) (a b : A) → lookup k ((j, a) ∷ []) ≡ some b → a ≡ b
unfolding lookup
single j k a b e = ground arith

single-key : {A : Type 0} (j k : Bytes) (a b : A) → lookup k ((j, a) ∷ []) ≡ some b → j ≡ k
unfolding lookup
single-key j k a b e = ground (arith, eqb_iff j k)

single-same :
    {A B : Type 0} (j k : Bytes) (a : A) (b : B)
    → (lookup k ((j, a) ∷ []) ≡ none) ↔ (lookup k ((j, b) ∷ []) ≡ none)
unfolding lookup
single-same j k a b = elim (Bool-cases (eqb j k)) [
  | inl same ↦ (λ e. absurd (ground arith), λ e. absurd (ground arith))
  | inr other ↦ (λ e. rw other refl, λ e. rw other refl)
]

agrees : EmptyNameAgrees json (map_of (codes "100")) (map_of (codes "40"))
agrees tool p c e f =
    let is = single (codes "send") tool _ p e in
    let is' = single (codes "send") tool _ c f in
    subst (λ x. (lookup [] p ≡ none) ↔ (lookup [] x ≡ none)) is'
      (subst
        (λ x. (lookup [] x ≡ none) ↔ (lookup [] ((codes "amount", up_to (codes "40")) ∷ []) ≡ none))
        is (single-same (codes "amount") [] (up_to (codes "100")) (up_to (codes "40"))))

read : parse_constraint json (up_to (codes "40")) ≡ some (at_most 40)
unfolding program at_most text_of object_of string_into value_of
read = refl

given : lookup (codes "amount") sent ≡ some forty
unfolding program
given = refl

abbrev child_args : Dict Sample
child_args = (codes "amount", up_to (codes "40")) ∷ []

satisfied : Satisfied json child_args sent
satisfied k raw at =
    let is = single (codes "amount") k (up_to (codes "40")) raw at in
    let key = single-key (codes "amount") k (up_to (codes "40")) raw at in
    (
      at_most 40,
      forty,
      subst (λ r. parse_constraint json r ≡ some (at_most 40)) is read,
      subst (λ j. lookup j sent ≡ some forty) key given,
      within,
    )

permitted : Permits json (map_of (codes "40")) (codes "send") sent
permitted = (
  child_args,
  unfold program in refl,
  (λ k. single-same (codes "amount") k (up_to (codes "40")) forty, satisfied),
)

not_broadened :
    compare_grants json as_given all_listed
      (entry_of (codes "100") ∷ [])
      (entry_of (codes "40") ∷ [])
    ≢ broadened
not_broadened e = cc (e, narrowed)

compare_grants-Permits_example : Permits json (map_of (codes "100")) (codes "send") sent
compare_grants-Permits_example =
    compare_grants-Permits json as_given all_listed (entry_of (codes "100") ∷ [])
      (entry_of (codes "40") ∷ []) (map_of (codes "100")) (map_of (codes "40")) parent_map child_map
      agrees not_broadened (codes "send") sent permitted

abbrev plain_grant : Grant
plain_grant = record { type = codes "bank"; actions = codes "pay" ∷ []; privileges = [] }

abbrev bolted_on : Entry Sample
bolted_on = record { grant = plain_grant; tools = word []; no_tools = true }

abbrev with_bank : List (Entry Sample)
with_bank = entry_of (codes "100") ∷ bolted_on ∷ []

compare_grants-others_example :
    compare_grants json as_given all_listed (entry_of (codes "100") ∷ []) with_bank ≡ broadened
compare_grants-others_example =
    compare_grants-others json as_given all_listed (entry_of (codes "100") ∷ []) with_bank
      (entry_of (codes "100")) (entry_of (codes "100") ∷ []) plain_grant [] (unfold program in refl)
      (unfold program in refl) (unfold program in refl)

entries_compared :
    compare_aat json (entry_of (codes "100") ∷ []) (entry_of (codes "40") ∷ []) ≡ attenuated
unfolding program text_of object_of string_into value_of
entries_compared = refl

-- A child that names the empty argument and one more, under a parent with one argument.
abbrev hidden : Dict ℕ
hidden = ([], 1) ∷ (codes "to", 2) ∷ (codes "amount", 3) ∷ []

key_diff-hides_example : (key_diff ((codes "amount", 3) ∷ []) hidden).0 ≡ []
key_diff-hides_example =
    key_diff-hides ((codes "amount", 3) ∷ []) hidden 1 (unfold program in refl)
      (unfold program in refl)

abbrev one_way : Value
one_way = object (field (codes "a") (number (codes "1")) (field (codes "b") (text (codes "x")) end))

abbrev other_way : Value
other_way =
    object (field (codes "b") (text (codes "x")) (field (codes "a") (number (codes "01")) end))

same_value : value_equal whole one_way other_way ≡ true
unfolding program
same_value = refl

two_keys : (j k : Bytes) → eqb j k ≡ false → Distinct (j ∷ k ∷ [])
two_keys j k differ = (
  λ at. elim at [ Memᴰ.head is ↦ cc (differ, (eqb_iff j k).1 is) | Memᴰ.tail t ↦ elim t [ ] ],
  (λ t. elim t [ ], tt),
)

one_way-IsMap : IsMap one_way
unfolding program
one_way-IsMap = (two_keys (codes "a") (codes "b") refl, (tt, (tt, tt)))

other_way-IsMap : IsMap other_way
unfolding program
other_way-IsMap = (two_keys (codes "b") (codes "a") refl, (tt, (tt, tt)))

value_equal-sym_example : value_equal whole other_way one_way ≡ true
value_equal-sym_example =
    value_equal-sym whole one_way other_way one_way-IsMap other_way-IsMap same_value

same_back : value_equal whole other_way one_way ≡ true
unfolding program
same_back = refl
