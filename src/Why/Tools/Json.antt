-- ===== src/Why/Tools/Json.antt =====
-- internal/why/aat_i4.go: the raw messages of encoding/json, as its decoders read them, and what the
-- comparison takes out of them.
use behalf.Prelude.{
  ◌≡◌, Bool, false, ◌||◌, Option, none, some, List, [], ◌∷◌, ◌==◌, if◌then◌else◌, set, Bytes, Dict,
  lookup, insert,
}
use behalf.Why.Grant.{Rational}
use behalf.Why.Tools.Value.{Value, number, value_equal}
use behalf.Why.Tools.Equality.{IsMap}

-- What json.Decoder gives inside an object: the members in their order, then the closing brace or an
-- error.
pub data Members (Raw : Type 0) : Type 0 where
  closed : Members Raw
  broken : Members Raw
  member : Bytes → Raw → Members Raw → Members Raw

-- `Raw` is json.RawMessage: the text of one JSON value, or nothing. `set_string` is big.Rat's.
pub record Json (Raw Q : Type 0) (rat : Rational Q) : Type 0 where
  -- strings.TrimSpace of the text
  pub text : Raw → Bytes
  -- the decoder after the opening brace; `none` when there is no object
  pub object_of : Raw → Option (Members Raw)
  -- json.Unmarshal into a string, a bool and a slice; a null keeps the string and the bool
  pub string_into : Raw → Bytes → Option Bytes
  pub bool_into : Raw → Bool → Option Bool
  pub array_of : Raw → Option (List Raw)
  -- the decoder with UseNumber
  pub value_of : Raw → Option Value
  -- A decoded object is a map, in which a key stands once.
  pub value_maps : (raw : Raw) (v : Value) → value_of raw ≡ some v → IsMap v
  -- A text that is read as a rational is a number's, and its value is that literal.
  pub value_number :
      (raw : Raw) (q : Q)
      → rat.set_string (text raw) ≡ some q
      → value_of raw ≡ some (number (text raw))

module _ {Raw Q : Type 0} {rat : Rational Q} (json : Json Raw Q rat) where
  -- The loop of `decodeObject`.
  unfoldable pub collect : Members Raw → Dict Raw → Option (Dict Raw)
  collect closed out = some out
  collect broken out = none
  collect (member key v ms) out = elim (lookup key out) [
    | some dup ↦ none
    | none ↦ collect ms (insert key v out)
  ]

  -- `decodeObject`; its errors are `none`.
  unfoldable pub decode_object : Raw → Option (Dict Raw)
  unfolding collect
  decode_object raw = elim (json.text raw) [
    | [] ↦ none
    | c ∷ t ↦ elim (json.object_of raw) [ none ↦ none | some ms ↦ collect ms [] ]
  ]

  number_text : Bytes → Option Q
  number_text [] = none
  number_text (c ∷ t) = if c == b'"' then none else rat.set_string (c ∷ t)

  -- `number`.
  unfoldable pub number_of : Raw → Option Q
  unfolding number_text
  number_of raw = number_text (json.text raw)

  decoded_equal : Option Value → Option Value → Bool
  decoded_equal (some v) (some w) = value_equal rat v w
  decoded_equal none o = false
  decoded_equal (some v) none = false

  -- `jsonEqual`.
  unfoldable pub json_equal : Raw → Raw → Bool
  unfolding decoded_equal
  json_equal a b = decoded_equal (json.value_of a) (json.value_of b)

  -- `containsValue`.
  unfoldable pub contains_value : List Raw → Raw → Bool
  unfolding json_equal
  contains_value [] v = false
  contains_value (s ∷ set) v = json_equal s v || contains_value set v
