-- ===== src/Why/Tools/Value.antt =====
-- internal/why/aat_i4.go: JSON values as `jsonValue` decodes them, and `valueEqual`.
use behalf.Prelude.{
  Bool, true, false, not, ◌&&◌, Option, none, some, List, [], ◌∷◌, ◌==◌, if◌then◌else◌, length,
  Bytes, eqb,
}
use Prim.Native.Nat.{Ordering}
use behalf.Why.Grant.{Rational}

-- Go's `any` after a decode with UseNumber: a number is its literal, an object is a map.
mutual
  pub data Value : Type 0 where
    null : Value
    boolean : Bool → Value
    number : Bytes → Value
    text : Bytes → Value
    array : Values → Value
    object : Fields → Value

  pub data Values : Type 0 where
    nil : Values
    cons : Value → Values → Values

  pub data Fields : Type 0 where
    end : Fields
    field : Bytes → Value → Fields → Fields

unfoldable pub find : Bytes → Fields → Option Value
find k end = none
find k (field j v fs) = if eqb j k then some v else find k fs

unfoldable pub keys : Fields → List Bytes
keys end = []
keys (field k v fs) = k ∷ keys fs

unfoldable pub bool_equal : Bool → Bool → Bool
bool_equal true b = b
bool_equal false b = not b

unfoldable pub is_eq : Ordering → Bool
is_eq Ordering.eq = true
is_eq Ordering.lt = false
is_eq Ordering.gt = false

module _ {Q : Type 0} (rat : Rational Q) where
  -- Literals that are not read as rationals are compared as strings.
  unfoldable pub rationals_equal : Option Q → Option Q → Bytes → Bytes → Bool
  unfolding is_eq
  rationals_equal (some x) (some y) s t = is_eq (rat.cmp x y)
  rationals_equal none o s t = eqb s t
  rationals_equal (some x) none s t = eqb s t

  unfoldable pub numbers_equal : Bytes → Bytes → Bool
  unfolding rationals_equal
  numbers_equal s t = rationals_equal (rat.set_string s) (rat.set_string t) s t

  -- `valueEqual`. The members of an object are looked up in the other, whatever their order.
  unfoldable mutual
    unfolding numbers_equal bool_equal find keys

    pub value_equal : Value → Value → Bool
    value_equal null null = true
    value_equal (boolean a) (boolean b) = bool_equal a b
    value_equal (number s) (number t) = numbers_equal s t
    value_equal (text s) (text t) = eqb s t
    value_equal (array xs) (array ys) = values_equal xs ys
    value_equal (object fs) (object gs) =
        length (keys fs) == length (keys gs) && fields_within fs gs
    value_equal _ _ = false

    pub values_equal : Values → Values → Bool
    values_equal nil nil = true
    values_equal (cons x xs) (cons y ys) = value_equal x y && values_equal xs ys
    values_equal _ _ = false

    pub fields_within : Fields → Fields → Bool
    fields_within end gs = true
    fields_within (field k v fs) gs = elim (find k gs) [
      | none ↦ false
      | some w ↦ value_equal v w && fields_within fs gs
    ]
