-- ===== src/Json.antt =====
-- JSON values, as `JSON.parse` gives them to the program.
-- A JavaScript number, as far as the program looks into one: a whole number from 0 on, or another
-- with what the tests `value < 0`, `Number.isFinite` and `Number.isInteger` say of it and a tag that
-- tells such numbers apart.
use jupyter_plugin_aitermina.Base.{
  ℕ, Bool, Text, Option, false, true, none, some, if◌then◌else◌, text_eq,
}

pub data Number : Type 0 where
  whole : ℕ → Number
  other : Bool → Bool → Bool → ℕ → Number

mutual
  pub data Value : Type 0 where
    null : Value
    bool : Bool → Value
    num : Number → Value
    str : Text → Value
    arr : Items → Value
    obj : Fields → Value

  pub data Items : Type 0 where
    nil : Items
    cons : Value → Items → Items

  pub data Fields : Type 0 where
    end : Fields
    field : Text → Value → Fields → Fields

-- `source[key]`; `none` is `undefined`. A key that stands twice has its last value, as the parser
-- keeps it.
unfoldable pub get : Text → Fields → Option Value
get k end = none
get k (field j v fs) = elim (get k fs) [
  | some w ↦ some w
  | none ↦ if text_eq j k then some v else none
]

unfoldable pub is_negative : Number → Bool
is_negative (whole n) = false
is_negative (other negative finite integer tag) = negative

unfoldable pub is_finite : Number → Bool
is_finite (whole n) = true
is_finite (other negative finite integer tag) = finite

unfoldable pub is_integer : Number → Bool
is_integer (whole n) = true
is_integer (other negative finite integer tag) = integer
