-- ===== src/Json.antt =====
-- What the configuration parser calls of llvm::json, as an interface: a document is seen through
-- `get` and the `getAs…` methods, each of which may find nothing.
use cgraomp.Prelude.{String, Bool, Option, List}
use cgraomp.Prelude.Int.{ℤ}

pub record Json (Double : Type 0) : Type 1 where
  pub Value : Type 0
  pub Object : Type 0
  pub get : Object → String → Option Value
  pub as_string : Value → Option String
  pub as_boolean : Value → Option Bool
  -- a 64-bit integer
  pub as_integer : Value → Option ℤ
  pub as_number : Value → Option Double
  -- null if the value is not an object, or not an array
  pub as_object : Value → Option Object
  pub as_array : Value → Option (List Value)
  -- `OS << v`
  pub print : Value → String
