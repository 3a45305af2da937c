-- ===== src/Config/Strings.antt =====
-- src/Passes/CGRAModel/CGRAInstMap.cpp, getStringArray.
use cgraomp.Prelude.{String, none, some, List, [], ◌∷◌}
use cgraomp.Errors.{Result, ok, err, model_error, missing_key_error, data_type_error, ◌>>=◌, deref}
use cgraomp.Json.{Json}

module _ {D : Type 0} (J : Json D) where
  open J use {Value, Object, get, as_string, as_array, print}

  -- The loop over the array.
  unfoldable pub strings_of : String → String → List Value → Result (List String)
  strings_of filename key [] = ok []
  strings_of filename key (it ∷ rest) = elim (as_string it) [
    | none ↦ err (model_error (data_type_error filename key "an array of string" (print it)))
    | some s ↦ strings_of filename key rest >>= λ list. ok (s ∷ list)
  ]

  unfoldable pub get_string_array : Object → String → String → Result (List String)
  unfolding strings_of
  get_string_array obj key filename = elim (get obj key) [
    | none ↦ err (model_error (missing_key_error filename key))
    | some v ↦ deref (as_array v) >>= λ array. strings_of filename key array
  ]
