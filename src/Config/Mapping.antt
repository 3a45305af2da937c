-- ===== src/Config/Mapping.antt =====
-- src/Passes/CGRAModel/CGRAInstMap.cpp, createMapCondition: one entry of "instruction_map".
pub mod Ready
use cgraomp.Prelude.{String, Bool, true, false, Option, none, some, List, [], ◌∷◌, if◌then◌else◌}
use cgraomp.Prelude.Int.{ℤ, to_int}
use cgraomp.Errors.{
  Result, ok, err, fault, string_error, model_error, ModelError, missing_key_error, data_type_error,
  set_region, is_missing_key, ◌>>=◌, deref,
}
use cgraomp.Llvm.{Llvm}
use cgraomp.Json.{Json}
use cgraomp.InstMap.Condition.{
  MapCondition, new_condition, set_flags, set_pred, set_const, equals_int, equals_double,
}
use cgraomp.Config.Strings.{get_string_array}

-- The keys.
abbrev pub inst_key : String
inst_key = "inst"

abbrev pub map_key : String
map_key = "map"

abbrev pub const_rhs_key : String
const_rhs_key = "rhs"

abbrev pub const_lhs_key : String
const_lhs_key = "lhs"

abbrev pub flags_key : String
flags_key = "flags"

abbrev pub pred_key : String
pred_key = "pred"

abbrev pub const_int_key : String
const_int_key = "ConstantInt"

abbrev pub const_dbl_key : String
const_dbl_key = "ConstantDouble"

-- `make_model_error`
abbrev pub entry_error {ℓ} : {A : Type ℓ} → ModelError → Result A
entry_error e = err (model_error (set_region "an entry of \"instruction_map\"" e))

module _ (L : Llvm) (J : Json L.Double) where
  open J use {Value, Object, get, as_string, as_integer, as_number, as_object, print}

  -- A necessary item that is a string.
  unfoldable pub required_string : Object → String → String → Result String
  required_string obj filename key = elim (get obj key) [
    | none ↦ entry_error (missing_key_error filename key)
    | some v ↦ elim (as_string v) [
      | none ↦ entry_error (data_type_error filename key "string" (print v))
      | some s ↦ ok s
    ]
  ]

  -- The flag condition: a missing list is no error.
  unfoldable pub flag_condition : Object → String → MapCondition L → Result (MapCondition L)
  flag_condition obj filename c = elim (get_string_array J obj flags_key filename) [
    | ok flags ↦ set_flags L c flags
    | err (model_error e) ↦ if is_missing_key e then ok c else err (model_error e)
    | err (string_error s) ↦ err (string_error s)
    | fault x ↦ fault x
  ]

  -- The predicate condition. A value that is no string is reported for the key "inst".
  unfoldable pub pred_condition : Object → String → MapCondition L → Result (MapCondition L)
  pred_condition obj filename c = elim (get obj pred_key) [
    | none ↦ ok c
    | some v ↦ elim (as_string v) [
      | some pred ↦ set_pred L c pred
      | none ↦ entry_error (data_type_error filename inst_key "string" (print v))
    ]
  ]

  -- The lambda `setConst`, given a pointer to an object that may be null.
  unfoldable pub const_condition :
      String → MapCondition L → Option Object → Bool → Result (MapCondition L)
  const_condition filename c pointer is_left = deref pointer >>= λ obj.
      elim (get obj const_int_key) [
        | some ci ↦ elim (as_integer ci) [
          | some n ↦ set_const L c (equals_int (to_int n)) is_left
          | none ↦ entry_error (data_type_error filename const_int_key "Integer" (print ci))
        ]
        | none ↦ elim (get obj const_dbl_key) [
          | none ↦ ok c
          | some cd ↦ elim (as_number cd) [
            | some d ↦ set_const L c (equals_double d) is_left
            | none ↦ entry_error (data_type_error filename const_dbl_key "Integer" (print cd))
          ]
        ]
      ]

  -- The two constant operands: the right one is ignored, with a warning, beside a left one.
  unfoldable pub operand_condition : Object → String → MapCondition L → Result (MapCondition L)
  unfolding const_condition
  operand_condition obj filename c = elim (get obj const_lhs_key) [
    | some lhs ↦ const_condition filename c (as_object lhs) true
    | none ↦ elim (get obj const_rhs_key) [
      | some rhs ↦ const_condition filename c (as_object rhs) false
      | none ↦ ok c
    ]
  ]

  unfoldable pub create_map_condition : Object → String → Result (String × MapCondition L)
  unfolding required_string flag_condition pred_condition operand_condition
  create_map_condition obj filename = do
    target_inst ← required_string obj filename inst_key
    map_name ← required_string obj filename map_key
    flagged ← flag_condition obj filename (new_condition L map_name)
    compared ← pred_condition obj filename flagged
    map_cond ← operand_condition obj filename compared
    ok (target_inst, map_cond)
