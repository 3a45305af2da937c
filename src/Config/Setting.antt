-- ===== src/Config/Setting.antt =====
-- src/Passes/CGRAModel/CGRAModel.cpp: the category, the two options and the address generator.
pub mod Options
use cgraomp.Prelude.{
  ℕ, ◌-◌, ◌^◌, String, Bool, true, false, not, Option, none, some, List, [], ◌∷◌, if◌then◌else◌,
}
use cgraomp.Prelude.Int.{ℤ, pos, is_positive, to_int}
use cgraomp.Prelude.StringMap
use cgraomp.Prelude.StringMap.{StringMap}
use cgraomp.Errors.{
  Result, ok, err, fault, string_error, model_error, ModelError, missing_key_error, data_type_error,
  value_error, set_region, ◌>>=◌, deref,
}
use cgraomp.Json.{Json}

-- CGRAModel::CGRACategory
pub data Category : Type 0 where
  time_multiplexed decoupled : Category

-- CGRAModel::ConditionalStyle. `no` is a name of the language.
pub data ConditionalStyle : Type 0 where
  not_allowed mux_inst tri_state : ConditionalStyle

-- CGRAModel::InterLoopDep
pub data InterLoopDep : Type 0 where
  not_allowed generic backward_inst : InterLoopDep

unfoldable pub category_map : StringMap Category
unfolding StringMap.of_list StringMap.of_list_onto StringMap.insert StringMap.find
category_map =
    StringMap.of_list (("time-multiplexed", time_multiplexed) ∷ ("decoupled", decoupled) ∷ [])

unfoldable pub cond_style_map : StringMap ConditionalStyle
unfolding StringMap.of_list StringMap.of_list_onto StringMap.insert StringMap.find
cond_style_map = StringMap.of_list (("MuxInst", mux_inst) ∷ ("TriState", tri_state) ∷ [])

unfoldable pub inter_loop_dep_map : StringMap InterLoopDep
unfolding StringMap.of_list StringMap.of_list_onto StringMap.insert StringMap.find
inter_loop_dep_map = StringMap.of_list (("generic", generic) ∷ ("BackwardInst", backward_inst) ∷ [])

-- The address generators. Only the affine one is ever made from a configuration.
pub data AddressGenerator : Type 0 where
  affine : ℤ → AddressGenerator
  full_state : AddressGenerator

-- INT_MAX
abbrev pub int_max : ℕ
int_max = 2 ^ 31 - 1

abbrev pub category_key : String
category_key = "category"

abbrev pub ag_conf_key : String
ag_conf_key = "address_generator"

abbrev pub ag_style_key : String
ag_style_key = "control"

abbrev pub ag_max_nest_key : String
ag_max_nest_key = "max_nested_level"

abbrev pub cond_style_key : String
cond_style_key = "conditional"

abbrev pub idp_style_key : String
idp_style_key = "inter-loop-dependency"

abbrev pub opt_enable_key : String
opt_enable_key = "allowed"

abbrev pub opt_type_key : String
opt_type_key = "type"

-- `make_model_error`, with its region.
abbrev pub region_error {ℓ} : {A : Type ℓ} → String → ModelError → Result A
region_error region e = err (model_error (set_region region e))

module _ {D : Type 0} (J : Json D) where
  open J use {Value, Object, get, as_string, as_boolean, as_integer, as_object, print}

  unfoldable pub get_category : Object → String → Result Category
  get_category obj filename = elim (get obj category_key) [
    | none ↦ err (model_error (missing_key_error filename category_key))
    | some category ↦ elim (as_string category) [
      | none ↦ err (model_error (data_type_error filename category_key "string" (print category)))
      | some val ↦ elim (StringMap.find val category_map) [
        | some cat ↦ ok cat
        | none ↦
            err (model_error (value_error filename category_key val (StringMap.keys category_map)))
      ]
    ]
  ]

  -- The second half of `getOption`: an option that is allowed has a type.
  unfoldable pub option_type : {S : Type 0} → String → Object → String → StringMap S → Result S
  option_type key cond_obj filename settings = elim (get cond_obj opt_type_key) [
    | none ↦ region_error key (missing_key_error filename opt_type_key)
    | some v ↦ elim (as_string v) [
      | none ↦ region_error key (data_type_error filename opt_type_key "string" (print v))
      | some t ↦ elim (StringMap.find t settings) [
        | some style ↦ ok style
        | none ↦ region_error key (value_error filename opt_type_key t (StringMap.keys settings))
      ]
    ]
  ]

  -- `getOption<key_str, SettingT>`; the second argument is `SettingT::No`.
  unfoldable pub get_option : {S : Type 0} → String → S → Object → String → StringMap S → Result S
  unfolding option_type
  get_option key disabled obj filename settings = elim (get obj key) [
    | none ↦ err (model_error (missing_key_error filename key))
    | some cond ↦ deref (as_object cond) >>= λ cond_obj. elim (get cond_obj opt_enable_key) [
      | none ↦ region_error key (missing_key_error filename opt_enable_key)
      | some v ↦ elim (as_boolean v) [
        | none ↦ region_error key (data_type_error filename opt_enable_key "bool" (print v))
        | some allowed ↦
            if not allowed then ok disabled else option_type key cond_obj filename settings
      ]
    ]
  ]

  -- `new AffineAG(*max_nests)` takes an `int`. `int64_text` is `std::to_string`.
  unfoldable pub create_affine_ag : (ℤ → String) → Object → String → Result AddressGenerator
  create_affine_ag int64_text obj filename = elim (get obj ag_max_nest_key) [
    | none ↦ ok (affine (pos int_max))
    | some v ↦ elim (as_integer v) [
      | none ↦
          region_error ag_conf_key (data_type_error filename ag_max_nest_key "integer" (print v))
      | some max_nests ↦
          if is_positive max_nests
          then ok (affine (to_int max_nests))
          else region_error ag_conf_key
              (value_error filename ag_max_nest_key (int64_text max_nests) [])
    ]
  ]

  -- `AG_gen`: the style strings with their generators.
  abbrev pub ag_gen : (ℤ → String) → StringMap (Object → String → Result AddressGenerator)
  ag_gen int64_text = ("affine", create_affine_ag int64_text) ∷ []

  unfoldable pub parse_ag_config : (ℤ → String) → Object → String → Result AddressGenerator
  unfolding create_affine_ag StringMap.find StringMap.keys
  parse_ag_config int64_text obj filename = elim (get obj ag_conf_key) [
    | none ↦ err (model_error (missing_key_error filename ag_conf_key))
    | some conf ↦ deref (as_object conf) >>= λ conf_obj. elim (get conf_obj ag_style_key) [
      | none ↦ region_error ag_conf_key (missing_key_error filename ag_style_key)
      | some v ↦ elim (as_string v) [
        | none ↦ region_error ag_conf_key (data_type_error filename ag_style_key "string" (print v))
        | some style ↦ elim (StringMap.find style (ag_gen int64_text)) [
          | some make ↦ make conf_obj filename
          | none ↦
              region_error ag_conf_key
                (value_error filename ag_style_key style (StringMap.keys (ag_gen int64_text)))
        ]
      ]
    ]
  ]
