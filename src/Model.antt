-- ===== src/Model.antt =====
-- src/Passes/CGRAModel/CGRAModel.cpp and include/CGRAModel.hpp: the model of a CGRA, and the
-- parser that makes one from a configuration file.
pub mod Support
pub mod Settings
use cgraomp.Prelude.{String, Bool, ◌<>◌, Option, none, some, List, [], ◌∷◌, ◌⊎◌, inl, inr, ◌≡◌}
use cgraomp.Prelude.Int.{ℤ}
use cgraomp.Prelude.StringMap.{StringMap}
use cgraomp.Errors.{Result, ok, err, fault, string_error, ◌>>=◌, deref}
use cgraomp.Llvm.{Llvm}
use cgraomp.Json.{Json}
use cgraomp.Annotation.{Table}
use cgraomp.InstMap
use cgraomp.InstMap.{InstMap, EntryPtr, new_inst_map}
use cgraomp.InstMap.Entry.{Generator}
use cgraomp.InstMap.Condition.{MapCondition}
use cgraomp.Config.Strings.{get_string_array}
use cgraomp.Config.Mapping.{create_map_condition}
use cgraomp.Config.Setting.{
  Category, time_multiplexed, decoupled, ConditionalStyle, InterLoopDep, AddressGenerator,
  cond_style_map, inter_loop_dep_map, cond_style_key, idp_style_key, get_category, get_option,
  parse_ag_config,
}

abbrev pub gen_inst_key : String
gen_inst_key = "generic_instructions"

abbrev pub custom_inst_key : String
custom_inst_key = "custom_instructions"

abbrev pub inst_map_key : String
inst_map_key = "instruction_map"

-- What the parser calls of the C and C++ libraries: the contents of a file, the text of the last
-- error, `json::parse` (an error message or a value), and `std::to_string`.
pub record Files {D : Type 0} (J : Json D) : Type 0 where
  pub contents : String → Option String
  pub strerror : String
  pub parse : String → String ⊎ J.Value
  pub int64_text : ℤ → String

module _ (L : Llvm) where
  open L use {Instruction}

  -- The data members of `CGRAModel` and, for a `DecoupledCGRA`, its address generator.
  pub record CgraModel : Type 0 where
    pub filename : String
    pub cond : ConditionalStyle
    pub inter_loop_dep : InterLoopDep
    pub category : Category
    pub ag : Option AddressGenerator
    pub inst_map : InstMap L

  unfoldable pub decoupled_cgra :
      String → AddressGenerator → ConditionalStyle → InterLoopDep → StringMap Generator → CgraModel
  decoupled_cgra filename ag cond inter_loop_dep gens = record {
    filename = filename;
    cond = cond;
    inter_loop_dep = inter_loop_dep;
    category = decoupled;
    ag = some ag;
    inst_map = new_inst_map L gens;
  }

  unfoldable pub tm_cgra : String → StringMap Generator → CgraModel
  tm_cgra filename gens = record {
    filename = filename;
    cond = ConditionalStyle.not_allowed;
    inter_loop_dep = InterLoopDep.not_allowed;
    category = time_multiplexed;
    ag = none;
    inst_map = new_inst_map L gens;
  }

  unfoldable pub add_supported_inst : String → CgraModel → Result CgraModel
  add_supported_inst opcode model =
      InstMap.add_generic_inst L opcode model.inst_map >>= λ m. ok (record model { inst_map = m })

  unfoldable pub add_custom_inst : String → CgraModel → CgraModel
  add_custom_inst opcode model = record model {
    inst_map = InstMap.add_custom_inst L opcode model.inst_map;
  }

  unfoldable pub add_map_entry : String → MapCondition L → CgraModel → Result CgraModel
  add_map_entry opcode c model =
      InstMap.add_map_entry L opcode c model.inst_map >>= λ m. ok (record model { inst_map = m })

  -- `isSupported`
  unfoldable pub is_supported :
      Option (Table L) → Instruction → CgraModel → Result (Option (EntryPtr L))
  is_supported cached i model = InstMap.find_inst L cached i model.inst_map

  -- The loops of `parseCGRASetting`.
  unfoldable pub add_all_supported : List String → CgraModel → Result CgraModel
  add_all_supported [] model = ok model
  add_all_supported (inst ∷ insts) model =
      add_supported_inst inst model >>= λ model'. add_all_supported insts model'

  unfoldable pub add_all_custom : List String → CgraModel → CgraModel
  add_all_custom [] model = model
  add_all_custom (inst ∷ insts) model = add_all_custom insts (add_custom_inst inst model)

  module _ (J : Json L.Double) (F : Files J) where
    open J use {Value, Object, get, as_object, as_array}

    unfoldable pub add_all_map_entries : String → List Value → CgraModel → Result CgraModel
    add_all_map_entries filename [] model = ok model
    add_all_map_entries filename (entry ∷ entries) model = do
      obj ← deref (as_object entry)
      map_cond ← create_map_condition L J obj filename
      model' ← add_map_entry map_cond.0 map_cond.1 model
      add_all_map_entries filename entries model'

    -- The switch over the category.
    unfoldable pub instantiate :
        Category
        → Object
        → String
        → ConditionalStyle
        → InterLoopDep
        → StringMap Generator
        → Result CgraModel
    instantiate decoupled obj filename cond ild gens =
        parse_ag_config J F.int64_text obj filename >>= λ ag.
        ok (decoupled_cgra filename ag cond ild gens)
    instantiate time_multiplexed obj filename cond ild gens = ok (tm_cgra filename gens)

    -- The mapping is optional.
    unfoldable pub add_inst_map : Object → String → CgraModel → Result CgraModel
    add_inst_map obj filename model = elim (get obj inst_map_key) [
      | none ↦ ok model
      | some v ↦ deref (as_array v) >>= λ entries. add_all_map_entries filename entries model
    ]

    -- `parseCGRASetting` behind `json::parse`.
    unfoldable pub parse_object : StringMap Generator → String → Object → Result CgraModel
    unfolding instantiate add_inst_map
    parse_object gens filename obj = do
      cat ← get_category J obj filename
      cond ← get_option J cond_style_key ConditionalStyle.not_allowed obj filename cond_style_map
      ild ← get_option J idp_style_key InterLoopDep.not_allowed obj filename inter_loop_dep_map
      model ← instantiate cat obj filename cond ild gens
      inst_list ← get_string_array J obj gen_inst_key filename
      supported ← add_all_supported inst_list model
      cust_list ← get_string_array J obj custom_inst_key filename
      add_inst_map obj filename (add_all_custom cust_list supported)

    unfoldable pub parse_cgra_setting : StringMap Generator → String → Result CgraModel
    unfolding parse_object
    parse_cgra_setting gens filename = elim (F.contents filename) [
      | none ↦ err (string_error (F.strerror <> ": " <> filename))
      | some text ↦ elim (F.parse text) [
        | inl msg ↦ err (string_error (filename <> " is invalid JSON file\n" <> msg))
        | inr v ↦ deref (as_object v) >>= λ top_obj. parse_object gens filename top_obj
      ]
    ]
