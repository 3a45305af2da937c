-- ===== src/Tests/Runs.antt =====
-- Runs of the parser and of the table of instructions.
use cgraomp.Prelude.{◌≡◌, refl, String, Bool, true, false, Option, none, some, [], keep}
use cgraomp.Prelude.Int.{pos}
use cgraomp.Prelude.StringMap
use cgraomp.Errors.{Result, ok, err, fault, null_dereference, is_missing_key, missing_key_error}
use cgraomp.InstMap
use cgraomp.InstMap.{EntryPtr, new_inst_map}
use cgraomp.InstMap.Condition.{new_condition, set_flags, set_pred, set_const, matches, flag_getters}
use cgraomp.InstMap.Entry.{get_map_name, entry_gen, make_entry, match_inst, same_binary}
use cgraomp.Annotation
use cgraomp.Llvm.{BinaryOps, Predicate}
use cgraomp.Config.Strings.{get_string_array}
use cgraomp.Config.Mapping.{create_map_condition}
use cgraomp.Config.Setting.{
  get_category, get_option, parse_ag_config, category_map, cond_style_map, inter_loop_dep_map,
}
use cgraomp.Model.{
  CgraModel, parse_object, is_supported, decoupled_cgra, tm_cgra, add_supported_inst,
  add_custom_inst, add_map_entry, add_all_supported, add_all_custom, add_all_map_entries,
}
use cgraomp.Tests.Sample.{Inst, llvm, json, files, config, binary, icmp, fcmp, call, int, variable}

unfoldable pub parsed : String → Result (CgraModel llvm)
unfolding parse_object entry_gen StringMap.find StringMap.assign get_string_array
    create_map_condition get_category get_option parse_ag_config category_map cond_style_map
    inter_loop_dep_map decoupled_cgra tm_cgra add_supported_inst add_custom_inst add_map_entry
    add_all_supported add_all_custom add_all_map_entries InstMap.add_generic_inst
    InstMap.add_custom_inst InstMap.add_map_entry new_inst_map new_condition set_flags set_pred
    set_const make_entry keep is_missing_key missing_key_error
parsed category = parse_object llvm json files entry_gen "cgra.json" (config category)

unfoldable pub model_of : Result (CgraModel llvm) → CgraModel llvm
model_of (ok m) = m
model_of _ = tm_cgra llvm "" []

abbrev pub decoupled_model : CgraModel llvm
decoupled_model = model_of (parsed "decoupled")

abbrev pub tm_model : CgraModel llvm
tm_model = model_of (parsed "time-multiplexed")

is_ok : Result (CgraModel llvm) → Bool
is_ok (ok m) = true
is_ok _ = false

model_of-ok : (r : Result (CgraModel llvm)) → is_ok r ≡ true → r ≡ ok (model_of r)
unfolding model_of is_ok
model_of-ok (ok m) h = refl
model_of-ok (err e) h = cc
model_of-ok (fault x) h = cc

pub parsed_decoupled : parsed "decoupled" ≡ ok decoupled_model
unfolding is_ok parsed
parsed_decoupled = model_of-ok (parsed "decoupled") refl

pub parsed_tm : parsed "time-multiplexed" ≡ ok tm_model
unfolding is_ok parsed
parsed_tm = model_of-ok (parsed "time-multiplexed") refl

-- The name that an instruction is mapped to.
mapped : Inst → Result (Option String)
unfolding model_of parsed is_supported InstMap.find_inst match_inst matches flag_getters
    get_map_name Annotation.run Annotation.function_loop Annotation.annotated
    Annotation.annotation_text Annotation.contains Annotation.insert_text same_binary
mapped i = elim (is_supported llvm none i decoupled_model) [
  | ok (some p) ↦ ok (some (get_map_name llvm p.entry))
  | ok none ↦ ok none
  | err e ↦ err e
  | fault x ↦ fault x
]

mapped_runs :
    (mapped (binary BinaryOps.add variable (int (pos 1))) ≡ ok (some "inc"))
    × (mapped (binary BinaryOps.add (int (pos 1)) variable) ≡ ok (some "add"))
    × (mapped (binary BinaryOps.sub variable variable) ≡ ok none)
    × (mapped (icmp Predicate.icmp_eq) ≡ ok (some "fcmp"))
    × (mapped (fcmp Predicate.fcmp_oeq) ≡ ok none)
    × (mapped (call (some 0)) ≡ ok (some "FMA"))
    × (mapped (call none) ≡ fault null_dereference)
unfolding mapped
mapped_runs = (refl, refl, refl, refl, refl, refl, refl)
