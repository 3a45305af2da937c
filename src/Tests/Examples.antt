-- ===== src/Tests/Examples.antt =====
-- The theorems at inputs that meet their hypotheses: the configuration of `Sample`, its tables and
-- its module with annotations.
use cgraomp.Prelude.{
  ◌≡◌, ◌↔◌, ◌||◌, refl, subst, some_inj, String, Bool, true, false, none, some, List, [], ◌∷◌,
  is_some,
}
use cgraomp.Prelude.Int.{pos}
use cgraomp.Prelude.StringMap
use cgraomp.Errors.{Result, ok, err, fault, Returns, is_missing_key, missing_key_error}
use cgraomp.Llvm.{BinaryOps, Predicate}
use cgraomp.Annotation
use cgraomp.Annotation.Cache.{run_cached}
use cgraomp.InstMap
use cgraomp.InstMap.{InstMap, EntryPtr, new_inst_map, is_added, find_inst}
use cgraomp.InstMap.Entry.{comp_op, binary_op, entry_gen, make_entry, match_inst, same_binary}
use cgraomp.InstMap.Condition.{MapCondition, new_condition, set_const, matches, equals_int}
use cgraomp.InstMap.Condition.Ready.{IsReady, CanRead, is_readable, matches_total}
use cgraomp.InstMap.Condition.Meaning.{Meets, matches_iff}
use cgraomp.InstMap.Condition.Setters.{set_const_sides}
use cgraomp.InstMap.Invariant.{Inv}
use cgraomp.InstMap.Preserved.{
  entry_gen-IsNamed, new_inst_map-Inv, add_generic_inst-Inv, add_map_entry-Inv, add_map_entry_total,
}
use cgraomp.InstMap.Rules.{rules, add_rule, add_condition}
use cgraomp.InstMap.Refinement.{add_generic_inst-rules, add_custom_inst-rules, add_map_entry-rules}
use cgraomp.InstMap.Find.{IsFirst, find_inst_iff}
use cgraomp.Config.Mapping.{
  required_string, flag_condition, pred_condition, const_condition, operand_condition,
  create_map_condition,
}
use cgraomp.Config.Mapping.Ready.{create_map_condition-IsReady}
use cgraomp.Config.Strings.{get_string_array}
use cgraomp.Config.Setting.{
  Category, ConditionalStyle, InterLoopDep, cond_style_key, cond_style_map, inter_loop_dep_map,
  idp_style_key, get_category, get_option,
}
use cgraomp.Config.Setting.Options.{Grants, get_option_iff}
use cgraomp.Model.{gen_inst_key, custom_inst_key}
use cgraomp.Model.Settings.{Settings, parse_object-Settings}
use cgraomp.Model.Support.{listed, parse_object-supports}
use cgraomp.Tests.Sample.{
  llvm, json, files, config, binary, icmp, int, variable, Fields, str, num, obj, end, field,
}
use cgraomp.Tests.Runs.{parsed, decoupled_model, tm_model, parsed_decoupled, parsed_tm}

abbrev empty_table : InstMap llvm
empty_table = new_inst_map llvm entry_gen

empty_table-Inv : Inv llvm empty_table
empty_table-Inv = new_inst_map-Inv llvm entry_gen entry_gen-IsNamed

table_of : Result (InstMap llvm) → InstMap llvm
table_of (ok m) = m
table_of _ = empty_table

is_table : Result (InstMap llvm) → Bool
is_table (ok m) = true
is_table _ = false

table_of-ok : (r : Result (InstMap llvm)) → is_table r ≡ true → r ≡ ok (table_of r)
unfolding table_of is_table
table_of-ok (ok m) h = refl
table_of-ok (err e) h = cc
table_of-ok (fault x) h = cc

-- "fcmp" without a condition.
abbrev one_entry : InstMap llvm
one_entry = table_of (InstMap.add_generic_inst llvm "fcmp" empty_table)

abbrev inc : MapCondition llvm
inc = new_condition llvm "inc"

one_entry_added : InstMap.add_generic_inst llvm "fcmp" empty_table ≡ ok one_entry
unfolding is_table InstMap.add_generic_inst new_inst_map entry_gen StringMap.find
one_entry_added = table_of-ok (InstMap.add_generic_inst llvm "fcmp" empty_table) refl

one_entry-Inv : Inv llvm one_entry
one_entry-Inv =
    add_generic_inst-Inv llvm "fcmp" empty_table one_entry empty_table-Inv one_entry_added

-- "fcmp" with a condition.
abbrev mapped_entry : InstMap llvm
mapped_entry = table_of (InstMap.add_map_entry llvm "fcmp" inc one_entry)

mapped_entry_added : InstMap.add_map_entry llvm "fcmp" inc one_entry ≡ ok mapped_entry
unfolding is_table table_of InstMap.add_map_entry InstMap.add_generic_inst new_inst_map entry_gen
    StringMap.find StringMap.assign
mapped_entry_added = table_of-ok (InstMap.add_map_entry llvm "fcmp" inc one_entry) refl

add_generic_inst-rules_example :
    rules llvm one_entry ≡ add_rule llvm "fcmp" (rules llvm empty_table)
add_generic_inst-rules_example =
    add_generic_inst-rules llvm "fcmp" empty_table one_entry empty_table-Inv one_entry_added

add_custom_inst-rules_example :
    rules llvm (InstMap.add_custom_inst llvm "FMA" one_entry)
    ≡ add_rule llvm "FMA" (rules llvm one_entry)
add_custom_inst-rules_example = add_custom_inst-rules llvm "FMA" one_entry one_entry-Inv

add_map_entry-rules_example :
    rules llvm mapped_entry ≡ add_condition llvm "fcmp" inc (rules llvm one_entry)
add_map_entry-rules_example =
    add_map_entry-rules llvm "fcmp" inc one_entry mapped_entry one_entry-Inv mapped_entry_added

add_map_entry-Inv_example : Inv llvm mapped_entry
add_map_entry-Inv_example =
    add_map_entry-Inv llvm "fcmp" inc one_entry mapped_entry one_entry-Inv mapped_entry_added

add_map_entry_total_example :
    is_some (elim (InstMap.add_map_entry llvm "fcmp" inc one_entry) [ ok m ↦ some m | _ ↦ none ])
    ≡ is_added llvm "fcmp" one_entry
add_map_entry_total_example = add_map_entry_total llvm "fcmp" inc one_entry one_entry-Inv

abbrev fcmp_entry : EntryPtr llvm
fcmp_entry = record { address = 0; entry = make_entry llvm "fcmp" (comp_op false) none }

find_inst_iff_example :
    (find_inst llvm none (icmp Predicate.icmp_eq) one_entry ≡ ok (some fcmp_entry))
    ↔ IsFirst llvm none (icmp Predicate.icmp_eq) one_entry.entries fcmp_entry
find_inst_iff_example = find_inst_iff llvm none (icmp Predicate.icmp_eq) one_entry fcmp_entry

abbrev plus_one : MapCondition llvm
plus_one = record inc {
  any_rhs = false;
  match_use = some (equals_int (pos 1));
  const_operand = 1;
  is_use_int = true;
}

matches_iff_example :
    (matches llvm plus_one (binary BinaryOps.add variable (int (pos 1))) ≡ ok true)
    ↔ Meets llvm plus_one (binary BinaryOps.add variable (int (pos 1)))
matches_iff_example = matches_iff llvm plus_one (binary BinaryOps.add variable (int (pos 1)))

plus_one-CanRead : CanRead llvm plus_one (binary BinaryOps.add variable (int (pos 1)))
plus_one-CanRead t e =
    subst (λ u. is_readable llvm u 1 (binary BinaryOps.add variable (int (pos 1))) ≡ true)
      (some_inj e) refl

matches_total_example :
    Returns (matches llvm plus_one (binary BinaryOps.add variable (int (pos 1))))
unfolding new_condition
matches_total_example =
    matches_total llvm plus_one (binary BinaryOps.add variable (int (pos 1)))
      (record { flags = tt; use_set = λ e. refl; pred_set = λ e. cc }) plus_one-CanRead

abbrev one_plus : MapCondition llvm
one_plus = record plus_one { any_lhs = false; any_rhs = true }

set_const_sides_example :
    matches llvm one_plus (binary BinaryOps.add (int (pos 1)) variable)
    ≡ matches llvm plus_one (binary BinaryOps.add (int (pos 1)) variable)
unfolding set_const new_condition
set_const_sides_example =
    set_const_sides llvm inc one_plus plus_one (equals_int (pos 1))
      (binary BinaryOps.add (int (pos 1)) variable) refl refl

get_option_iff_example :
    (get_option json idp_style_key InterLoopDep.not_allowed
        (config "decoupled")
        "cgra.json"
        inter_loop_dep_map
      ≡ ok InterLoopDep.generic)
    ↔ Grants json idp_style_key InterLoopDep.not_allowed
        (config "decoupled")
        inter_loop_dep_map
        InterLoopDep.generic
get_option_iff_example =
    get_option_iff json idp_style_key InterLoopDep.not_allowed (config "decoupled") "cgra.json"
      inter_loop_dep_map InterLoopDep.generic

abbrev annotations : Annotation.Table llvm
annotations = (0, "cgra_custom_inst" ∷ []) ∷ (1, "note" ∷ []) ∷ []

run_cached_example : Annotation.run llvm (some annotations) 0 ≡ Annotation.run llvm none 0
unfolding Annotation.run_module Annotation.module_loop Annotation.annotated
    Annotation.annotation_text Annotation.annotate Annotation.insert_text
run_cached_example = run_cached llvm 0 annotations refl

parse_object-supports_example :
    (generic custom : List String) × (get_string_array json
        (config "decoupled")
        gen_inst_key
        "cgra.json"
      ≡ ok generic)
    × (get_string_array json (config "decoupled") custom_inst_key "cgra.json" ≡ ok custom)
    × Inv llvm decoupled_model.inst_map
    × ((o : String)
        → is_added llvm o decoupled_model.inst_map ≡ (listed o generic || listed o custom))
unfolding parsed
parse_object-supports_example =
    parse_object-supports llvm json files entry_gen "cgra.json" (config "decoupled") decoupled_model
      entry_gen-IsNamed parsed_decoupled

-- "add" without a condition, which is what an addition is mapped to.
abbrev add_entry : EntryPtr llvm
add_entry = record { address = 0; entry = make_entry llvm "add" (binary_op BinaryOps.add) none }

abbrev add_table : InstMap llvm
add_table = record empty_table { entries = add_entry ∷ [] }

found_add :
    find_inst llvm none (binary BinaryOps.add variable variable) add_table ≡ ok (some add_entry)
unfolding find_inst match_inst same_binary make_entry matches new_condition
found_add = refl

parse_object-Settings_example :
    (cat : Category) × (cond : ConditionalStyle) × (ild : InterLoopDep) × (get_category json
        (config "time-multiplexed")
        "cgra.json"
      ≡ ok cat)
    × (get_option json cond_style_key ConditionalStyle.not_allowed
          (config "time-multiplexed")
          "cgra.json"
          cond_style_map
        ≡ ok cond)
    × (get_option json idp_style_key InterLoopDep.not_allowed
          (config "time-multiplexed")
          "cgra.json"
          inter_loop_dep_map
        ≡ ok ild)
    × Settings llvm json files (config "time-multiplexed") "cgra.json" cat cond ild tm_model
unfolding parsed
parse_object-Settings_example =
    parse_object-Settings llvm json files entry_gen "cgra.json" (config "time-multiplexed") tm_model
      parsed_tm

-- An addition of 1.
abbrev increment : Fields
increment =
    field "inst" (str "add")
      (field "map" (str "inc") (field "rhs" (obj (field "ConstantInt" (num (pos 1)) end)) end))

read_increment : create_map_condition llvm json increment "cgra.json" ≡ ok ("add", plus_one)
unfolding create_map_condition flag_condition pred_condition operand_condition const_condition
    required_string get_string_array set_const new_condition is_missing_key missing_key_error
read_increment = refl

create_map_condition-IsReady_example : IsReady llvm plus_one
create_map_condition-IsReady_example =
    create_map_condition-IsReady llvm json increment "cgra.json" "add" plus_one read_increment
