-- ===== src/Model/Support.antt =====
-- The instructions that a parsed model supports.
use cgraomp.Prelude.{
  ℕ, ◌≡◌, refl, ap, subst, String, Bool, false, ◌||◌, Option-cases, Option, none, some, List, [],
  ◌∷◌, ◌==◌, arith, inl, inr, eq_iff,
}
use cgraomp.Prelude.StringMap
use cgraomp.Prelude.StringMap.{StringMap, find-assign}
use cgraomp.Errors.{ok, ok_inj, of_ok, >>=-eq-ok, deref}
use cgraomp.Llvm.{Llvm}
use cgraomp.Json.{Json}
use cgraomp.InstMap
use cgraomp.InstMap.{InstMap, EntryPtr, new_inst_map, is_added}
use cgraomp.InstMap.Entry.{Generator}
use cgraomp.InstMap.Condition.{MapCondition}
use cgraomp.InstMap.Invariant.{Inv}
use cgraomp.InstMap.Preserved.{
  IsNamed, new_inst_map-Inv, add_generic_inst-Inv, add_custom_inst-Inv, add_map_entry-Inv,
}
use cgraomp.Config.Strings.{get_string_array}
use cgraomp.Config.Mapping.{create_map_condition}
use cgraomp.Config.Setting.{
  Category, time_multiplexed, decoupled, ConditionalStyle, InterLoopDep, get_category, get_option,
  cond_style_key, idp_style_key, cond_style_map, inter_loop_dep_map, parse_ag_config,
}
use cgraomp.Model.{
  CgraModel, Files, gen_inst_key, custom_inst_key, inst_map_key, add_supported_inst,
  add_custom_inst, add_map_entry, add_all_supported, add_all_custom, add_all_map_entries,
  instantiate, add_inst_map, parse_object, decoupled_cgra, tm_cgra,
}

abbrev pub listed : String → List String → Bool
listed op [] = false
listed op (x ∷ xs) = x == op || listed op xs

module _ (L : Llvm) where
  pub new_inst_map-empty :
      (gens : StringMap Generator) (o : String) → is_added L o (new_inst_map L gens) ≡ false
  unfolding new_inst_map is_added StringMap.find
  new_inst_map-empty gens o = refl

  is_added-add_generic :
      (o op : String) (m m' : InstMap L)
      → InstMap.add_generic_inst L op m ≡ ok m'
      → is_added L o m' ≡ (op == o || is_added L o m)
  unfolding InstMap.add_generic_inst is_added
  is_added-add_generic o op m m' h =
      ground (arith, find-assign op o (some m.next) m.default_entries, eq_iff op o)

  is_added-add_custom :
      (o op : String) (m : InstMap L)
      → is_added L o (InstMap.add_custom_inst L op m) ≡ (op == o || is_added L o m)
  unfolding InstMap.add_custom_inst is_added
  is_added-add_custom o op m =
      ground (arith, find-assign op o (some m.next) m.default_entries, eq_iff op o)

  is_added-add_map :
      (o op : String) (c : MapCondition L) (m m' : InstMap L)
      → InstMap.add_map_entry L op c m ≡ ok m'
      → is_added L o m' ≡ is_added L o m
  unfolding InstMap.add_map_entry is_added
  is_added-add_map o op c m m' h =
      ground (arith, find-assign {V = Option ℕ} op o none m.default_entries, eq_iff op o)

  -- `m'` is well-formed, and supports what `m` supports and what is listed.
  abbrev pub Extends : List String → InstMap L → InstMap L → Type 0
  Extends ops m m' = Inv L m' × ((o : String) → is_added L o m' ≡ (listed o ops || is_added L o m))

  add_all_supported-Extends :
      (ops : List String) (model model' : CgraModel L)
      → Inv L model.inst_map
      → add_all_supported L ops model ≡ ok model'
      → Extends ops model.inst_map model'.inst_map
  unfolding add_all_supported add_supported_inst
  add_all_supported-Extends [] model model' v h =
      of_ok (λ model'. Extends [] model.inst_map model'.inst_map) (v, λ o. refl) h
  add_all_supported-Extends (op ∷ ops) model model' v h =
      let (model1, e, rest) = >>=-eq-ok (add_supported_inst L op model) _ h in
      let (m1, added, same) = >>=-eq-ok (InstMap.add_generic_inst L op model.inst_map) _ e in
      let eq : m1 ≡ model1.inst_map = ap (λ x. x.inst_map) (ok_inj same) in
      let added' : InstMap.add_generic_inst L op model.inst_map ≡ ok model1.inst_map =
        subst (λ x. InstMap.add_generic_inst L op model.inst_map ≡ ok x) eq added in
      let (v', sup) =
        add_all_supported-Extends ops model1 model'
          (add_generic_inst-Inv L op model.inst_map model1.inst_map v added') rest in
      (
        v',
        λ o. ground (arith, sup o, is_added-add_generic o op model.inst_map model1.inst_map added'),
      )

  add_all_custom-Extends :
      (ops : List String) (model : CgraModel L)
      → Inv L model.inst_map
      → Extends ops model.inst_map (add_all_custom L ops model).inst_map
  unfolding add_all_custom add_custom_inst
  add_all_custom-Extends [] model v = (v, λ o. refl)
  add_all_custom-Extends (op ∷ ops) model v =
      let (v', sup) =
        add_all_custom-Extends ops (add_custom_inst L op model)
          (add_custom_inst-Inv L op model.inst_map v) in
      (v', λ o. ground (arith, sup o, is_added-add_custom o op model.inst_map))

  module _ (J : Json L.Double) (F : Files J) where
    open J use {Value, Object, get, as_object, as_array}

    add_all_map_entries-Extends :
        (filename : String) (entries : List Value) (model model' : CgraModel L)
        → Inv L model.inst_map
        → add_all_map_entries L J F filename entries model ≡ ok model'
        → Extends [] model.inst_map model'.inst_map
    unfolding add_all_map_entries add_map_entry
    add_all_map_entries-Extends filename [] model model' v h =
        of_ok (λ model'. Extends [] model.inst_map model'.inst_map) (v, λ o. refl) h
    add_all_map_entries-Extends filename (entry ∷ entries) model model' v h =
        let (obj, e0, h0) = >>=-eq-ok (deref (as_object entry)) _ h in
        let (oc, e1, h1) = >>=-eq-ok (create_map_condition L J obj filename) _ h0 in
        let (model1, e2, rest) = >>=-eq-ok (add_map_entry L oc.0 oc.1 model) _ h1 in
        let (m1, added, same) = >>=-eq-ok (InstMap.add_map_entry L oc.0 oc.1 model.inst_map) _ e2 in
        let eq : m1 ≡ model1.inst_map = ap (λ x. x.inst_map) (ok_inj same) in
        let added' : InstMap.add_map_entry L oc.0 oc.1 model.inst_map ≡ ok model1.inst_map =
          subst (λ x. InstMap.add_map_entry L oc.0 oc.1 model.inst_map ≡ ok x) eq added in
        let (v', sup) =
          add_all_map_entries-Extends filename entries model1 model'
            (add_map_entry-Inv L oc.0 oc.1 model.inst_map model1.inst_map v added') rest in
        (
          v',
          λ o.
              ground
                (arith, sup o, is_added-add_map o oc.0 oc.1 model.inst_map model1.inst_map added'),
        )

    add_inst_map-Extends :
        (obj : Object) (filename : String) (model model' : CgraModel L)
        → Inv L model.inst_map
        → add_inst_map L J F obj filename model ≡ ok model'
        → Extends [] model.inst_map model'.inst_map
    unfolding add_inst_map
    add_inst_map-Extends obj filename model model' v h =
        elim (Option-cases (get obj inst_map_key)) [
          | inl e ↦
              of_ok (λ model'. Extends [] model.inst_map model'.inst_map) (v, λ o. refl)
                (rw (e, add_inst_map) at h)
          | inr (value, e) ↦
              let (entries, _, h') =
                >>=-eq-ok (deref (as_array value)) _ (rw (e, add_inst_map) at h) in
              add_all_map_entries-Extends filename entries model model' v h'
        ]

    instantiate-empty :
        (cat : Category) (obj : Object) (filename : String) (cond : ConditionalStyle)
        (ild : InterLoopDep) (gens : StringMap Generator) (model : CgraModel L)
        → IsNamed gens
        → instantiate L J F cat obj filename cond ild gens ≡ ok model
        → Inv L model.inst_map × ((o : String) → is_added L o model.inst_map ≡ false)
    unfolding instantiate decoupled_cgra tm_cgra
    instantiate-empty time_multiplexed obj filename cond ild gens model n h =
        of_ok (λ model. Inv L model.inst_map × ((o : String) → is_added L o model.inst_map ≡ false))
          (new_inst_map-Inv L gens n, new_inst_map-empty gens) h
    instantiate-empty decoupled obj filename cond ild gens model n h =
        let (ag, _, h') = >>=-eq-ok (parse_ag_config J F.int64_text obj filename) _ h in
        of_ok (λ model. Inv L model.inst_map × ((o : String) → is_added L o model.inst_map ≡ false))
          (new_inst_map-Inv L gens n, new_inst_map-empty gens) h'

    -- When the generators make entries of their own opcodes and a configuration object is
    -- accepted, the table of instructions of the model is well-formed, and an opcode is supported
    -- by it exactly if it stands in the list of generic or in the list of custom instructions of
    -- the configuration.
    pub parse_object-supports :
        (gens : StringMap Generator) (filename : String) (obj : Object) (model : CgraModel L)
        → IsNamed gens
        → parse_object L J F gens filename obj ≡ ok model
        → (generic custom : List String) × (get_string_array J obj gen_inst_key filename
            ≡ ok generic)
          × (get_string_array J obj custom_inst_key filename ≡ ok custom)
          × Inv L model.inst_map
          × ((o : String) → is_added L o model.inst_map ≡ (listed o generic || listed o custom))
    unfolding parse_object
    parse_object-supports gens filename obj model n h =
        let (cat, _, h0) = >>=-eq-ok (get_category J obj filename) _ h in
        let (cond, _, h1) =
          >>=-eq-ok
            (get_option J cond_style_key ConditionalStyle.not_allowed obj filename cond_style_map) _
            h0 in
        let (ild, _, h2) =
          >>=-eq-ok
            (get_option J idp_style_key InterLoopDep.not_allowed obj filename inter_loop_dep_map) _
            h1 in
        let (model0, made, h3) =
          >>=-eq-ok (instantiate L J F cat obj filename cond ild gens) _ h2 in
        let (generic, e, h4) = >>=-eq-ok (get_string_array J obj gen_inst_key filename) _ h3 in
        let (model1, e1, h5) = >>=-eq-ok (add_all_supported L generic model0) _ h4 in
        let (custom, e2, h6) = >>=-eq-ok (get_string_array J obj custom_inst_key filename) _ h5 in
        let (v0, none_yet) = instantiate-empty cat obj filename cond ild gens model0 n made in
        let (v1, sup1) = add_all_supported-Extends generic model0 model1 v0 e1 in
        let (v2, sup2) = add_all_custom-Extends custom model1 v1 in
        let (v3, sup3) =
          add_inst_map-Extends obj filename (add_all_custom L custom model1) model v2 h6 in
        (generic, custom, e, e2, v3, λ o. ground (arith, sup3 o, sup2 o, sup1 o, none_yet o))
