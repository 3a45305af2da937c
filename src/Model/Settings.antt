-- ===== src/Model/Settings.antt =====
-- The settings of a parsed model.
use cgraomp.Prelude.{
  ◌≡◌, refl, ◌∙◌, String, Option-cases, none, some, List, [], ◌∷◌, arith, inl, inr,
}
use cgraomp.Prelude.StringMap.{StringMap}
use cgraomp.Errors.{Result, ok, err, fault, of_ok, ◌>>=◌, >>=-eq-ok, deref}
use cgraomp.Llvm.{Llvm}
use cgraomp.Json.{Json}
use cgraomp.InstMap
use cgraomp.InstMap.Entry.{Generator}
use cgraomp.Config.Strings.{get_string_array}
use cgraomp.Config.Mapping.{create_map_condition}
use cgraomp.Config.Setting.{
  Category, time_multiplexed, decoupled, ConditionalStyle, InterLoopDep, AddressGenerator,
  get_category, get_option, cond_style_key, idp_style_key, cond_style_map, inter_loop_dep_map,
  parse_ag_config,
}
use cgraomp.Model.{
  CgraModel, Files, gen_inst_key, custom_inst_key, inst_map_key, add_supported_inst,
  add_custom_inst, add_map_entry, add_all_supported, add_all_custom, add_all_map_entries,
  instantiate, add_inst_map, parse_object, decoupled_cgra, tm_cgra,
}

module _ (L : Llvm) where
  -- All data members but the table of instructions.
  pub record SameSettings (m m' : CgraModel L) : Type 0 where
    pub filename : m'.filename ≡ m.filename
    pub cond : m'.cond ≡ m.cond
    pub inter_loop_dep : m'.inter_loop_dep ≡ m.inter_loop_dep
    pub category : m'.category ≡ m.category
    pub ag : m'.ag ≡ m.ag

  same_refl : (m : CgraModel L) → SameSettings m m
  same_refl m = record {
    filename = refl;
    cond = refl;
    inter_loop_dep = refl;
    category = refl;
    ag = refl;
  }

  same_table :
      (m : CgraModel L) (t : InstMap.InstMap L) → SameSettings m (record m { inst_map = t })
  same_table m t = record {
    filename = refl;
    cond = refl;
    inter_loop_dep = refl;
    category = refl;
    ag = refl;
  }

  same_trans : {m n k : CgraModel L} → SameSettings m n → SameSettings n k → SameSettings m k
  same_trans s t = record {
    filename = t.filename ∙ s.filename;
    cond = t.cond ∙ s.cond;
    inter_loop_dep = t.inter_loop_dep ∙ s.inter_loop_dep;
    category = t.category ∙ s.category;
    ag = t.ag ∙ s.ag;
  }

  with_table :
      (m : CgraModel L) (r : Result (InstMap.InstMap L)) (m' : CgraModel L)
      → (r >>= λ t. ok (record m { inst_map = t })) ≡ ok m'
      → SameSettings m m'
  with_table m (ok t) m' h = of_ok (SameSettings m) (same_table m t) h
  with_table m (err e) m' h = absurd (ground arith)
  with_table m (fault x) m' h = absurd (ground arith)

  supported-Same :
      (ops : List String) (m m' : CgraModel L)
      → add_all_supported L ops m ≡ ok m'
      → SameSettings m m'
  unfolding add_all_supported add_supported_inst
  supported-Same [] m m' h = of_ok (SameSettings m) (same_refl m) h
  supported-Same (op ∷ ops) m m' h =
      let (m1, e, rest) = >>=-eq-ok (add_supported_inst L op m) _ h in
      same_trans (with_table m (InstMap.add_generic_inst L op m.inst_map) m1 e)
        (supported-Same ops m1 m' rest)

  custom-Same : (ops : List String) (m : CgraModel L) → SameSettings m (add_all_custom L ops m)
  unfolding add_all_custom add_custom_inst
  custom-Same [] m = same_refl m
  custom-Same (op ∷ ops) m =
      same_trans (same_table m (InstMap.add_custom_inst L op m.inst_map))
        (custom-Same ops (add_custom_inst L op m))

  module _ (J : Json L.Double) (F : Files J) where
    open J use {Value, Object, get, as_object, as_array}

    entries-Same :
        (filename : String) (entries : List Value) (m m' : CgraModel L)
        → add_all_map_entries L J F filename entries m ≡ ok m'
        → SameSettings m m'
    unfolding add_all_map_entries add_map_entry
    entries-Same filename [] m m' h = of_ok (SameSettings m) (same_refl m) h
    entries-Same filename (entry ∷ entries) m m' h =
        let (obj, _, h0) = >>=-eq-ok (deref (as_object entry)) _ h in
        let (oc, _, h1) = >>=-eq-ok (create_map_condition L J obj filename) _ h0 in
        let (m1, e, rest) = >>=-eq-ok (add_map_entry L oc.0 oc.1 m) _ h1 in
        same_trans (with_table m (InstMap.add_map_entry L oc.0 oc.1 m.inst_map) m1 e)
          (entries-Same filename entries m1 m' rest)

    inst_map-Same :
        (obj : Object) (filename : String) (m m' : CgraModel L)
        → add_inst_map L J F obj filename m ≡ ok m'
        → SameSettings m m'
    unfolding add_inst_map
    inst_map-Same obj filename m m' h = elim (Option-cases (get obj inst_map_key)) [
      | inl e ↦ of_ok (SameSettings m) (same_refl m) (rw (e, add_inst_map) at h)
      | inr (value, e) ↦
          let (entries, _, h') = >>=-eq-ok (deref (as_array value)) _ (rw (e, add_inst_map) at h) in
          entries-Same filename entries m m' h'
    ]

    -- What the model keeps of the two options.
    abbrev pub Settings :
        Object → String → Category → ConditionalStyle → InterLoopDep → CgraModel L → Type 0
    Settings obj filename decoupled cond ild m =
        (ag : AddressGenerator) × (parse_ag_config J F.int64_text obj filename ≡ ok ag)
        × (m.category ≡ decoupled)
        × (m.ag ≡ some ag)
        × (m.cond ≡ cond)
        × (m.inter_loop_dep ≡ ild)
    Settings obj filename time_multiplexed cond ild m =
        (m.category ≡ time_multiplexed)
        × (m.ag ≡ none)
        × (m.cond ≡ ConditionalStyle.not_allowed)
        × (m.inter_loop_dep ≡ InterLoopDep.not_allowed)

    instantiate-Settings :
        (cat : Category) (obj : Object) (filename : String) (cond : ConditionalStyle)
        (ild : InterLoopDep) (gens : StringMap Generator) (m m' : CgraModel L)
        → instantiate L J F cat obj filename cond ild gens ≡ ok m
        → SameSettings m m'
        → Settings obj filename cat cond ild m'
    unfolding instantiate decoupled_cgra tm_cgra
    instantiate-Settings time_multiplexed obj filename cond ild gens m m' h s =
        (ground arith, ground arith, ground arith, ground arith)
    instantiate-Settings decoupled obj filename cond ild gens m m' h s =
        let (ag, e, h') = >>=-eq-ok (parse_ag_config J F.int64_text obj filename) _ h in
        (ag, e, ground arith, ground arith, ground arith, ground arith)

    -- An accepted configuration has a category and two options that are granted. A decoupled model
    -- keeps both options and has the address generator that was parsed; a time-multiplexed model
    -- allows neither conditionals nor inter-loop dependencies, whatever the options say.
    pub parse_object-Settings :
        (gens : StringMap Generator) (filename : String) (obj : Object) (m : CgraModel L)
        → parse_object L J F gens filename obj ≡ ok m
        → (cat : Category) × (cond : ConditionalStyle) × (ild : InterLoopDep) × (get_category J obj
              filename
            ≡ ok cat)
          × (get_option J cond_style_key ConditionalStyle.not_allowed obj filename cond_style_map
              ≡ ok cond)
          × (get_option J idp_style_key InterLoopDep.not_allowed obj filename inter_loop_dep_map
              ≡ ok ild)
          × Settings obj filename cat cond ild m
    unfolding parse_object
    parse_object-Settings gens filename obj m h =
        let (cat, e, h0) = >>=-eq-ok (get_category J obj filename) _ h in
        let (cond, e', h1) =
          >>=-eq-ok
            (get_option J cond_style_key ConditionalStyle.not_allowed obj filename cond_style_map) _
            h0 in
        let (ild, e2, h2) =
          >>=-eq-ok
            (get_option J idp_style_key InterLoopDep.not_allowed obj filename inter_loop_dep_map) _
            h1 in
        let (m0, made, h3) = >>=-eq-ok (instantiate L J F cat obj filename cond ild gens) _ h2 in
        let (generic, _, h4) = >>=-eq-ok (get_string_array J obj gen_inst_key filename) _ h3 in
        let (m1, e3, h5) = >>=-eq-ok (add_all_supported L generic m0) _ h4 in
        let (custom, _, h6) = >>=-eq-ok (get_string_array J obj custom_inst_key filename) _ h5 in
        let same = same_trans (supported-Same generic m0 m1 e3) (
          same_trans (custom-Same custom m1)
            (inst_map-Same obj filename (add_all_custom L custom m1) m h6)) in
        (
          cat,
          cond,
          ild,
          e,
          e',
          e2,
          instantiate-Settings cat obj filename cond ild gens m0 m made same,
        )
