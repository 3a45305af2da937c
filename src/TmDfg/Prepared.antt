-- ===== src/TmDfg/Prepared.antt =====
-- The nodes of a kernel, and then the edges of its dependencies between iterations.
use cgraomp.Prelude.{
  ℕ, ◌≡◌, ◌∙◌, inl, inr, Bool, true, false, Option, some, List, [], has, All, All-has, All-map, any,
}
use cgraomp.Prelude.Int.{ℤ}
use cgraomp.Errors.{Result, ok}
use cgraomp.Llvm.{Llvm}
use cgraomp.Ir.{Ir}
use cgraomp.Annotation.{Table}
use cgraomp.Model.{CgraModel}
use cgraomp.LoopDependency.{LoopDependency, LoopDependencyInfo}
use cgraomp.Directed.{DirectedGraph}
use cgraomp.DataFlowGraph.{new_dfg}
use cgraomp.DfgPass.Nodes.{IsBuilding, HasNode, IsComputed, start-IsBuilding}
use cgraomp.TmDfg.{
  TmBuilding, KernelIr, LoopControl, HashOrder, PhiMap, gep_inst, same_pointer, is_node_exist,
  classify, is_source, phi_map, add_insts, add_sources,
}
use cgraomp.TmDfg.Deps.{connect_deps}
use cgraomp.TmDfg.Grown.{IsOther, IsSolid, IsGrown, IsGrown-trans}
use cgraomp.TmDfg.Kernel.{add_sources_lem}
use cgraomp.TmDfg.Insts.{add_insts_lem}
use cgraomp.TmDfg.Carried.{IsDepReady, kept-IsDepReady, Drives, defines, connect_deps_lem}
use cgraomp.TmDfg.Given.{
  idv_phis, lc_dep_phis, IsOp, IsGiven, IsDepGiven, is_driven_by, IsIndexGiven, IsGepGiven,
}
use cgraomp.TmDfg.Readied.{driven_node, deps_ready, All-values}

module _ (D : DirectedGraph) (root : ℕ) (ids : ℕ → ℤ) (node_of gep_node : ℕ → ℕ)
    (other_node : (v : ℕ) → IsOther D root ids (node_of v))
    (other_gep : (k : ℕ) → IsOther D root ids (gep_node k)) (I : Ir) (K : KernelIr)
    (control : LoopControl) (ld : LoopDependencyInfo) (order : HashOrder) (L : Llvm)
    (as_instruction : ℕ → Option L.Instruction) (cached : Option (Table L))
    (model : CgraModel L) where
  abbrev Given : ℕ → Type 0
  Given = IsGiven I K control ld

  abbrev pub start : TmBuilding D
  start = record {
    base = record {
      dfg = new_dfg D root ids;
      value_to_node = [];
      custom_ops = [];
      extra_info = [];
    };
    kernel_inst = [];
    gep_set = [];
    distances = [];
    made_ids = 0;
  }

  abbrev pub sourced : TmBuilding D → TmBuilding D
  sourced t = record t { base = add_sources D I K node_of (order.values t.kernel_inst) t.base }

  -- The nodes of operations and of data from outside of the loop are made.
  pub record IsPrepared (t : TmBuilding D) : Type 0 where
    pub building : IsBuilding D root ids t.base
    pub solid : IsSolid D root ids t.base
    pub kernel : (v : ℕ) → Given v → has v t.kernel_inst ≡ true
    pub noded : All (HasNode D root ids t.base) t.kernel_inst
    pub source :
        (v : ℕ)
        → Given v
        → All (λ o. is_source I K o ≡ true → HasNode D root ids t.base o) (I.operands v)
    pub geps : All (IsGepGiven I K control ld) t.gep_set

  abbrev pub idv : PhiMap
  idv = idv_phis I K control ld

  abbrev pub lc : PhiMap
  lc = lc_dep_phis I K control ld

  pub prepare :
      All (λ v. IsOp I K control ld v → IsComputed L as_instruction cached model v) K.insts
      → All (λ v. classify K idv lc control v ≡ gep_inst → IsGepGiven I K control ld v) K.insts
      → (t : TmBuilding D) × (add_insts D L as_instruction cached model node_of K idv lc control
            K.insts start
          ≡ ok t)
        × IsPrepared (sourced t)
  unfolding is_node_exist
  prepare ops geps =
      let (t, f, s, there) =
        add_insts_lem D root ids node_of other_node L as_instruction cached model K idv lc control
          (IsGepGiven I K control ld) K.insts start
          (record { building = start-IsBuilding D root ids; solid = λ v e. cc; noded = tt }) ops
          geps in
      let n = s.noded in
      let sinks = order.values t.kernel_inst in
      let (g, sources) =
        add_sources_lem D root ids node_of other_node I K sinks t.base n.building n.solid in
      let kernel : (v : ℕ) → Given v → has v t.kernel_inst ≡ true = λ v k.
        All-has (λ w. IsOp I K control ld w → has w t.kernel_inst ≡ true) v K.insts there k.0 k.1 in
      (
        t,
        f,
        record {
          building = g.building;
          solid = g.solid;
          kernel = kernel;
          noded =
              All-map (HasNode D root ids t.base) (HasNode D root ids (sourced t).base)
                t.kernel_inst g.extends n.noded;
          source = λ v k.
              All-values D root ids node_of gep_node other_node other_gep I K control ld order
                (λ w.
                  All (λ o. is_source I K o ≡ true → HasNode D root ids (sourced t).base o)
                    (I.operands w))
                t.kernel_inst v sources (kernel v k);
          geps = s.geps tt;
        },
      )

  abbrev pub connect_all : PhiMap → TmBuilding D → Result (TmBuilding D)
  connect_all map = connect_deps D node_of I (order.phis map)

  abbrev NodeGiven : TmBuilding D → Type 0
  NodeGiven t = (v : ℕ) → Given v → HasNode D root ids t.base v

  pub prepared_node : (t : TmBuilding D) → IsPrepared t → NodeGiven t
  prepared_node t p v g = All-has (HasNode D root ids t.base) v t.kernel_inst p.noded (p.kernel v g)

  -- The edges of the dependencies are made.
  pub record IsCarried (t t' : TmBuilding D) : Type 0 where
    pub grown : IsGrown D root ids t.base t'.base
    pub same_geps : t'.gep_set ≡ t.gep_set
    pub noded : All (HasNode D root ids t'.base) t'.kernel_inst
    pub remains :
        (v : ℕ)
        → has v t.kernel_inst ≡ true
        → defines v idv ≡ false
        → defines v lc ≡ false
        → has v t'.kernel_inst ≡ true
    pub indexed : (v : ℕ) → IsIndexGiven I K control ld v → HasNode D root ids t'.base v

  pub carry :
      (t : TmBuilding D)
      → IsPrepared t
      → All (IsDepGiven I K control ld) ld.indvar_dep_list
      → All (IsDepGiven I K control ld) ld.lc_dep_list
      → (t1 : TmBuilding D) × (t2 : TmBuilding D) × (connect_all idv t ≡ ok t1)
        × (connect_all lc t1 ≡ ok t2)
        × IsCarried t t2
  carry t p idv_given lc_given =
      let node = prepared_node t p in
      let Ready : Option ℕ × LoopDependency → Type 0 =
        IsDepReady D root ids node_of other_node I t in
      let ready : (deps : List LoopDependency)
          → All (IsDepGiven I K control ld) deps
          → All Ready (order.phis (phi_map deps [])) =
        λ deps all.
          deps_ready D root ids node_of gep_node other_node other_gep I K control ld order t deps
            node p.source all in
      let (t1, f1, c1) =
        connect_deps_lem D root ids node_of other_node I (order.phis idv) t p.building p.solid
          (ready ld.indvar_dep_list idv_given) in
      let (t2, f2, c2) =
        connect_deps_lem D root ids node_of other_node I (order.phis lc) t1 c1.grown.building
          c1.grown.solid
          (All-map Ready (IsDepReady D root ids node_of other_node I t1) (order.phis lc)
            (λ e r. kept-IsDepReady D root ids node_of other_node I t t1 e c1.grown r)
            (ready ld.lc_dep_list lc_given)) in
      let grown = IsGrown-trans D root ids t.base t1.base t2.base c1.grown c2.grown in
      let driven : (s : TmBuilding D)
          → (v : ℕ) → (map : PhiMap)
          → All (Drives D root ids node_of other_node I s) (order.phis map)
          → any (is_driven_by I K control ld v) map ≡ true
          → HasNode D root ids s.base v =
        λ s v map all h.
          driven_node D root ids node_of gep_node other_node other_gep I K control ld v
            (order.phis map) s all (order.any-phis (is_driven_by I K control ld v) map ∙ h) in
      (
        t1,
        t2,
        f1,
        f2,
        record {
          grown = grown;
          same_geps = c2.same_geps ∙ c1.same_geps;
          noded = c2.noded (c1.noded p.noded);
          remains = λ v there no_idv no_lc.
              let test : Option ℕ × LoopDependency → Bool = λ e. same_pointer e.1.def (some v) in
              c2.remains v (c1.remains v there (order.any-phis test idv ∙ no_idv))
                (order.any-phis test lc ∙ no_lc);
          indexed = λ v given. elim given [
            | inl op ↦ grown.extends v (node v op)
            | inr (inl by_idv) ↦ c2.grown.extends v (driven t1 v idv c1.drives by_idv)
            | inr (inr by_lc) ↦ driven t2 v lc c2.drives by_lc
          ];
        },
      )
