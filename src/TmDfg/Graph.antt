-- ===== src/TmDfg/Graph.antt =====
-- src/Passes/CGRAOmpDFGPass/DFGPass.cpp, createDataFlowGraph for a kernel of a time-multiplexed CGRA:
-- the edges of the remaining nodes, and the whole function.
use cgraomp.Prelude.{ℕ, suc, Option, none, some, List, [], ◌∷◌, if◌then◌else◌}
use cgraomp.Prelude.Int.{ℤ}
use cgraomp.Errors.{Result, ok, fault, ◌>>=◌, deref, assertion_failed}
use cgraomp.Llvm.{Llvm}
use cgraomp.Ir.{Ir}
use cgraomp.Annotation.{Table}
use cgraomp.Model.{CgraModel}
use cgraomp.LoopDependency.{LoopDependency, LoopDependencyInfo}
use cgraomp.Directed.{DirectedGraph, normal, init}
use cgraomp.DataFlowGraph.{new_dfg}
use cgraomp.DfgPass.{node_at, connect_edge}
use cgraomp.TmDfg.{
  TmBuilding, KernelIr, LoopControl, HashOrder, is_node_exist, phi_map, add_insts, add_sources,
}
use cgraomp.TmDfg.Deps.{link, link_back, memdep_at, memdep_map, used_operands, connect_deps}
use cgraomp.TmDfg.Geps.{add_geps}

module _ (D : DirectedGraph) where
  -- An operand without an entry is only printed.
  unfoldable pub link_if_exists :
      ℕ → (ℕ → TmBuilding D → Result (TmBuilding D)) → TmBuilding D → Result (TmBuilding D)
  unfolding is_node_exist node_at
  link_if_exists operand connect_to t =
      if is_node_exist operand t.base.value_to_node
      then (deref (node_at operand t.base.value_to_node) >>= λ src. connect_to src t)
      else ok t

  -- One operand of a remaining instruction. For a load that depends on a store of a previous
  -- iteration, the load gives the initial data and the stored value what follows; it is dereferenced
  -- whether it has an entry or not.
  unfoldable pub connect_remaining_operand :
      List (ℕ × LoopDependency) → Option ℕ → ℕ → ℕ → TmBuilding D → Result (TmBuilding D)
  unfolding memdep_at link_if_exists link link_back connect_edge node_at
  connect_remaining_operand memdeps dst i operand t = deref dst >>= λ target.
      elim (memdep_at operand memdeps) [
        | none ↦ link_if_exists operand (λ src. link D src target i normal) t
        | some dep ↦ deref (node_at operand t.base.value_to_node) >>= λ load.
            connect_edge D load target i init t.base >>= λ r. deref dep.def >>= λ def.
            link_if_exists def (λ src. link_back D src target i dep.distance)
              (record t { base = r.1 })
      ]

  unfoldable pub connect_remaining_operands :
      List (ℕ × LoopDependency) → Option ℕ → ℕ → List ℕ → TmBuilding D → Result (TmBuilding D)
  unfolding connect_remaining_operand
  connect_remaining_operands memdeps dst i [] t = ok t
  connect_remaining_operands memdeps dst i (operand ∷ rest) t =
      connect_remaining_operand memdeps dst i operand t >>= λ t'.
      connect_remaining_operands memdeps dst (suc i) rest t'

  module _ (I : Ir) where
    unfoldable pub connect_remaining :
        List (ℕ × LoopDependency) → List ℕ → TmBuilding D → Result (TmBuilding D)
    unfolding connect_remaining_operands node_at
    connect_remaining memdeps [] t = ok t
    connect_remaining memdeps (v ∷ vs) t =
        connect_remaining_operands memdeps (node_at v t.base.value_to_node) 0
          (used_operands I t.base.custom_ops v) t
        >>= λ t'. connect_remaining memdeps vs t'

    module _ (node_of : ℕ → ℕ) (L : Llvm) (as_instruction : ℕ → Option L.Instruction)
        (cached : Option (Table L)) (model : CgraModel L) (order : HashOrder) (gep_node : ℕ → ℕ)
        (K : KernelIr) where
      -- createDataFlowGraph<TimeMultiplexedVerifyPass>, from a virtual root, the IDs of the nodes,
      -- the result of the verification, which may be missing, and the dependencies of the loop.
      unfoldable pub create_tm_data_flow_graph :
          ℕ → (ℕ → ℤ) → Option LoopControl → LoopDependencyInfo → Result (TmBuilding D)
      unfolding phi_map add_insts add_sources memdep_map connect_deps add_geps connect_remaining
      create_tm_data_flow_graph root ids lvr ld = elim lvr [
        | none ↦ fault assertion_failed
        | some control ↦ (do
          let idv = phi_map ld.indvar_dep_list []
          let lc = phi_map ld.lc_dep_list []
          nodes ←
              add_insts D L as_instruction cached model node_of K idv lc control K.insts (record {
                base = record {
                  dfg = new_dfg D root ids;
                  value_to_node = [];
                  custom_ops = [];
                  extra_info = [];
                };
                kernel_inst = [];
                gep_set = [];
                distances = [];
                made_ids = 0;
              })
          let sources = add_sources D I K node_of (order.values nodes.kernel_inst) nodes.base
          memdeps ← memdep_map ld.mem_dep_list []
          inductions ← connect_deps D node_of I (order.phis idv) (record nodes { base = sources })
          carried ← connect_deps D node_of I (order.phis lc) inductions
          addresses ← add_geps D gep_node I K node_of (order.values carried.gep_set) carried
          connect_remaining memdeps (order.values addresses.kernel_inst) addresses)
      ]
