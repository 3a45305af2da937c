-- ===== src/TmDfg/Deps.antt =====
-- src/Passes/CGRAOmpDFGPass/DFGPass.cpp, createDataFlowGraph for a kernel of a time-multiplexed CGRA:
-- the lambda `connect_to_loop_dep_node`, and the edges of the remaining nodes.
use cgraomp.Prelude.{
  ℕ, suc, ◌-◌, Option, none, some, List, [], ◌∷◌, eqb, has, keep, length, not, take, if◌then◌else◌,
}
use cgraomp.Prelude.Int.{ℤ}
use cgraomp.Errors.{Result, ok, ◌>>=◌, deref}
use cgraomp.Ir.{Ir}
use cgraomp.LoopDependency.{LoopDependency}
use cgraomp.Directed.{DirectedGraph, EdgeKind, normal, loop_carried, init}
use cgraomp.DataFlowGraph.{add_node}
use cgraomp.DfgPass.{assign_node, node_at, connect_nodes}
use cgraomp.TmDfg.{TmBuilding, PhiMap, same_pointer, is_node_exist}

-- `memdep_map`: the dependency of a load.
unfoldable pub memdep_at : ℕ → List (ℕ × LoopDependency) → Option LoopDependency
memdep_at load [] = none
memdep_at load ((key, dep) ∷ rest) =
    let others = memdep_at load rest in if eqb key load then some dep else others

-- `memdep_map[mem_dep->getLoad()] = mem_dep`, where the last dependency of a load wins.
unfoldable pub memdep_map :
    List LoopDependency → List (ℕ × LoopDependency) → Result (List (ℕ × LoopDependency))
memdep_map [] map = ok map
memdep_map (dep ∷ deps) map = deref dep.access >>= λ a. memdep_map deps ((a.1, dep) ∷ map)

module _ (I : Ir) where
  -- The operands but the function that a custom instruction calls.
  abbrev pub used_operands : List ℕ → ℕ → List ℕ
  used_operands customs v =
      take (if has v customs then length (I.operands v) - 1 else length (I.operands v))
        (I.operands v)

module _ (D : DirectedGraph) where
  -- `assert(G->connect(src, target, *(new DFGEdge(target, i, kind))))`
  unfoldable pub link : ℕ → ℕ → ℕ → EdgeKind → TmBuilding D → Result (TmBuilding D)
  unfolding connect_nodes
  link src target i kind t =
      connect_nodes D src target i kind t.base >>= λ b. ok (record t { base = b })

  -- The same with a `LoopDependencyEdge`, which has a distance.
  unfoldable pub link_back : ℕ → ℕ → ℕ → ℤ → TmBuilding D → Result (TmBuilding D)
  unfolding link
  link_back src target i distance t =
      link src target i loop_carried
        (record t { distances = (t.base.dfg.next_edge, distance) ∷ t.distances })

  unfoldable pub set_node : ℕ → ℕ → TmBuilding D → TmBuilding D
  unfolding assign_node
  set_node v n t = record t {
    base = record t.base { value_to_node = assign_node v (some n) t.base.value_to_node };
  }

  module _ (node_of : ℕ → ℕ) where
    -- The node of the initial data. A node that is made is entered before it is added to the graph.
    unfoldable pub init_node : ℕ → TmBuilding D → Option ℕ × TmBuilding D
    unfolding is_node_exist set_node node_at
    init_node v t =
        if is_node_exist v t.base.value_to_node
        then (node_at v t.base.value_to_node, t)
        else let entered = set_node v (node_of v) t in
          let (n, d) = add_node D (node_of v) entered.base.dfg in
          (n, record entered { base = record entered.base { dfg = d } })

    -- The operand is the phi node: the edge from the node to itself, and that of the initial data.
    unfoldable pub connect_phi_operand :
        LoopDependency → ℕ → ℕ → ℕ → TmBuilding D → Result (TmBuilding D)
    unfolding link_back set_node init_node link
    connect_phi_operand dep phi self i t = link_back self self i dep.distance t >>= λ t1.
        deref dep.init >>= λ init_data.
        let (n, t2) = init_node init_data (set_node phi self t1) in
        deref n >>= λ source. link source self i init t2

    unfoldable pub connect_dep_operand :
        LoopDependency → Option ℕ → Option ℕ → ℕ → ℕ → TmBuilding D → Result (TmBuilding D)
    unfolding connect_phi_operand link node_at
    connect_dep_operand dep phi self i operand t = deref self >>= λ node.
        if same_pointer (some operand) phi
        then connect_phi_operand dep operand node i t
        else (deref (node_at operand t.base.value_to_node) >>= λ src. link src node i normal t)

    unfoldable pub connect_dep_operands :
        LoopDependency → Option ℕ → Option ℕ → ℕ → List ℕ → TmBuilding D → Result (TmBuilding D)
    unfolding connect_dep_operand
    connect_dep_operands dep phi self i [] t = ok t
    connect_dep_operands dep phi self i (operand ∷ rest) t =
        connect_dep_operand dep phi self i operand t >>= λ t'.
        connect_dep_operands dep phi self (suc i) rest t'

    module _ (I : Ir) where
      -- `value_to_node[I]` makes a null entry for a value without one.
      abbrev touch : ℕ → TmBuilding D → TmBuilding D
      touch v t = record t {
        base =
            if is_node_exist v t.base.value_to_node
            then t.base
            else record t.base { value_to_node = assign_node v none t.base.value_to_node };
      }

      unfoldable pub connect_to_loop_dep_node :
          LoopDependency → Option ℕ → TmBuilding D → Result (TmBuilding D)
      unfolding connect_dep_operands node_at assign_node is_node_exist
      connect_to_loop_dep_node dep phi t = deref dep.def >>= λ inst.
          let t' = touch inst t in
          connect_dep_operands dep phi (node_at inst t'.base.value_to_node) 0
            (used_operands I t'.base.custom_ops inst) t'

      -- The loops over the induction variables and the dependencies by registers: the instruction
      -- is no longer one of the remaining ones.
      unfoldable pub connect_deps : PhiMap → TmBuilding D → Result (TmBuilding D)
      unfolding connect_to_loop_dep_node
      connect_deps [] t = ok t
      connect_deps ((phi, dep) ∷ rest) t = connect_to_loop_dep_node dep phi t >>= λ t'.
          deref dep.def >>= λ inst.
          connect_deps rest
            (record t' { kernel_inst = keep (λ v. not (eqb v inst)) t'.kernel_inst })
