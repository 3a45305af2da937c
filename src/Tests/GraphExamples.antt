-- ===== src/Tests/GraphExamples.antt =====
-- The theorems on data-flow graphs at a graph of two nodes.
use cgraomp.Prelude.{
  arith, ℕ, ◌∷◌, [], if◌then◌else◌, ◌+◌, ◌%◌, ◌^◌, ◌≡◌, ◌↔◌, refl, Bool, true, false, some, [], eqb,
  any, has, keep, get_elem?, first,
}
use cgraomp.Prelude.Int.{pos}
use cgraomp.Errors.{ok}
use cgraomp.Directed.{DfgEdge, normal}
use cgraomp.DataFlowGraph.{
  CgraDfg, value_id, set_id, is_equal_to, has_node, incoming_from, new_dfg, new_edge, add_node,
  connect, find_incoming_edges_to_node, make_sequential_node_id,
}
use cgraomp.DataFlowGraph.Invariant.{IsRooted, new_dfg-IsRooted}
use cgraomp.DataFlowGraph.Operations.{IsConnected, add_node-IsRooted, connect-IsConnected}
use cgraomp.DataFlowGraph.Incoming.{is_from, connect-find_incoming_edges_to_node}
use cgraomp.DataFlowGraph.Numbers.{value_id_iff, not_root, make_sequential_node_id_at}
use cgraomp.BalanceTree.{NodeInfo, compute_node, init_weight}
use cgraomp.BalanceTree.Weights.{exact_node_weight, exact_weigh, init_weight-at}
use cgraomp.Tests.Graphs.{lists, visit}

-- The virtual root at address 100.
abbrev no_nodes : CgraDfg lists
no_nodes = new_dfg lists 100 pos

abbrev one_node : CgraDfg lists
one_node = (add_node lists 1 no_nodes).1

abbrev two_nodes : CgraDfg lists
two_nodes = (add_node lists 2 one_node).1

two_nodes-IsRooted : IsRooted lists two_nodes
two_nodes-IsRooted =
    (add_node-IsRooted lists 2 one_node
      (add_node-IsRooted lists 1 no_nodes (new_dfg-IsRooted lists 100 pos)).0).0

add_node-IsRooted_example :
    IsRooted lists (add_node lists 2 two_nodes).1
    × ((v : ℕ) × ((add_node lists 2 two_nodes).0 ≡ some v)
        × (is_equal_to lists two_nodes 2 v ≡ true)
        × (has v (lists.nodes (add_node lists 2 two_nodes).1.graph) ≡ true))
    × ((a : ℕ)
        → has_node lists two_nodes a ≡ true
        → has_node lists (add_node lists 2 two_nodes).1 a ≡ true)
add_node-IsRooted_example = add_node-IsRooted lists 2 two_nodes two_nodes-IsRooted

-- From node 1 to node 2.
abbrev arc : DfgEdge
arc = record { address = 7; target = 2; operand = 0; kind = normal }

two_nodes-root : eqb 1 two_nodes.virtual_root ≡ false
unfolding add_node new_dfg is_equal_to first set_id any new_edge
two_nodes-root = refl

two_nodes-has : (has_node lists two_nodes 1 ≡ true) × (has_node lists two_nodes 2 ≡ true)
unfolding add_node new_dfg is_equal_to first set_id any new_edge has_node
two_nodes-has = (refl, refl)

connect-IsConnected_example :
    (b : Bool) × (d' : CgraDfg lists) × (connect lists 1 2 arc two_nodes ≡ ok (b, d'))
    × IsConnected lists 1 2 two_nodes d'
connect-IsConnected_example =
    connect-IsConnected lists 1 2 arc two_nodes two_nodes-IsRooted refl two_nodes-root
      two_nodes-has.0 two_nodes-has.1

connect-find_incoming_edges_to_node_example :
    (b : Bool) × (d' : CgraDfg lists) × (connect lists 1 2 arc two_nodes ≡ ok (b, d'))
    × (any (is_from lists 1) (find_incoming_edges_to_node lists 2 true d') ≡ true)
    × (any (is_from lists two_nodes.virtual_root) (find_incoming_edges_to_node lists 2 false d')
        ≡ false)
unfolding add_node new_dfg is_equal_to first set_id any new_edge
connect-find_incoming_edges_to_node_example =
    connect-find_incoming_edges_to_node lists 1 2 arc two_nodes two_nodes-IsRooted refl
      two_nodes-root two_nodes-apart two_nodes-not_root two_nodes-there two_nodes-has.1
  where
    two_nodes-apart : is_equal_to lists two_nodes 1 2 ≡ false
    two_nodes-apart = refl

    two_nodes-not_root : is_equal_to lists two_nodes 1 two_nodes.virtual_root ≡ false
    two_nodes-not_root = refl

    two_nodes-there : any (eqb 1) (lists.nodes two_nodes.graph) ≡ true
    two_nodes-there = refl

value_id_iff_example :
    (value_id 4096 ≡ value_id (4096 + 2 ^ 32)) ↔ (4096 % 2 ^ 32 ≡ (4096 + 2 ^ 32) % 2 ^ 32)
value_id_iff_example = value_id_iff 4096 (4096 + 2 ^ 32)

make_sequential_node_id_at_example :
    ((k m : ℕ)
      → get_elem?
          (keep
            (not_root two_nodes.virtual_root)
            (lists.breadth_first two_nodes.virtual_root two_nodes.graph))
          k
        ≡ some m
      → (make_sequential_node_id lists two_nodes).ids m ≡ pos k)
    × ((make_sequential_node_id lists two_nodes).ids two_nodes.virtual_root
        ≡ two_nodes.ids two_nodes.virtual_root)
make_sequential_node_id_at_example = make_sequential_node_id_at lists two_nodes

-- Nodes 1 and 2 are compute nodes, and an edge leads from 1 to 2.
abbrev operations : NodeInfo
operations = record {
  kind = λ n. compute_node;
  opcode = λ n. 13;
  is_associative = λ n. true;
  is_commutative = λ n. true;
}

abbrev chain : CgraDfg lists
chain = record {
  graph = (100 ∷ 1 ∷ 2 ∷ [], λ a. if eqb a 1 then arc ∷ [] else []);
  virtual_root = 100;
  ids = pos;
  next_edge = 8;
}

init_weight-at_example :
    (weight : ℕ → ℕ) × (init_weight lists operations chain ≡ ok weight)
    × (weight 2 ≡ exact_node_weight lists operations chain 2 weight)
unfolding is_equal_to visit keep find_incoming_edges_to_node incoming_from exact_node_weight
    exact_weigh
init_weight-at_example =
    init_weight-at lists operations chain (100 ∷ 1 ∷ []) [] 2
      (omega arith, (omega arith, (omega arith, tt))) refl refl ((refl, tt), tt)
