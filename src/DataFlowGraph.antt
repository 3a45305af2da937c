-- ===== src/DataFlowGraph.antt =====
-- include/CGRADataFlowGraph.hpp and src/Passes/CGRAOmpComponents/CGRADataFlowGraph.cpp, class
-- CGRADFG: the data-flow graph with a virtual root, which points to the nodes that no other edge
-- leads to. Nodes are addresses; the ID of a node is a data member that can be assigned.
use cgraomp.Prelude.{
  ℕ, suc, Bool, true, false, ◌&&◌, Option, none, some, List, [], ◌∷◌, eqb, if◌then◌else◌, first,
  any,
}
use cgraomp.Prelude.Int.{ℤ, pos, negsuc, eqb_ℤ, to_int}
use cgraomp.Errors.{Result, ok, err, fault, assertion_failed}
use cgraomp.Directed.{DirectedGraph, DfgEdge, normal}
pub mod Steps
pub mod Invariant
pub mod Links
pub mod Operations
pub mod Numbers
pub mod Incoming
pub mod Fresh

-- The ID of a node that is made for an IR value: the value's address, as an `int`.
unfoldable pub value_id : ℕ → ℤ
value_id val = to_int (pos val)

-- `N->ID = i`
unfoldable pub set_id : ℕ → ℤ → (ℕ → ℤ) → ℕ → ℤ
set_id n i ids a = if eqb n a then i else ids a

module _ (D : DirectedGraph) where
  open D use {Graph, nodes, empty, find_edges_to, remove_edge, breadth_first}

  -- `next_edge` is the address of the next edge that is allocated.
  pub record CgraDfg : Type 0 where
    pub graph : Graph
    pub virtual_root : ℕ
    pub ids : ℕ → ℤ
    pub next_edge : ℕ

  -- DFGNode::isEqualTo
  unfoldable pub is_equal_to : CgraDfg → ℕ → ℕ → Bool
  is_equal_to d a b = eqb_ℤ (d.ids a) (d.ids b)

  -- `new VirtualRootNode()`, whose ID is VROOT_NODE_ID, and its addition.
  unfoldable pub create_virtual_root : ℕ → CgraDfg → CgraDfg
  create_virtual_root root d =
      let d' = record d { virtual_root = root; ids = set_id root (negsuc 0) d.ids } in
      record d' { graph = (D.add_node (is_equal_to d') root d.graph).1 }

  -- The constructor from a function and a loop, which it only keeps.
  unfoldable pub new_dfg : ℕ → (ℕ → ℤ) → CgraDfg
  unfolding create_virtual_root
  new_dfg root ids =
      create_virtual_root root
        (record { graph = empty; virtual_root = root; ids = ids; next_edge = 0 })

  -- `findNode(N) != Nodes.end()`, of llvm::DirectedGraph
  unfoldable pub has_node : CgraDfg → ℕ → Bool
  has_node d n = any (is_equal_to d n) (nodes d.graph)

  -- `new DFGEdge(N)`
  unfoldable pub new_edge : ℕ → CgraDfg → DfgEdge
  new_edge n d = record { address = d.next_edge; target = n; operand = 0; kind = normal }

  -- A node that is equal is returned; a node that is new is connected to the virtual root. Both
  -- are in the graph then, as DirectedGraph::connect asserts: the constructors add the root.
  unfoldable pub add_node : ℕ → CgraDfg → Option ℕ × CgraDfg
  unfolding new_edge
  add_node n d = elim (first (is_equal_to d n) (nodes d.graph)) [
    | some v ↦ (some v, d)
    | none ↦
        let (added, g) = D.add_node (is_equal_to d) n d.graph in
        let d' = record d { graph = g; next_edge = suc d.next_edge } in
        elim added [
          | true ↦
              let (connected, g') = D.connect d.virtual_root n (new_edge n d) g in
              (if connected then some n else none, record d' { graph = g' })
          | false ↦ (none, d')
        ]
  ]

  -- The edge from the virtual root to the target is removed, if there is one.
  unfoldable pub connect_present : ℕ → ℕ → DfgEdge → CgraDfg → Result (Bool × CgraDfg)
  connect_present src dst e d =
      let (result, g) = D.connect src dst e d.graph in
      elim (find_edges_to (is_equal_to d) d.virtual_root dst g) [
        | [] ↦ ok (result, record d { graph = g })
        | v ∷ [] ↦ ok (result, record d { graph = remove_edge d.virtual_root v g })
        | v ∷ w ∷ vs ↦ fault assertion_failed
      ]

  -- DirectedGraph::connect asserts that both nodes are in the graph.
  unfoldable pub connect : ℕ → ℕ → DfgEdge → CgraDfg → Result (Bool × CgraDfg)
  unfolding connect_present has_node
  connect src dst e d = elim (has_node d src && has_node d dst) [
    | true ↦ connect_present src dst e d
    | false ↦ fault assertion_failed
  ]

  -- The constructor from a node, which connects the virtual root to it by the method above.
  unfoldable pub new_dfg_from : ℕ → ℕ → (ℕ → ℤ) → Result CgraDfg
  unfolding create_virtual_root connect new_edge
  new_dfg_from n root ids =
      let d : CgraDfg = record { graph = empty; virtual_root = root; ids = ids; next_edge = 0 } in
      let d' =
        create_virtual_root root (record d { graph = (D.add_node (is_equal_to d) n empty).1 }) in
      elim (connect root n (new_edge n d') (record d' { next_edge = 1 })) [
        | ok r ↦ ok r.1
        | err e ↦ err e
        | fault x ↦ fault x
      ]

  -- The nodes with edges to a node, each with these edges.
  unfoldable pub incoming_from : ℕ → Bool → CgraDfg → List ℕ → List (ℕ × List DfgEdge)
  incoming_from n ignore_vroot d [] = []
  incoming_from n ignore_vroot d (a ∷ others) =
      let rest = incoming_from n ignore_vroot d others in
      if is_equal_to d a n
      then rest
      else if ignore_vroot && is_equal_to d a d.virtual_root
      then rest
      else elim (find_edges_to (is_equal_to d) a n d.graph) [
        | [] ↦ rest
        | e ∷ es ↦ (a, e ∷ es) ∷ rest
      ]

  unfoldable pub find_incoming_edges_to_node : ℕ → Bool → CgraDfg → List (ℕ × List DfgEdge)
  find_incoming_edges_to_node n ignore_vroot d = incoming_from n ignore_vroot d (nodes d.graph)

  unfoldable pub number_nodes : ℕ → ℕ → List ℕ → (ℕ → ℤ) → ℕ → ℤ
  unfolding set_id
  number_nodes root count [] ids = ids
  number_nodes root count (n ∷ ns) ids = elim (eqb n root) [
    | true ↦ number_nodes root count ns ids
    | false ↦ number_nodes root (suc count) ns (set_id n (pos count) ids)
  ]

  unfoldable pub make_sequential_node_id : CgraDfg → CgraDfg
  unfolding number_nodes
  make_sequential_node_id d = record d {
    ids = number_nodes d.virtual_root 0 (breadth_first d.virtual_root d.graph) d.ids;
  }
