-- ===== src/Directed.antt =====
-- What CGRADFG calls of llvm::DirectedGraph and llvm::DGNode, as an interface. Nodes and edges are
-- objects with addresses; nodes are compared by their class's `isEqualTo`, which the operations
-- take, and edges by their addresses.
use cgraomp.Prelude.{
  ℕ, ◌≡◌, Bool, true, false, not, ◌&&◌, List, ◌∷◌, [], ◌++◌, eqb, any, keep, IsDistinct,
}

-- DFGEdge::EdgeKind
pub data EdgeKind : Type 0 where
  normal loop_carried init : EdgeKind

-- The data members of `DFGEdge`: an edge belongs to its source node and points to its target.
pub record DfgEdge : Type 0 where
  pub address : ℕ
  pub target : ℕ
  pub operand : ℕ
  pub kind : EdgeKind

-- Edges with one address are one object and have one target.
abbrev pub same_edge : DfgEdge → DfgEdge → Bool
same_edge x y = eqb x.address y.address && eqb x.target y.target

pub record DirectedGraph : Type 1 where
  pub Graph : Type 0
  pub empty : Graph
  pub nodes : Graph → List ℕ
  pub get_edges : Graph → ℕ → List DfgEdge
  pub add_node : (ℕ → ℕ → Bool) → ℕ → Graph → Bool × Graph
  -- source and target
  pub connect : ℕ → ℕ → DfgEdge → Graph → Bool × Graph
  pub find_edges_to : (ℕ → ℕ → Bool) → ℕ → ℕ → Graph → List DfgEdge
  pub remove_edge : ℕ → DfgEdge → Graph → Graph
  -- the nodes in the order of llvm::breadth_first from a node, by GraphTraits
  pub breadth_first : ℕ → Graph → List ℕ
  pub nodes-empty : nodes empty ≡ []
  pub get_edges-empty : (a : ℕ) → get_edges empty a ≡ []
  -- "Add the given node to the graph if it is not already present."
  pub add_node_result :
      (same : ℕ → ℕ → Bool) (n : ℕ) (g : Graph)
      → (add_node same n g).0 ≡ not (any (same n) (nodes g))
  pub nodes-add_node :
      (same : ℕ → ℕ → Bool) (n : ℕ) (g : Graph)
      → any (same n) (nodes g) ≡ false
      → nodes (add_node same n g).1 ≡ nodes g ++ n ∷ []
  pub get_edges-add_node :
      (same : ℕ → ℕ → Bool) (n : ℕ) (g : Graph) (a : ℕ)
      → get_edges (add_node same n g).1 a ≡ get_edges g a
  -- "Connect the source to the target; true if they were not connected via the edge."
  pub connect_result :
      (s t : ℕ) (e : DfgEdge) (g : Graph)
      → (connect s t e g).0 ≡ not (any (same_edge e) (get_edges g s))
  pub nodes-connect : (s t : ℕ) (e : DfgEdge) (g : Graph) → nodes (connect s t e g).1 ≡ nodes g
  pub get_edges-connect_other :
      (s t : ℕ) (e : DfgEdge) (g : Graph) (a : ℕ)
      → eqb s a ≡ false
      → get_edges (connect s t e g).1 a ≡ get_edges g a
  pub get_edges-connect_old :
      (s t : ℕ) (e : DfgEdge) (g : Graph)
      → any (same_edge e) (get_edges g s) ≡ true
      → get_edges (connect s t e g).1 s ≡ get_edges g s
  pub get_edges-connect_new :
      (s t : ℕ) (e : DfgEdge) (g : Graph)
      → any (same_edge e) (get_edges g s) ≡ false
      → get_edges (connect s t e g).1 s ≡ get_edges g s ++ e ∷ []
  -- The edges of the first node whose target is the second one, by `==` on nodes.
  pub find_edges_to-eq :
      (same : ℕ → ℕ → Bool) (s t : ℕ) (g : Graph)
      → find_edges_to same s t g ≡ keep (λ e. same e.target t) (get_edges g s)
  pub nodes-remove_edge : (s : ℕ) (e : DfgEdge) (g : Graph) → nodes (remove_edge s e g) ≡ nodes g
  pub get_edges-remove_other :
      (s : ℕ) (e : DfgEdge) (g : Graph) (a : ℕ)
      → eqb s a ≡ false
      → get_edges (remove_edge s e g) a ≡ get_edges g a
  pub get_edges-remove_edge :
      (s : ℕ) (e : DfgEdge) (g : Graph)
      → get_edges (remove_edge s e g) s ≡ keep (λ x. not (same_edge x e)) (get_edges g s)
  -- A node is visited once.
  pub breadth_first-IsDistinct : (n : ℕ) (g : Graph) → IsDistinct (breadth_first n g)
