-- ===== src/BalanceTree.antt =====
-- src/Passes/CGRAOmpDFGPass/BalanceTree.cpp: the weights of nodes, from which the pass that balances
-- trees of operations starts, and the nodes that can be roots of such trees.
use cgraomp.Prelude.{
  ℕ, ◌+◌, ◌^◌, Bool, true, false, ◌&&◌, ◌||◌, not, Option, none, some, List, [], ◌∷◌, ltb, eqb,
  length, keep, if◌then◌else◌,
}
use cgraomp.Errors.{Result, ok, err, fault, ◌>>=◌, signed_overflow}
use cgraomp.Directed.{DirectedGraph, DfgEdge}
use cgraomp.DataFlowGraph.{CgraDfg, is_equal_to, find_incoming_edges_to_node}
pub mod Weights

-- DFGNode::NodeKind
pub data NodeKind : Type 0 where
  compute_node mem_load mem_store compare_node constant global_data virtual_root : NodeKind

-- What the pass asks of the instruction of a compute node: its opcode and its laws.
pub record NodeInfo : Type 1 where
  pub kind : ℕ → NodeKind
  pub opcode : ℕ → ℕ
  pub is_associative : ℕ → Bool
  pub is_commutative : ℕ → Bool

abbrev is_constant : NodeKind → Bool
is_constant constant = true
is_constant _ = false

abbrev pub is_compute : NodeKind → Bool
is_compute compute_node = true
is_compute _ = false

-- `sum += weight[Src]`, on `int`.
unfoldable pub add_weight : ℕ → ℕ → Result ℕ
add_weight sum w = if ltb (sum + w) (2 ^ 31) then ok (sum + w) else fault signed_overflow

unfoldable pub total : (ℕ → ℕ) → ℕ → List (ℕ × List DfgEdge) → Result ℕ
unfolding add_weight
total weight sum [] = ok sum
total weight sum (p ∷ ps) = add_weight sum (weight p.0) >>= λ sum'. total weight sum' ps

-- The weight of a node with these incoming edges.
unfoldable pub weight_of : (ℕ → ℕ) → List (ℕ × List DfgEdge) → Result ℕ
unfolding total
weight_of weight [] = ok 1
weight_of weight (p ∷ ps) = total weight 0 (p ∷ ps)

abbrev pub set_weight : ℕ → ℕ → (ℕ → ℕ) → ℕ → ℕ
set_weight n w weight a = if eqb n a then w else weight a

module _ (D : DirectedGraph) (I : NodeInfo) where
  -- Neither the virtual root nor a constant.
  abbrev pub is_weighed : CgraDfg D → ℕ → Bool
  is_weighed d n = not (is_equal_to D d n d.virtual_root) && not (is_constant (I.kind n))

  -- The sum of the weights of the sources of a node, or 1 if it has none.
  unfoldable pub node_weight : CgraDfg D → ℕ → (ℕ → ℕ) → Result ℕ
  unfolding weight_of
  node_weight d n weight = weight_of weight (find_incoming_edges_to_node D n true d)

  unfoldable pub weigh : CgraDfg D → ℕ → (ℕ → ℕ) → Result (ℕ → ℕ)
  unfolding node_weight
  weigh d n weight =
      if is_weighed d n
      then (node_weight d n weight >>= λ w. ok (set_weight n w weight))
      else ok weight

  unfoldable pub weigh_all : CgraDfg D → List ℕ → (ℕ → ℕ) → Result (ℕ → ℕ)
  unfolding weigh
  weigh_all d [] weight = ok weight
  weigh_all d (n ∷ ns) weight = weigh d n weight >>= λ weight'. weigh_all d ns weight'

  -- All weights are 0 at first.
  unfoldable pub init_weight : CgraDfg D → Result (ℕ → ℕ)
  unfolding weigh_all
  init_weight d = weigh_all d (D.breadth_first d.virtual_root d.graph) (λ a. 0)

  -- The only use of a node is by something else than its own operation.
  abbrev other_operation : ℕ → ℕ → Bool
  other_operation n use_node =
      if is_compute (I.kind use_node) then not (eqb (I.opcode n) (I.opcode use_node)) else true

  unfoldable pub is_candidate : CgraDfg D → ℕ → Bool
  is_candidate d n =
      is_compute (I.kind n)
      && I.is_associative n
      && I.is_commutative n
      && elim (D.get_edges d.graph n) [
        | [] ↦ false
        | e ∷ [] ↦ other_operation n e.target
        | e ∷ f ∷ es ↦ true
      ]

  -- The candidates before they are sorted.
  unfoldable pub root_candidates : CgraDfg D → List ℕ
  root_candidates d = keep (is_candidate d) (D.nodes d.graph)
