-- ===== src/DfgPass.antt =====
-- include/DFGPass.hpp and src/Passes/CGRAOmpDFGPass/DFGPass.cpp: the data-flow graph of a kernel that
-- was split for a decoupled CGRA.
pub mod Nodes
pub mod Edges
pub mod Built
use cgraomp.Prelude.{
  ℕ, suc, ◌-◌, Bool, true, false, Option, none, some, List, [], ◌∷◌, eqb, has, insert_new, length,
  take, if◌then◌else◌,
}
use cgraomp.Prelude.Int.{ℤ}
use cgraomp.Errors.{Result, ok, err, fault, ◌>>=◌, deref, assertion_failed}
use cgraomp.Llvm.{Llvm}
use cgraomp.Ir.{Ir}
use cgraomp.Annotation.{Table}
use cgraomp.InstMap.{EntryPtr}
use cgraomp.InstMap.Entry.{InstMapEntry, Derived}
use cgraomp.Model.{CgraModel, is_supported}
use cgraomp.Decoupled.{DecoupledAnalysis}
use cgraomp.AffineAg.{Config, Compatibility, find_config}
use cgraomp.Directed.{DirectedGraph, DfgEdge, EdgeKind, normal}
use cgraomp.DataFlowGraph.{CgraDfg, new_dfg, add_node, connect}

-- `value_to_node[V] = N`, where a node may be null.
unfoldable pub assign_node : ℕ → Option ℕ → List (ℕ × Option ℕ) → List (ℕ × Option ℕ)
assign_node v n [] = (v, n) ∷ []
assign_node v n ((w, m) ∷ rest) =
    let others = assign_node v n rest in if eqb w v then (v, n) ∷ rest else (w, m) ∷ others

-- `value_to_node[V]`, which is null for a value without a node.
unfoldable pub node_at : ℕ → List (ℕ × Option ℕ) → Option ℕ
node_at v [] = none
node_at v ((w, m) ∷ rest) = let others = node_at v rest in if eqb w v then m else others

-- `isa<CustomInstMapEntry>`
unfoldable pub is_custom : Derived → Bool
is_custom Derived.custom_op = true
is_custom _ = false

module _ (D : DirectedGraph) where
  -- The locals of createDataFlowGraph. `extra_info` holds the configurations of the nodes of loads
  -- and stores.
  pub record Building : Type 0 where
    pub dfg : CgraDfg D
    pub value_to_node : List (ℕ × Option ℕ)
    pub custom_ops : List ℕ
    pub extra_info : List (ℕ × Option Config)

  -- `node_of` is the address of the node that is made for a value.
  module _ (node_of : ℕ → ℕ) where
    unfoldable pub add_value : ℕ → Building → Option ℕ × Building
    unfolding assign_node
    add_value v b =
        let (n, d) = add_node D (node_of v) b.dfg in
        (n, record b { dfg = d; value_to_node = assign_node v n b.value_to_node })

    -- Loads and stores.
    unfoldable pub add_mems : Compatibility → List ℕ → Building → Result Building
    unfolding add_value
    add_mems ag [] b = ok b
    add_mems ag (v ∷ vs) b =
        let (n, b') = add_value v b in
        deref n >>= λ node.
        add_mems ag vs (record b' { extra_info = (node, find_config v ag.config) ∷ b'.extra_info })

    unfoldable pub add_invars : List ℕ → Building → Building
    unfolding add_value
    add_invars [] b = b
    add_invars (v ∷ vs) b = add_invars vs (add_value v b).1

  -- The computation, given what the model returns for an instruction.
  module _ (L : Llvm) (as_instruction : ℕ → Option L.Instruction) (cached : Option (Table L))
      (model : CgraModel L) (node_of : ℕ → ℕ) where
    unfoldable pub add_comps : List ℕ → Building → Result Building
    unfolding add_value
    add_comps [] b = ok b
    add_comps (v ∷ vs) b = elim (as_instruction v) [
      | none ↦ add_comps vs b
      | some i ↦ is_supported L cached i model >>= λ imap. elim imap [
        | none ↦ add_comps vs b
        | some p ↦
            let b' = (add_value node_of v b).1 in
            add_comps vs (
              if is_custom p.derived
              then record b' { custom_ops = insert_new v b'.custom_ops }
              else b')
      ]
    ]

  -- `G->connect` with a new edge to the target.
  unfoldable pub connect_edge : ℕ → ℕ → ℕ → EdgeKind → Building → Result (Bool × Building)
  connect_edge src target i kind b =
      let edge : DfgEdge = record {
        address = b.dfg.next_edge;
        target = target;
        operand = i;
        kind = kind;
      } in
      connect D src target edge (record b.dfg { next_edge = suc b.dfg.next_edge }) >>= λ r.
      ok (r.0, record b { dfg = r.1 })

  -- The same under an assertion that the edge is new.
  unfoldable pub connect_nodes : ℕ → ℕ → ℕ → EdgeKind → Building → Result Building
  unfolding connect_edge
  connect_nodes src target i kind b =
      connect_edge src target i kind b >>= λ r. if r.0 then ok r.1 else fault assertion_failed

  -- The edge of one operand. An operand without a node is passed over; the node of the user is
  -- dereferenced only then.
  unfoldable pub connect_operand : Option ℕ → ℕ → ℕ → Building → Result Building
  unfolding connect_nodes
  connect_operand dst i operand b = elim (node_at operand b.value_to_node) [
    | none ↦ ok b
    | some src ↦ deref dst >>= λ target. connect_nodes src target i normal b
  ]

  -- The lambda `connect`: the first operands, from the number `i` on.
  unfoldable pub connect_operands : Option ℕ → ℕ → List ℕ → Building → Result Building
  unfolding connect_operand
  connect_operands dst i [] b = ok b
  connect_operands dst i (operand ∷ rest) b =
      connect_operand dst i operand b >>= λ b'. connect_operands dst (suc i) rest b'

  module _ (I : Ir) where
    open I use {operands}

    -- The edges to the nodes of the computation; the last operand of a custom instruction is the
    -- function that is called.
    unfoldable pub connect_comps : List ℕ → Building → Result Building
    unfolding connect_operands node_at
    connect_comps [] b = ok b
    connect_comps (v ∷ vs) b =
        let count = length (operands v) in
        let last = if has v b.custom_ops then count - 1 else count in
        connect_operands (node_at v b.value_to_node) 0 (take last (operands v)) b >>= λ b'.
        connect_comps vs b'

    -- The edges to the nodes of stores.
    unfoldable pub connect_stores : List ℕ → Building → Result Building
    unfolding connect_operands node_at
    connect_stores [] b = ok b
    connect_stores (v ∷ vs) b =
        connect_operands (node_at v b.value_to_node) 0 (take (length (operands v) - 1) (operands v))
          b
        >>= λ b'. connect_stores vs b'

    module _ (L : Llvm) (as_instruction : ℕ → Option L.Instruction) (cached : Option (Table L))
        (model : CgraModel L) (node_of : ℕ → ℕ) where
      -- createDataFlowGraph<DecoupledVerifyPass>, from a virtual root and the IDs of the nodes.
      unfoldable pub create_data_flow_graph :
          ℕ → (ℕ → ℤ) → Compatibility → DecoupledAnalysis → Result Building
      create_data_flow_graph root ids ag da = do
        loads ← add_mems node_of ag da.mem_load (record {
          dfg = new_dfg D root ids;
          value_to_node = [];
          custom_ops = [];
          extra_info = [];
        })
        stores ← add_mems node_of ag da.mem_store loads
        comps ← add_comps L as_instruction cached model node_of da.comp stores
        connected ← connect_comps da.comp (add_invars node_of da.loop_invariant comps)
        connect_stores da.mem_store connected
