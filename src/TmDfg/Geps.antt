-- ===== src/TmDfg/Geps.antt =====
-- src/Passes/CGRAOmpDFGPass/DFGPass.cpp, createDataFlowGraph for a kernel of a time-multiplexed CGRA:
-- the nodes that compute the addresses of GEP instructions.
use cgraomp.Prelude.{
  ℕ, suc, Bool, ◌&&◌, Option, none, some, List, [], ◌∷◌, get_elem?, ltb, if◌then◌else◌,
}
use cgraomp.Prelude.Int.{ℤ, pos, negsuc}
use cgraomp.Errors.{Result, ok, fault, ◌>>=◌, deref, assertion_failed}
use cgraomp.Ir.{Ir}
use cgraomp.GepStride.{strides}
use cgraomp.Directed.{DirectedGraph, normal}
use cgraomp.DataFlowGraph.{add_node}
use cgraomp.DfgPass.{node_at, add_value}
use cgraomp.TmDfg.{TmBuilding, KernelIr, is_node_exist}
use cgraomp.TmDfg.Deps.{link, set_node}

-- `stride > 1`
abbrev pub exceeds_one : ℤ → Bool
exceeds_one (pos n) = ltb 1 n
exceeds_one (negsuc n) = Bool.false

-- `inc[i]`: an element behind the end is an assertion that fails.
abbrev pub stride_at : ℕ → List ℤ → Result ℤ
stride_at i inc = elim (get_elem? inc i) [ none ↦ fault assertion_failed | some s ↦ ok s ]

module _ (D : DirectedGraph) (gep_node : ℕ → ℕ) where
  -- A node with an ID of its own is made and added; what follows dereferences it.
  unfoldable pub add_gep_node : TmBuilding D → Result (ℕ × TmBuilding D)
  add_gep_node t =
      let (n, d) = add_node D (gep_node t.made_ids) t.base.dfg in
      deref n >>= λ node.
      ok (node, record t { base = record t.base { dfg = d }; made_ids = suc t.made_ids })

  -- The product of an index and its stride is added to an address.
  unfoldable pub add_scaled : ℕ → ℕ → TmBuilding D → Result (TmBuilding D)
  unfolding add_gep_node link
  add_scaled indice add t = do
    (mult, t1) ← add_gep_node t
    (stride, t2) ← add_gep_node t1
    t3 ← link D indice mult 0 normal t2
    t4 ← link D stride mult 0 normal t3
    link D mult add 0 normal t4

  -- One index of the GEP, from the node of the address so far: the node of the next address.
  unfoldable pub add_index : ℕ → ℤ → ℕ → TmBuilding D → Result (ℕ × TmBuilding D)
  unfolding add_gep_node add_scaled link
  add_index indice stride address t = do
    (add, t1) ← add_gep_node t
    t2 ← (if exceeds_one stride then add_scaled indice add t1 else link D indice add 0 normal t1)
    t3 ← link D address add 0 normal t2
    ok (add, t3)

  module _ (I : Ir) (K : KernelIr) (node_of : ℕ → ℕ) where
    -- The instructions of the loop among the indices, from the number `i` on. `last` is null as
    -- long as there is none.
    unfoldable pub add_indices :
        List ℤ → Option ℕ → ℕ → Option ℕ → List ℕ → TmBuilding D → Result (Option ℕ × TmBuilding D)
    unfolding add_index node_at
    add_indices inc base i last [] t = ok (last, t)
    add_indices inc base i last (idx ∷ rest) t =
        if I.is_instruction idx && K.is_inside idx
        then (do
          stride ← stride_at i inc
          indice ← deref (node_at idx t.base.value_to_node)
          address ← deref (elim last [ none ↦ base | some l ↦ some l ])
          (add, t') ← add_index indice stride address t
          add_indices inc base (suc i) (some add) rest t')
        else add_indices inc base (suc i) last rest t

    -- The node of the pointer, which is made if the pointer has no entry.
    unfoldable pub base_address : ℕ → TmBuilding D → Option ℕ × TmBuilding D
    unfolding is_node_exist node_at add_value
    base_address ptr t =
        if is_node_exist ptr t.base.value_to_node
        then (node_at ptr t.base.value_to_node, t)
        else let (n, b) = add_value D node_of ptr t.base in (n, record t { base = b })

    unfoldable pub add_gep : ℕ → TmBuilding D → Result (TmBuilding D)
    unfolding strides base_address add_indices set_node
    add_gep gep t = strides (K.source_element_type gep) >>= λ inc.
        let (base, t1) = base_address (K.pointer_operand gep) t in
        add_indices inc base 0 none (K.indices gep) t1 >>= λ r.
        ok (elim r.0 [ none ↦ r.1 | some l ↦ set_node D gep l r.1 ])

    unfoldable pub add_geps : List ℕ → TmBuilding D → Result (TmBuilding D)
    unfolding add_gep
    add_geps [] t = ok t
    add_geps (gep ∷ geps) t = add_gep gep t >>= λ t'. add_geps geps t'
