-- ===== src/DataFlowGraph/Numbers.antt =====
-- The IDs of nodes.
use cgraomp.Prelude.{
  IsDistinct, ℕ, zero, suc, ◌+◌, ◌%◌, ◌^◌, ◌≡◌, ◌↔◌, refl, ap, ◌∙◌, Bool, false, not, some, List,
  [], ◌∷◌, arith, eqb, keep, All, get_elem?, Bool-cases, inl, inr, some_inj,
}
use cgraomp.Prelude.Int.{ℤ, pos}
use cgraomp.Directed.{DirectedGraph}
use cgraomp.DataFlowGraph.{CgraDfg, value_id, set_id, number_nodes, make_sequential_node_id}

-- Nodes of two values have the same ID exactly if the low 32 bits of the values' addresses agree.
pub value_id_iff : (a b : ℕ) → (value_id a ≡ value_id b) ↔ (a % 2 ^ 32 ≡ b % 2 ^ 32)
unfolding value_id
value_id_iff a b = (λ h. ground arith, λ h. ground arith)

abbrev pub not_root : ℕ → ℕ → Bool
not_root root n = not (eqb n root)

module _ (D : DirectedGraph) where
  -- A node that is not visited keeps its ID.
  number_nodes_other :
      (root count : ℕ) (ns : List ℕ) (ids : ℕ → ℤ) (a : ℕ)
      → All (λ n. eqb a n ≡ false) ns
      → number_nodes D root count ns ids a ≡ ids a
  unfolding number_nodes set_id
  number_nodes_other root count [] ids a h = refl
  number_nodes_other root count (n ∷ ns) ids a h = elim (Bool-cases (eqb n root)) [
    | inl here ↦ rw (here, number_nodes) (number_nodes_other root count ns ids a h.1)
    | inr other ↦
        rw
          (
            other,
            number_nodes,
            number_nodes_other root (suc count) ns (set_id n (pos count) ids) a h.1,
          )
          (ground (arith, h.0))
  ]

  pub number_nodes_root :
      (root count : ℕ) (ns : List ℕ) (ids : ℕ → ℤ)
      → number_nodes D root count ns ids root ≡ ids root
  unfolding number_nodes set_id
  number_nodes_root root count [] ids = refl
  number_nodes_root root count (n ∷ ns) ids = elim (Bool-cases (eqb n root)) [
    | inl here ↦ rw (here, number_nodes) (number_nodes_root root count ns ids)
    | inr other ↦
        rw
          (
            other,
            number_nodes,
            number_nodes_root root (suc count) ns (set_id n (pos count) ids),
            other,
          )
          refl
  ]

  -- Nodes other than the root are numbered from `count` in the order of the list.
  number_nodes_at :
      (root count : ℕ) (ns : List ℕ) (ids : ℕ → ℤ) (k m : ℕ)
      → IsDistinct ns
      → get_elem? (keep (not_root root) ns) k ≡ some m
      → number_nodes D root count ns ids m ≡ pos (count + k)
  unfolding number_nodes set_id keep
  number_nodes_at root count [] ids k m d h = cc
  number_nodes_at root count (n ∷ ns) ids zero m d h = elim (Bool-cases (eqb n root)) [
    | inl here ↦
        rw (here, number_nodes)
          (number_nodes_at root count ns ids zero m d.1 (ground (arith, h, here)))
    | inr other ↦
        let at : n ≡ m = some_inj (ground (arith, other, h)) in
        rw
          (
            other,
            number_nodes,
            ← at,
            number_nodes_other root (suc count) ns (set_id n (pos count) ids) n d.0,
          )
          (ground arith)
  ]
  number_nodes_at root count (n ∷ ns) ids (suc j) m d h = elim (Bool-cases (eqb n root)) [
    | inl here ↦
        rw (here, number_nodes)
          (number_nodes_at root count ns ids (suc j) m d.1 (ground (arith, h, here)))
    | inr other ↦
        rw (other, number_nodes)
          (number_nodes_at root (suc count) ns (set_id n (pos count) ids) j m d.1
              (ground (arith, h, other))
            ∙ ap pos (omega arith))
  ]

  -- The nodes that a breadth-first visit from the virtual root meets, the virtual root apart, get
  -- the IDs 0, 1, 2, ... in the order of the visit, and the virtual root keeps its ID.
  pub make_sequential_node_id_at :
      (d : CgraDfg D)
      → ((k m : ℕ)
          → get_elem? (keep (not_root d.virtual_root) (D.breadth_first d.virtual_root d.graph)) k
            ≡ some m
          → (make_sequential_node_id D d).ids m ≡ pos k)
        × ((make_sequential_node_id D d).ids d.virtual_root ≡ d.ids d.virtual_root)
  unfolding make_sequential_node_id
  make_sequential_node_id_at d =
      let visit = D.breadth_first d.virtual_root d.graph in
      (
        λ k m h.
            number_nodes_at d.virtual_root 0 visit d.ids k m
              (D.breadth_first-IsDistinct d.virtual_root d.graph) h
            ∙ ap pos (omega arith),
        number_nodes_root d.virtual_root 0 visit d.ids,
      )
