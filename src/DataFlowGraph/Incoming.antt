-- ===== src/DataFlowGraph/Incoming.antt =====
-- CGRADFG::findIncomingEdgesToNode after a connection.
use cgraomp.Prelude.{
  ℕ, ◌≡◌, refl, ap, ◌∙◌, Bool, true, false, List, [], ◌∷◌, arith, eqb, any, any_mono, subst, keep,
  Bool-cases, inl, inr,
}
use cgraomp.Prelude.Int.{eqb_ℤ}
use cgraomp.Errors.{ok}
use cgraomp.Directed.{DirectedGraph, DfgEdge}
use cgraomp.DataFlowGraph.{
  CgraDfg, is_equal_to, has_node, connect, incoming_from, find_incoming_edges_to_node,
}
use cgraomp.DataFlowGraph.Steps.{equal_refl}
use cgraomp.DataFlowGraph.Invariant.{IsRooted, eqb-true}
use cgraomp.DataFlowGraph.Operations.{connect-IsConnected}

keep-found {ℓ} :
    {A : Type ℓ} (p : A → Bool) (xs : List A)
    → any p xs ≡ true
    → (y : A) × (ys : List A) × (keep p xs ≡ y ∷ ys)
unfolding any keep
keep-found p [] h = cc
keep-found p (x ∷ xs) h = elim (Bool-cases (p x)) [
  | inl hit ↦ (x, keep p xs, rw hit refl)
  | inr missed ↦ rw missed (keep-found p xs (ground arith))
]

module _ (D : DirectedGraph) where
  open D use {nodes, find_edges_to}

  -- The node that the pair belongs to.
  abbrev pub is_from : ℕ → ℕ × List DfgEdge → Bool
  is_from a p = eqb p.0 a

  incoming-found :
      (s t : ℕ) (d : CgraDfg D) (ns : List ℕ) (e : DfgEdge) (es : List DfgEdge)
      → is_equal_to D d s t ≡ false
      → is_equal_to D d s d.virtual_root ≡ false
      → find_edges_to (is_equal_to D d) s t d.graph ≡ e ∷ es
      → any (eqb s) ns ≡ true
      → any (is_from s) (incoming_from D t true d ns) ≡ true
  unfolding incoming_from any
  incoming-found s t d [] e es loop root found h = h
  incoming-found s t d (n ∷ ns) e es loop root found h = elim (Bool-cases (eqb s n)) [
    | inl here ↦ rw (← eqb-true D s n here, loop, root, found) (ground arith)
    | inr other ↦
        let rest = incoming-found s t d ns e es loop root found (ground arith) in ground arith
  ]

  incoming-absent :
      (r t : ℕ) (d : CgraDfg D) (ns : List ℕ)
      → find_edges_to (is_equal_to D d) r t d.graph ≡ []
      → any (is_from r) (incoming_from D t false d ns) ≡ false
  unfolding incoming_from any
  incoming-absent r t d [] none_found = refl
  incoming-absent r t d (n ∷ ns) none_found = elim (Bool-cases (eqb n r)) [
    | inl here ↦
        rw (eqb-true D n r here, none_found) (ground (arith, incoming-absent r t d ns none_found))
    | inr other ↦ ground (arith, incoming-absent r t d ns none_found)
  ]

  same_equal : (d d' : CgraDfg D) → d'.ids ≡ d.ids → is_equal_to D d' ≡ is_equal_to D d
  unfolding is_equal_to
  same_equal d d' h = ap (λ ids a b. eqb_ℤ (ids a) (ids b)) h

  -- When a node of a rooted graph is connected to another one by an edge to that one, both being
  -- in the graph and the source being equal neither to the target nor to the virtual root, the
  -- source is among the incoming edges of the target, and the virtual root is not, even when it is
  -- not ignored.
  pub connect-find_incoming_edges_to_node :
      (s t : ℕ) (e : DfgEdge) (d : CgraDfg D)
      → IsRooted D d
      → e.target ≡ t
      → eqb s d.virtual_root ≡ false
      → is_equal_to D d s t ≡ false
      → is_equal_to D d s d.virtual_root ≡ false
      → any (eqb s) (nodes d.graph) ≡ true
      → has_node D d t ≡ true
      → (b : Bool) × (d' : CgraDfg D) × (connect D s t e d ≡ ok (b, d'))
        × (any (is_from s) (find_incoming_edges_to_node D t true d') ≡ true)
        × (any (is_from d.virtual_root) (find_incoming_edges_to_node D t false d') ≡ false)
  unfolding find_incoming_edges_to_node has_node
  connect-find_incoming_edges_to_node s t e d r to other loop root there target =
      let has_s : has_node D d s ≡ true =
        any_mono (eqb s) (is_equal_to D d s) (nodes d.graph)
          (λ x h. subst (λ k. is_equal_to D d s k ≡ true) (eqb-true D s x h) (equal_refl D d s))
          there in
      let (b, d', made, c) = connect-IsConnected D s t e d r to other has_s target in
      let ids = same_equal d d' c.same_ids in
      let (y, ys, found) =
        keep-found (λ x. is_equal_to D d x.target t) (D.get_edges d'.graph s) c.led in
      let edges = D.find_edges_to-eq (is_equal_to D d) s t d'.graph ∙ found in
      (
        b,
        d',
        made,
        incoming-found s t d' (nodes d'.graph) y ys (rw ids loop) (rw (ids, c.same_root) root)
            (rw ids edges) (rw c.same_nodes there),
        incoming-absent d.virtual_root t d' (nodes d'.graph) (rw ids c.not_root),
      )
