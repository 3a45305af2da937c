-- ===== src/DataFlowGraph/Operations.antt =====
-- CGRADFG::addNode and CGRADFG::connect keep the graph rooted.
use cgraomp.Prelude.{
  ℕ, ◌≤◌, ◌≡◌, refl, sym, subst, ◌∙◌, Bool, true, false, none, some, List, [], ◌∷◌, arith, eqb, any,
  first, length, Option-cases, inl, inr, Bool-cases, some_inj, has, ◌++◌, any-append_left,
}
use cgraomp.Errors.{ok}
use cgraomp.Directed.{DirectedGraph, DfgEdge}
use cgraomp.DataFlowGraph.{
  CgraDfg, is_equal_to, has_node, new_edge, add_node, connect_present, connect,
}
use cgraomp.DataFlowGraph.Steps.{equal_refl, first-none-any}
use cgraomp.DataFlowGraph.Links.{
  connect-leads, link-IsRooted, unlinked, unlinked-led, unlink-IsRooted, unlink-none,
}
use cgraomp.DataFlowGraph.Invariant.{
  IsRooted, with_node, with_node-nodes, new_edge_fresh, with_node-IsRooted,
}

-- What is found passes the test and is in the list.
first-some :
    (p : ℕ → Bool) (xs : List ℕ) (a : ℕ) → first p xs ≡ some a → (p a ≡ true) × (has a xs ≡ true)
unfolding first has
first-some p [] a h = cc
first-some p (x ∷ xs) a h = elim (Bool-cases (p x)) [
  | inl hit ↦
      let same : x ≡ a = some_inj (rw hit at h) in (subst (λ b. p b ≡ true) same hit, ground arith)
  | inr missed ↦ let (found, there) = first-some p xs a (rw missed at h) in (found, ground arith)
]

has-concat : (a : ℕ) (xs : List ℕ) → has a (xs ++ a ∷ []) ≡ true
unfolding has
has-concat a [] = ground arith
has-concat a (x ∷ xs) = ground (arith, has-concat a xs)

module _ (D : DirectedGraph) where
  open D use {Graph, nodes, get_edges, find_edges_to}

  -- A node that is new is returned and stands in the graph `with_node`.
  pub add_node-new :
      (n : ℕ) (d : CgraDfg D)
      → IsRooted D d
      → first (is_equal_to D d n) (nodes d.graph) ≡ none
      → add_node D n d ≡ (some n, with_node D n d)
  unfolding add_node new_edge is_equal_to
  add_node-new n d r e =
      let new = first-none-any (is_equal_to D d n) (nodes d.graph) e in
      let g = (D.add_node (is_equal_to D d) n d.graph).1 in
      rw
        (
          e,
          add_node,
          D.add_node_result (is_equal_to D d) n d.graph,
          new,
          D.connect_result d.virtual_root n (new_edge D n d) g,
          new_edge_fresh D n d r new,
        )
        refl

  pub add_node-old :
      (n : ℕ) (d : CgraDfg D) (v : ℕ)
      → first (is_equal_to D d n) (nodes d.graph) ≡ some v
      → add_node D n d ≡ (some v, d)
  unfolding add_node
  add_node-old n d v e = rw (e, add_node) refl

  -- A rooted graph stays rooted when a node is added: the virtual root is in it, with at most one
  -- edge to each node, and some edge leads to every other node. The call returns a node that
  -- stands in the graph and is equal to the one it was given, never null, and all nodes that were
  -- found in the graph still are.
  pub add_node-IsRooted :
      (n : ℕ) (d : CgraDfg D)
      → IsRooted D d
      → IsRooted D (add_node D n d).1
        × ((v : ℕ) × ((add_node D n d).0 ≡ some v)
            × (is_equal_to D d n v ≡ true)
            × (has v (nodes (add_node D n d).1.graph) ≡ true))
        × ((a : ℕ) → has_node D d a ≡ true → has_node D (add_node D n d).1 a ≡ true)
  unfolding has_node is_equal_to
  add_node-IsRooted n d r = elim (Option-cases (first (is_equal_to D d n) (nodes d.graph))) [
    | inl e ↦
        let new = first-none-any (is_equal_to D d n) (nodes d.graph) e in
        let ns = with_node-nodes D n d r new in
        rw (add_node-new n d r e) (
          with_node-IsRooted D n d r new,
          (n, refl, equal_refl D d n, rw ns (has-concat n (nodes d.graph))),
          λ a h. rw ns (any-append_left (is_equal_to D d a) (nodes d.graph) (n ∷ []) h),
        )
    | inr (v, e) ↦
        let (same, there) = first-some (is_equal_to D d n) (nodes d.graph) v e in
        rw (add_node-old n d v e) (r, (v, refl, same, there), (λ a h. h))
  ]

  -- What a connection promises: the graph stays rooted, an edge of the source leads to the target
  -- and none of the virtual root does, and the nodes and their IDs are the same.
  pub record IsConnected (s t : ℕ) (d d' : CgraDfg D) : Type 0 where
    pub rooted : IsRooted D d'
    pub led : any (λ x. is_equal_to D d x.target t) (get_edges d'.graph s) ≡ true
    pub not_root : find_edges_to (is_equal_to D d) d.virtual_root t d'.graph ≡ []
    pub same_nodes : nodes d'.graph ≡ nodes d.graph
    pub same_ids : d'.ids ≡ d.ids
    pub same_root : d'.virtual_root ≡ d.virtual_root

  connect_by_edges :
      (s t : ℕ) (e : DfgEdge) (d : CgraDfg D) (vs : List DfgEdge)
      → IsRooted D d
      → e.target ≡ t
      → eqb s d.virtual_root ≡ false
      → find_edges_to (is_equal_to D d) d.virtual_root t (D.connect s t e d.graph).1 ≡ vs
      → length vs ≤ 1
      → (b : Bool) × (d' : CgraDfg D) × (connect_present D s t e d ≡ ok (b, d'))
        × IsConnected s t d d'
  unfolding connect_present is_equal_to
  connect_by_edges s t e d [] r to other found few = (
    (D.connect s t e d.graph).0,
    record d { graph = (D.connect s t e d.graph).1 },
    rw (found, connect_present) refl,
    record {
      rooted = link-IsRooted D s t e d r other;
      led = connect-leads D d s t e to;
      not_root = found;
      same_nodes = D.nodes-connect s t e d.graph;
      same_ids = refl;
      same_root = refl;
    },
  )
  connect_by_edges s t e d (v ∷ []) r to other found few =
      let d1 : CgraDfg D = record d { graph = (D.connect s t e d.graph).1 } in
      let r1 = link-IsRooted D s t e d r other in
      let one =
        sym (D.find_edges_to-eq (is_equal_to D d) d.virtual_root t (D.connect s t e d.graph).1)
        ∙ found in
      let away : eqb d.virtual_root s ≡ false = ground arith in
      let led = connect-leads D d s t e to in
      (
        (D.connect s t e d.graph).0,
        unlinked D d1 r1 s t v one away led,
        rw (found, connect_present) refl,
        record {
          rooted = unlink-IsRooted D d1 r1 s t v one away led;
          led = unlinked-led D d1 r1 s t v one away led;
          not_root = unlink-none D d1 r1 s t v one away led;
          same_nodes =
              D.nodes-remove_edge d.virtual_root v d1.graph ∙ D.nodes-connect s t e d.graph;
          same_ids = refl;
          same_root = refl;
        },
      )
  connect_by_edges s t e d (v ∷ w ∷ vs) r to other found few = absurd (omega arith)

  -- In a rooted graph a connection between two nodes of the graph, from another node than the
  -- virtual root, by an edge to its target, returns: the assertions on the nodes and on the edges
  -- of the virtual root hold. The graph stays rooted, an edge of the source leads to the target,
  -- no edge of the virtual root does, and the nodes and their IDs are the same.
  pub connect-IsConnected :
      (s t : ℕ) (e : DfgEdge) (d : CgraDfg D)
      → IsRooted D d
      → e.target ≡ t
      → eqb s d.virtual_root ≡ false
      → has_node D d s ≡ true
      → has_node D d t ≡ true
      → (b : Bool) × (d' : CgraDfg D) × (connect D s t e d ≡ ok (b, d')) × IsConnected s t d d'
  unfolding is_equal_to connect
  connect-IsConnected s t e d r to other has_s has_t =
      let g = (D.connect s t e d.graph).1 in
      let r1 = link-IsRooted D s t e d r other in
      let few : length (find_edges_to (is_equal_to D d) d.virtual_root t g) ≤ 1 =
        rw (D.find_edges_to-eq (is_equal_to D d) d.virtual_root t g) (r1.single t) in
      let (b, d', made, c) =
        connect_by_edges s t e d (find_edges_to (is_equal_to D d) d.virtual_root t g) r to other
          refl few in
      (b, d', rw (connect, has_s, has_t) made, c)
