-- ===== src/DataFlowGraph/Invariant.antt =====
-- The edges of the virtual root, and the nodes that edges lead to.
use cgraomp.Prelude.{
  ℕ, suc, ◌≤◌, ◌<◌, ◌≡◌, refl, ap, subst, ◌∙◌, Bool, true, false, List, [], ◌∷◌, ◌++◌, arith, eqb,
  any, keep, length, All, All-concat, All-map, Bool-cases, ◌⊎◌, inl, inr, any-append_left,
  any-concat, keep-concat, keep-empty,
}
use cgraomp.Prelude.Int.{ℤ}
use cgraomp.Directed.{DirectedGraph, DfgEdge, same_edge}
use cgraomp.DataFlowGraph.{CgraDfg, is_equal_to, has_node, new_edge, new_dfg, create_virtual_root}
use cgraomp.DataFlowGraph.Steps.{equal_refl, no_edge_to_new, fresh_edge}

module _ (D : DirectedGraph) where
  open D use {Graph, nodes, get_edges}

  -- Some edge leads to a node.
  abbrev pub IsReached : CgraDfg D → ℕ → Type 0
  IsReached d n = (a : ℕ) × (any (λ e. is_equal_to D d e.target n) (get_edges d.graph a) ≡ true)

  -- The virtual root is in the graph. Its edges lead to nodes of the graph, at most one to each, and are older
  -- than the next edge; some edge leads to every other node.
  pub record IsRooted (d : CgraDfg D) : Type 0 where
    pub root_there : has_node D d d.virtual_root ≡ true
    pub known :
        All
          (λ e. any (is_equal_to D d e.target) (nodes d.graph) ≡ true)
          (get_edges d.graph d.virtual_root)
    pub single :
        (t : ℕ)
        → length (keep (λ e. is_equal_to D d e.target t) (get_edges d.graph d.virtual_root)) ≤ 1
    pub fresh : All (λ e. e.address < d.next_edge) (get_edges d.graph d.virtual_root)
    pub reached : All (λ n. (n ≡ d.virtual_root) ⊎ IsReached d n) (nodes d.graph)

  -- A graph of the virtual root alone.
  pub new_dfg-IsRooted : (root : ℕ) (ids : ℕ → ℤ) → IsRooted (new_dfg D root ids)
  unfolding new_dfg create_virtual_root any keep has_node
  new_dfg-IsRooted root ids =
      let d = new_dfg D root ids in
      let same = is_equal_to D (record d { graph = D.empty }) in
      let none_there : any (same root) (nodes D.empty) ≡ false = rw D.nodes-empty refl in
      let edges : get_edges d.graph root ≡ [] =
        D.get_edges-add_node same root D.empty root ∙ D.get_edges-empty root in
      let ns : nodes d.graph ≡ root ∷ [] =
        D.nodes-add_node same root D.empty none_there ∙ ap (λ ns. ns ++ root ∷ []) D.nodes-empty in
      record {
        root_there = rw ns (rw (equal_refl D d root) refl);
        known = rw edges tt;
        single = λ t. rw edges (omega arith);
        fresh = rw edges tt;
        reached = rw ns (inl refl, tt);
      }

  pub eqb-true : (a b : ℕ) → eqb a b ≡ true → a ≡ b
  eqb-true a b h = ground arith

  -- What is found among the edges of a node is found behind a connection.
  pub connect-any :
      (p : DfgEdge → Bool) (s t : ℕ) (e : DfgEdge) (g : Graph) (a : ℕ)
      → any p (get_edges g a) ≡ true
      → any p (get_edges (D.connect s t e g).1 a) ≡ true
  connect-any p s t e g a h = elim (Bool-cases (eqb s a)) [
    | inr other ↦ rw (D.get_edges-connect_other s t e g a other) h
    | inl here ↦
        subst (λ b. any p (get_edges (D.connect s t e g).1 b) ≡ true) (eqb-true s a here)
          (elim (Bool-cases (any (same_edge e) (get_edges g s))) [
            | inl old ↦ rw (D.get_edges-connect_old s t e g old, eqb-true s a here) h
            | inr new ↦
                rw (D.get_edges-connect_new s t e g new)
                  (any-append_left p (get_edges g s) (e ∷ []) (rw (eqb-true s a here) h))
          ])
  ]

  -- The graph in which a new node was connected to the virtual root.
  abbrev pub with_node : ℕ → CgraDfg D → CgraDfg D
  with_node n d =
      let g = (D.add_node (is_equal_to D d) n d.graph).1 in
      record d {
        graph = (D.connect d.virtual_root n (new_edge D n d) g).1;
        next_edge = suc d.next_edge;
      }

  module _ (n : ℕ) (d : CgraDfg D) (r : IsRooted d)
      (new : any (is_equal_to D d n) (nodes d.graph) ≡ false) where
    abbrev added_graph : Graph
    added_graph = (D.add_node (is_equal_to D d) n d.graph).1

    pub with_node-nodes : nodes (with_node n d).graph ≡ nodes d.graph ++ n ∷ []
    with_node-nodes =
        D.nodes-connect d.virtual_root n (new_edge D n d) added_graph
        ∙ D.nodes-add_node (is_equal_to D d) n d.graph new

    pub new_edge_fresh :
        any (same_edge (new_edge D n d)) (get_edges added_graph d.virtual_root) ≡ false
    unfolding new_edge
    new_edge_fresh =
        rw (D.get_edges-add_node (is_equal_to D d) n d.graph d.virtual_root)
          (fresh_edge (new_edge D n d) d.next_edge (get_edges d.graph d.virtual_root) refl r.fresh)

    with_node-edges :
        get_edges (with_node n d).graph d.virtual_root
        ≡ get_edges d.graph d.virtual_root ++ new_edge D n d ∷ []
    with_node-edges =
        D.get_edges-connect_new d.virtual_root n (new_edge D n d) added_graph new_edge_fresh
        ∙ ap (λ es. es ++ new_edge D n d ∷ [])
            (D.get_edges-add_node (is_equal_to D d) n d.graph d.virtual_root)

    with_node-IsReached :
        (m : ℕ)
        → (m ≡ d.virtual_root) ⊎ IsReached d m
        → (m ≡ d.virtual_root) ⊎ IsReached (with_node n d) m
    unfolding is_equal_to
    with_node-IsReached m (inl root) = inl root
    with_node-IsReached m (inr (a, h)) = inr (
      a,
      connect-any (λ e. is_equal_to D d e.target m) d.virtual_root n (new_edge D n d) added_graph a
          (rw (D.get_edges-add_node (is_equal_to D d) n d.graph a) h),
    )

    with_node-single :
        (t : ℕ)
        → length (
            keep (λ e. is_equal_to D d e.target t) (get_edges (with_node n d).graph d.virtual_root))
          ≤ 1
    unfolding new_edge
    with_node-single t =
        let es = get_edges d.graph d.virtual_root in
        let p : DfgEdge → Bool = λ e. is_equal_to D d e.target t in
        rw (with_node-edges, keep-concat p es (new_edge D n d))
          (elim (Bool-cases (is_equal_to D d n t)) [
            | inl hit ↦
                rw
                  (keep-empty p es (no_edge_to_new D d (nodes d.graph) n t es new hit r.known), hit)
                  (omega arith)
            | inr missed ↦ rw missed (one_more (keep p es) (r.single t))
          ])
      where
        one_more : (xs : List DfgEdge) → length xs ≤ 1 → length (xs ++ []) ≤ 1
        one_more [] h = h
        one_more (x ∷ []) h = h
        one_more (x ∷ y ∷ xs) h = absurd (omega arith)

    pub with_node-IsRooted : IsRooted (with_node n d)
    unfolding is_equal_to new_edge has_node
    with_node-IsRooted =
        let e = new_edge D n d in
        let ns = nodes d.graph in
        record {
          root_there =
              rw with_node-nodes
                (any-append_left (is_equal_to D d d.virtual_root) ns (n ∷ []) r.root_there);
          known =
              rw (with_node-edges, with_node-nodes)
                (All-concat (λ x. any (is_equal_to D d x.target) (ns ++ n ∷ []) ≡ true)
                  (get_edges d.graph d.virtual_root) e
                  (All-map (λ x. any (is_equal_to D d x.target) ns ≡ true)
                    (λ x. any (is_equal_to D d x.target) (ns ++ n ∷ []) ≡ true)
                    (get_edges d.graph d.virtual_root)
                    (λ x h. any-append_left (is_equal_to D d x.target) ns (n ∷ []) h) r.known)
                  (any-concat (is_equal_to D d n) ns n (equal_refl D d n)));
          single = with_node-single;
          fresh = rw with_node-edges (
              All-concat (λ x. x.address < suc d.next_edge) (get_edges d.graph d.virtual_root) e
                (All-map (λ x. x.address < d.next_edge) (λ x. x.address < suc d.next_edge)
                  (get_edges d.graph d.virtual_root) (λ x h. omega arith) r.fresh)
                (omega arith));
          reached = rw with_node-nodes (
              All-concat (λ m. (m ≡ d.virtual_root) ⊎ IsReached (with_node n d) m) ns n
                (All-map (λ m. (m ≡ d.virtual_root) ⊎ IsReached d m)
                  (λ m. (m ≡ d.virtual_root) ⊎ IsReached (with_node n d) m) ns with_node-IsReached
                  r.reached)
                (inr (
                  d.virtual_root,
                  rw with_node-edges (
                      any-concat (λ x. is_equal_to D d x.target n)
                        (get_edges d.graph d.virtual_root) e (equal_refl D d n)),
                )));
        }
