-- ===== src/DataFlowGraph/Fresh.antt =====
-- The edges of a graph are older than the next one: an edge that is allocated is new.
use cgraomp.Prelude.{
  ℕ, suc, ◌<◌, ◌≡◌, refl, sym, subst, ◌∙◌, Bool, true, false, not, ◌&&◌, List, [], ◌∷◌, arith, eqb,
  any, any-concat, first, All, All-concat, All-keep, All-map, Bool-cases, Option-cases, ◌⊎◌, inl,
  inr,
}
use cgraomp.Prelude.Int.{ℤ}
use cgraomp.Errors.{Result, ok, fault, ok_inj, assertion_failed}
use cgraomp.Directed.{DirectedGraph, DfgEdge, same_edge}
use cgraomp.DataFlowGraph.{
  CgraDfg, is_equal_to, has_node, new_edge, add_node, connect_present, connect, new_dfg,
  create_virtual_root,
}
use cgraomp.DataFlowGraph.Steps.{fresh_edge}
use cgraomp.DataFlowGraph.Invariant.{IsRooted, eqb-true, connect-any}
use cgraomp.DataFlowGraph.Operations.{add_node-new, add_node-old}

module _ (D : DirectedGraph) where
  open D use {Graph, nodes, get_edges, find_edges_to}

  abbrev pub AllEdges : (DfgEdge → Type 0) → Graph → Type 0
  AllEdges P g = (a : ℕ) → All P (get_edges g a)

  abbrev pub IsFresh : CgraDfg D → Type 0
  IsFresh d = AllEdges (λ e. e.address < d.next_edge) d.graph

  connect-AllEdges :
      (P : DfgEdge → Type 0) (s t : ℕ) (e : DfgEdge) (g : Graph)
      → P e
      → AllEdges P g
      → AllEdges P (D.connect s t e g).1
  connect-AllEdges P s t e g p h a = elim (Bool-cases (eqb s a)) [
    | inr other ↦ rw (D.get_edges-connect_other s t e g a other) (h a)
    | inl here ↦
        subst (λ b. All P (get_edges (D.connect s t e g).1 b)) (eqb-true D s a here)
          (elim (Bool-cases (any (same_edge e) (get_edges g s))) [
            | inl old ↦ rw (D.get_edges-connect_old s t e g old) (h s)
            | inr new ↦
                rw (D.get_edges-connect_new s t e g new) (All-concat P (get_edges g s) e (h s) p)
          ])
  ]

  remove_edge-AllEdges :
      (P : DfgEdge → Type 0) (s : ℕ) (e : DfgEdge) (g : Graph)
      → AllEdges P g
      → AllEdges P (D.remove_edge s e g)
  remove_edge-AllEdges P s e g h a = elim (Bool-cases (eqb s a)) [
    | inr other ↦ rw (D.get_edges-remove_other s e g a other) (h a)
    | inl here ↦
        subst (λ b. All P (get_edges (D.remove_edge s e g) b)) (eqb-true D s a here)
          (rw (D.get_edges-remove_edge s e g)
            (All-keep P (λ x. not (same_edge x e)) (get_edges g s) (h s)))
  ]

  pub new_dfg-IsFresh : (root : ℕ) (ids : ℕ → ℤ) → IsFresh (new_dfg D root ids)
  unfolding new_dfg create_virtual_root
  new_dfg-IsFresh root ids a =
      let d = new_dfg D root ids in
      let same = is_equal_to D (record d { graph = D.empty }) in
      rw (D.get_edges-add_node same root D.empty a ∙ D.get_edges-empty a) tt

  -- What the addition of a node leaves as it is.
  pub add_node_lem :
      (n : ℕ) (d : CgraDfg D)
      → IsRooted D d
      → IsFresh d
      → IsFresh (add_node D n d).1
        × ((add_node D n d).1.ids ≡ d.ids)
        × ((add_node D n d).1.virtual_root ≡ d.virtual_root)
  unfolding new_edge
  add_node_lem n d r h = elim (Option-cases (first (is_equal_to D d n) (nodes d.graph))) [
    | inr (v, e) ↦ rw (add_node-old D n d v e) (h, refl, refl)
    | inl e ↦
        let older : DfgEdge → Type 0 = λ x. x.address < suc d.next_edge in
        rw (add_node-new D n d r e) (
          connect-AllEdges older d.virtual_root n (new_edge D n d)
              (D.add_node (is_equal_to D d) n d.graph).1 (omega arith)
              (λ a. rw (D.get_edges-add_node (is_equal_to D d) n d.graph a) (
                All-map (λ x. x.address < d.next_edge) older (get_edges d.graph a)
                  (λ x k. omega arith) (h a))),
          refl,
          refl,
        )
  ]

  -- The edges of a node other than the virtual root are the same when a node is added.
  pub add_node-edges :
      (n : ℕ) (d : CgraDfg D) (a : ℕ)
      → IsRooted D d
      → eqb d.virtual_root a ≡ false
      → get_edges (add_node D n d).1.graph a ≡ get_edges d.graph a
  add_node-edges n d a r other = elim (Option-cases (first (is_equal_to D d n) (nodes d.graph))) [
    | inr (v, e) ↦ rw (add_node-old D n d v e) refl
    | inl e ↦
        let g = (D.add_node (is_equal_to D d) n d.graph).1 in
        rw (add_node-new D n d r e) (
          D.get_edges-connect_other d.virtual_root n (new_edge D n d) g a other
          ∙ D.get_edges-add_node (is_equal_to D d) n d.graph a)
  ]

  -- What a connection returns, and the graph that it leaves.
  pub record IsAfter (s t : ℕ) (e : DfgEdge) (d : CgraDfg D) (b : Bool) (d' : CgraDfg D)
      : Type 0 where
    pub result : b ≡ (D.connect s t e d.graph).0
    pub next : d'.next_edge ≡ d.next_edge
    pub graphs :
        (d'.graph ≡ (D.connect s t e d.graph).1)
        ⊎ ((v : DfgEdge) × (d'.graph ≡ D.remove_edge d.virtual_root v (D.connect s t e d.graph).1))

  connect-IsAfter :
      (s t : ℕ) (e : DfgEdge) (d : CgraDfg D) (b : Bool) (d' : CgraDfg D)
      → connect D s t e d ≡ ok (b, d')
      → IsAfter s t e d b d'
  unfolding connect connect_present is_equal_to
  connect-IsAfter s t e d b d' f = by_presence (has_node D d s && has_node D d t) f
    where
      linked : CgraDfg D
      linked = record d { graph = (D.connect s t e d.graph).1 }

      unlinked_by : DfgEdge → CgraDfg D
      unlinked_by v = record d {
        graph = D.remove_edge d.virtual_root v (D.connect s t e d.graph).1;
      }

      by_found :
          (vs : List DfgEdge)
          → elim vs as (λ k. Result (Bool × CgraDfg D)) [
            | [] ↦ ok ((D.connect s t e d.graph).0, linked)
            | v ∷ rest ↦ elim rest as (λ k. Result (Bool × CgraDfg D)) [
              | [] ↦ ok ((D.connect s t e d.graph).0, unlinked_by v)
              | w ∷ ws ↦ fault assertion_failed
            ]
          ]
            ≡ ok (b, d')
          → IsAfter s t e d b d'
      by_found [] k =
          subst (λ p. IsAfter s t e d p.0 p.1) (ok_inj k)
            (record { result = refl; next = refl; graphs = inl refl })
      by_found (v ∷ []) k =
          subst (λ p. IsAfter s t e d p.0 p.1) (ok_inj k)
            (record { result = refl; next = refl; graphs = inr (v, refl) })
      by_found (v ∷ w ∷ ws) k = cc

      by_presence :
          (there : Bool)
          → elim there as (λ k. Result (Bool × CgraDfg D)) [
            | true ↦ connect_present D s t e d
            | false ↦ fault assertion_failed
          ]
            ≡ ok (b, d')
          → IsAfter s t e d b d'
      by_presence true k =
          by_found (find_edges_to (is_equal_to D d) d.virtual_root t (D.connect s t e d.graph).1) k
      by_presence false k = cc

  -- A connection by an edge that is new: true is returned, and all edges are older than the next.
  pub connect_lem :
      (s t : ℕ) (e : DfgEdge) (d : CgraDfg D) (b : Bool) (d' : CgraDfg D)
      → IsFresh d
      → e.address ≡ d.next_edge
      → connect D s t e (record d { next_edge = suc d.next_edge }) ≡ ok (b, d')
      → (b ≡ true) × IsFresh d'
  connect_lem s t e d b d' h at f =
      let after = connect-IsAfter s t e (record d { next_edge = suc d.next_edge }) b d' f in
      let g = (D.connect s t e d.graph).1 in
      let older : DfgEdge → Type 0 = λ x. x.address < suc d.next_edge in
      let all : AllEdges older g = connect-AllEdges older s t e d.graph (omega arith) (λ a.
        All-map (λ x. x.address < d.next_edge) older (get_edges d.graph a) (λ x k. omega arith)
          (h a)) in
      (
        after.result
            ∙ D.connect_result s t e d.graph
            ∙ rw (fresh_edge e d.next_edge (get_edges d.graph s) at (h s)) refl,
        rw after.next (elim after.graphs [
          | inl same ↦ subst (AllEdges older) (sym same) all
          | inr (v, same) ↦
              subst (AllEdges older) (sym same) (remove_edge-AllEdges older d.virtual_root v g all)
        ]),
      )

  -- What is found among the edges of a node other than the virtual root, with the new edge, is found
  -- when the virtual root is no longer connected to the target.
  unlinked-any :
      (p : DfgEdge → Bool) (s t : ℕ) (e : DfgEdge) (d : CgraDfg D) (b : Bool) (d' : CgraDfg D)
      (a : ℕ)
      → connect D s t e d ≡ ok (b, d')
      → eqb d.virtual_root a ≡ false
      → any p (get_edges (D.connect s t e d.graph).1 a) ≡ true
      → any p (get_edges d'.graph a) ≡ true
  unlinked-any p s t e d b d' a f other linked = elim (connect-IsAfter s t e d b d' f).graphs [
    | inl same ↦ subst (λ g. any p (get_edges g a) ≡ true) (sym same) linked
    | inr (v, same) ↦
        subst (λ g. any p (get_edges g a) ≡ true) (sym same)
          (rw (D.get_edges-remove_other d.virtual_root v (D.connect s t e d.graph).1 a other)
            linked)
  ]

  -- What is found among the edges of a node other than the virtual root is still found.
  pub connect-keeps :
      (p : DfgEdge → Bool) (s t : ℕ) (e : DfgEdge) (d : CgraDfg D) (b : Bool) (d' : CgraDfg D)
      (a : ℕ)
      → connect D s t e d ≡ ok (b, d')
      → eqb d.virtual_root a ≡ false
      → any p (get_edges d.graph a) ≡ true
      → any p (get_edges d'.graph a) ≡ true
  connect-keeps p s t e d b d' a f other h =
      unlinked-any p s t e d b d' a f other (connect-any D p s t e d.graph a h)

  -- An edge that is new is among the edges of its source.
  pub connect-adds :
      (p : DfgEdge → Bool) (s t : ℕ) (e : DfgEdge) (d : CgraDfg D) (b : Bool) (d' : CgraDfg D)
      → IsFresh d
      → e.address ≡ d.next_edge
      → p e ≡ true
      → connect D s t e (record d { next_edge = suc d.next_edge }) ≡ ok (b, d')
      → eqb d.virtual_root s ≡ false
      → any p (get_edges d'.graph s) ≡ true
  connect-adds p s t e d b d' h at holds f other =
      let new = fresh_edge e d.next_edge (get_edges d.graph s) at (h s) in
      unlinked-any p s t e (record d { next_edge = suc d.next_edge }) b d' s f other
        (rw (D.get_edges-connect_new s t e d.graph new)
          (any-concat p (get_edges d.graph s) e holds))
