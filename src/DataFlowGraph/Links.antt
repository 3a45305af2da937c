-- ===== src/DataFlowGraph/Links.antt =====
-- An edge that is added, and an edge of the virtual root that is removed.
use cgraomp.Prelude.{
  ℕ, ◌<◌, ◌≡◌, refl, sym, subst, ◌∙◌, Bool, true, false, not, [], ◌∷◌, arith, eqb, any, keep, All,
  All-keep, keep-All, All-map, Bool-cases, ◌⊎◌, inl, inr, any-concat, any_mono, any-keep, keep_comm,
  length-keep,
}
use cgraomp.Directed.{DirectedGraph, DfgEdge, same_edge}
use cgraomp.DataFlowGraph.{CgraDfg, is_equal_to, has_node}
use cgraomp.DataFlowGraph.Steps.{equal_refl, equal_sym, equal_trans, keep-removed}
use cgraomp.DataFlowGraph.Invariant.{IsReached, IsRooted, eqb-true, connect-any}

module _ (D : DirectedGraph) where
  open D use {Graph, nodes, get_edges, find_edges_to}

  -- After a connection an edge of the source leads to the target.
  pub connect-leads :
      (d : CgraDfg D) (s t : ℕ) (e : DfgEdge)
      → e.target ≡ t
      → any (λ x. is_equal_to D d x.target t) (get_edges (D.connect s t e d.graph).1 s) ≡ true
  connect-leads d s t e to = elim (Bool-cases (any (same_edge e) (get_edges d.graph s))) [
    | inl old ↦ rw (D.get_edges-connect_old s t e d.graph old) (
        any_mono (same_edge e) (λ x. is_equal_to D d x.target t) (get_edges d.graph s)
          (λ x h. subst (λ k. is_equal_to D d k t ≡ true) (target_of x h) (equal_refl D d t)) old)
    | inr new ↦ rw (D.get_edges-connect_new s t e d.graph new) (
        any-concat (λ x. is_equal_to D d x.target t) (get_edges d.graph s) e
          (subst (λ k. is_equal_to D d k t ≡ true) (sym to) (equal_refl D d t)))
  ]
    where
      target_of : (x : DfgEdge) → same_edge e x ≡ true → t ≡ x.target
      target_of x h = sym to ∙ eqb-true D e.target x.target (ground arith)

  -- The graph stays rooted when an edge is added that does not leave the virtual root.
  pub link-IsRooted :
      (s t : ℕ) (e : DfgEdge) (d : CgraDfg D)
      → IsRooted D d
      → eqb s d.virtual_root ≡ false
      → IsRooted D (record d { graph = (D.connect s t e d.graph).1 })
  unfolding is_equal_to has_node
  link-IsRooted s t e d r other =
      let edges = D.get_edges-connect_other s t e d.graph d.virtual_root other in
      let ns = D.nodes-connect s t e d.graph in
      let d' : CgraDfg D = record d { graph = (D.connect s t e d.graph).1 } in
      record {
        root_there = rw ns r.root_there;
        known = rw (edges, ns) r.known;
        single = λ k. rw edges (r.single k);
        fresh = rw edges r.fresh;
        reached = rw ns (
            All-map (λ m. (m ≡ d.virtual_root) ⊎ IsReached D d m)
              (λ m. (m ≡ d.virtual_root) ⊎ IsReached D d' m) (nodes d.graph)
              (λ m h. elim h [
                | inl root ↦ inl root
                | inr (a, k) ↦
                    inr (a, connect-any D (λ x. is_equal_to D d x.target m) s t e d.graph a k)
              ])
              r.reached);
      }

  module _ (d : CgraDfg D) (r : IsRooted D d) (s t : ℕ) (v : DfgEdge)
      (one : keep (λ x. is_equal_to D d x.target t) (get_edges d.graph d.virtual_root) ≡ v ∷ [])
      (other : eqb d.virtual_root s ≡ false)
      (led : any (λ x. is_equal_to D d x.target t) (get_edges d.graph s) ≡ true) where
    abbrev pub unlinked : CgraDfg D
    unlinked = record d { graph = D.remove_edge d.virtual_root v d.graph }

    pub unlinked-led : any (λ x. is_equal_to D d x.target t) (get_edges unlinked.graph s) ≡ true
    unlinked-led = rw (D.get_edges-remove_other d.virtual_root v d.graph s other) led

    one_target : is_equal_to D d v.target t ≡ true
    one_target =
        let kept : All (λ x. is_equal_to D d x.target t ≡ true) (v ∷ []) =
          subst (All (λ x. is_equal_to D d x.target t ≡ true)) one
            (keep-All (λ x. is_equal_to D d x.target t) (get_edges d.graph d.virtual_root)) in
        kept.0

    -- An edge to a node that is not the target is another edge.
    survives :
        (m : ℕ)
        → is_equal_to D d m t ≡ false
        → (x : DfgEdge) → is_equal_to D d x.target m ≡ true
        → not (same_edge x v) ≡ true
    survives m apart x h = elim (Bool-cases (same_edge x v)) [
      | inr two ↦ rw two refl
      | inl same ↦
          let here : is_equal_to D d x.target t ≡ true =
            subst (λ k. is_equal_to D d k t ≡ true)
              (sym (eqb-true D x.target v.target (ground arith))) one_target in
          let meet = equal_trans D d m x.target t (equal_sym D d x.target m h) here in
          absurd (ground arith)
    ]

    unlinked-IsReached :
        (m : ℕ)
        → (m ≡ d.virtual_root) ⊎ IsReached D d m
        → (m ≡ d.virtual_root) ⊎ IsReached D unlinked m
    unfolding is_equal_to
    unlinked-IsReached m (inl root) = inl root
    unlinked-IsReached m (inr (a, h)) = elim (Bool-cases (is_equal_to D d m t)) [
      | inl hit ↦ inr (
        s,
        any_mono (λ x. is_equal_to D d x.target t) (λ x. is_equal_to D d x.target m)
            (get_edges unlinked.graph s)
            (λ x k. equal_trans D d x.target t m k (equal_sym D d m t hit)) unlinked-led,
      )
      | inr apart ↦ elim (Bool-cases (eqb d.virtual_root a)) [
        | inr elsewhere ↦
            inr (a, rw (D.get_edges-remove_other d.virtual_root v d.graph a elsewhere) h)
        | inl here ↦ inr (
          d.virtual_root,
          rw (D.get_edges-remove_edge d.virtual_root v d.graph) (
              any-keep (λ x. is_equal_to D d x.target m) (λ x. not (same_edge x v))
                (get_edges d.graph d.virtual_root) (survives m apart)
                (rw (eqb-true D d.virtual_root a here) h)),
        )
      ]
    ]

    pub unlink-IsRooted : IsRooted D unlinked
    unfolding is_equal_to has_node
    unlink-IsRooted =
        let q : DfgEdge → Bool = λ x. not (same_edge x v) in
        let es = get_edges d.graph d.virtual_root in
        let edges = D.get_edges-remove_edge d.virtual_root v d.graph in
        let ns = D.nodes-remove_edge d.virtual_root v d.graph in
        record {
          root_there = rw ns r.root_there;
          known =
              rw (edges, ns)
                (All-keep (λ x. any (is_equal_to D d x.target) (nodes d.graph) ≡ true) q es
                  r.known);
          single = λ k.
              let p : DfgEdge → Bool = λ x. is_equal_to D d x.target k in
              let fewer = length-keep q (keep p es) in
              let most = r.single k in rw (edges, keep_comm p q es) (omega arith);
          fresh = rw edges (All-keep (λ x. x.address < d.next_edge) q es r.fresh);
          reached = rw ns (
              All-map (λ m. (m ≡ d.virtual_root) ⊎ IsReached D d m)
                (λ m. (m ≡ d.virtual_root) ⊎ IsReached D unlinked m) (nodes d.graph)
                unlinked-IsReached r.reached);
        }

    pub unlink-none : find_edges_to (is_equal_to D d) d.virtual_root t unlinked.graph ≡ []
    unlink-none =
        let p : DfgEdge → Bool = λ x. is_equal_to D d x.target t in
        rw
          (
            D.find_edges_to-eq (is_equal_to D d) d.virtual_root t unlinked.graph,
            D.get_edges-remove_edge d.virtual_root v d.graph,
          )
          (keep-removed p v (get_edges d.graph d.virtual_root) one)
