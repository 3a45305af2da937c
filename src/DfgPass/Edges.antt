-- ===== src/DfgPass/Edges.antt =====
-- The edges of a node: they are made without a fault, and none is lost.
use cgraomp.Prelude.{
  ℕ, suc, ◌<◌, ◌≡◌, refl, ap, ◌∙◌, Bool, true, false, some, List, [], ◌∷◌, arith, eqb, any, All,
  All-map, Option-cases, inl, inr,
}
use cgraomp.Prelude.Int.{ℤ, pos, negsuc, eqb_ℤ}
use cgraomp.Errors.{ok}
use cgraomp.Directed.{DirectedGraph, DfgEdge, EdgeKind, normal}
use cgraomp.DataFlowGraph.{CgraDfg, is_equal_to, has_node, set_id}
use cgraomp.DataFlowGraph.Invariant.{IsRooted}
use cgraomp.DataFlowGraph.Operations.{connect-IsConnected}
use cgraomp.DataFlowGraph.Fresh.{connect_lem, connect-keeps, connect-adds}
use cgraomp.DfgPass.{
  Building, node_at, connect_edge, connect_nodes, connect_operand, connect_operands,
}
use cgraomp.DfgPass.Nodes.{IsBuilding, HasNode}

pub eqb_ℤ-same : (x : ℤ) → eqb_ℤ x x ≡ true
eqb_ℤ-same (pos n) = ground arith
eqb_ℤ-same (negsuc n) = ground arith

module _ (D : DirectedGraph) (root : ℕ) (ids : ℕ → ℤ) where
  next_edge-IsRooted :
      (d : CgraDfg D) → IsRooted D d → IsRooted D (record d { next_edge = suc d.next_edge })
  unfolding is_equal_to has_node
  next_edge-IsRooted d r = record {
    root_there = r.root_there;
    known = r.known;
    single = r.single;
    fresh =
        All-map (λ e. e.address < d.next_edge) (λ e. e.address < suc d.next_edge)
          (D.get_edges d.graph d.virtual_root) (λ e h. omega arith) r.fresh;
    reached = r.reached;
  }

  has_node-same :
      (d d' : CgraDfg D) (n : ℕ)
      → D.nodes d'.graph ≡ D.nodes d.graph
      → d'.ids ≡ d.ids
      → has_node D d n ≡ true
      → has_node D d' n ≡ true
  unfolding has_node is_equal_to
  has_node-same d d' n ns same h = rw (ns, same) h

  -- The IDs of nodes, with that of the virtual root.
  abbrev pub all_ids : ℕ → ℤ
  all_ids = set_id root (negsuc 0) ids

  -- An edge of the operand's node leads to the user's node.
  abbrev pub Leads : Building D → ℕ → ℕ → Type 0
  Leads b v operand =
      (n m : ℕ) × (node_at v b.value_to_node ≡ some n)
      × (node_at operand b.value_to_node ≡ some m)
      × (any (λ x. eqb_ℤ (all_ids x.target) (all_ids n)) (D.get_edges b.dfg.graph m) ≡ true)

  -- Edges are made, and none of them is lost.
  pub record IsStep (b b' : Building D) : Type 0 where
    pub building : IsBuilding D root ids b'
    pub same : b'.value_to_node ≡ b.value_to_node
    pub same_customs : b'.custom_ops ≡ b.custom_ops
    pub nodes_kept : (n : ℕ) → has_node D b.dfg n ≡ true → has_node D b'.dfg n ≡ true
    pub edges_kept :
        (p : DfgEdge → Bool) (m : ℕ)
        → eqb m root ≡ false
        → any p (D.get_edges b.dfg.graph m) ≡ true
        → any p (D.get_edges b'.dfg.graph m) ≡ true

  pub kept-Leads :
      (b b' : Building D) (v operand : ℕ) → IsStep b b' → Leads b v operand → Leads b' v operand
  kept-Leads b b' v operand s l =
      let (n, m, nv, mo, there) = l in
      let at = ap (node_at operand) s.same ∙ mo in
      (
        n,
        m,
        ap (node_at v) s.same ∙ nv,
        at,
        s.edges_kept (λ x. eqb_ℤ (all_ids x.target) (all_ids n)) m (s.building.apart operand m at)
            there,
      )

  pub IsStep-refl : (b : Building D) → IsBuilding D root ids b → IsStep b b
  IsStep-refl b h = record {
    building = h;
    same = refl;
    same_customs = refl;
    nodes_kept = λ n h. h;
    edges_kept = λ p m o k. k;
  }

  pub IsStep-trans : (a b c : Building D) → IsStep a b → IsStep b c → IsStep a c
  IsStep-trans a b c h k = record {
    building = k.building;
    same = k.same ∙ h.same;
    same_customs = k.same_customs ∙ h.same_customs;
    nodes_kept = λ n l. k.nodes_kept n (h.nodes_kept n l);
    edges_kept = λ p m o l. k.edges_kept p m o (h.edges_kept p m o l);
  }

  -- An edge from a node other than the virtual root is made, of any kind.
  pub connect_edge_lem :
      (src target i : ℕ) (kind : EdgeKind) (b : Building D)
      → IsBuilding D root ids b
      → eqb src root ≡ false
      → has_node D b.dfg src ≡ true
      → has_node D b.dfg target ≡ true
      → (b' : Building D) × (connect_edge D src target i kind b ≡ ok (true, b'))
        × IsStep b b'
        × ((p : DfgEdge → Bool)
            → p (record { address = b.dfg.next_edge; target = target; operand = i; kind = kind })
              ≡ true
            → any p (D.get_edges b'.dfg.graph src) ≡ true)
  unfolding connect_edge is_equal_to has_node
  connect_edge_lem src target i kind b h other has_src has_target =
      let edge : DfgEdge = record {
        address = b.dfg.next_edge;
        target = target;
        operand = i;
        kind = kind;
      } in
      let d : CgraDfg D = record b.dfg { next_edge = suc b.dfg.next_edge } in
      let away : eqb src d.virtual_root ≡ false = rw h.root_same other in
      let (new, d', f, c) =
        connect-IsConnected D src target edge d (next_edge-IsRooted b.dfg h.rooted) refl away
          has_src has_target in
      let kept : (n : ℕ) → has_node D b.dfg n ≡ true → has_node D d' n ≡ true =
        λ n l. has_node-same b.dfg d' n c.same_nodes c.same_ids l in
      let (really, fresh) = connect_lem D src target edge b.dfg new d' h.fresh refl f in
      let from_root : (m : ℕ) → eqb m root ≡ false → eqb d.virtual_root m ≡ false =
        λ m o. rw h.root_same (ground arith) in
      (
        record b { dfg = d' },
        rw (connect_edge, f, really) refl,
        record {
          building = record {
            rooted = c.rooted;
            fresh = fresh;
            root_same = c.same_root ∙ h.root_same;
            ids_same = c.same_ids ∙ h.ids_same;
            apart = h.apart;
            present = λ w m e. kept m (h.present w m e);
          };
          same = refl;
          same_customs = refl;
          nodes_kept = kept;
          edges_kept =
              λ p m o there. connect-keeps D p src target edge d new d' m f (from_root m o) there;
        },
        λ p holds.
            connect-adds D p src target edge b.dfg new d' h.fresh refl holds f
              (from_root src other),
      )

  pub connect_nodes_lem :
      (src target i : ℕ) (kind : EdgeKind) (b : Building D)
      → IsBuilding D root ids b
      → eqb src root ≡ false
      → has_node D b.dfg src ≡ true
      → has_node D b.dfg target ≡ true
      → (b' : Building D) × (connect_nodes D src target i kind b ≡ ok b')
        × IsStep b b'
        × ((p : DfgEdge → Bool)
            → p (record { address = b.dfg.next_edge; target = target; operand = i; kind = kind })
              ≡ true
            → any p (D.get_edges b'.dfg.graph src) ≡ true)
  unfolding connect_nodes
  connect_nodes_lem src target i kind b h other has_src has_target =
      let (b', f, s, there) = connect_edge_lem src target i kind b h other has_src has_target in
      (b', rw f refl, s, there)

  -- An edge of an operand.
  connect_operand_lem :
      (v target i operand : ℕ) (b : Building D)
      → IsBuilding D root ids b
      → node_at v b.value_to_node ≡ some target
      → (b' : Building D) × (connect_operand D (some target) i operand b ≡ ok b')
        × IsStep b b'
        × (HasNode D root ids b operand → Leads b' v operand)
  unfolding connect_operand
  connect_operand_lem v target i operand b h at =
      elim (Option-cases (node_at operand b.value_to_node)) [
        | inl e ↦ (b, rw (connect_operand, e) refl, IsStep-refl b h, (λ k. let (n, f) = k in cc))
        | inr (src, e) ↦
            let (b', f, s, there) =
              connect_nodes_lem src target i normal b h (h.apart operand src e)
                (h.present operand src e) (h.present v target at) in
            (
              b',
              rw (connect_operand, e) f,
              s,
              λ k. (
                target,
                src,
                ap (node_at v) s.same ∙ at,
                ap (node_at operand) s.same ∙ e,
                there (λ x. eqb_ℤ (all_ids x.target) (all_ids target))
                    (eqb_ℤ-same (all_ids target)),
              ),
            )
      ]

  pub connect_operands_lem :
      (v target i : ℕ) (operands : List ℕ) (b : Building D)
      → IsBuilding D root ids b
      → node_at v b.value_to_node ≡ some target
      → (b' : Building D) × (connect_operands D (some target) i operands b ≡ ok b')
        × IsStep b b'
        × All (λ o. HasNode D root ids b o → Leads b' v o) operands
  unfolding connect_operands
  connect_operands_lem v target i [] b h at = (b, refl, IsStep-refl b h, tt)
  connect_operands_lem v target i (operand ∷ rest) b h at =
      let (b1, e, s1, lead) = connect_operand_lem v target i operand b h at in
      let (b2, e', s2, leads) =
        connect_operands_lem v target (suc i) rest b1 s1.building (ap (node_at v) s1.same ∙ at) in
      (
        b2,
        rw (connect_operands, e) e',
        IsStep-trans b b1 b2 s1 s2,
        (
          λ k. kept-Leads b1 b2 v operand s2 (lead k),
          All-map (λ o. HasNode D root ids b1 o → Leads b2 v o)
              (λ o. HasNode D root ids b o → Leads b2 v o) rest
              (λ o f k. f (k.0, ap (node_at o) s1.same ∙ k.1)) leads,
        ),
      )
