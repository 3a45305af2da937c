-- ===== src/TmDfg/Grown.antt =====
-- How the graph of a kernel grows: nodes and edges are added, and none is lost.
use cgraomp.Prelude.{
  ℕ, ◌≡◌, refl, sym, ap, subst, ◌∙◌, Bool, true, false, Option, some, List, [], ◌∷◌, arith, eqb,
  any, any_mono, Bool-cases, inl, inr, if◌then◌else◌, some_inj,
}
use cgraomp.Prelude.Int.{ℤ, negsuc, eqb_ℤ}
use cgraomp.Directed.{DirectedGraph, DfgEdge}
use cgraomp.DataFlowGraph.{is_equal_to, CgraDfg, has_node, add_node}
use cgraomp.DataFlowGraph.Steps.{equal_trans}
use cgraomp.DataFlowGraph.Operations.{add_node-IsRooted}
use cgraomp.DataFlowGraph.Fresh.{add_node_lem, add_node-edges}
use cgraomp.DfgPass.{Building, assign_node, node_at, add_value}
use cgraomp.DfgPass.Nodes.{
  IsBuilding, HasNode, has-has_node, Extends, node_at-assign_node, equal_apart,
}
use cgraomp.DfgPass.Edges.{IsStep, all_ids}
use cgraomp.TmDfg.{is_node_exist}

is_node_exist-assign_node :
    (w v : ℕ) (n : Option ℕ) (m : List (ℕ × Option ℕ))
    → is_node_exist w (assign_node v n m) ≡ (if eqb v w then true else is_node_exist w m)
unfolding is_node_exist assign_node
is_node_exist-assign_node w v n [] = ground arith
is_node_exist-assign_node w v n ((u, k) ∷ rest) =
    ground (arith, is_node_exist-assign_node w v n rest)

module _ (D : DirectedGraph) (root : ℕ) (ids : ℕ → ℤ) where
  -- An address of a node that is made: neither it nor its ID is that of the virtual root.
  abbrev pub IsOther : ℕ → Type 0
  IsOther a = (eqb root a ≡ false) × (eqb_ℤ (ids a) (negsuc 0) ≡ false)

  -- A value that is entered has a node.
  abbrev pub IsSolid : Building D → Type 0
  IsSolid b = (v : ℕ) → is_node_exist v b.value_to_node ≡ true → HasNode D root ids b v

  pub record IsGrown (b b' : Building D) : Type 0 where
    pub building : IsBuilding D root ids b'
    pub solid : IsSolid b'
    pub extends : Extends D root ids b b'
    pub same_customs : b'.custom_ops ≡ b.custom_ops
    pub nodes_kept : (n : ℕ) → has_node D b.dfg n ≡ true → has_node D b'.dfg n ≡ true
    pub edges_kept :
        (p : DfgEdge → Bool) (m : ℕ)
        → eqb m root ≡ false
        → any p (D.get_edges b.dfg.graph m) ≡ true
        → any p (D.get_edges b'.dfg.graph m) ≡ true

  pub IsGrown-refl : (b : Building D) → IsBuilding D root ids b → IsSolid b → IsGrown b b
  IsGrown-refl b h k = record {
    building = h;
    solid = k;
    extends = λ v k. k;
    same_customs = refl;
    nodes_kept = λ n h. h;
    edges_kept = λ p m o k. k;
  }

  pub IsGrown-trans : (a b c : Building D) → IsGrown a b → IsGrown b c → IsGrown a c
  IsGrown-trans a b c h k = record {
    building = k.building;
    solid = k.solid;
    extends = λ v n. k.extends v (h.extends v n);
    same_customs = k.same_customs ∙ h.same_customs;
    nodes_kept = λ n l. k.nodes_kept n (h.nodes_kept n l);
    edges_kept = λ p m o l. k.edges_kept p m o (h.edges_kept p m o l);
  }

  -- Steps, which only make edges.
  pub IsStep-IsGrown : (b b' : Building D) → IsSolid b → IsStep D root ids b b' → IsGrown b b'
  IsStep-IsGrown b b' solid s = record {
    building = s.building;
    solid = λ v e.
        let k = solid v (subst (λ m. is_node_exist v m ≡ true) s.same e) in
        (k.0, ap (node_at v) s.same ∙ k.1);
    extends = λ v k. (k.0, ap (node_at v) s.same ∙ k.1);
    same_customs = s.same_customs;
    nodes_kept = s.nodes_kept;
    edges_kept = s.edges_kept;
  }

  -- A node is entered for a value.
  pub assign-IsGrown :
      (v n : ℕ) (b : Building D)
      → IsBuilding D root ids b
      → IsSolid b
      → eqb n root ≡ false
      → has_node D b.dfg n ≡ true
      → let b' : Building D = record b { value_to_node = assign_node v (some n) b.value_to_node } in
        IsGrown b b' × (node_at v b'.value_to_node ≡ some n)
  assign-IsGrown v n b h solid other there_is =
      let after : (w : ℕ)
          → node_at w (assign_node v (some n) b.value_to_node)
            ≡ (if eqb v w then some n else node_at w b.value_to_node) =
        λ w. node_at-assign_node w v (some n) b.value_to_node in
      let self : eqb v v ≡ true = ground arith in
      (
        record {
          building = record {
            rooted = h.rooted;
            fresh = h.fresh;
            root_same = h.root_same;
            ids_same = h.ids_same;
            apart = λ w m e. elim (Bool-cases (eqb v w)) [
              | inl here ↦
                  subst (λ k. eqb k root ≡ false) (some_inj (rw (after w, here) at e)) other
              | inr there ↦ h.apart w m (rw (after w, there) at e)
            ];
            present = λ w m e. elim (Bool-cases (eqb v w)) [
              | inl here ↦
                  subst (λ k. has_node D b.dfg k ≡ true) (some_inj (rw (after w, here) at e))
                    there_is
              | inr there ↦ h.present w m (rw (after w, there) at e)
            ];
          };
          solid = λ w e. elim (Bool-cases (eqb v w)) [
            | inl here ↦ (n, rw (after w, here) refl)
            | inr there ↦
                let exists : is_node_exist w b.value_to_node ≡ true =
                  rw (is_node_exist-assign_node w v (some n) b.value_to_node, there) at e in
                let k = solid w exists in (k.0, rw (after w, there) k.1)
          ];
          extends = λ w k. elim (Bool-cases (eqb v w)) [
            | inl here ↦ (n, rw (after w, here) refl)
            | inr there ↦ (k.0, rw (after w, there) k.1)
          ];
          same_customs = refl;
          nodes_kept = λ m k. k;
          edges_kept = λ p m o k. k;
        },
        rw (after v, self) refl,
      )

  -- A node that is equal to one in the graph is found in it.
  equal-has_node :
      (d : CgraDfg D) (a n : ℕ)
      → is_equal_to D d a n ≡ true
      → has_node D d n ≡ true
      → has_node D d a ≡ true
  unfolding has_node
  equal-has_node d a n same =
      any_mono (is_equal_to D d n) (is_equal_to D d a) (D.nodes d.graph)
        (λ x h. equal_trans D d a n x same h)

  -- A node is added to the graph.
  pub add_node-IsGrown :
      (a : ℕ) (b : Building D)
      → IsBuilding D root ids b
      → IsSolid b
      → IsOther a
      → (n : ℕ) × ((add_node D a b.dfg).0 ≡ some n)
        × (eqb n root ≡ false)
        × (eqb_ℤ (all_ids D root ids a) (all_ids D root ids n) ≡ true)
        × (has_node D (add_node D a b.dfg).1 a ≡ true)
        × (has_node D (add_node D a b.dfg).1 n ≡ true)
        × IsGrown b (record b { dfg = (add_node D a b.dfg).1 })
  unfolding is_equal_to
  add_node-IsGrown a b h solid other =
      let (r, (n, found, same, there), kept_node) = add_node-IsRooted D a b.dfg h.rooted in
      let (f, i, s) = add_node_lem D a b.dfg h.rooted h.fresh in
      let d1 = (add_node D a b.dfg).1 in
      let in_graph = has-has_node D root ids d1 n there in
      let away =
        equal_apart D root ids (λ v. a) (λ v. other.0) (λ v. other.1) b.dfg 0 n h.ids_same same in
      (
        n,
        found,
        away,
        subst (λ f. eqb_ℤ (f a) (f n) ≡ true) h.ids_same same,
        equal-has_node d1 a n (rw i same) in_graph,
        in_graph,
        record {
          building = record {
            rooted = r;
            fresh = f;
            root_same = s ∙ h.root_same;
            ids_same = i ∙ h.ids_same;
            apart = h.apart;
            present = λ w m e. kept_node m (h.present w m e);
          };
          solid = solid;
          extends = λ v k. k;
          same_customs = refl;
          nodes_kept = kept_node;
          edges_kept = λ p m o k.
              let from_root : eqb b.dfg.virtual_root m ≡ false = rw h.root_same (ground arith) in
              subst (λ es. any p es ≡ true) (sym (add_node-edges D a b.dfg m h.rooted from_root)) k;
        },
      )

  -- A node is added and entered for a value.
  pub add_value-IsGrown :
      (node_of : ℕ → ℕ) (v : ℕ) (b : Building D)
      → IsBuilding D root ids b
      → IsSolid b
      → IsOther (node_of v)
      → (n : ℕ) × ((add_value D node_of v b).0 ≡ some n)
        × IsGrown b (add_value D node_of v b).1
        × (node_at v (add_value D node_of v b).1.value_to_node ≡ some n)
  unfolding add_value
  add_value-IsGrown node_of v b h solid other =
      let (n, found, away, same_id, own, there, g) = add_node-IsGrown (node_of v) b h solid other in
      let b1 : Building D = record b { dfg = (add_node D (node_of v) b.dfg).1 } in
      let (g', at) = assign-IsGrown v n b1 g.building g.solid away there in
      let b2 : Building D = record b1 { value_to_node = assign_node v (some n) b.value_to_node } in
      (n, found, rw found (IsGrown-trans b b1 b2 g g'), rw found at)
