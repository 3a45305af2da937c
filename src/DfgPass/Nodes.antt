-- ===== src/DfgPass/Nodes.antt =====
-- The nodes of the data-flow graph of a kernel.
use cgraomp.Prelude.{
  ℕ, ◌≡◌, refl, ap, subst, ◌∙◌, Bool, true, false, Option, some, List, [], ◌∷◌, arith, eqb, has,
  any, insert_new, All, Bool-cases, inl, inr, if◌then◌else◌, some_inj,
}
use cgraomp.Prelude.Int.{ℤ, negsuc, eqb_ℤ}
use cgraomp.Errors.{Result, ok, ◌>>=◌, deref}
use cgraomp.Llvm.{Llvm}
use cgraomp.Annotation.{Table}
use cgraomp.InstMap.{EntryPtr}
use cgraomp.Model.{CgraModel, is_supported}
use cgraomp.AffineAg.{Compatibility, find_config}
use cgraomp.Directed.{DirectedGraph}
use cgraomp.DataFlowGraph.{
  CgraDfg, is_equal_to, has_node, set_id, new_dfg, create_virtual_root, add_node,
}
use cgraomp.DataFlowGraph.Steps.{equal_refl}
use cgraomp.DataFlowGraph.Invariant.{IsRooted, new_dfg-IsRooted}
use cgraomp.DataFlowGraph.Operations.{add_node-IsRooted}
use cgraomp.DataFlowGraph.Fresh.{IsFresh, new_dfg-IsFresh, add_node_lem}
use cgraomp.DfgPass.{
  Building, assign_node, node_at, add_value, add_mems, add_invars, add_comps, is_custom,
}

pub node_at-assign_node :
    (w v : ℕ) (n : Option ℕ) (m : List (ℕ × Option ℕ))
    → node_at w (assign_node v n m) ≡ (if eqb v w then n else node_at w m)
unfolding node_at assign_node
node_at-assign_node w v n [] = ground arith
node_at-assign_node w v n ((u, k) ∷ rest) = ground (arith, node_at-assign_node w v n rest)

module _ (L : Llvm) (as_instruction : ℕ → Option L.Instruction) (cached : Option (Table L))
    (model : CgraModel L) where
  -- An instruction that the model supports.
  abbrev pub IsComputed : ℕ → Type 0
  IsComputed v =
      (i : L.Instruction) × (p : EntryPtr L) × (as_instruction v ≡ some i)
      × (is_supported L cached i model ≡ ok (some p))

has-any : (p : ℕ → Bool) (n : ℕ) (xs : List ℕ) → p n ≡ true → has n xs ≡ true → any p xs ≡ true
unfolding has any
has-any p n [] h there = cc
has-any p n (x ∷ xs) h there = elim (Bool-cases (eqb n x)) [
  | inl same ↦
      let at : n ≡ x = ground arith in let hit = subst (λ k. p k ≡ true) at h in rw hit refl
  | inr other ↦ let rest = has-any p n xs h (ground arith) in ground arith
]

module _ (D : DirectedGraph) (root : ℕ) (ids : ℕ → ℤ) where
  -- The graph is rooted; the nodes of values are in it, and other nodes than the virtual root.
  pub record IsBuilding (b : Building D) : Type 0 where
    pub rooted : IsRooted D b.dfg
    pub fresh : IsFresh D b.dfg
    pub root_same : b.dfg.virtual_root ≡ root
    pub ids_same : b.dfg.ids ≡ set_id root (negsuc 0) ids
    pub apart : (v n : ℕ) → node_at v b.value_to_node ≡ some n → eqb n root ≡ false
    pub present : (v n : ℕ) → node_at v b.value_to_node ≡ some n → has_node D b.dfg n ≡ true

  -- A node that stands in the graph is found in it.
  pub has-has_node :
      (d : CgraDfg D) (n : ℕ) → has n (D.nodes d.graph) ≡ true → has_node D d n ≡ true
  unfolding has_node
  has-has_node d n h = has-any (is_equal_to D d n) n (D.nodes d.graph) (equal_refl D d n) h

  abbrev pub HasNode : Building D → ℕ → Type 0
  HasNode b v = (n : ℕ) × (node_at v b.value_to_node ≡ some n)

  -- Every node that is entered for a value is in the graph.
  abbrev pub AllPresent : Building D → Type 0
  AllPresent b = (v n : ℕ) → node_at v b.value_to_node ≡ some n → has_node D b.dfg n ≡ true

  abbrev pub Extends : Building D → Building D → Type 0
  Extends b b' = (v : ℕ) → HasNode b v → HasNode b' v

  pub flagged_IsBuilding :
      (c : Bool) (vs : List ℕ) (b : Building D)
      → IsBuilding b
      → IsBuilding (if c then record b { custom_ops = vs } else b)
  flagged_IsBuilding false vs b h = h
  flagged_IsBuilding true vs b h = record {
    rooted = h.rooted;
    fresh = h.fresh;
    root_same = h.root_same;
    ids_same = h.ids_same;
    apart = h.apart;
    present = h.present;
  }

  pub flagged_same :
      (c : Bool) (vs : List ℕ) (b : Building D)
      → (if c then record b { custom_ops = vs } else b).value_to_node ≡ b.value_to_node
  flagged_same false vs b = refl
  flagged_same true vs b = refl

  module _ (node_of : ℕ → ℕ) (other_node : (v : ℕ) → eqb root (node_of v) ≡ false)
      (other_id : (v : ℕ) → eqb_ℤ (ids (node_of v)) (negsuc 0) ≡ false) where
    pub equal_apart :
        (d : CgraDfg D) (v n : ℕ)
        → d.ids ≡ set_id root (negsuc 0) ids
        → is_equal_to D d (node_of v) n ≡ true
        → eqb n root ≡ false
    unfolding is_equal_to set_id
    equal_apart d v n e h =
        let k : eqb_ℤ (set_id root (negsuc 0) ids (node_of v)) (set_id root (negsuc 0) ids n)
            ≡ true =
          subst (λ f. eqb_ℤ (f (node_of v)) (f n) ≡ true) e h in
        let k2 : eqb_ℤ (ids (node_of v)) (set_id root (negsuc 0) ids n) ≡ true =
          rw (other_node v) at k in
        elim (Bool-cases (eqb n root)) [
          | inr other ↦ other
          | inl same ↦
              let at : n ≡ root = ground arith in
              let self : eqb root root ≡ true = ground arith in
              absurd (let k3 = rw (at, set_id, self) at k2 in let no = other_id v in cc)
        ]

    add_value_node :
        (v : ℕ) (b : Building D) (n : ℕ)
        → (add_value D node_of v b).0 ≡ some n
        → (w : ℕ)
        → node_at w (add_value D node_of v b).1.value_to_node
          ≡ (if eqb v w then some n else node_at w b.value_to_node)
    unfolding add_value
    add_value_node v b n found w =
        node_at-assign_node w v (add_node D (node_of v) b.dfg).0 b.value_to_node ∙ rw found refl

    pub add_value_lem :
        (v : ℕ) (b : Building D)
        → IsBuilding b
        → (n : ℕ) × ((add_value D node_of v b).0 ≡ some n)
          × IsBuilding (add_value D node_of v b).1
          × Extends b (add_value D node_of v b).1
          × HasNode (add_value D node_of v b).1 v
    unfolding add_value
    add_value_lem v b h =
        let (r, (n, found, same, there), kept_node) =
          add_node-IsRooted D (node_of v) b.dfg h.rooted in
        let (f, i, s) = add_node_lem D (node_of v) b.dfg h.rooted h.fresh in
        let in_graph = has-has_node (add_node D (node_of v) b.dfg).1 n there in
        let away = equal_apart b.dfg v n h.ids_same same in
        let after = add_value_node v b n found in
        (
          n,
          found,
          record {
            rooted = r;
            fresh = f;
            root_same = s ∙ h.root_same;
            ids_same = i ∙ h.ids_same;
            apart = λ w m e. elim (Bool-cases (eqb v w)) [
              | inl here ↦ subst (λ k. eqb k root ≡ false) (some_inj (rw (after w, here) at e)) away
              | inr other ↦ h.apart w m (rw (after w, other) at e)
            ];
            present = λ w m e. elim (Bool-cases (eqb v w)) [
              | inl here ↦
                  subst (λ k. has_node D (add_node D (node_of v) b.dfg).1 k ≡ true)
                    (some_inj (rw (after w, here) at e)) in_graph
              | inr other ↦ kept_node m (h.present w m (rw (after w, other) at e))
            ];
          },
          λ w k. elim (Bool-cases (eqb v w)) [
            | inl here ↦ (n, rw (after w, here) refl)
            | inr other ↦ (k.0, rw (after w, other) k.1)
          ],
          (n, let self : eqb v v ≡ true = ground arith in rw (after v, self) refl),
        )

    -- Loads and stores.
    pub add_mems_lem :
        (ag : Compatibility) (vs : List ℕ) (b : Building D)
        → IsBuilding b
        → (b' : Building D) × (add_mems D node_of ag vs b ≡ ok b')
          × IsBuilding b'
          × Extends b b'
          × All (HasNode b') vs
    unfolding add_mems
    add_mems_lem ag [] b h = (b, refl, h, (λ v k. k), tt)
    add_mems_lem ag (v ∷ vs) b h =
        let (n, found, h1, kept, here) = add_value_lem v b h in
        let (b2, e, h2, kept2, all) =
          add_mems_lem ag vs (note v n (add_value D node_of v b).1) (noted v n h1) in
        let next : ℕ → Result (Building D) =
          λ node. add_mems D node_of ag vs (note v node (add_value D node_of v b).1) in
        (
          b2,
          ap (λ o. deref o >>= next) found ∙ e,
          h2,
          (λ w k. kept2 w (kept w k)),
          (kept2 v here, all),
        )
      where
        note : ℕ → ℕ → Building D → Building D
        note v n b = record b { extra_info = (n, find_config v ag.config) ∷ b.extra_info }

        noted : (v n : ℕ) {b : Building D} → IsBuilding b → IsBuilding (note v n b)
        noted v n h = record {
          rooted = h.rooted;
          fresh = h.fresh;
          root_same = h.root_same;
          ids_same = h.ids_same;
          apart = h.apart;
          present = h.present;
        }

    pub add_invars_lem :
        (vs : List ℕ) (b : Building D)
        → IsBuilding b
        → IsBuilding (add_invars D node_of vs b)
          × Extends b (add_invars D node_of vs b)
          × All (HasNode (add_invars D node_of vs b)) vs
    unfolding add_invars
    add_invars_lem [] b h = (h, (λ v k. k), tt)
    add_invars_lem (v ∷ vs) b h =
        let (n, found, h1, kept, here) = add_value_lem v b h in
        let (h2, kept2, all) = add_invars_lem vs (add_value D node_of v b).1 h1 in
        (h2, (λ w k. kept2 w (kept w k)), (kept2 v here, all))

    -- The computation, all of which the model supports.
    module _ (L : Llvm) (as_instruction : ℕ → Option L.Instruction) (cached : Option (Table L))
        (model : CgraModel L) where
      pub add_comps_lem :
          (vs : List ℕ) (b : Building D)
          → IsBuilding b
          → All (IsComputed L as_instruction cached model) vs
          → (b' : Building D) × (add_comps D L as_instruction cached model node_of vs b ≡ ok b')
            × IsBuilding b'
            × Extends b b'
            × All (HasNode b') vs
      unfolding add_comps
      add_comps_lem [] b h all = (b, refl, h, (λ v k. k), tt)
      add_comps_lem (v ∷ vs) b h all =
          let (i, p, is_inst, found) = all.0 in
          let (n, added, h1, kept, here) = add_value_lem v b h in
          let b1 = (add_value D node_of v b).1 in
          let c = is_custom p.derived in
          let customs = insert_new v b1.custom_ops in
          let same = flagged_same c customs b1 in
          let (b2, e, h2, kept2, rest) =
            add_comps_lem vs (if c then record b1 { custom_ops = customs } else b1)
              (flagged_IsBuilding c customs b1 h1) all.1 in
          let on : Extends b1 b2 = λ w k. kept2 w (k.0, ap (node_at w) same ∙ k.1) in
          (b2, rw (add_comps, is_inst, found) e, h2, (λ w k. on w (kept w k)), (on v here, rest))

  pub start-IsBuilding :
      IsBuilding
        (record { dfg = new_dfg D root ids; value_to_node = []; custom_ops = []; extra_info = [] })
  unfolding new_dfg create_virtual_root node_at
  start-IsBuilding = record {
    rooted = new_dfg-IsRooted D root ids;
    fresh = new_dfg-IsFresh D root ids;
    root_same = refl;
    ids_same = refl;
    apart = λ v n e. cc;
    present = λ v n e. cc;
  }
