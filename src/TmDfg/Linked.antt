-- ===== src/TmDfg/Linked.antt =====
-- The edges of the instruction of a dependency between iterations.
use cgraomp.Prelude.{
  ℕ, ◌≡◌, refl, ap, sym, ◌⊎◌, if◌then◌else◌, ◌∙◌, inl, inr, Bool, true, false, ◌&&◌, Option, none,
  some, List, [], ◌∷◌, arith, eqb, any, Bool-cases,
}
use cgraomp.Prelude.Int.{ℤ, eqb_ℤ}
use cgraomp.Errors.{ok}
use cgraomp.LoopDependency.{LoopDependency}
use cgraomp.Directed.{DirectedGraph, DfgEdge, EdgeKind, normal, loop_carried, init}
use cgraomp.DataFlowGraph.{has_node, add_node}
use cgraomp.DfgPass.{Building, assign_node, node_at}
use cgraomp.DfgPass.Nodes.{IsBuilding, node_at-assign_node}
use cgraomp.DfgPass.Edges.{all_ids, eqb_ℤ-same, connect_nodes_lem}
use cgraomp.TmDfg.{TmBuilding, is_node_exist, same_pointer}
use cgraomp.TmDfg.Deps.{link, link_back, set_node, init_node, connect_phi_operand}
use cgraomp.TmDfg.Grown.{
  IsOther, IsSolid, IsGrown, IsGrown-refl, IsGrown-trans, IsStep-IsGrown, assign-IsGrown,
  add_node-IsGrown,
}

abbrev pub same_kind : EdgeKind → EdgeKind → Bool
same_kind normal normal = true
same_kind loop_carried loop_carried = true
same_kind init init = true
same_kind _ _ = false

same_kind_refl : (k : EdgeKind) → same_kind k k ≡ true
same_kind_refl normal = refl
same_kind_refl loop_carried = refl
same_kind_refl init = refl

-- A value with a node is entered.
pub entered :
    (v : ℕ) (m : List (ℕ × Option ℕ)) (n : ℕ) → node_at v m ≡ some n → is_node_exist v m ≡ true
unfolding node_at is_node_exist
entered v [] n e = cc
entered v ((w, k) ∷ rest) n e = ground (arith, entered v rest n)

module _ (D : DirectedGraph) (root : ℕ) (ids : ℕ → ℤ) where
  -- An edge to a node, for this operand and of this kind.
  abbrev pub is_edge_to : ℕ → ℕ → EdgeKind → DfgEdge → Bool
  is_edge_to target i kind x =
      eqb_ℤ (all_ids D root ids x.target) (all_ids D root ids target)
      && eqb x.operand i
      && same_kind x.kind kind

  abbrev pub HasEdge : Building D → ℕ → ℕ → ℕ → EdgeKind → Type 0
  HasEdge b src target i kind = any (is_edge_to target i kind) (D.get_edges b.dfg.graph src) ≡ true

  pub is_edge_to_new :
      (address target i : ℕ) (kind : EdgeKind)
      → is_edge_to target i kind
          (record { address = address; target = target; operand = i; kind = kind })
        ≡ true
  is_edge_to_new address target i kind =
      let same = eqb_ℤ-same (all_ids D root ids target) in
      let self : eqb i i ≡ true = ground arith in rw (same, self, same_kind_refl kind) refl

  -- The nodes of values are the same.
  abbrev pub SameNodes : Building D → Building D → Type 0
  SameNodes b b' = b'.value_to_node ≡ b.value_to_node

  abbrev KeepsNodes : Building D → Building D → Type 0
  KeepsNodes b b' =
      (w k : ℕ) → node_at w b.value_to_node ≡ some k → node_at w b'.value_to_node ≡ some k

  -- An edge from a node other than the virtual root.
  pub link_lem :
      (src target i : ℕ) (kind : EdgeKind) (t : TmBuilding D)
      → IsBuilding D root ids t.base
      → IsSolid D root ids t.base
      → eqb src root ≡ false
      → has_node D t.base.dfg src ≡ true
      → has_node D t.base.dfg target ≡ true
      → (b : Building D) × (link D src target i kind t ≡ ok (record t { base = b }))
        × IsGrown D root ids t.base b
        × SameNodes t.base b
        × HasEdge b src target i kind
  unfolding link
  link_lem src target i kind t h solid other has_src has_target =
      let (b, f, s, there) =
        connect_nodes_lem D root ids src target i kind t.base h other has_src has_target in
      (
        b,
        rw f refl,
        IsStep-IsGrown D root ids t.base b solid s,
        s.same,
        there (is_edge_to target i kind) (is_edge_to_new t.base.dfg.next_edge target i kind),
      )

  -- The node of the initial data: an edge can lead from it.
  init_node_lem :
      (node_of : ℕ → ℕ) (v : ℕ) (t : TmBuilding D)
      → IsBuilding D root ids t.base
      → IsSolid D root ids t.base
      → IsOther D root ids (node_of v)
      → (n : ℕ) × (m : ℕ) × (b : Building D) × (init_node D node_of v t
          ≡ (some n, record t { base = b }))
        × (node_at v b.value_to_node ≡ some m)
        × (eqb_ℤ (all_ids D root ids m) (all_ids D root ids n) ≡ true)
        × (eqb n root ≡ false)
        × (has_node D b.dfg n ≡ true)
        × IsGrown D root ids t.base b
        × KeepsNodes t.base b
  unfolding init_node set_node
  init_node_lem node_of v t h solid other =
      elim (Bool-cases (is_node_exist v t.base.value_to_node)) [
        | inl there_is ↦
            let (n, at) = solid v there_is in
            (
              n,
              n,
              t.base,
              rw (init_node, there_is, at) refl,
              at,
              eqb_ℤ-same (all_ids D root ids n),
              h.apart v n at,
              h.present v n at,
              IsGrown-refl D root ids t.base h solid,
              (λ w k e. e),
            )
        | inr lacks ↦
            let from_root = other.0 in
            let away0 : eqb (node_of v) root ≡ false = ground arith in
            let (n, found, away, same_id, own, there, g0) =
              add_node-IsGrown D root ids (node_of v) t.base h solid other in
            let b0 : Building D = record t.base { dfg = (add_node D (node_of v) t.base.dfg).1 } in
            let (g1, at1) =
              assign-IsGrown D root ids v (node_of v) b0 g0.building g0.solid away0 own in
            let b1 : Building D = record b0 {
              value_to_node = assign_node v (some (node_of v)) t.base.value_to_node;
            } in
            (
              n,
              node_of v,
              b1,
              rw (init_node, lacks, found) refl,
              at1,
              same_id,
              away,
              there,
              IsGrown-trans D root ids t.base b0 b1 g0 g1,
              λ w k e. elim (Bool-cases (eqb v w)) [
                | inr there ↦
                    rw (node_at-assign_node w v (some (node_of v)) t.base.value_to_node, there) e
                | inl here ↦
                    let same : v ≡ w = ground arith in
                    let there_is = entered w t.base.value_to_node k e in
                    absurd (let none_there = rw same at lacks in cc)
              ],
            )
      ]

  -- Nodes and edges are added; the remaining instructions and the GEPs are the same.
  pub record IsMore (t t' : TmBuilding D) : Type 0 where
    pub grown : IsGrown D root ids t.base t'.base
    pub same_kernel : t'.kernel_inst ≡ t.kernel_inst
    pub same_geps : t'.gep_set ≡ t.gep_set

  pub IsMore-trans : (a b c : TmBuilding D) → IsMore a b → IsMore b c → IsMore a c
  IsMore-trans a b c h k = record {
    grown = IsGrown-trans D root ids a.base b.base c.base h.grown k.grown;
    same_kernel = k.same_kernel ∙ h.same_kernel;
    same_geps = k.same_geps ∙ h.same_geps;
  }

  module _ (node_of : ℕ → ℕ) (other_node : (v : ℕ) → IsOther D root ids (node_of v))
      (dep : LoopDependency) (phi : Option ℕ) (self x : ℕ) (away : eqb self root ≡ false)
      (starts : dep.init ≡ some x) (other_start : same_pointer (some x) phi ≡ false) where
    -- All nodes but that of the phi node are kept, and that if it is the one of the instruction.
    abbrev pub KeepsOthers : Building D → Building D → Type 0
    KeepsOthers b b' =
        (w k : ℕ)
        → (same_pointer (some w) phi ≡ false) ⊎ (k ≡ self)
        → node_at w b.value_to_node ≡ some k
        → node_at w b'.value_to_node ≡ some k

    -- An edge for the initial data leads from a node that is equal to the node of these data.
    abbrev pub InitLeads : Building D → ℕ → Type 0
    InitLeads b i =
        (n : ℕ) × (m : ℕ) × (node_at x b.value_to_node ≡ some m)
        × (eqb_ℤ (all_ids D root ids m) (all_ids D root ids n) ≡ true)
        × (eqb n root ≡ false)
        × HasEdge b n self i init

    -- The phi node is replaced by the node of the instruction, which has an edge to itself.
    abbrev pub PhiLinked : Building D → ℕ → ℕ → Type 0
    PhiLinked b i operand =
        (node_at operand b.value_to_node ≡ some self)
        × HasEdge b self self i loop_carried
        × InitLeads b i

    other_phi :
        (operand w : ℕ)
        → same_pointer (some operand) phi ≡ true
        → same_pointer (some w) phi ≡ false
        → eqb operand w ≡ false
    other_phi operand w = by_phi phi
      where
        by_phi :
            (q : Option ℕ)
            → same_pointer (some operand) q ≡ true
            → same_pointer (some w) q ≡ false
            → eqb operand w ≡ false
        by_phi none h k = cc
        by_phi (some p) h k = ground arith

    kept_node :
        (operand w k : ℕ) {o : Option ℕ}
        → same_pointer (some operand) phi ≡ true
        → (same_pointer (some w) phi ≡ false) ⊎ (k ≡ self)
        → o ≡ some k
        → (if eqb operand w then some self else o) ≡ some k
    kept_node operand w k is_phi (inl other) e = rw (other_phi operand w is_phi other) e
    kept_node operand w k is_phi (inr same) e = elim (Bool-cases (eqb operand w)) [
      | inl here ↦ rw here (ap some (sym same))
      | inr there ↦ rw there e
    ]

    pub connect_phi_operand_lem :
        (i operand : ℕ) (t : TmBuilding D)
        → IsBuilding D root ids t.base
        → IsSolid D root ids t.base
        → has_node D t.base.dfg self ≡ true
        → same_pointer (some operand) phi ≡ true
        → (t' : TmBuilding D) × (connect_phi_operand D node_of dep operand self i t ≡ ok t')
          × IsMore t t'
          × KeepsOthers t.base t'.base
          × PhiLinked t'.base i operand
    unfolding connect_phi_operand link_back set_node
    connect_phi_operand_lem i operand t h solid has_self is_phi =
        let t0 : TmBuilding D = record t {
          distances = (t.base.dfg.next_edge, dep.distance) ∷ t.distances;
        } in
        let (b1, f1, g1, same1, e1) =
          link_lem self self i loop_carried t0 h solid away has_self has_self in
        let self1 = g1.nodes_kept self has_self in
        let (g2, at2) = assign-IsGrown D root ids operand self b1 g1.building g1.solid away self1 in
        let b2 : Building D = record b1 {
          value_to_node = assign_node operand (some self) b1.value_to_node;
        } in
        let t2 : TmBuilding D = record t0 { base = b2 } in
        let (n, m, b3, f3, at3, same_id, away3, there3, g3, keeps3) =
          init_node_lem node_of x t2 g2.building g2.solid (other_node x) in
        let t3 : TmBuilding D = record t0 { base = b3 } in
        let (b4, f4, g4, same4, e4) =
          link_lem n self i init t3 g3.building g3.solid away3 there3 (g3.nodes_kept self self1) in
        let to4 : KeepsNodes b2 b4 = λ w k e. ap (node_at w) same4 ∙ keeps3 w k e in
        let g13 = IsGrown-trans D root ids t.base b1 b2 g1 g2 in
        let g24 = IsGrown-trans D root ids b2 b3 b4 g3 g4 in
        (
          record t0 { base = b4 },
          rw (connect_phi_operand, f1, starts, f3) f4,
          record {
            grown = IsGrown-trans D root ids t.base b2 b4 g13 g24;
            same_kernel = refl;
            same_geps = refl;
          },
          (λ w k other e. to4 w k (
              node_at-assign_node w operand (some self) b1.value_to_node
              ∙ kept_node operand w k is_phi other (ap (node_at w) same1 ∙ e))),
          (
            to4 operand self at2,
            g24.edges_kept (is_edge_to self i loop_carried) self away
                (g2.edges_kept (is_edge_to self i loop_carried) self away e1),
            (n, m, ap (node_at x) same4 ∙ at3, same_id, away3, e4),
          ),
        )
