-- ===== src/TmDfg/Dependency.antt =====
-- The edges of the instruction of a dependency between iterations, all of them.
use cgraomp.Prelude.{
  ℕ, suc, ◌≡◌, refl, ap, ◌∙◌, ◌⊎◌, inl, inr, true, false, Option, some, List, [], ◌∷◌, eqb, All,
  All-map, Bool-cases,
}
use cgraomp.Prelude.Int.{ℤ}
use cgraomp.Errors.{ok, deref-some}
use cgraomp.Ir.{Ir}
use cgraomp.LoopDependency.{LoopDependency}
use cgraomp.Directed.{DirectedGraph, normal, loop_carried, init}
use cgraomp.DataFlowGraph.{has_node}
use cgraomp.DfgPass.{Building, node_at}
use cgraomp.DfgPass.Nodes.{IsBuilding, HasNode}
use cgraomp.TmDfg.{TmBuilding, same_pointer}
use cgraomp.TmDfg.Deps.{
  connect_dep_operand, connect_dep_operands, connect_to_loop_dep_node, used_operands,
}
use cgraomp.TmDfg.Grown.{IsOther, IsSolid, IsGrown-refl}
use cgraomp.TmDfg.Linked.{
  IsMore, IsMore-trans, HasEdge, is_edge_to, KeepsOthers, PhiLinked, link_lem,
  connect_phi_operand_lem, entered,
}

module _ (D : DirectedGraph) (root : ℕ) (ids : ℕ → ℤ) where
  module _ (node_of : ℕ → ℕ) (other_node : (v : ℕ) → IsOther D root ids (node_of v))
      (dep : LoopDependency) (phi : Option ℕ) (self x : ℕ) (away : eqb self root ≡ false)
      (starts : dep.init ≡ some x) (other_start : same_pointer (some x) phi ≡ false) where
    abbrev Keeps : Building D → Building D → Type 0
    Keeps = KeepsOthers D root ids node_of other_node dep phi self x away starts other_start

    abbrev Phi : Building D → ℕ → ℕ → Type 0
    Phi = PhiLinked D root ids node_of other_node dep phi self x away starts other_start

    -- The phi node is replaced; from the node of another operand an edge leads to the instruction.
    abbrev pub IsLinked : Building D → ℕ → ℕ → Type 0
    IsLinked b i operand =
        ((same_pointer (some operand) phi ≡ true) × Phi b i operand)
        ⊎ ((same_pointer (some operand) phi ≡ false)
            × ((n : ℕ) × (node_at operand b.value_to_node ≡ some n)
                × (eqb n root ≡ false)
                × HasEdge D root ids b n self i normal))

    abbrev pub AllLinked : Building D → ℕ → List ℕ → Type 0
    AllLinked b i [] = Unit {0}
    AllLinked b i (operand ∷ rest) = IsLinked b i operand × AllLinked b (suc i) rest

    -- An operand that can be connected.
    abbrev pub IsData : Building D → ℕ → Type 0
    IsData b operand = (same_pointer (some operand) phi ≡ true) ⊎ HasNode D root ids b operand

    kept-IsLinked :
        (t t' : TmBuilding D) (i operand : ℕ)
        → IsMore D root ids t t'
        → Keeps t.base t'.base
        → IsLinked t.base i operand
        → IsLinked t'.base i operand
    kept-IsLinked t t' i operand more keeps
          (inl (is_phi, (node, back, (n, m, at, same, other, e)))) =
        inl (
          is_phi,
          (
            keeps operand self (inr refl) node,
            more.grown.edges_kept (is_edge_to D root ids self i loop_carried) self away back,
            (
              n,
              m,
              keeps x m (inl other_start) at,
              same,
              other,
              more.grown.edges_kept (is_edge_to D root ids self i init) n other e,
            ),
          ),
        )
    kept-IsLinked t t' i operand more keeps (inr (no_phi, (n, at, other, e))) = inr (
      no_phi,
      (
        n,
        keeps operand n (inl no_phi) at,
        other,
        more.grown.edges_kept (is_edge_to D root ids self i normal) n other e,
      ),
    )

    connect_dep_operand_lem :
        (i operand : ℕ) (t : TmBuilding D)
        → IsBuilding D root ids t.base
        → IsSolid D root ids t.base
        → has_node D t.base.dfg self ≡ true
        → IsData t.base operand
        → (t' : TmBuilding D) × (connect_dep_operand D node_of dep phi (some self) i operand t
            ≡ ok t')
          × IsMore D root ids t t'
          × Keeps t.base t'.base
          × IsLinked t'.base i operand
    unfolding connect_dep_operand
    connect_dep_operand_lem i operand t h solid has_self data_given =
        elim (Bool-cases (same_pointer (some operand) phi)) [
          | inl is_phi ↦
              let (t', f, more, keeps, linked) =
                connect_phi_operand_lem D root ids node_of other_node dep phi self x away starts
                  other_start i operand t h solid has_self is_phi in
              (t', rw (connect_dep_operand, is_phi) f, more, keeps, inl (is_phi, linked))
          | inr no_phi ↦
              let (n, at) = with_node t.base operand no_phi data_given in
              let (b, f, g, same, e) =
                link_lem D root ids n self i normal t h solid (h.apart operand n at)
                  (h.present operand n at) has_self in
              (
                record t { base = b },
                rw (connect_dep_operand, no_phi, at) f,
                record { grown = g; same_kernel = refl; same_geps = refl },
                (λ w k other found. ap (node_at w) same ∙ found),
                inr (no_phi, (n, ap (node_at operand) same ∙ at, h.apart operand n at, e)),
              )
        ]
      where
        with_node :
            (b : Building D) (o : ℕ)
            → same_pointer (some o) phi ≡ false
            → IsData b o
            → HasNode D root ids b o
        with_node b o no_phi (inl is_phi) = cc
        with_node b o no_phi (inr node) = node

    connect_dep_operands_lem :
        (i : ℕ) (operands : List ℕ) (t : TmBuilding D)
        → IsBuilding D root ids t.base
        → IsSolid D root ids t.base
        → has_node D t.base.dfg self ≡ true
        → All (IsData t.base) operands
        → (t' : TmBuilding D) × (connect_dep_operands D node_of dep phi (some self) i operands t
            ≡ ok t')
          × IsMore D root ids t t'
          × Keeps t.base t'.base
          × AllLinked t'.base i operands
    unfolding connect_dep_operands
    connect_dep_operands_lem i [] t h solid has_self all = (
      t,
      refl,
      record {
        grown = IsGrown-refl D root ids t.base h solid;
        same_kernel = refl;
        same_geps = refl;
      },
      (λ w k other found. found),
      tt,
    )
    connect_dep_operands_lem i (operand ∷ rest) t h solid has_self all =
        let (t1, f1, more1, keeps1, linked1) =
          connect_dep_operand_lem i operand t h solid has_self all.0 in
        let (t2, f2, more2, keeps2, linked2) =
          connect_dep_operands_lem (suc i) rest t1 more1.grown.building more1.grown.solid
            (more1.grown.nodes_kept self has_self)
            (All-map (IsData t.base) (IsData t1.base) rest
              (λ o d. elim d [
                | inl is_phi ↦ inl is_phi
                | inr node ↦ inr (more1.grown.extends o node)
              ])
              all.1) in
        (
          t2,
          rw (connect_dep_operands, f1) f2,
          IsMore-trans D root ids t t1 t2 more1 more2,
          (λ w k other found. keeps2 w k other (keeps1 w k other found)),
          (kept-IsLinked t1 t2 i operand more2 keeps2 linked1, linked2),
        )

    pub connect_to_loop_dep_node_lem :
        (I : Ir) (inst : ℕ) (t : TmBuilding D)
        → IsBuilding D root ids t.base
        → IsSolid D root ids t.base
        → dep.def ≡ some inst
        → node_at inst t.base.value_to_node ≡ some self
        → All (IsData t.base) (used_operands I t.base.custom_ops inst)
        → (t' : TmBuilding D) × (connect_to_loop_dep_node D node_of I dep phi t ≡ ok t')
          × IsMore D root ids t t'
          × Keeps t.base t'.base
          × AllLinked t'.base 0 (used_operands I t.base.custom_ops inst)
    unfolding connect_to_loop_dep_node
    connect_to_loop_dep_node_lem I inst t h solid defined at all =
        let there = entered inst t.base.value_to_node self at in
        let (t', f, more, keeps, linked) =
          connect_dep_operands_lem 0 (used_operands I t.base.custom_ops inst) t h solid
            (h.present inst self at) all in
        (t', deref-some _ defined ∙ rw (there, at) f, more, keeps, linked)
