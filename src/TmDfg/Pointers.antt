-- ===== src/TmDfg/Pointers.antt =====
-- The addresses of all GEP instructions.
use cgraomp.Prelude.{
  ℕ, ◌≡◌, refl, ap, ◌∙◌, inl, inr, Option, none, some, List, [], ◌∷◌, All, All-map, Bool-cases,
}
use cgraomp.Prelude.Int.{ℤ}
use cgraomp.Errors.{ok}
use cgraomp.Ir.{Ir}
use cgraomp.GepStride.{strides}
use cgraomp.Directed.{DirectedGraph}
use cgraomp.DfgPass.{Building, node_at, add_value}
use cgraomp.DfgPass.Nodes.{IsBuilding}
use cgraomp.TmDfg.{TmBuilding, KernelIr, is_node_exist}
use cgraomp.TmDfg.Deps.{set_node}
use cgraomp.TmDfg.Geps.{base_address, add_gep, add_geps}
use cgraomp.TmDfg.Grown.{
  IsOther, IsSolid, IsGrown, IsGrown-refl, IsGrown-trans, assign-IsGrown, add_value-IsGrown,
}
use cgraomp.TmDfg.Linked.{IsMore, IsMore-trans}
use cgraomp.TmDfg.Indices.{
  IndicesReady, kept-IndicesReady, Chain, current, IsApart, IsPresent, add_indices_lem,
}

module _ (D : DirectedGraph) (root : ℕ) (ids : ℕ → ℤ) (gep_node : ℕ → ℕ)
    (other_gep : (k : ℕ) → IsOther D root ids (gep_node k)) (I : Ir) (K : KernelIr)
    (node_of : ℕ → ℕ) (other_node : (v : ℕ) → IsOther D root ids (node_of v)) where
  -- The strides are computed, and the indices that vary have strides and nodes.
  abbrev pub GepReady : TmBuilding D → ℕ → Type 0
  GepReady t gep =
      (inc : List ℤ) × (strides (K.source_element_type gep) ≡ ok inc)
      × IndicesReady D root ids gep_node other_gep I K t inc 0 (K.indices gep)

  base_address_lem :
      (ptr : ℕ) (t : TmBuilding D)
      → IsBuilding D root ids t.base
      → IsSolid D root ids t.base
      → (n : ℕ) × (b : Building D) × (base_address D gep_node I K node_of ptr t
          ≡ (some n, record t { base = b }))
        × IsGrown D root ids t.base b
        × (node_at ptr b.value_to_node ≡ some n)
  unfolding base_address
  base_address_lem ptr t h solid = elim (Bool-cases (is_node_exist ptr t.base.value_to_node)) [
    | inl there_is ↦
        let (n, at) = solid ptr there_is in
        (
          n,
          t.base,
          rw (base_address, there_is, at) refl,
          IsGrown-refl D root ids t.base h solid,
          at,
        )
    | inr lacks ↦
        let (n, found, g, at) =
          add_value-IsGrown D root ids node_of ptr t.base h solid (other_node ptr) in
        (n, (add_value D node_of ptr t.base).1, rw (base_address, lacks, found) refl, g, at)
  ]

  -- The chain of additions of a GEP whose graph is that of `t`; its last node, if there is one, is
  -- the node of the GEP.
  pub record IsAddressed (t : TmBuilding D) (gep : ℕ) : Type 0 where
    pub before : TmBuilding D
    pub same_graph : t.base.dfg ≡ before.base.dfg
    pub inc : List ℤ
    pub base : ℕ
    pub last : Option ℕ
    pub based : node_at (K.pointer_operand gep) before.base.value_to_node ≡ some base
    pub strided : strides (K.source_element_type gep) ≡ ok inc
    pub chain :
        Chain D root ids gep_node other_gep I K before inc 0
          (some base)
          (K.indices gep)
          (current D root ids gep_node other_gep I K (some base) last)
    pub ends : (l : ℕ) → last ≡ some l → node_at gep t.base.value_to_node ≡ some l

  -- Take a rooted graph in which every value that is entered has a node, and nodes whose addresses
  -- and IDs differ from those of the virtual root. Let the strides of a GEP be computed, and let
  -- each index of it that is an instruction of the loop have a stride and a node. Then the nodes
  -- of its address are made without a fault. The graph stays rooted, no value loses its node, and
  -- no edge of a node other than the virtual root is lost. The address starts with the node of the
  -- pointer; for each index that is an instruction of the loop there is one more node, an
  -- addition, to which an edge leads from the address so far; if the stride is above 1, another
  -- one leads from a node to which edges of the index and of a further node lead, and else from
  -- the index itself. The last of these additions, if there is one, is the node of the GEP. The
  -- ends of edges are told apart by their IDs.
  pub add_gep_lem :
      (gep : ℕ) (t : TmBuilding D)
      → IsBuilding D root ids t.base
      → IsSolid D root ids t.base
      → GepReady t gep
      → (t' : TmBuilding D) × (add_gep D gep_node I K node_of gep t ≡ ok t')
        × IsMore D root ids t t'
        × IsAddressed t' gep
  unfolding add_gep set_node
  add_gep_lem gep t h solid (inc, e, ready) =
      let (base, b, f, g, at) = base_address_lem (K.pointer_operand gep) t h solid in
      let t0 : TmBuilding D = record t { base = b } in
      let more0 : IsMore D root ids t t0 = record {
        grown = g;
        same_kernel = refl;
        same_geps = refl;
      } in
      let (last, t1, f1, s1, apart, present, chain) =
        add_indices_lem D root ids gep_node other_gep I K node_of inc base 0 none (K.indices gep) t0
          g.building g.solid (g.building.apart (K.pointer_operand gep) base at)
          (g.building.present (K.pointer_operand gep) base at) (λ n same. cc) (λ n same. cc)
          (kept-IndicesReady D root ids gep_node other_gep I K t t0 inc 0 (K.indices gep) g
            ready) in
      let more1 = IsMore-trans D root ids t t0 t1 more0 s1.more in
      by_last last t1 base more1 (rw (add_gep, e, f, f1) refl)
        (ap (node_at (K.pointer_operand gep)) s1.same ∙ at) apart present chain
    where
      ended_by : Option ℕ → TmBuilding D → TmBuilding D
      ended_by l s = elim l [ none ↦ s | some n ↦ set_node D gep n s ]

      by_last :
          (last : Option ℕ) (t1 : TmBuilding D) (base : ℕ)
          → IsMore D root ids t t1
          → add_gep D gep_node I K node_of gep t ≡ ok (ended_by last t1)
          → node_at (K.pointer_operand gep) t1.base.value_to_node ≡ some base
          → IsApart D root ids gep_node other_gep I K last
          → IsPresent D root ids gep_node other_gep I K t1 last
          → Chain D root ids gep_node other_gep I K t1 inc 0
              (some base)
              (K.indices gep)
              (current D root ids gep_node other_gep I K (some base) last)
          → (t' : TmBuilding D) × (add_gep D gep_node I K node_of gep t ≡ ok t')
            × IsMore D root ids t t'
            × IsAddressed t' gep
      by_last none t1 base more made based apart present chain = (
        t1,
        made,
        more,
        record {
          before = t1;
          same_graph = refl;
          inc = inc;
          base = base;
          last = none;
          based = based;
          strided = e;
          chain = chain;
          ends = λ l same. cc;
        },
      )
      by_last (some n) t1 base more made based apart present chain =
          let (g2, at2) =
            assign-IsGrown D root ids gep n t1.base more.grown.building more.grown.solid
              (apart n refl) (present n refl) in
          (
            set_node D gep n t1,
            made,
            record {
              grown =
                  IsGrown-trans D root ids t.base t1.base (set_node D gep n t1).base more.grown g2;
              same_kernel = more.same_kernel;
              same_geps = more.same_geps;
            },
            record {
              before = t1;
              same_graph = refl;
              inc = inc;
              base = base;
              last = some n;
              based = based;
              strided = e;
              chain = chain;
              ends = λ l same. at2 ∙ same;
            },
          )

  kept-GepReady :
      (t t' : TmBuilding D) (gep : ℕ)
      → IsGrown D root ids t.base t'.base
      → GepReady t gep
      → GepReady t' gep
  kept-GepReady t t' gep g (inc, e, ready) = (
    inc,
    e,
    kept-IndicesReady D root ids gep_node other_gep I K t t' inc 0 (K.indices gep) g ready,
  )

  pub add_geps_lem :
      (geps : List ℕ) (t : TmBuilding D)
      → IsBuilding D root ids t.base
      → IsSolid D root ids t.base
      → All (GepReady t) geps
      → (t' : TmBuilding D) × (add_geps D gep_node I K node_of geps t ≡ ok t')
        × IsMore D root ids t t'
  unfolding add_geps
  add_geps_lem [] t h solid ready = (
    t,
    refl,
    record { grown = IsGrown-refl D root ids t.base h solid; same_kernel = refl; same_geps = refl },
  )
  add_geps_lem (gep ∷ geps) t h solid ready =
      let (t1, f1, m1, addressed) = add_gep_lem gep t h solid ready.0 in
      let (t2, f2, m2) = add_geps_lem geps t1 m1.grown.building m1.grown.solid (
        All-map (GepReady t) (GepReady t1) geps (λ v r. kept-GepReady t t1 v m1.grown r) ready.1) in
      (t2, rw (add_geps, f1) f2, IsMore-trans D root ids t t1 t2 m1 m2)
