-- ===== src/TmDfg/Readied.antt =====
-- From what is given of a kernel to what the functions that make its edges ask for.
use cgraomp.Prelude.{
  ℕ, suc, ◌-◌, ◌≡◌, sym, ◌∙◌, ◌⊎◌, inl, inr, true, Option, some, List, [], ◌∷◌, arith, has, has-All,
  take, length, All, All-has, All-map, any, Bool-cases, Option-cases, if◌then◌else◌,
}
use cgraomp.Prelude.Int.{ℤ}
use cgraomp.Ir.{Ir}
use cgraomp.LoopDependency.{LoopDependency, LoopDependencyInfo}
use cgraomp.Directed.{DirectedGraph}
use cgraomp.DfgPass.Nodes.{HasNode}
use cgraomp.TmDfg.{
  TmBuilding, KernelIr, LoopControl, HashOrder, PhiMap, same_pointer, is_source, phi_map,
}
use cgraomp.TmDfg.Deps.{used_operands}
use cgraomp.TmDfg.Grown.{IsOther}
use cgraomp.TmDfg.Carried.{IsDepReady, Drives}
use cgraomp.TmDfg.Indices.{IndicesReady}
use cgraomp.TmDfg.Given.{
  All-take, phi_map-All, IsGiven, IsDepGiven, is_driven_by, IsIndexGiven, IndicesGiven, used_given,
}

module _ (D : DirectedGraph) (root : ℕ) (ids : ℕ → ℤ) (node_of gep_node : ℕ → ℕ)
    (other_node : (v : ℕ) → IsOther D root ids (node_of v))
    (other_gep : (k : ℕ) → IsOther D root ids (gep_node k)) (I : Ir) (K : KernelIr)
    (control : LoopControl) (ld : LoopDependencyInfo) where
  abbrev Given : ℕ → Type 0
  Given = IsGiven I K control ld

  abbrev pub Driver : TmBuilding D → Option ℕ × LoopDependency → Type 0
  Driver = Drives D root ids node_of other_node I

  pub driven_node :
      (v : ℕ) (map : PhiMap) (t : TmBuilding D)
      → All (Driver t) map
      → any (is_driven_by I K control ld v) map ≡ true
      → HasNode D root ids t.base v
  unfolding any
  driven_node v [] t all h = cc
  driven_node v ((phi, dep) ∷ rest) t all h =
      elim (Bool-cases (is_driven_by I K control ld v (phi, dep))) [
        | inr other ↦ driven_node v rest t all.1 (rw other at h)
        | inl driven ↦ elim (Option-cases dep.def) [
          | inl e ↦ absurd (ground arith)
          | inr (inst, e) ↦
              let (is_phi, used) = parts e driven in
              All-has (λ o. same_pointer (some o) phi ≡ true → HasNode D root ids t.base o) v
                (used_operands I t.base.custom_ops inst) (all.0 inst e)
                (used_given I K control ld t.base.custom_ops v inst used) is_phi
        ]
      ]
    where
      parts :
          {inst : ℕ}
          → dep.def ≡ some inst
          → is_driven_by I K control ld v (phi, dep) ≡ true
          → (same_pointer (some v) phi ≡ true)
            × (has v (take (length (I.operands inst) - 1) (I.operands inst)) ≡ true)
      parts e h = (ground arith, ground arith)

  -- The indices that are given have nodes.
  pub indices_ready :
      (t : TmBuilding D) (inc : List ℤ) (i : ℕ) (indices : List ℕ)
      → ((v : ℕ) → IsIndexGiven I K control ld v → HasNode D root ids t.base v)
      → IndicesGiven I K control ld inc i indices
      → IndicesReady D root ids gep_node other_gep I K t inc i indices
  indices_ready t inc i [] node all = tt
  indices_ready t inc i (idx ∷ rest) node all = (
    λ v. let given = all.0 v in (given.0, node idx given.1),
    indices_ready t inc (suc i) rest node all.1,
  )

  -- What is given of a dependency, when operations and the data of their operands have nodes.
  dep_ready :
      (t : TmBuilding D) (d : LoopDependency)
      → ((v : ℕ) → Given v → HasNode D root ids t.base v)
      → ((v : ℕ)
          → Given v
          → All (λ o. is_source I K o ≡ true → HasNode D root ids t.base o) (I.operands v))
      → IsDepGiven I K control ld d
      → IsDepReady D root ids node_of other_node I t (d.phi, d)
  dep_ready t d node source g = record {
    inst = g.inst;
    start = g.start;
    defined = g.defined;
    starts = g.starts;
    other_start = g.other_start;
    noded = node g.inst g.given;
    operands =
        All-take (λ o. (same_pointer (some o) d.phi ≡ true) ⊎ HasNode D root ids t.base o)
          (if has g.inst t.base.custom_ops
            then length (I.operands g.inst) - 1
            else length (I.operands g.inst))
          (I.operands g.inst) (both (I.operands g.inst) g.operands (source g.inst g.given));
  }
    where
      both :
          (os : List ℕ)
          → All
              (λ o. (same_pointer (some o) d.phi ≡ true) ⊎ ((is_source I K o ≡ true) ⊎ Given o))
              os
          → All (λ o. is_source I K o ≡ true → HasNode D root ids t.base o) os
          → All (λ o. (same_pointer (some o) d.phi ≡ true) ⊎ HasNode D root ids t.base o) os
      both [] h k = tt
      both (o ∷ os) (inl phi, h) k = (inl phi, both os h k.1)
      both (o ∷ os) (inr (inl outer), h) k = (inr (k.0 outer), both os h k.1)
      both (o ∷ os) (inr (inr op), h) k = (inr (node o op), both os h k.1)

  module _ (order : HashOrder) where
    pub values-All : (P : ℕ → Type 0) (set : List ℕ) → All P set → All P (order.values set)
    values-All P set all =
        has-All P (order.values set)
          (λ a there. All-has P a set all (sym (order.has-values a set) ∙ there))

    pub All-values :
        (P : ℕ → Type 0) (set : List ℕ) (a : ℕ) → All P (order.values set) → has a set ≡ true → P a
    All-values P set a all there =
        All-has P a (order.values set) all (order.has-values a set ∙ there)

    -- The dependencies of a list, in the order of their map.
    pub deps_ready :
        (t : TmBuilding D) (deps : List LoopDependency)
        → ((v : ℕ) → Given v → HasNode D root ids t.base v)
        → ((v : ℕ)
            → Given v
            → All (λ o. is_source I K o ≡ true → HasNode D root ids t.base o) (I.operands v))
        → All (IsDepGiven I K control ld) deps
        → All (IsDepReady D root ids node_of other_node I t) (order.phis (phi_map deps []))
    deps_ready t deps node source all =
        let Ready : Option ℕ × LoopDependency → Type 0 =
          IsDepReady D root ids node_of other_node I t in
        order.phis-All Ready (phi_map deps []) (
          phi_map-All Ready deps []
            (All-map (IsDepGiven I K control ld) (λ d. Ready (d.phi, d)) deps
              (λ d g. dep_ready t d node source g) all)
            tt)
