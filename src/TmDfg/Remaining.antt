-- ===== src/TmDfg/Remaining.antt =====
-- The edges of the remaining instructions.
use cgraomp.Prelude.{
  ℕ, ◌≡◌, refl, sym, ap, subst, ◌∙◌, inl, inr, true, false, Option, some, ◌∷◌, eqb, Bool-cases,
  some_inj,
}
use cgraomp.Prelude.Int.{ℤ}
use cgraomp.Errors.{Result, ok}
use cgraomp.Directed.{DirectedGraph, EdgeKind, loop_carried}
use cgraomp.DataFlowGraph.{has_node}
use cgraomp.DfgPass.{node_at}
use cgraomp.DfgPass.Nodes.{IsBuilding}
use cgraomp.TmDfg.{TmBuilding, is_node_exist}
use cgraomp.TmDfg.Deps.{link, link_back}
use cgraomp.TmDfg.Graph.{link_if_exists}
use cgraomp.TmDfg.Grown.{IsSolid, IsGrown-refl}
use cgraomp.TmDfg.Linked.{IsMore, IsMore-trans, SameNodes, HasEdge, is_edge_to, link_lem, entered}

module _ (D : DirectedGraph) (root : ℕ) (ids : ℕ → ℤ) where
  -- Edges are added; the nodes of the values are the same.
  pub record IsLinking (t t' : TmBuilding D) : Type 0 where
    pub more : IsMore D root ids t t'
    pub same : SameNodes D root ids t.base t'.base

  pub IsLinking-refl :
      (t : TmBuilding D) → IsBuilding D root ids t.base → IsSolid D root ids t.base → IsLinking t t
  IsLinking-refl t h solid = record {
    more = record {
      grown = IsGrown-refl D root ids t.base h solid;
      same_kernel = refl;
      same_geps = refl;
    };
    same = refl;
  }

  pub IsLinking-trans : (a b c : TmBuilding D) → IsLinking a b → IsLinking b c → IsLinking a c
  IsLinking-trans a b c h k = record {
    more = IsMore-trans D root ids a b c h.more k.more;
    same = k.same ∙ h.same;
  }

  -- From the node of the value, if it has one, an edge leads to the target.
  abbrev pub FromValue : TmBuilding D → Option ℕ → ℕ → ℕ → EdgeKind → Type 0
  FromValue t o target i kind =
      (w n : ℕ)
      → o ≡ some w
      → node_at w t.base.value_to_node ≡ some n
      → HasEdge D root ids t.base n target i kind

  pub kept-FromValue :
      (t t' : TmBuilding D) (o : Option ℕ) (target i : ℕ) (kind : EdgeKind)
      → IsBuilding D root ids t.base
      → IsLinking t t'
      → FromValue t o target i kind
      → FromValue t' o target i kind
  kept-FromValue t t' o target i kind h step from w n given at =
      let before = ap (node_at w) (sym step.same) ∙ at in
      step.more.grown.edges_kept (is_edge_to D root ids target i kind) n (h.apart w n before)
        (from w n given before)

  -- A function that makes an edge of this kind to the target.
  abbrev Connects : (ℕ → TmBuilding D → Result (TmBuilding D)) → ℕ → ℕ → EdgeKind → Type 0
  Connects connect_to target i kind =
      (src : ℕ) (t : TmBuilding D)
      → IsBuilding D root ids t.base
      → IsSolid D root ids t.base
      → eqb src root ≡ false
      → has_node D t.base.dfg src ≡ true
      → has_node D t.base.dfg target ≡ true
      → (t' : TmBuilding D) × (connect_to src t ≡ ok t')
        × IsLinking t t'
        × HasEdge D root ids t'.base src target i kind

  pub link-Connects :
      (target i : ℕ) (kind : EdgeKind) → Connects (λ src. link D src target i kind) target i kind
  link-Connects target i kind src t h solid other has_src has_target =
      let (b, f, g, same, e) =
        link_lem D root ids src target i kind t h solid other has_src has_target in
      (
        record t { base = b },
        f,
        record { more = record { grown = g; same_kernel = refl; same_geps = refl }; same = same },
        e,
      )

  pub link_back-Connects :
      (target i : ℕ) (distance : ℤ)
      → Connects (λ src. link_back D src target i distance) target i loop_carried
  unfolding link_back
  link_back-Connects target i distance src t h solid other has_src has_target =
      let t0 : TmBuilding D = record t {
        distances = (t.base.dfg.next_edge, distance) ∷ t.distances;
      } in
      let (b, f, g, same, e) =
        link_lem D root ids src target i loop_carried t0 h solid other has_src has_target in
      (
        record t0 { base = b },
        f,
        record { more = record { grown = g; same_kernel = refl; same_geps = refl }; same = same },
        e,
      )

  pub link_if_exists_lem :
      (v : ℕ) (connect_to : ℕ → TmBuilding D → Result (TmBuilding D)) (target i : ℕ)
      (kind : EdgeKind) (t : TmBuilding D)
      → Connects connect_to target i kind
      → IsBuilding D root ids t.base
      → IsSolid D root ids t.base
      → has_node D t.base.dfg target ≡ true
      → (t' : TmBuilding D) × (link_if_exists D v connect_to t ≡ ok t')
        × IsLinking t t'
        × FromValue t' (some v) target i kind
  unfolding link_if_exists
  link_if_exists_lem v connect_to target i kind t connects h solid has_target =
      elim (Bool-cases (is_node_exist v t.base.value_to_node)) [
        | inl there_is ↦
            let (n, at) = solid v there_is in
            let (t', f, step, e) =
              connects n t h solid (h.apart v n at) (h.present v n at) has_target in
            (
              t',
              rw (link_if_exists, there_is, at) f,
              step,
              λ w k given found.
                  let here : node_at v t'.base.value_to_node ≡ some k =
                    subst (λ u. node_at u t'.base.value_to_node ≡ some k) (sym (some_inj given))
                      found in
                  let same : n ≡ k = some_inj (sym at ∙ ap (node_at v) (sym step.same) ∙ here) in
                  subst (λ m. HasEdge D root ids t'.base m target i kind) same e,
            )
        | inr lacks ↦ (
          t,
          rw (link_if_exists, lacks) refl,
          IsLinking-refl t h solid,
          λ w k given found.
              let there = entered w t.base.value_to_node k found in
              let same = some_inj given in absurd (let no = rw same at lacks in cc),
        )
      ]
