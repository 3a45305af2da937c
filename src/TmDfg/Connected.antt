-- ===== src/TmDfg/Connected.antt =====
-- The edges of the remaining instructions, all of them.
use cgraomp.Prelude.{
  ℕ, true, suc, ◌≡◌, refl, sym, ap, subst, ◌∙◌, inl, inr, none, some, List, [], ◌∷◌, All, All-map,
  Option-cases, some_inj,
}
use cgraomp.Prelude.Int.{ℤ}
use cgraomp.Errors.{ok, deref-some}
use cgraomp.Ir.{Ir}
use cgraomp.LoopDependency.{LoopDependency}
use cgraomp.Directed.{DirectedGraph, normal, loop_carried, init}
use cgraomp.DfgPass.{node_at}
use cgraomp.DfgPass.Nodes.{IsBuilding, HasNode}
use cgraomp.DataFlowGraph.{has_node}
use cgraomp.DfgPass.Edges.{connect_edge_lem}
use cgraomp.TmDfg.{TmBuilding}
use cgraomp.TmDfg.Deps.{link, link_back, memdep_at, used_operands}
use cgraomp.TmDfg.Graph.{connect_remaining_operand, connect_remaining_operands, connect_remaining}
use cgraomp.TmDfg.Grown.{IsSolid, IsStep-IsGrown}
use cgraomp.TmDfg.Linked.{HasEdge, is_edge_to, is_edge_to_new}
use cgraomp.TmDfg.Remaining.{
  IsLinking, IsLinking-refl, IsLinking-trans, FromValue, kept-FromValue, link-Connects,
  link_back-Connects, link_if_exists_lem,
}

module _ (D : DirectedGraph) (root : ℕ) (ids : ℕ → ℤ) where
  module _ (memdeps : List (ℕ × LoopDependency)) where
    -- The edges of an operand: a normal one, or for a load that depends on a store of a previous
    -- iteration that of the initial data and, with the distance, that of the stored value.
    pub record OperandLinked (t : TmBuilding D) (target i operand : ℕ) : Type 0 where
      pub independent :
          memdep_at operand memdeps ≡ none → FromValue D root ids t (some operand) target i normal
      pub loaded :
          (dep : LoopDependency)
          → memdep_at operand memdeps ≡ some dep
          → FromValue D root ids t (some operand) target i init
      pub stored :
          (dep : LoopDependency)
          → memdep_at operand memdeps ≡ some dep
          → FromValue D root ids t dep.def target i loop_carried

    kept-OperandLinked :
        (t t' : TmBuilding D) (target i operand : ℕ)
        → IsBuilding D root ids t.base
        → IsLinking D root ids t t'
        → OperandLinked t target i operand
        → OperandLinked t' target i operand
    kept-OperandLinked t t' target i operand h step linked = record {
      independent = λ e.
          kept-FromValue D root ids t t' (some operand) target i normal h step
            (linked.independent e);
      loaded = λ dep e.
          kept-FromValue D root ids t t' (some operand) target i init h step (linked.loaded dep e);
      stored = λ dep e.
          kept-FromValue D root ids t t' dep.def target i loop_carried h step (linked.stored dep e);
    }

    -- A load that depends on a store has a node, and the stored value is no null pointer.
    abbrev pub IsReady : TmBuilding D → ℕ → Type 0
    IsReady t operand =
        (dep : LoopDependency)
        → memdep_at operand memdeps ≡ some dep
        → HasNode D root ids t.base operand × ((def : ℕ) × (dep.def ≡ some def))

    kept-IsReady :
        (t t' : TmBuilding D) (operands : List ℕ)
        → IsLinking D root ids t t'
        → All (IsReady t) operands
        → All (IsReady t') operands
    kept-IsReady t t' operands step =
        All-map (IsReady t) (IsReady t') operands
          (λ o ready dep e. let (n, d) = ready dep e in (step.more.grown.extends o n, d))

    connect_remaining_operand_lem :
        (target i operand : ℕ) (t : TmBuilding D)
        → IsBuilding D root ids t.base
        → IsSolid D root ids t.base
        → has_node D t.base.dfg target ≡ true
        → IsReady t operand
        → (t' : TmBuilding D) × (connect_remaining_operand D memdeps (some target) i operand t
            ≡ ok t')
          × IsLinking D root ids t t'
          × OperandLinked t' target i operand
    unfolding connect_remaining_operand
    connect_remaining_operand_lem target i operand t h solid has_target ready =
        elim (Option-cases (memdep_at operand memdeps)) [
          | inl free ↦
              let (t', f, step, from) =
                link_if_exists_lem D root ids operand (λ src. link D src target i normal) target i
                  normal t (link-Connects D root ids target i normal) h solid has_target in
              (
                t',
                rw (connect_remaining_operand, free) f,
                step,
                record {
                  independent = λ e. from;
                  loaded = λ dep e. absurd (let no = sym free ∙ e in cc);
                  stored = λ dep e. absurd (let no = sym free ∙ e in cc);
                },
              )
          | inr (dep, bound) ↦
              let ((n, at), (def, defined)) = ready dep bound in
              let (b, f, s, there) =
                connect_edge_lem D root ids n target i init t.base h (h.apart operand n at)
                  (h.present operand n at) has_target in
              let t1 : TmBuilding D = record t { base = b } in
              let step1 : IsLinking D root ids t t1 = record {
                more = record {
                  grown = IsStep-IsGrown D root ids t.base b solid s;
                  same_kernel = refl;
                  same_geps = refl;
                };
                same = s.same;
              } in
              let (t', f', step, from) =
                link_if_exists_lem D root ids def (λ src. link_back D src target i dep.distance)
                  target i loop_carried t1 (link_back-Connects D root ids target i dep.distance)
                  s.building step1.more.grown.solid (s.nodes_kept target has_target) in
              let loads : FromValue D root ids t1 (some operand) target i init = λ w k given found.
                let same : n ≡ k =
                  some_inj
                    (sym at ∙ ap (node_at operand) (sym s.same) ∙ rw (some_inj given) found) in
                subst (λ m. HasEdge D root ids b m target i init) same
                  (there (is_edge_to D root ids target i init)
                    (is_edge_to_new D root ids t.base.dfg.next_edge target i init)) in
              (
                t',
                rw (connect_remaining_operand, bound, at, f) (deref-some _ defined ∙ f'),
                IsLinking-trans D root ids t t1 t' step1 step,
                record {
                  independent = λ e. absurd (let no = sym bound ∙ e in cc);
                  loaded = λ dep' e.
                      kept-FromValue D root ids t1 t' (some operand) target i init s.building step
                        loads;
                  stored = λ dep' e.
                      subst (λ d. FromValue D root ids t' d.def target i loop_carried)
                        (some_inj (sym bound ∙ e))
                        (subst (λ o. FromValue D root ids t' o target i loop_carried) (sym defined)
                          from);
                },
              )
        ]

    abbrev pub AllOperands : TmBuilding D → ℕ → ℕ → List ℕ → Type 0
    AllOperands t target i [] = Unit {0}
    AllOperands t target i (operand ∷ rest) =
        OperandLinked t target i operand × AllOperands t target (suc i) rest

    kept-AllOperands :
        (t t' : TmBuilding D) (target i : ℕ) (operands : List ℕ)
        → IsBuilding D root ids t.base
        → IsLinking D root ids t t'
        → AllOperands t target i operands
        → AllOperands t' target i operands
    kept-AllOperands t t' target i [] h step all = tt
    kept-AllOperands t t' target i (operand ∷ rest) h step all = (
      kept-OperandLinked t t' target i operand h step all.0,
      kept-AllOperands t t' target (suc i) rest h step all.1,
    )

    connect_remaining_operands_lem :
        (target i : ℕ) (operands : List ℕ) (t : TmBuilding D)
        → IsBuilding D root ids t.base
        → IsSolid D root ids t.base
        → has_node D t.base.dfg target ≡ true
        → All (IsReady t) operands
        → (t' : TmBuilding D) × (connect_remaining_operands D memdeps (some target) i operands t
            ≡ ok t')
          × IsLinking D root ids t t'
          × AllOperands t' target i operands
    unfolding connect_remaining_operands
    connect_remaining_operands_lem target i [] t h solid has_target ready =
        (t, refl, IsLinking-refl D root ids t h solid, tt)
    connect_remaining_operands_lem target i (operand ∷ rest) t h solid has_target ready =
        let (t1, f1, step1, linked) =
          connect_remaining_operand_lem target i operand t h solid has_target ready.0 in
        let g1 = step1.more.grown in
        let (t2, f2, step2, all) =
          connect_remaining_operands_lem target (suc i) rest t1 g1.building g1.solid
            (g1.nodes_kept target has_target) (kept-IsReady t t1 rest step1 ready.1) in
        (
          t2,
          rw (connect_remaining_operands, f1) f2,
          IsLinking-trans D root ids t t1 t2 step1 step2,
          (kept-OperandLinked t1 t2 target i operand g1.building step2 linked, all),
        )

    module _ (I : Ir) where
      -- The instruction has a node, and all its operands are linked to it.
      abbrev pub InstLinked : TmBuilding D → ℕ → Type 0
      InstLinked t v =
          (target : ℕ) × (node_at v t.base.value_to_node ≡ some target)
          × AllOperands t target 0 (used_operands I t.base.custom_ops v)

      kept-InstLinked :
          (t t' : TmBuilding D) (v : ℕ)
          → IsBuilding D root ids t.base
          → IsLinking D root ids t t'
          → InstLinked t v
          → InstLinked t' v
      kept-InstLinked t t' v h step (target, at, all) = (
        target,
        ap (node_at v) step.same ∙ at,
        subst (λ c. AllOperands t' target 0 (used_operands I c v))
            (sym step.more.grown.same_customs)
            (kept-AllOperands t t' target 0 (used_operands I t.base.custom_ops v) h step all),
      )

      -- When the instructions have nodes, and so have the loads of theirs that depend on stores, all
      -- edges are made without a fault: the operands are linked, and the nodes of values are the same.
      pub connect_remaining_lem :
          (vs : List ℕ) (t : TmBuilding D)
          → IsBuilding D root ids t.base
          → IsSolid D root ids t.base
          → All (HasNode D root ids t.base) vs
          → All (λ v. All (IsReady t) (used_operands I t.base.custom_ops v)) vs
          → (t' : TmBuilding D) × (connect_remaining D I memdeps vs t ≡ ok t')
            × IsLinking D root ids t t'
            × All (InstLinked t') vs
      unfolding connect_remaining
      connect_remaining_lem [] t h solid nodes ready =
          (t, refl, IsLinking-refl D root ids t h solid, tt)
      connect_remaining_lem (v ∷ vs) t h solid nodes ready =
          let (target, at) = nodes.0 in
          let (t1, f1, step1, all) =
            connect_remaining_operands_lem target 0 (used_operands I t.base.custom_ops v) t h solid
              (h.present v target at) ready.0 in
          let g1 = step1.more.grown in
          let linked : InstLinked t1 v =
            (target, ap (node_at v) step1.same ∙ at, rw g1.same_customs all) in
          let (t2, f2, step2, rest) =
            connect_remaining_lem vs t1 g1.building g1.solid
              (All-map (HasNode D root ids t.base) (HasNode D root ids t1.base) vs g1.extends
                nodes.1)
              (All-map (λ w. All (IsReady t) (used_operands I t.base.custom_ops w))
                (λ w. All (IsReady t1) (used_operands I t1.base.custom_ops w)) vs
                (λ w r.
                  rw g1.same_customs
                    (kept-IsReady t t1 (used_operands I t.base.custom_ops w) step1 r))
                ready.1) in
          (
            t2,
            rw (connect_remaining, at, f1) f2,
            IsLinking-trans D root ids t t1 t2 step1 step2,
            (kept-InstLinked t1 t2 v g1.building step2 linked, rest),
          )
