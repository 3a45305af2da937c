-- ===== src/TmDfg/Carried.antt =====
-- The edges of all dependencies between iterations by induction variables and registers.
use cgraomp.Prelude.{
  ℕ, suc, ◌≡◌, refl, sym, ap, subst, ◌∙◌, ◌⊎◌, inl, inr, Bool, true, false, not, Option, some, List,
  [], ◌∷◌, arith, eqb, has, keep, has-keep, All, All-map, All-keep, any, any_head, any_tail,
  some_inj,
}
use cgraomp.Prelude.Int.{ℤ}
use cgraomp.Errors.{ok, deref-some}
use cgraomp.Ir.{Ir}
use cgraomp.LoopDependency.{LoopDependency}
use cgraomp.Directed.{DirectedGraph}
use cgraomp.DfgPass.Nodes.{IsBuilding, HasNode}
use cgraomp.TmDfg.{TmBuilding, PhiMap, same_pointer}
use cgraomp.TmDfg.Deps.{used_operands, connect_to_loop_dep_node, connect_deps}
use cgraomp.TmDfg.Grown.{IsOther, IsSolid, IsGrown, IsGrown-refl, IsGrown-trans}
use cgraomp.TmDfg.Dependency.{AllLinked, connect_to_loop_dep_node_lem}

-- An instruction of one of these dependencies.
abbrev pub defines : ℕ → PhiMap → Bool
defines v = any (λ e. same_pointer e.1.def (some v))

module _ (D : DirectedGraph) (root : ℕ) (ids : ℕ → ℤ) (node_of : ℕ → ℕ)
    (other_node : (v : ℕ) → IsOther D root ids (node_of v)) (I : Ir) where
  -- A dependency that can be connected: its instruction has a node, and every operand of it is the
  -- phi node or has a node; the initial data are something else than the phi node.
  pub record IsDepReady (t : TmBuilding D) (e : Option ℕ × LoopDependency) : Type 0 where
    pub inst : ℕ
    pub start : ℕ
    pub defined : e.1.def ≡ some inst
    pub starts : e.1.init ≡ some start
    pub other_start : same_pointer (some start) e.0 ≡ false
    pub noded : HasNode D root ids t.base inst
    pub operands :
        All
          (λ o. (same_pointer (some o) e.0 ≡ true) ⊎ HasNode D root ids t.base o)
          (used_operands I t.base.custom_ops inst)

  pub kept-IsDepReady :
      (t t' : TmBuilding D) (e : Option ℕ × LoopDependency)
      → IsGrown D root ids t.base t'.base
      → IsDepReady t e
      → IsDepReady t' e
  kept-IsDepReady t t' e g r = record {
    inst = r.inst;
    start = r.start;
    defined = r.defined;
    starts = r.starts;
    other_start = r.other_start;
    noded = g.extends r.inst r.noded;
    operands =
        subst
          (λ c.
            All (λ o. (same_pointer (some o) e.0 ≡ true) ⊎ HasNode D root ids t'.base o)
              (used_operands I c r.inst))
          (sym g.same_customs)
          (All-map (λ o. (same_pointer (some o) e.0 ≡ true) ⊎ HasNode D root ids t.base o)
            (λ o. (same_pointer (some o) e.0 ≡ true) ⊎ HasNode D root ids t'.base o)
            (used_operands I t.base.custom_ops r.inst)
            (λ o d. elim d [ inl phi ↦ inl phi | inr n ↦ inr (g.extends o n) ]) r.operands);
  }

  -- A phi node that is an operand of the instruction has a node.
  abbrev pub Drives : TmBuilding D → Option ℕ × LoopDependency → Type 0
  Drives t e =
      (inst : ℕ)
      → e.1.def ≡ some inst
      → All (λ o. same_pointer (some o) e.0 ≡ true → HasNode D root ids t.base o)
          (used_operands I t.base.custom_ops inst)

  kept-Drives :
      (t t' : TmBuilding D) (e : Option ℕ × LoopDependency)
      → IsGrown D root ids t.base t'.base
      → Drives t e
      → Drives t' e
  kept-Drives t t' e g f inst defined =
      subst
        (λ c.
          All (λ o. same_pointer (some o) e.0 ≡ true → HasNode D root ids t'.base o)
            (used_operands I c inst))
        (sym g.same_customs)
        (All-map (λ o. same_pointer (some o) e.0 ≡ true → HasNode D root ids t.base o)
          (λ o. same_pointer (some o) e.0 ≡ true → HasNode D root ids t'.base o)
          (used_operands I t.base.custom_ops inst) (λ o k phi. g.extends o (k phi))
          (f inst defined))

  connect_dep_lem :
      (phi : Option ℕ) (dep : LoopDependency) (t : TmBuilding D)
      → IsBuilding D root ids t.base
      → IsSolid D root ids t.base
      → (r : IsDepReady t (phi, dep))
      → (t' : TmBuilding D) × (connect_to_loop_dep_node D node_of I dep phi t ≡ ok t')
        × IsGrown D root ids t.base t'.base
        × (t'.kernel_inst ≡ t.kernel_inst)
        × (t'.gep_set ≡ t.gep_set)
        × Drives t' (phi, dep)
  connect_dep_lem phi dep t h solid r =
      let (self, at) = r.noded in
      let away = h.apart r.inst self at in
      let (t', f, more, keeps, linked) =
        connect_to_loop_dep_node_lem D root ids node_of other_node dep phi self r.start away
          r.starts r.other_start I r.inst t h solid r.defined at r.operands in
      (
        t',
        f,
        more.grown,
        more.same_kernel,
        more.same_geps,
        λ inst defined.
            subst
              (λ c.
                All (λ o. same_pointer (some o) phi ≡ true → HasNode D root ids t'.base o)
                  (used_operands I c inst))
              (sym more.grown.same_customs)
              (subst
                (λ v.
                  All (λ o. same_pointer (some o) phi ≡ true → HasNode D root ids t'.base o)
                    (used_operands I t.base.custom_ops v))
                (some_inj (sym r.defined ∙ defined))
                (phi_nodes self away t' 0 (used_operands I t.base.custom_ops r.inst) linked)),
      )
    where
      phi_nodes :
          (self : ℕ) (away : eqb self root ≡ false) (s : TmBuilding D) (i : ℕ) (operands : List ℕ)
          → AllLinked D root ids node_of other_node dep phi self r.start away r.starts r.other_start
              s.base i operands
          → All (λ o. same_pointer (some o) phi ≡ true → HasNode D root ids s.base o) operands
      phi_nodes self away s i [] all = tt
      phi_nodes self away s i (o ∷ os) (inl (is_phi, (node, back, start)), rest) =
          ((λ p. (self, node)), phi_nodes self away s (suc i) os rest)
      phi_nodes self away s i (o ∷ os) (inr (no_phi, linked), rest) =
          ((λ p. absurd (let no = sym no_phi ∙ p in cc)), phi_nodes self away s (suc i) os rest)

  -- Edges are made for all dependencies of the map.
  pub record IsCarrying (map : PhiMap) (t t' : TmBuilding D) : Type 0 where
    pub grown : IsGrown D root ids t.base t'.base
    pub same_geps : t'.gep_set ≡ t.gep_set
    pub noded :
        All (HasNode D root ids t.base) t.kernel_inst
        → All (HasNode D root ids t'.base) t'.kernel_inst
    pub remains :
        (v : ℕ) → has v t.kernel_inst ≡ true → defines v map ≡ false → has v t'.kernel_inst ≡ true
    pub drives : All (Drives t') map

  other_def :
      (def : Option ℕ) (inst v : ℕ)
      → def ≡ some inst
      → same_pointer def (some v) ≡ false
      → not (eqb v inst) ≡ true
  other_def def inst v defined other =
      let apart : eqb inst v ≡ false = rw defined at other in ground arith

  pub connect_deps_lem :
      (map : PhiMap) (t : TmBuilding D)
      → IsBuilding D root ids t.base
      → IsSolid D root ids t.base
      → All (IsDepReady t) map
      → (t' : TmBuilding D) × (connect_deps D node_of I map t ≡ ok t') × IsCarrying map t t'
  unfolding connect_deps
  connect_deps_lem [] t h solid ready = (
    t,
    refl,
    record {
      grown = IsGrown-refl D root ids t.base h solid;
      same_geps = refl;
      noded = λ all. all;
      remains = λ v there k. there;
      drives = tt;
    },
  )
  connect_deps_lem ((phi, dep) ∷ rest) t h solid ready =
      let r = ready.0 in
      let (t1, f1, g1, kernel1, geps1, drives1) = connect_dep_lem phi dep t h solid r in
      let others : ℕ → Bool = λ v. not (eqb v r.inst) in
      let t1' : TmBuilding D = record t1 { kernel_inst = keep others t1.kernel_inst } in
      let (t2, f2, c2) = connect_deps_lem rest t1' g1.building g1.solid (
        All-map (IsDepReady t) (IsDepReady t1') rest (λ e k. kept-IsDepReady t t1' e g1 k)
          ready.1) in
      (
        t2,
        rw f1 (deref-some _ r.defined ∙ f2),
        record {
          grown = IsGrown-trans D root ids t.base t1.base t2.base g1 c2.grown;
          same_geps = c2.same_geps ∙ geps1;
          noded = λ all. c2.noded (
              All-keep (HasNode D root ids t1.base) others t1.kernel_inst (
                subst (All (HasNode D root ids t1.base)) (sym kernel1) (
                  All-map (HasNode D root ids t.base) (HasNode D root ids t1.base) t.kernel_inst
                    g1.extends all)));
          remains = λ v there apart.
              let test : Option ℕ × LoopDependency → Bool = λ e. same_pointer e.1.def (some v) in
              let first_one = any_head test (phi, dep) rest apart in
              let later = any_tail test (phi, dep) rest apart in
              c2.remains v
                (has-keep others v t1.kernel_inst
                  ∙ rw (other_def dep.def r.inst v r.defined first_one)
                      (ap (has v) kernel1 ∙ there))
                later;
          drives = (kept-Drives t1' t2 (phi, dep) c2.grown drives1, c2.drives);
        },
      )
