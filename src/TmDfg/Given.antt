-- ===== src/TmDfg/Given.antt =====
-- What a kernel must be like for its data-flow graph, in terms of its instructions.
use cgraomp.Prelude.{
  ℕ, suc, zero, ◌-◌, ◌≤◌, ◌≡◌, refl, sym, subst, ◌∙◌, ◌⊎◌, inl, inr, Bool, true, false, ◌&&◌,
  Option, none, some, List, [], ◌∷◌, arith, has, take, length, All, any, Bool-cases, eqb, some_inj,
}
use cgraomp.Prelude.Int.{ℤ}
use cgraomp.Errors.{ok, deref-some}
use cgraomp.Ir.{Ir}
use cgraomp.GepStride.{strides}
use cgraomp.LoopDependency.{LoopDependency, LoopDependencyInfo}
use cgraomp.TmDfg.{
  KernelIr, LoopControl, PhiMap, kernel_op, same_pointer, assign_phi, phi_map, classify, is_source,
}
use cgraomp.TmDfg.Deps.{memdep_at, memdep_map, used_operands}
use cgraomp.TmDfg.Geps.{stride_at}

pub All-take {ℓ κ} :
    {A : Type ℓ} (P : A → Type κ) (n : ℕ) (xs : List A) → All P xs → All P (take n xs)
All-take P zero xs h = tt
All-take P (suc n) [] h = tt
All-take P (suc n) (x ∷ xs) h = (h.0, All-take P n xs h.1)

has-take : (a m n : ℕ) (xs : List ℕ) → m ≤ n → has a (take m xs) ≡ true → has a (take n xs) ≡ true
unfolding has
has-take a zero n xs le h = cc
has-take a (suc m) n [] le h = cc
has-take a (suc m) zero (x ∷ xs) le h = absurd (omega arith)
has-take a (suc m) (suc n) (x ∷ xs) le h = ground (arith, has-take a m n xs (omega arith))

pub phi_map-All :
    (P : Option ℕ × LoopDependency → Type 0) (deps : List LoopDependency) (map : PhiMap)
    → All (λ d. P (d.phi, d)) deps
    → All P map
    → All P (phi_map deps map)
unfolding phi_map assign_phi
phi_map-All P [] map h k = k
phi_map-All P (dep ∷ deps) map h k =
    phi_map-All P deps (assign_phi dep.phi dep map) h.1 (assigned dep h.0 map k)
  where
    assigned :
        (d : LoopDependency) → P (d.phi, d) → (m : PhiMap) → All P m → All P (assign_phi d.phi d m)
    assigned d p [] k = (p, tt)
    assigned d p ((key, old) ∷ rest) k = elim (Bool-cases (same_pointer key d.phi)) [
      | inl same ↦ rw (assign_phi, same) (p, k.1)
      | inr other ↦ rw (assign_phi, other) (k.0, assigned d p rest k.1)
    ]

module _ (I : Ir) (K : KernelIr) (control : LoopControl) (ld : LoopDependencyInfo) where
  abbrev pub idv_phis : PhiMap
  idv_phis = phi_map ld.indvar_dep_list []

  abbrev pub lc_dep_phis : PhiMap
  lc_dep_phis = phi_map ld.lc_dep_list []

  -- An operation of the kernel: an instruction of the loop that is no phi node of a dependency, no
  -- GEP and no control of the loop.
  abbrev pub IsOp : ℕ → Type 0
  IsOp v = classify K idv_phis lc_dep_phis control v ≡ kernel_op

  abbrev pub IsGiven : ℕ → Type 0
  IsGiven v = (has v K.insts ≡ true) × IsOp v

  -- A dependency whose instruction is an operation, and the operands of that are the phi node,
  -- operations, or data from outside of the loop.
  pub record IsDepGiven (d : LoopDependency) : Type 0 where
    pub inst : ℕ
    pub start : ℕ
    pub defined : d.def ≡ some inst
    pub starts : d.init ≡ some start
    pub other_start : same_pointer (some start) d.phi ≡ false
    pub given : IsGiven inst
    pub operands :
        All
          (λ o. (same_pointer (some o) d.phi ≡ true) ⊎ ((is_source I K o ≡ true) ⊎ IsGiven o))
          (I.operands inst)

  -- A dependency by memory of a load that is an operation, with the value that is stored.
  abbrev pub IsLoadGiven : LoopDependency → Type 0
  IsLoadGiven d = (a : ℕ × ℕ) × (def : ℕ) × (d.access ≡ some a) × (d.def ≡ some def) × IsGiven a.1

  abbrev pub IsStored : LoopDependency → Type 0
  IsStored d = (def : ℕ) × (d.def ≡ some def)

  -- The phi node of this dependency, which is an operand of its instruction, and not the last one.
  abbrev pub is_driven_by : ℕ → Option ℕ × LoopDependency → Bool
  is_driven_by v e = same_pointer (some v) e.0 && elim e.1.def [
    | none ↦ false
    | some inst ↦ has v (take (length (I.operands inst) - 1) (I.operands inst))
  ]

  -- An index is an operation or such a phi node.
  abbrev pub IsIndexGiven : ℕ → Type 0
  IsIndexGiven v =
      IsGiven v
      ⊎ ((any (is_driven_by v) idv_phis ≡ true) ⊎ (any (is_driven_by v) lc_dep_phis ≡ true))

  -- The indices that vary have strides.
  abbrev pub IndicesGiven : List ℤ → ℕ → List ℕ → Type 0
  IndicesGiven inc i [] = Unit {0}
  IndicesGiven inc i (idx ∷ rest) =
      ((I.is_instruction idx && K.is_inside idx) ≡ true
        → ((s : ℤ) × (stride_at i inc ≡ ok s)) × IsIndexGiven idx)
      × IndicesGiven inc (suc i) rest

  abbrev pub IsGepGiven : ℕ → Type 0
  IsGepGiven gep =
      (inc : List ℤ) × (strides (K.source_element_type gep) ≡ ok inc)
      × IndicesGiven inc 0 (K.indices gep)

  pub memdep_map_lem :
      (deps : List LoopDependency) (map : List (ℕ × LoopDependency))
      → All IsLoadGiven deps
      → ((o : ℕ) (d : LoopDependency) → memdep_at o map ≡ some d → IsGiven o × IsStored d)
      → (map' : List (ℕ × LoopDependency)) × (memdep_map deps map ≡ ok map')
        × ((o : ℕ) (d : LoopDependency) → memdep_at o map' ≡ some d → IsGiven o × IsStored d)
  unfolding memdep_map memdep_at
  memdep_map_lem [] map h k = (map, refl, k)
  memdep_map_lem (dep ∷ deps) map h k =
      let (a, def, e, stored, given) = h.0 in
      let (map', f, k') = memdep_map_lem deps ((a.1, dep) ∷ map) h.1 (λ o d at.
        elim (Bool-cases (eqb a.1 o)) [
          | inl same ↦
              let here : a.1 ≡ o = ground arith in
              let dep_here : dep ≡ d = some_inj (rw same at at) in
              (rw (sym here) given, (def, subst (λ k. k.def ≡ some def) dep_here stored))
          | inr other ↦ k o d (let at' = rw other at at in at')
        ]) in
      (map', deref-some _ e ∙ f, k')

  pub used_given :
      (customs : List ℕ) (v inst : ℕ)
      → has v (take (length (I.operands inst) - 1) (I.operands inst)) ≡ true
      → has v (used_operands I customs inst) ≡ true
  used_given customs v inst h = elim (Bool-cases (has inst customs)) [
    | inl custom ↦ rw custom h
    | inr plain ↦ rw plain (
        has-take v (length (I.operands inst) - 1) (length (I.operands inst)) (I.operands inst)
          (omega arith) h)
  ]
