-- ===== src/TmDfg/Insts.antt =====
-- The nodes of all instructions of a kernel.
use cgraomp.Prelude.{
  ℕ, ◌≡◌, refl, sym, ◌∙◌, ◌⊎◌, inl, inr, true, Option, List, [], ◌∷◌, has, insert_new, All,
  insert_new-All_iff,
}
use cgraomp.Prelude.Int.{ℤ}
use cgraomp.Errors.{ok}
use cgraomp.Llvm.{Llvm}
use cgraomp.Annotation.{Table}
use cgraomp.Model.{CgraModel}
use cgraomp.Directed.{DirectedGraph}
use cgraomp.DfgPass.Nodes.{IsComputed}
use cgraomp.TmDfg.{
  TmBuilding, KernelIr, LoopControl, PhiMap, InstClass, skipped, gep_inst, kernel_op, classify,
  add_inst, add_insts,
}
use cgraomp.TmDfg.Grown.{IsOther}
use cgraomp.TmDfg.Kernel.{IsNoded, IsNoding, add_kernel_op_lem}

pub InstClass-cases : (c : InstClass) → (c ≡ skipped) ⊎ ((c ≡ gep_inst) ⊎ (c ≡ kernel_op))
InstClass-cases skipped = inl refl
InstClass-cases gep_inst = inr (inl refl)
InstClass-cases kernel_op = inr (inr refl)

module _ (D : DirectedGraph) (root : ℕ) (ids : ℕ → ℤ) (node_of : ℕ → ℕ)
    (other_node : (v : ℕ) → IsOther D root ids (node_of v)) (L : Llvm)
    (as_instruction : ℕ → Option L.Instruction) (cached : Option (Table L))
    (model : CgraModel L) where
  abbrev Noded : TmBuilding D → Type 0
  Noded = IsNoded D root ids node_of other_node L as_instruction cached model

  abbrev Noding : (ℕ → Type 0) → TmBuilding D → TmBuilding D → Type 0
  Noding P = IsNoding D root ids node_of other_node L as_instruction cached model P

  Noding-refl : (P : ℕ → Type 0) (t : TmBuilding D) → Noded t → Noding P t t
  Noding-refl P t h = record {
    noded = h;
    extends = λ v k. k;
    remains = λ v r. r;
    geps = λ all. all;
  }

  Noding-trans :
      (P : ℕ → Type 0) (a b c : TmBuilding D) → Noding P a b → Noding P b c → Noding P a c
  Noding-trans P a b c h k = record {
    noded = k.noded;
    extends = λ v n. k.extends v (h.extends v n);
    remains = λ v r. k.remains v (h.remains v r);
    geps = λ all. k.geps (h.geps all);
  }

  module _ (K : KernelIr) (idv lc : PhiMap) (control : LoopControl) (P : ℕ → Type 0) where
    abbrev class_of : ℕ → InstClass
    class_of = classify K idv lc control

    add_inst_lem :
        (v : ℕ) (t : TmBuilding D)
        → Noded t
        → (class_of v ≡ kernel_op → IsComputed L as_instruction cached model v)
        → (class_of v ≡ gep_inst → P v)
        → (t' : TmBuilding D) × (add_inst D L as_instruction cached model node_of K idv lc control v
              t
            ≡ ok t')
          × Noding P t t'
          × (class_of v ≡ kernel_op → has v t'.kernel_inst ≡ true)
    unfolding add_inst
    add_inst_lem v t h supported given = elim (InstClass-cases (class_of v)) [
      | inl skip ↦ (
        t,
        rw (add_inst, skip) refl,
        Noding-refl P t h,
        (λ op. absurd (let no = sym skip ∙ op in cc)),
      )
      | inr (inl gep) ↦ (
        record t { gep_set = insert_new v t.gep_set },
        rw (add_inst, gep) refl,
        record {
          noded = record { building = h.building; solid = h.solid; noded = h.noded };
          extends = λ w k. k;
          remains = λ w r. r;
          geps = λ all. (insert_new-All_iff P v t.gep_set).1 (given gep, all);
        },
        (λ op. absurd (let no = sym gep ∙ op in cc)),
      )
      | inr (inr op) ↦
          let (t', f, step, there) =
            add_kernel_op_lem D root ids node_of other_node L as_instruction cached model P v t h
              (supported op) in
          (t', rw (add_inst, op) f, step, (λ k. there))
    ]

    pub add_insts_lem :
        (vs : List ℕ) (t : TmBuilding D)
        → Noded t
        → All (λ v. class_of v ≡ kernel_op → IsComputed L as_instruction cached model v) vs
        → All (λ v. class_of v ≡ gep_inst → P v) vs
        → (t' : TmBuilding D) × (add_insts D L as_instruction cached model node_of K idv lc control
              vs t
            ≡ ok t')
          × Noding P t t'
          × All (λ v. class_of v ≡ kernel_op → has v t'.kernel_inst ≡ true) vs
    unfolding add_insts
    add_insts_lem [] t h supported given = (t, refl, Noding-refl P t h, tt)
    add_insts_lem (v ∷ vs) t h supported given =
        let (t1, f1, s1, here) = add_inst_lem v t h supported.0 given.0 in
        let (t2, f2, s2, rest) = add_insts_lem vs t1 s1.noded supported.1 given.1 in
        (
          t2,
          rw (add_insts, f1) f2,
          Noding-trans P t t1 t2 s1 s2,
          ((λ op. s2.remains v (here op)), rest),
        )
