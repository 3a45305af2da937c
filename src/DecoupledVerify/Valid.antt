-- ===== src/DecoupledVerify/Valid.antt =====
-- When a kernel passes the verification for a decoupled CGRA.
use cgraomp.Prelude.{
  ℕ, ◌≡◌, ◌≢◌, ◌↔◌, inl, inr, refl, sym, subst, ◌∙◌, true, false, not, Option, none, some, List, [],
  ◌∷◌, eqb, length, has, subtract, All, arith, Option-cases, some_inj,
}
use cgraomp.Prelude.Int.{ℤ}
use cgraomp.Errors.{ok, ok_inj, >>=-eq-ok}
use cgraomp.Llvm.{Llvm}
use cgraomp.Ir.{Ir}
use cgraomp.ScalarEvolution.{ScalarEvolution}
use cgraomp.Annotation.{Table}
use cgraomp.InstMap.{EntryPtr}
use cgraomp.Config.Setting.{not_allowed, generic, affine}
use cgraomp.Model.{CgraModel, is_supported}
use cgraomp.Decoupled
use cgraomp.Decoupled.{DecoupledAnalysis, succeeds}
use cgraomp.LoopDependency
use cgraomp.LoopDependency.{LoopDependencyInfo, get_num_dep, get_num_mem_dep}
use cgraomp.LoopDependency.Phis.{is_free}
use cgraomp.AffineAg.Kernel.{IsNestAccess}
use cgraomp.Verify.{
  set_result, decoupling, memory_access, inst_availability, no_violation, LoopVerifyResult,
}
use cgraomp.DecoupledVerify.{
  Kernel, loads_of, stores_of, insert_unsupported, check_unsupported_inst, verify_loop,
}
use cgraomp.DecoupledVerify.Checks.{
  subtract-empty_iff, insert_unsupported-All, excepted, verify_dependency_lem, summary_lem,
  verify_accesses_lem,
}

module _ (I : Ir) (E : ScalarEvolution) (L : Llvm) (as_instruction : ℕ → Option L.Instruction) where
  module _ (cached : Option (Table L)) (model : CgraModel L) where
    -- A value of the computation that the CGRA can do, or need not do.
    pub data IsAccepted (except : List ℕ) (v : ℕ) : Type 0 where
      no_instruction : as_instruction v ≡ none → IsAccepted except v
      of_except : has v except ≡ true → IsAccepted except v
      supported :
          (i : L.Instruction) (p : EntryPtr L)
          → as_instruction v ≡ some i
          → is_supported L cached i model ≡ ok (some p)
          → IsAccepted except v

    check_unsupported_inst-IsAccepted :
        (except vs us : List ℕ)
        → check_unsupported_inst I E L as_instruction cached model vs ≡ ok us
        → All (λ u. has u except ≡ true) us ↔ All (IsAccepted except) vs
    unfolding check_unsupported_inst
    check_unsupported_inst-IsAccepted except [] us h =
        subst (λ us. All (λ u. has u except ≡ true) us ↔ Unit) (ok_inj h) (λ k. tt, λ k. tt)
    check_unsupported_inst-IsAccepted except (v ∷ vs) us h =
        elim (Option-cases (as_instruction v)) [
          | inl e ↦
              let (there, back) =
                check_unsupported_inst-IsAccepted except vs us
                  (rw (e, check_unsupported_inst) at h) in
              (λ k. (IsAccepted.no_instruction e, there k), λ k. back k.1)
          | inr (i, e) ↦
              let (imap, f, h') =
                >>=-eq-ok (is_supported L cached i model) _ (rw (e, check_unsupported_inst) at h) in
              let (rest, g, h2) =
                >>=-eq-ok (check_unsupported_inst I E L as_instruction cached model vs) _ h' in
              by_entry i e imap f rest (ok_inj h2)
                (check_unsupported_inst-IsAccepted except vs rest g)
        ]
      where
        by_entry :
            (i : L.Instruction)
            → as_instruction v ≡ some i
            → (imap : Option (EntryPtr L)) → is_supported L cached i model ≡ ok imap
            → (rest : List ℕ) → elim imap [ none ↦ v ∷ rest | some p ↦ rest ] ≡ us
            → All (λ u. has u except ≡ true) rest ↔ All (IsAccepted except) vs
            → All (λ u. has u except ≡ true) us ↔ All (IsAccepted except) (v ∷ vs)
        by_entry i e none f rest same (there, back) =
            subst (λ us. All (λ u. has u except ≡ true) us ↔ All (IsAccepted except) (v ∷ vs)) same
              (λ k. (IsAccepted.of_except k.0, there k.1), λ k. (excluded i e f k.0, back k.1))
          where
            excluded :
                (i : L.Instruction)
                → as_instruction v ≡ some i
                → is_supported L cached i model ≡ ok none
                → IsAccepted except v
                → has v except ≡ true
            excluded i e f (IsAccepted.no_instruction n) = cc
            excluded i e f (IsAccepted.of_except h) = h
            excluded i e f (IsAccepted.supported j p e' f') =
                let at : i ≡ j = some_inj (sym e ∙ e') in
                let f2 : is_supported L cached i model ≡ ok (some p) = rw at f' in
                let no : none ≡ some p = ok_inj (sym f ∙ f2) in cc
        by_entry i e (some p) f rest same (there, back) =
            subst (λ us. All (λ u. has u except ≡ true) us ↔ All (IsAccepted except) (v ∷ vs)) same
              (λ k. (IsAccepted.supported i p e f, there k), λ k. back k.1)

    pub none_unavailable_iff :
        (except vs us : List ℕ)
        → check_unsupported_inst I E L as_instruction cached model vs ≡ ok us
        → (not (eqb (length (subtract (insert_unsupported us []) except)) 0) ≡ false)
          ↔ All (IsAccepted except) vs
    none_unavailable_iff except vs us h =
        let P : ℕ → Type 0 = λ u. has u except ≡ true in
        let (empty, part) = subtract-empty_iff (insert_unsupported us []) except in
        let (apart, join) = insert_unsupported-All P us [] in
        let (there, back) = check_unsupported_inst-IsAccepted except vs us h in
        (
          λ e. there (apart (empty (ground arith))).0,
          λ a. let z = part (join (back a, tt)) in ground arith,
        )

    -- Take a loop kernel for which the decoupling, the dependency analysis and the tests of the
    -- computation return, and a model with an affine address generator and another capability for
    -- dependencies between iterations than generic. The verification of the kernel returns, and it
    -- finds no violation exactly if three things hold: no dependency between iterations is
    -- counted, if the model allows none; every instruction of the computation is supported by the
    -- model or excepted as a phi node that the model takes care of; and, if the decoupling has
    -- succeeded, the addresses of all loads and stores are nests of recurrences with constant
    -- steps over sums, products and casts of constants and values. The limit on nested levels of
    -- the address generator plays no part.
    pub verify_loop_iff :
        (fuel : ℕ) (threshold : ℤ) (k : Kernel I E) (max_nests : ℤ) (da : DecoupledAnalysis)
        (ld : LoopDependencyInfo) (us : List ℕ)
        → model.ag ≡ some (affine max_nests)
        → model.inter_loop_dep ≢ generic
        → Decoupled.run I fuel k.in_schedule k.insts ≡ some da
        → LoopDependency.run I threshold k.facts ≡ ok ld
        → check_unsupported_inst I E L as_instruction cached model da.comp ≡ ok us
        → (lvr : LoopVerifyResult) × (verify_loop I E L as_instruction cached model fuel threshold k
            ≡ ok lvr)
          × ((no_violation lvr ≡ true) ↔ (
              (model.inter_loop_dep ≡ not_allowed → is_free ld ≡ true)
              × All (IsAccepted (excepted model.inter_loop_dep ld)) da.comp
              × (succeeds da ≡ true
                  → All (IsNestAccess E) (loads_of I E k da)
                    × All (IsNestAccess E) (stores_of I E k da))))
    unfolding verify_loop
    verify_loop_iff fuel threshold k max_nests da ld us ag ild decoupled independent checked =
        let (dep, e, same) =
          verify_dependency_lem model.inter_loop_dep ld
            (set_result (record { kind = decoupling; is_violate = false }) []) ild in
        let (r, f, affine_iff) = verify_accesses_lem I E model.ag max_nests k da ag in
        let unsupported = subtract (insert_unsupported us []) dep.0 in
        let unavailable = not (eqb (length unsupported) 0) in
        (
          set_result (record { kind = memory_access; is_violate = r.is_violate })
              (set_result (record { kind = inst_availability; is_violate = unavailable }) dep.1),
          rw (verify_loop, decoupled, independent, e, checked, f) refl,
          (
            λ valid.
                let (free, available, clean) =
                  (summary_lem model.inter_loop_dep ld dep unavailable r.is_violate e).0 valid in
                (
                  free,
                  rw (← same) ((none_unavailable_iff dep.0 da.comp us checked).0 available),
                  affine_iff.0 clean,
                ),
            λ h. (summary_lem model.inter_loop_dep ld dep unavailable r.is_violate e).1 (
              h.0,
              (none_unavailable_iff dep.0 da.comp us checked).1 (rw same h.1),
              affine_iff.1 h.2,
            ),
          ),
        )
