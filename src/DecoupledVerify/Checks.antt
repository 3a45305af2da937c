-- ===== src/DecoupledVerify/Checks.antt =====
-- The checks of a kernel, one by one, and the summary of their results.
use cgraomp.Prelude.{
  ℕ, ◌≡◌, ◌≢◌, ◌↔◌, inl, inr, refl, ap, Bool, true, false, Option, some, List, [], ◌∷◌, eqb, length,
  has, insert_new, insert_new-All_iff, subtract, keep, All, arith, Bool-cases,
}
use cgraomp.Prelude.Int.{ℤ}
use cgraomp.Errors.{ok, ok_inj, from_fuel}
use cgraomp.Ir.{Ir}
use cgraomp.ScalarEvolution.{ScalarEvolution}
use cgraomp.Config.Setting.{
  InterLoopDep, not_allowed, generic, backward_inst, AddressGenerator, affine,
}
use cgraomp.Decoupled.{DecoupledAnalysis, succeeds}
use cgraomp.LoopDependency.{LoopDependencyInfo}
use cgraomp.LoopDependency.Phis.{is_free}
use cgraomp.AffineAg
use cgraomp.AffineAg.{Compatibility}
use cgraomp.AffineAg.Kernel.{IsNestAccess, run-IsNestAccess_iff}
use cgraomp.Verify.{
  set_result, decoupling, memory_access, inst_availability, no_violation, LoopVerifyResult,
}
use cgraomp.DecoupledVerify.{
  Kernel, loads_of, stores_of, verify_accesses, verify_dependency, insert_phis, insert_unsupported,
}

-- A set is empty after the removal of another one exactly if it is a part of that one.
pub subtract-empty_iff :
    (xs ys : List ℕ) → (eqb (length (subtract xs ys)) 0 ≡ true) ↔ All (λ x. has x ys ≡ true) xs
unfolding subtract keep
subtract-empty_iff [] ys = (λ h. tt, λ h. refl)
subtract-empty_iff (x ∷ xs) ys =
    let (there, back) = subtract-empty_iff xs ys in
    elim (Bool-cases (has x ys)) [
      | inl m ↦ rw m (λ h. (refl, there h), λ h. back h.1)
      | inr n ↦ rw n (λ h. ground arith, λ h. cc)
    ]

pub insert_unsupported-All :
    (P : ℕ → Type 0) (vs us : List ℕ) → All P (insert_unsupported vs us) ↔ (All P vs × All P us)
unfolding insert_unsupported
insert_unsupported-All P [] us = (λ h. (tt, h), λ h. h.1)
insert_unsupported-All P (v ∷ vs) us =
    let (there, back) = insert_unsupported-All P vs (insert_new v us) in
    let (apart, join) = insert_new-All_iff P v us in
    (
      λ h. let (a, b) = there h in let (q, c) = apart b in ((q, a), c),
      λ h. back (h.0.1, join (h.0.0, h.1)),
    )

-- The phi nodes that the model takes care of.
abbrev pub excepted : InterLoopDep → LoopDependencyInfo → List ℕ
excepted not_allowed ld = []
excepted generic ld = []
excepted backward_inst ld = insert_phis ld.lc_dep_list (insert_phis ld.indvar_dep_list [])

pub verify_dependency_lem :
    (ild : InterLoopDep) (ld : LoopDependencyInfo) (lvr : LoopVerifyResult)
    → ild ≢ generic
    → (dep : List ℕ × LoopVerifyResult) × (verify_dependency ild ld lvr ≡ ok dep)
      × (dep.0 ≡ excepted ild ld)
unfolding verify_dependency
verify_dependency_lem not_allowed ld lvr h = (_, refl, refl)
verify_dependency_lem backward_inst ld lvr h = (_, refl, refl)
verify_dependency_lem generic ld lvr h = absurd (h refl)

-- The summary of a loop whose four results are these.
pub summary_lem :
    (ild : InterLoopDep) (ld : LoopDependencyInfo) (dep : List ℕ × LoopVerifyResult)
    (avail mem : Bool)
    → verify_dependency ild ld (set_result (record { kind = decoupling; is_violate = false }) [])
      ≡ ok dep
    → (no_violation (
          set_result
            (record { kind = memory_access; is_violate = mem })
            (set_result (record { kind = inst_availability; is_violate = avail }) dep.1))
        ≡ true)
      ↔ ((ild ≡ not_allowed → is_free ld ≡ true) × (avail ≡ false) × (mem ≡ false))
unfolding verify_dependency no_violation set_result
summary_lem not_allowed ld dep avail mem h =
    rw (← ok_inj h) (
      λ k. (λ _. ground arith, ground arith, ground arith),
      λ k. let free = k.0 refl in ground arith,
    )
summary_lem backward_inst ld dep avail mem h =
    rw (← ok_inj h) (λ k. (λ n. cc, ground arith, ground arith), λ k. ground arith)
summary_lem generic ld dep avail mem h = cc

module _ (I : Ir) (E : ScalarEvolution) where
  open E use {Scev}

  -- The accesses of a kernel that could not be decoupled are not tested.
  accesses_tested :
      (success : Bool) (loads stores : List (ℕ × Option Scev))
      → (r : Compatibility) × (AffineAg.run E success loads stores ≡ some r)
        × ((r.is_violate ≡ false)
            ↔ (success ≡ true → All (IsNestAccess E) loads × All (IsNestAccess E) stores))
  unfolding AffineAg.run
  accesses_tested true loads stores =
      let (r, e, (there, back)) = run-IsNestAccess_iff E loads stores in
      (r, e, (λ h s. there h, λ h. back (h refl)))
  accesses_tested false loads stores = (_, refl, (λ h s. cc, λ h. refl))

  pub verify_accesses_lem :
      (ag : Option AddressGenerator) (max_nests : ℤ) (k : Kernel I E) (da : DecoupledAnalysis)
      → ag ≡ some (affine max_nests)
      → (r : Compatibility) × (verify_accesses I E ag k da ≡ ok r)
        × ((r.is_violate ≡ false) ↔ (
            succeeds da ≡ true
            → All (IsNestAccess E) (loads_of I E k da) × All (IsNestAccess E) (stores_of I E k da)))
  unfolding verify_accesses
  verify_accesses_lem ag max_nests k da is_affine =
      let (r, e, iff) = accesses_tested (succeeds da) (loads_of I E k da) (stores_of I E k da) in
      (r, rw (is_affine, verify_accesses) (ap from_fuel e), iff)
