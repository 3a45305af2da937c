-- ===== src/Tests/AnalysisExamples.antt =====
-- The theorems on the analyses of loops and on the verification for a decoupled CGRA.
use cgraomp.Prelude.{
  ℕ, ◌-◌, ◌^◌, ◌≡◌, ◌↔◌, refl, true, false, not, ◌||◌, Option, none, some, List, [], ◌∷◌, any, All,
  arith, has,
}
use cgraomp.Prelude.Int.{pos, negsuc}
use cgraomp.Errors.{ok}
use cgraomp.Decoupled
use cgraomp.Decoupled.{DecoupledAnalysis, succeeds, no_result}
use cgraomp.Decoupled.Result.{IsDecoupled, IsSplit, run_total, run-IsDecoupled_iff}
use cgraomp.AffineAg
use cgraomp.AffineAg.{Config, DimEntry, Compatibility, verify_scev_as_affine_ag}
use cgraomp.AffineAg.Affine.{IsNest, verify_scev_as_affine_ag_iff}
use cgraomp.AffineAg.Kernel.{IsNestAccess, run-IsNestAccess_iff}
use cgraomp.LoopDependency
use cgraomp.LoopDependency.{LoopDependencyInfo, quotient}
use cgraomp.LoopDependency.Distance.{quotient_signs}
use cgraomp.LoopDependency.Phis.{IsSimplified, is_free, is_carried, indvars_of}
use cgraomp.LoopDependency.Independent.{is_hazard, run-is_free}
use cgraomp.Tests.Analyses.{ir, users_of, trees, Expr, in_steps, instructions, no_schedule, facts}

users_known : (v : ℕ) → All (λ u. has u (2 ∷ 3 ∷ []) ≡ true) (users_of v)
unfolding has
users_known v = ground arith

run_total_example : (r : DecoupledAnalysis) × (Decoupled.run ir 5 no_schedule instructions ≡ some r)
run_total_example = run_total ir no_schedule instructions (2 ∷ 3 ∷ []) 5 users_known (omega arith)

abbrev split_kernel : DecoupledAnalysis
split_kernel = run_total_example.0

run-IsDecoupled_iff_example :
    ((succeeds split_kernel ≡ true) ↔ IsDecoupled ir no_schedule instructions)
    × (succeeds split_kernel ≡ true → IsSplit ir no_schedule instructions split_kernel)
run-IsDecoupled_iff_example =
    run-IsDecoupled_iff ir no_schedule instructions 5 split_kernel
      ((refl, (refl, tt)), ((refl, tt), (tt, tt))) run_total_example.1

verify_scev_as_affine_ag_iff_example :
    (c : Config) × (verify_scev_as_affine_ag trees in_steps ≡ some c)
    × ((c.valid ≡ true) ↔ ((dims : List DimEntry) × IsNest trees in_steps dims))
    × (c.valid ≡ true → IsNest trees in_steps c.config)
verify_scev_as_affine_ag_iff_example = verify_scev_as_affine_ag_iff trees in_steps

abbrev accesses : List (ℕ × Option Expr)
accesses = (1, some in_steps) ∷ []

run-IsNestAccess_iff_example :
    (r : Compatibility) × (AffineAg.run trees true accesses ((3, none) ∷ []) ≡ some r)
    × ((r.is_violate ≡ false)
        ↔ (All (IsNestAccess trees) accesses × All (IsNestAccess trees) ((3, none) ∷ [])))
run-IsNestAccess_iff_example = run-IsNestAccess_iff trees accesses ((3, none) ∷ [])

quotient_signs_example :
    (quotient ir 12 4 ≡ ok (pos 3)) × (quotient ir (2 ^ 64 - 12) 4 ≡ ok (negsuc 2))
quotient_signs_example = quotient_signs ir 3 (omega arith) (omega arith)

phi_IsSimplified :
    IsSimplified ir (7 ∷ []) (record { address = 6; incoming = (20, 8) ∷ (2, 7) ∷ [] })
unfolding has
phi_IsSimplified = IsSimplified.entered (20, 8) (2, 7) refl refl

run-is_free_example :
    (r : LoopDependencyInfo) × (LoopDependency.run ir (pos 2) facts ≡ ok r)
    × (is_free r
        ≡ not (
            any (is_carried ir (indvars_of facts.nests) (7 ∷ [])) facts.phis
            || any
                (is_hazard ir (pos 2) facts.minus)
                (record { is_backward = true; source = 1; destination = 3 } ∷ [])))
unfolding LoopDependency.word_size
run-is_free_example =
    run-is_free ir (pos 2) facts (record { is_backward = true; source = 1; destination = 3 } ∷ [])
      refl (phi_IsSimplified, tt) ((λ a b. (refl, omega arith)), tt)
