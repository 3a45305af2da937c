-- ===== src/Tests/VerifyExamples.antt =====
-- The theorems on the verification of kernels at a model and at a violation.
use cgraomp.Prelude.{◌≡◌, ◌↔◌, Bool, true, none, List, [], ◌∷◌, All, eqb}
use cgraomp.Prelude.Int.{pos}
use cgraomp.Errors.{ok}
use cgraomp.Llvm.{BinaryOps}
use cgraomp.Verify.{VerifyResultBase, conditional, is_available, run}
use cgraomp.Verify.Availability.{IsSupported, run-is_available_iff}
use cgraomp.Tests.Sample.{Inst, llvm, binary, int, variable}
use cgraomp.Tests.Runs.{decoupled_model}

-- An addition and a subtraction.
abbrev kernel : List Inst
kernel = binary BinaryOps.add variable (int (pos 1)) ∷ binary BinaryOps.sub variable variable ∷ []

abbrev same_size : Inst → Inst → Bool
same_size i j = eqb (llvm.get_num_operands i) (llvm.get_num_operands j)

run-is_available_iff_example :
    ((us : List Inst) × (run llvm same_size none decoupled_model kernel ≡ ok us)
      × (is_available llvm us ≡ true))
    ↔ All (IsSupported llvm none decoupled_model) kernel
run-is_available_iff_example = run-is_available_iff llvm none decoupled_model same_size kernel

abbrev branch_found : VerifyResultBase
branch_found = record { kind = conditional; is_violate = true }
