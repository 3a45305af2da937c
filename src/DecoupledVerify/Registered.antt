-- ===== src/DecoupledVerify/Registered.antt =====
-- The kernels that the verification for a decoupled CGRA registers.
use cgraomp.Prelude.{ℕ, ◌≡◌, Bool, true, false, Option, some, List}
use cgraomp.Prelude.Int.{ℤ}
use cgraomp.Errors.{ok}
use cgraomp.Llvm.{Llvm}
use cgraomp.Ir.{Ir}
use cgraomp.ScalarEvolution.{ScalarEvolution}
use cgraomp.Annotation.{Table}
use cgraomp.Model.{CgraModel}
use cgraomp.Verify.{no_violation, LoopVerifyResult}
use cgraomp.DecoupledVerify.{VerifyResult, keep_live, Kernel, get_loop_verify_result, verify_loop}

-- A lookup of the loop finds what is left of a result that violates nothing.
abbrev pub IsRegistered : VerifyResult → ℕ → Type 0
IsRegistered r loop =
    (lvr : LoopVerifyResult) × (get_loop_verify_result loop r ≡ some (keep_live lvr))
    × (no_violation lvr ≡ true)

module _ (I : Ir) (E : ScalarEvolution) (L : Llvm) (as_instruction : ℕ → Option L.Instruction)
    (cached : Option (Table L)) (model : CgraModel L) (fuel : ℕ) (threshold : ℤ) where
  -- The verification of the kernel finds no violation.
  unfoldable pub is_valid : Kernel I E → Bool
  is_valid k = elim (verify_loop I E L as_instruction cached model fuel threshold k) [
    | ok lvr ↦ no_violation lvr
    | _ ↦ false
  ]
