-- ===== src/TmVerify.antt =====
-- include/VerifyPass.hpp, src/Passes/CGRAOmpVerifyPass/VerifyPass.cpp and
-- src/Passes/CGRAOmpComponents/Utils.cpp: the verification of the kernels of a function for a
-- time-multiplexed CGRA, and the search for its loop kernels.
pub mod Valid
use cgraomp.Prelude.{
  ℕ, Bool, true, false, not, Option, none, some, List, [], ◌∷◌, eqb, first, length, insert_new,
  subtract, keep, if◌then◌else◌, is_some,
}
use cgraomp.Prelude.Int.{ℤ}
use cgraomp.Errors.{Result, ok, err, fault, ◌>>=◌, assertion_failed}
use cgraomp.Llvm.{Llvm}
use cgraomp.Ir.{Ir}
use cgraomp.ScalarEvolution.{ScalarEvolution}
use cgraomp.Annotation.{Table}
use cgraomp.Model.{CgraModel}
use cgraomp.LoopDependency
use cgraomp.LoopDependency.{LoopDependencyInfo, LoopFacts}
use cgraomp.Verify.{LoopVerifyResult, inst_availability, set_result, no_violation}
use cgraomp.DecoupledVerify.{
  VerifyResult, register_kernel, insert_phis, insert_unsupported, check_unsupported_inst,
}

-- What LLVM says of a loop of a nest, and of a nest: its loops, outermost first, and whether it has
-- one innermost loop.
pub record NestedLoop : Type 0 where
  pub loop : ℕ
  pub nest_depth : ℕ
  pub max_perfect_depth : ℕ

pub record LoopNest : Type 0 where
  pub loops : List NestedLoop
  pub innermost : Option ℕ

unfoldable pub find_perfectly_nested_loop : List LoopNest → List ℕ
find_perfectly_nested_loop [] = []
find_perfectly_nested_loop (nest ∷ nests) =
    let rest = find_perfectly_nested_loop nests in
    if is_some nest.innermost
    then elim (first (λ l. eqb l.nest_depth l.max_perfect_depth) nest.loops) [
      | none ↦ rest
      | some l ↦ l.loop ∷ rest
    ]
    else rest

-- The terminator of the latch: a branch, if it is one, whether it is conditional, and its condition,
-- if that is a comparison.
pub record Branch : Type 0 where
  pub address : ℕ
  pub is_conditional : Bool
  pub condition : Option ℕ

unfoldable pub find_back_branch : Option Branch → Option Branch
find_back_branch none = none
find_back_branch (some b) = if b.is_conditional then some b else none

-- The innermost loop of a kernel: its instructions, which of them are GEPs, and its one latch, or
-- rather what ends it; a loop with several latches is not modelled.
pub record TmKernel : Type 0 where
  pub loop : ℕ
  pub insts : List ℕ
  pub is_gep : ℕ → Bool
  pub latch : Option Branch
  pub facts : LoopFacts

unfoldable pub get_all_gep : TmKernel → List ℕ
get_all_gep k = keep k.is_gep k.insts

-- The branch at the end of the loop and its condition; `dyn_cast` of a null pointer is an assertion.
unfoldable pub except_back : Option Branch → List ℕ → Result (List ℕ)
except_back none except = ok except
except_back (some back) except = elim back.condition [
  | none ↦ fault assertion_failed
  | some condition ↦ ok (insert_new condition (insert_new back.address except))
]

-- The instructions that the model need not support.
unfoldable pub except_insts : TmKernel → LoopDependencyInfo → Result (List ℕ)
except_insts k ld =
    let phis = insert_phis ld.lc_dep_list (insert_phis ld.indvar_dep_list []) in
    except_back (find_back_branch k.latch) phis >>= λ except.
    ok (insert_unsupported (get_all_gep k) except)

module _ (I : Ir) (E : ScalarEvolution) (L : Llvm) (as_instruction : ℕ → Option L.Instruction)
    (cached : Option (Table L)) (model : CgraModel L) where
  -- The body of the loop over kernels, up to the registration of the kernel.
  unfoldable pub verify_loop : ℤ → TmKernel → Result LoopVerifyResult
  verify_loop threshold k = LoopDependency.run I threshold k.facts >>= λ ld.
      except_insts k ld >>= λ except.
      check_unsupported_inst I E L as_instruction cached model k.insts >>= λ list.
      let unsupported = subtract (insert_unsupported list []) except in
      ok (
        set_result
          (record { kind = inst_availability; is_violate = not (eqb (length unsupported) 0) }) [])

  unfoldable pub verify_loops : ℤ → List TmKernel → VerifyResult → Result VerifyResult
  verify_loops threshold [] r = ok r
  verify_loops threshold (k ∷ ks) r = verify_loop threshold k >>= λ lvr.
      verify_loops threshold ks (if no_violation lvr then register_kernel k.loop lvr r else r)

  -- TimeMultiplexedVerifyPass::run, given the innermost loops of the function's kernels.
  unfoldable pub run : ℤ → List TmKernel → Result VerifyResult
  run threshold kernels =
      verify_loops threshold kernels (record { valid_kernels = []; loop_verify_results = [] })
