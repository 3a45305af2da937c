-- ===== src/Tests/KernelExamples.antt =====
-- The theorems on the verification for a decoupled CGRA, on its data-flow graph, and on options.
use cgraomp.Prelude.{
  List, subst, some_inj, ℕ, ◌+◌, ◌≡◌, ◌≢◌, ◌↔◌, refl, true, false, none, some, [], ◌∷◌, ◌++◌, keep,
  All, has, intersect, subtract, insert_new,
}
use cgraomp.Prelude.Int.{pos}
use cgraomp.Errors.{ok}
use cgraomp.InstMap
use cgraomp.InstMap.Entry.{match_inst, same_binary}
use cgraomp.InstMap.Condition.{matches, flag_getters}
use cgraomp.Annotation
use cgraomp.Config.Setting.{InterLoopDep, affine}
use cgraomp.Model.{CgraModel, is_supported}
use cgraomp.Decoupled
use cgraomp.Decoupled.{DecoupledAnalysis, succeeds}
use cgraomp.AffineAg.{Compatibility}
use cgraomp.AffineAg.Kernel.{IsNestAccess}
use cgraomp.LoopDependency
use cgraomp.LoopDependency.{LoopDependencyInfo}
use cgraomp.LoopDependency.Phis.{is_free}
use cgraomp.Verify.{LoopVerifyResult, no_violation}
use cgraomp.DecoupledVerify.{Kernel, loads_of, stores_of, check_unsupported_inst, verify_loop, run}
use cgraomp.DecoupledVerify.Checks.{excepted}
use cgraomp.DecoupledVerify.Valid.{IsAccepted, verify_loop_iff}
use cgraomp.TmVerify
use cgraomp.TmVerify.{Branch, TmKernel, find_back_branch}
use cgraomp.TmVerify.Valid.{is_excepted, verify_loop_excepted_iff}
use cgraomp.OptKeyValue.{parse, print, new_key_value, equals_sign}
use cgraomp.OptKeyValue.RoundTrip.{IsPrinted, parse-print, parse-IsPrinted}
use cgraomp.Tests.Sample.{llvm}
use cgraomp.Tests.Runs.{decoupled_model, tm_model, parsed, model_of}
use cgraomp.Tests.Analyses.{ir, trees, in_steps, instructions, no_schedule, facts, as_inst}

-- The sample model, with no dependency between iterations allowed.
abbrev strict_model : CgraModel llvm
strict_model = record decoupled_model { inter_loop_dep = InterLoopDep.not_allowed }

abbrev kernel : Kernel ir trees
kernel = record {
  loop = 1000;
  insts = instructions;
  in_schedule = no_schedule;
  facts = facts;
  scev_of = λ v. some in_steps;
}

decoupled_runs :
    (da : DecoupledAnalysis) × (Decoupled.run ir 5 no_schedule instructions ≡ some da)
    × (da.comp ≡ 2 ∷ [])
unfolding Decoupled.run keep Decoupled.is_pointer_value has intersect subtract
decoupled_runs = (_, refl, refl)

abbrev da : DecoupledAnalysis
da = decoupled_runs.0

dependency_runs : (ld : LoopDependencyInfo) × (LoopDependency.run ir (pos 2) facts ≡ ok ld)
unfolding LoopDependency.run LoopDependency.word_size has insert_new
dependency_runs = (_, refl)

comp_supported : check_unsupported_inst ir trees llvm as_inst none strict_model (2 ∷ []) ≡ ok []
unfolding check_unsupported_inst model_of parsed is_supported InstMap.find_inst match_inst matches
    flag_getters Annotation.run Annotation.function_loop Annotation.annotated
    Annotation.annotation_text Annotation.contains Annotation.insert_text same_binary
comp_supported = refl

model_ag : strict_model.ag ≡ some (affine (pos 3))
unfolding model_of parsed
model_ag = refl

model_dep : strict_model.inter_loop_dep ≢ InterLoopDep.generic
model_dep h = cc

-- A loop without dependencies between iterations.
abbrev free_kernel : Kernel ir trees
free_kernel = record kernel {
  loop = 2000;
  facts = record facts { nests = []; phis = []; dependences = some [] };
}

verify_loop_iff_example :
    (lvr : LoopVerifyResult) × (verify_loop ir trees llvm as_inst none strict_model 5 (pos 2) kernel
      ≡ ok lvr)
    × ((no_violation lvr ≡ true) ↔ (
        (strict_model.inter_loop_dep ≡ InterLoopDep.not_allowed → is_free dependency_runs.0 ≡ true)
        × All
            (IsAccepted ir trees llvm as_inst none strict_model
              (excepted strict_model.inter_loop_dep dependency_runs.0))
            da.comp
        × (succeeds da ≡ true
            → All (IsNestAccess trees) (loads_of ir trees kernel da)
              × All (IsNestAccess trees) (stores_of ir trees kernel da))))
verify_loop_iff_example =
    verify_loop_iff ir trees llvm as_inst none strict_model 5 (pos 2) kernel (pos 3) da
      dependency_runs.0 [] model_ag model_dep decoupled_runs.1 dependency_runs.1
      (rw decoupled_runs.2 comp_supported)

-- A node's address is that of its value and 101 more; the virtual root is at 100.
abbrev node_of : ℕ → ℕ
node_of v = v + 101

abbrev no_config : Compatibility
no_config = record { config = []; invalid_list = []; is_violate = false }

parse-print_example :
    (parse (print (new_key_value (97 ∷ []) (98 ∷ []))) ≡ new_key_value (97 ∷ []) (98 ∷ []))
    × (parse (print (new_key_value (97 ∷ []) (98 ∷ [])) ++ equals_sign ∷ [])
        ≡ new_key_value (97 ∷ []) (98 ∷ []))
parse-print_example = parse-print (97 ∷ []) (98 ∷ []) (refl, tt) (refl, tt) (λ h. cc)

parse-IsPrinted_example : IsPrinted (97 ∷ 61 ∷ 98 ∷ []) (parse (97 ∷ 61 ∷ 98 ∷ []))
unfolding parse
parse-IsPrinted_example = parse-IsPrinted (97 ∷ 61 ∷ 98 ∷ []) refl

-- The branch at 8 compares by the instruction at 9; the values 2, 8 and 9 are in the loop.
abbrev tm_kernel : TmKernel
tm_kernel = record {
  loop = 1000;
  insts = 2 ∷ 8 ∷ 9 ∷ [];
  is_gep = λ v. false;
  latch = some (record { address = 8; is_conditional = true; condition = some 9 });
  facts = facts;
}

tm_supported :
    (us : List ℕ) × (check_unsupported_inst ir trees llvm as_inst none tm_model (2 ∷ 8 ∷ 9 ∷ [])
      ≡ ok us)
unfolding check_unsupported_inst model_of parsed is_supported InstMap.find_inst match_inst matches
    flag_getters Annotation.run Annotation.function_loop Annotation.annotated
    Annotation.annotation_text Annotation.contains Annotation.insert_text same_binary
tm_supported = (_, refl)

tm_compared :
    (b : Branch) → find_back_branch tm_kernel.latch ≡ some b → (c : ℕ) × (b.condition ≡ some c)
unfolding find_back_branch
tm_compared b e = subst (λ b. (c : ℕ) × (b.condition ≡ some c)) (some_inj e) (9, refl)

verify_loop_excepted_iff_example :
    (lvr : LoopVerifyResult) × (except : List ℕ) × (TmVerify.verify_loop ir trees llvm as_inst none
        tm_model
        (pos 2)
        tm_kernel
      ≡ ok lvr)
    × ((a : ℕ) → has a except ≡ is_excepted tm_kernel dependency_runs.0 a)
    × ((no_violation lvr ≡ true)
        ↔ All (IsAccepted ir trees llvm as_inst none tm_model except) (2 ∷ 8 ∷ 9 ∷ []))
verify_loop_excepted_iff_example =
    verify_loop_excepted_iff ir trees llvm as_inst none tm_model (pos 2) tm_kernel dependency_runs.0
      tm_supported.0 dependency_runs.1 tm_supported.1 tm_compared
