-- ===== src/DecoupledVerify.antt =====
-- include/VerifyPass.hpp and src/Passes/CGRAOmpVerifyPass/VerifyPass.cpp: the verification of the
-- kernels of a function for a decoupled CGRA, by the analyses of its loops.
pub mod Checks
pub mod Valid
pub mod Registered
use cgraomp.Prelude.{
  ℕ, ◌+◌, Bool, true, false, not, Option, none, some, List, [], ◌∷◌, ◌++◌, map, ltb, eqb, length,
  has, insert_new, subtract, if◌then◌else◌,
}
use cgraomp.Prelude.Int.{ℤ}
use cgraomp.Errors.{Result, ok, err, fault, ◌>>=◌, deref, from_fuel, unreachable_code}
use cgraomp.Llvm.{Llvm}
use cgraomp.Ir.{Ir}
use cgraomp.ScalarEvolution.{ScalarEvolution}
use cgraomp.Annotation.{Table}
use cgraomp.Config.Setting.{
  InterLoopDep, not_allowed, generic, backward_inst, AddressGenerator, affine, full_state,
}
use cgraomp.Model.{CgraModel, is_supported}
use cgraomp.Decoupled
use cgraomp.Decoupled.{DecoupledAnalysis, succeeds}
use cgraomp.LoopDependency
use cgraomp.LoopDependency.{
  LoopDependencyInfo, LoopFacts, LoopDependency, get_num_dep, get_num_mem_dep,
}
use cgraomp.AffineAg
use cgraomp.AffineAg.{Compatibility}
use cgraomp.Verify.{
  VerificationKind, VerifyResultBase, LoopVerifyResult, decoupling, inst_availability,
  memory_access, inter_loop_dep, set_result, no_violation,
}

-- What is left of the results of a loop when its iteration ends: they are pointers, and those of
-- the decoupling and of the availability of instructions, to locals of the loop body, dangle.
abbrev pub RegisteredResult : Type 0
RegisteredResult = List (ℕ × Option VerifyResultBase)

abbrev pub is_local : VerificationKind → Bool
is_local decoupling = true
is_local inst_availability = true
is_local _ = false

unfoldable pub keep_live : LoopVerifyResult → RegisteredResult
keep_live [] = []
keep_live ((k, r) ∷ rs) = (k, (if is_local r.kind then none else some r)) ∷ keep_live rs

-- VerifyResult: the kernels that are valid, and their results, as they are after the loop.
pub record VerifyResult : Type 0 where
  pub valid_kernels : List ℕ
  pub loop_verify_results : List (ℕ × RegisteredResult)

-- `loop_verify_results[L] = LVR`
unfoldable pub assign_loop :
    ℕ → RegisteredResult → List (ℕ × RegisteredResult) → List (ℕ × RegisteredResult)
assign_loop loop lvr [] = (loop, lvr) ∷ []
assign_loop loop lvr ((l, r) ∷ rs) =
    let rest = assign_loop loop lvr rs in if eqb l loop then (loop, lvr) ∷ rs else (l, r) ∷ rest

unfoldable pub register_kernel : ℕ → LoopVerifyResult → VerifyResult → VerifyResult
unfolding assign_loop keep_live
register_kernel loop lvr r = record {
  valid_kernels = r.valid_kernels ++ loop ∷ [];
  loop_verify_results = assign_loop loop (keep_live lvr) r.loop_verify_results;
}

unfoldable pub find_loop : ℕ → List (ℕ × RegisteredResult) → Option RegisteredResult
find_loop loop [] = none
find_loop loop ((l, r) ∷ rs) = let rest = find_loop loop rs in if eqb l loop then some r else rest

unfoldable pub get_loop_verify_result : ℕ → VerifyResult → Option RegisteredResult
unfolding find_loop
get_loop_verify_result loop r = find_loop loop r.loop_verify_results

unfoldable pub get_num_kernels : VerifyResult → ℕ
get_num_kernels r = length r.valid_kernels

-- `except_inst.insert` of the phi node of each dependency; a null pointer is no instruction.
unfoldable pub insert_phis : List LoopDependency → List ℕ → List ℕ
insert_phis [] except = except
insert_phis (d ∷ ds) except =
    insert_phis ds (elim d.phi [ none ↦ except | some p ↦ insert_new p except ])

-- The switch over the model's capability for dependencies between iterations. The pair is
-- `except_inst` and the results of the loop.
unfoldable pub verify_dependency :
    InterLoopDep → LoopDependencyInfo → LoopVerifyResult → Result (List ℕ × LoopVerifyResult)
unfolding insert_phis set_result
verify_dependency not_allowed ld lvr = ok (
  [],
  set_result
      (record { kind = inter_loop_dep; is_violate = ltb 0 (get_num_dep ld + get_num_mem_dep ld) })
      lvr,
)
verify_dependency backward_inst ld lvr =
    ok (insert_phis ld.lc_dep_list (insert_phis ld.indvar_dep_list []), lvr)
verify_dependency generic ld lvr = fault unreachable_code

-- `add_unsupported` of each instruction
unfoldable pub insert_unsupported : List ℕ → List ℕ → List ℕ
insert_unsupported [] unsupported = unsupported
insert_unsupported (v ∷ vs) unsupported = insert_unsupported vs (insert_new v unsupported)

module _ (I : Ir) (E : ScalarEvolution) where
  open E use {Scev}

  -- A loop kernel: its address, the instructions of its innermost loop, whether an address belongs
  -- to the schedule of OpenMP, and what LLVM's analyses say of it. `scev_of` is the expression of
  -- an address, if its type has one.
  pub record Kernel : Type 0 where
    pub loop : ℕ
    pub insts : List ℕ
    pub in_schedule : ℕ → Bool
    pub facts : LoopFacts
    pub scev_of : ℕ → Option Scev

  unfoldable pub loads_of : Kernel → DecoupledAnalysis → List (ℕ × Option Scev)
  loads_of k da = map (λ v. (v, k.scev_of (I.operand_0 v))) da.mem_load

  unfoldable pub stores_of : Kernel → DecoupledAnalysis → List (ℕ × Option Scev)
  stores_of k da = map (λ v. (v, k.scev_of (I.operand_1 v))) da.mem_store

  -- The switch over the address generator.
  unfoldable pub verify_accesses :
      Option AddressGenerator → Kernel → DecoupledAnalysis → Result Compatibility
  verify_accesses ag k da = deref ag >>= λ g. elim g [
    | affine max_nests ↦ from_fuel (AffineAg.run E (succeeds da) (loads_of k da) (stores_of k da))
    | full_state ↦ fault unreachable_code
  ]

  module _ (L : Llvm) (as_instruction : ℕ → Option L.Instruction) where
    module _ (cached : Option (Table L)) (model : CgraModel L) where
      -- checkUnsupportedInst: only the computation is tested.
      unfoldable pub check_unsupported_inst : List ℕ → Result (List ℕ)
      check_unsupported_inst [] = ok []
      check_unsupported_inst (v ∷ vs) =
          let rest = check_unsupported_inst vs in
          elim (as_instruction v) [
            | none ↦ rest
            | some i ↦ is_supported L cached i model >>= λ imap. rest >>= λ unsupported.
                ok (elim imap [ none ↦ v ∷ unsupported | some p ↦ unsupported ])
          ]

      -- The body of the loop over kernels, up to the registration of the kernel.
      unfoldable pub verify_loop : ℕ → ℤ → Kernel → Result LoopVerifyResult
      verify_loop fuel threshold k =
          from_fuel (Decoupled.run I fuel k.in_schedule k.insts) >>= λ da.
          let lvr = set_result (record { kind = decoupling; is_violate = false }) [] in
          LoopDependency.run I threshold k.facts >>= λ ld.
          verify_dependency model.inter_loop_dep ld lvr >>= λ dep.
          check_unsupported_inst da.comp >>= λ list.
          let unsupported = subtract (insert_unsupported list []) dep.0 in
          let avail : VerifyResultBase = record {
            kind = inst_availability;
            is_violate = not (eqb (length unsupported) 0);
          } in
          verify_accesses model.ag k da >>= λ ag. ok (
            set_result (record { kind = memory_access; is_violate = ag.is_violate })
              (set_result avail dep.1))

      unfoldable pub verify_loops : ℕ → ℤ → List Kernel → VerifyResult → Result VerifyResult
      verify_loops fuel threshold [] r = ok r
      verify_loops fuel threshold (k ∷ ks) r = verify_loop fuel threshold k >>= λ lvr.
          verify_loops fuel threshold ks
            (if no_violation lvr then register_kernel k.loop lvr r else r)

      -- DecoupledVerifyPass::run, given the loop kernels of the function.
      unfoldable pub run : ℕ → ℤ → List Kernel → Result VerifyResult
      run fuel threshold kernels =
          verify_loops fuel threshold kernels
            (record { valid_kernels = []; loop_verify_results = [] })
