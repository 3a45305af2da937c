-- ===== src/Verify.antt =====
-- include/VerifyPass.hpp and src/Passes/CGRAOmpVerifyPass/VerifyPass.cpp: the results of the
-- verification of a kernel, and the check that its instructions are supported.
use cgraomp.Prelude.{
  ℕ, Bool, true, false, not, Option, none, some, List, [], ◌∷◌, ◌++◌, any, keep, eqb, if◌then◌else◌,
  is_some,
}
use cgraomp.Errors.{Result, ok, err, fault, ◌>>=◌}
use cgraomp.Llvm.{Llvm}
use cgraomp.Annotation.{Table}
use cgraomp.Model.{CgraModel, is_supported}
pub mod Availability
pub mod Summary

-- VerificationKind
pub data VerificationKind : Type 0 where
  function_summary kernel_summary decoupling inst_availability max_nested_level : VerificationKind
  memory_access inter_loop_dep nested_perfectly iteration_size : VerificationKind
  conditional function_call : VerificationKind

-- `static_cast<int>(kind)`
abbrev pub kind_number : VerificationKind → ℕ
kind_number function_summary = 0
kind_number kernel_summary = 1
kind_number decoupling = 2
kind_number inst_availability = 3
kind_number max_nested_level = 4
kind_number memory_access = 5
kind_number inter_loop_dep = 6
kind_number nested_perfectly = 7
kind_number iteration_size = 8
kind_number conditional = 9
kind_number function_call = 10

-- A result of one kind, and whether its conversion to bool gives true.
pub record VerifyResultBase : Type 0 where
  pub kind : VerificationKind
  pub is_violate : Bool

abbrev pub as_bool : VerifyResultBase → Bool
as_bool r = not r.is_violate

unfoldable pub set_vio : VerifyResultBase → VerifyResultBase
set_vio r = record r { is_violate = true }

-- The results of a loop, each under the number of its kind.
abbrev pub LoopVerifyResult : Type 0
LoopVerifyResult = List (ℕ × VerifyResultBase)

-- `each_result[k] = R`
unfoldable pub assign_result : ℕ → VerifyResultBase → LoopVerifyResult → LoopVerifyResult
assign_result k r [] = (k, r) ∷ []
assign_result k r ((j, q) ∷ rs) =
    let rest = assign_result k r rs in if eqb j k then (k, r) ∷ rs else (j, q) ∷ rest

unfoldable pub set_result : VerifyResultBase → LoopVerifyResult → LoopVerifyResult
unfolding assign_result
set_result r rs = assign_result (kind_number r.kind) r rs

unfoldable pub find_result : ℕ → LoopVerifyResult → Option VerifyResultBase
find_result k [] = none
find_result k ((j, q) ∷ rs) = let rest = find_result k rs in if eqb j k then some q else rest

unfoldable pub get_result : VerificationKind → LoopVerifyResult → Option VerifyResultBase
unfolding find_result
get_result kind rs = find_result (kind_number kind) rs

-- The conversion to bool: false at the first violation.
unfoldable pub no_violation : LoopVerifyResult → Bool
no_violation [] = true
no_violation ((k, r) ∷ rs) = let rest = no_violation rs in if as_bool r then rest else false

module _ (L : Llvm) where
  open L use {Instruction}

  -- Instructions are compared by their addresses.
  module _ (same : Instruction → Instruction → Bool) where
    -- `unsupported`, a set without an order.
    unfoldable pub add_unsupported : Instruction → List Instruction → List Instruction
    add_unsupported i unsupported =
        if any (same i) unsupported then unsupported else i ∷ unsupported

    unfoldable pub filter : List Instruction → List Instruction → List Instruction
    filter list unsupported = keep (λ i. not (any (same i) list)) unsupported

    unfoldable pub add_all_unsupported : List Instruction → List Instruction → List Instruction
    unfolding add_unsupported
    add_all_unsupported [] unsupported = unsupported
    add_all_unsupported (i ∷ is) unsupported =
        add_all_unsupported is (add_unsupported i unsupported)

  -- InstAvailability::bool_operator_impl
  unfoldable pub is_available : List Instruction → Bool
  is_available [] = true
  is_available (i ∷ is) = false

  -- The instructions of a kernel that the model does not support, in order.
  unfoldable pub unsupported_of :
      Option (Table L) → CgraModel L → List Instruction → Result (List Instruction)
  unsupported_of cached model [] = ok []
  unsupported_of cached model (i ∷ is) =
      let rest = unsupported_of cached model is in
      is_supported L cached i model >>= λ imap.
      rest >>= λ unsupported. ok (elim imap [ none ↦ i ∷ unsupported | some p ↦ unsupported ])

  -- `None` if every instruction is supported.
  unfoldable pub check_unsupported_inst :
      Option (Table L) → CgraModel L → List Instruction → Result (Option (List Instruction))
  unfolding unsupported_of
  check_unsupported_inst cached model is = unsupported_of cached model is >>= λ unsupported.
      ok (elim unsupported [ [] ↦ none | u ∷ us ↦ some (u ∷ us) ])

  -- VerifyInstAvailabilityPass::run, given the instructions of the kernel.
  unfoldable pub run :
      (Instruction → Instruction → Bool)
      → Option (Table L)
      → CgraModel L
      → List Instruction
      → Result (List Instruction)
  unfolding check_unsupported_inst add_all_unsupported
  run same cached model is = check_unsupported_inst cached model is >>= λ unsupported_insts.
      ok (elim unsupported_insts [ none ↦ [] | some list ↦ add_all_unsupported same list [] ])
