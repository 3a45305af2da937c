-- ===== src/Tests/TopExamples.antt =====
-- The theorems on the kernels and the schedules of OpenMP.
use cgraomp.Prelude.{
  ℕ, Bool, true, List, ◌≡◌, ◌↔◌, refl, String, Option, none, some, [], ◌∷◌, first, has, IsDistinct,
  if◌then◌else◌,
}
use cgraomp.Prelude.Int.{ℤ, pos}
use cgraomp.Errors.{ok, fault, assertion_failed}
use cgraomp.OmpKernels.{
  OffloadMetadata, OmpKernelInfo, add_kernel, get_offload_function, get_kernel_line, is_metadata_of,
}
use cgraomp.OmpKernels.Offload.{IsPaired, line_of, add_kernel-get_kernel_line}
use cgraomp.OmpSchedule.{
  new_schedule_info, get_schedule_type, get_last_iter_flag, get_lower_bound, get_upper_bound,
  get_stride, get_increment, get_chunk, info_at, insert_all,
}
use cgraomp.OmpSchedule.Arguments.{schedule_getters_iff}
use cgraomp.OmpKernels.{CallBase}
use cgraomp.OmpSchedule.{run_analysis, find_init_call, schedule_of, remove_schedules}
use cgraomp.OmpSchedule.Removed.{calls_of, remove_schedules_iff}
use cgraomp.Tests.Sample.{llvm}

abbrev region : OffloadMetadata
region = record {
  metadata_kind = pos 0;
  file_dev_id = pos 1;
  file_id = pos 2;
  func_name = "main";
  line = pos 7;
  order = pos 0;
}

abbrev no_kernels : OmpKernelInfo llvm
no_kernels = record { md_list = region ∷ []; kernel_list = []; offload_func_list = [] }

-- All names are formatted as that of the function.
abbrev outlined : ℤ → ℤ → String → ℤ → String
outlined dev file name line = llvm.get_name 0

add_kernel-get_kernel_line_example :
    IsPaired llvm (add_kernel llvm 0 1 no_kernels)
    × ((q : llvm.Function)
        → (found : Option llvm.Function) × (get_offload_function llvm q no_kernels ≡ ok found)
          × (get_offload_function llvm q (add_kernel llvm 0 1 no_kernels)
              ≡ ok (elim found [
                | some f ↦ some f
                | none ↦ if llvm.same_function q 1 then some 0 else none
              ])))
    × (get_offload_function llvm 1 no_kernels ≡ ok none
        → get_kernel_line llvm outlined 1 (add_kernel llvm 0 1 no_kernels)
          ≡ ok (line_of (first (is_metadata_of llvm outlined 0) (region ∷ []))))
add_kernel-get_kernel_line_example = add_kernel-get_kernel_line llvm outlined 0 1 no_kernels refl

schedule_getters_iff_example :
    ((get_schedule_type (new_schedule_info 1 2 3 4 5 6 7 7) ≡ ok 2)
      × (get_last_iter_flag (new_schedule_info 1 2 3 4 5 6 7 7) ≡ ok 3)
      × (get_lower_bound (new_schedule_info 1 2 3 4 5 6 7 7) ≡ ok 4)
      × (get_upper_bound (new_schedule_info 1 2 3 4 5 6 7 7) ≡ ok 5)
      × (get_stride (new_schedule_info 1 2 3 4 5 6 7 7) ≡ ok 6)
      × (get_increment (new_schedule_info 1 2 3 4 5 6 7 7) ≡ ok 7)
      × (get_chunk (new_schedule_info 1 2 3 4 5 6 7 7) ≡ ok 7))
    ↔ IsDistinct (2 ∷ 3 ∷ 4 ∷ 5 ∷ 6 ∷ 7 ∷ 7 ∷ [])
schedule_getters_iff_example = schedule_getters_iff 1 2 3 4 5 6 7 7

-- A loop that counts by 1 in chunks of 1 has one constant for both, and the chunk is lost.
chunk_lost : get_chunk (new_schedule_info 1 2 3 4 5 6 7 7) ≡ fault assertion_failed
unfolding get_chunk info_at new_schedule_info insert_all has
chunk_lost = refl

-- The function at an address makes one call, which is named after that address.
abbrev one_call : ℕ → List (CallBase llvm)
one_call f =
    record {
      address = f;
      called_function = some 0;
      operands = 1 ∷ 2 ∷ 3 ∷ 4 ∷ 5 ∷ 6 ∷ 7 ∷ 8 ∷ 9 ∷ 0 ∷ [];
    }
    ∷ []

abbrev any_prefix : String → String → Bool
any_prefix s prefix = true

call_found :
    (f : ℕ) → run_analysis llvm any_prefix (one_call f) ≡ ok (new_schedule_info f 3 4 5 6 7 8 9)
unfolding run_analysis find_init_call schedule_of
call_found f = refl

remove_schedules_iff_example :
    (remove_schedules llvm any_prefix one_call (10 ∷ 20 ∷ []) []
      ≡ ok (
          calls_of llvm any_prefix one_call
            (λ f. new_schedule_info f 3 4 5 6 7 8 9)
            call_found
            (10 ∷ 20 ∷ [])))
    ↔ IsDistinct (
        calls_of llvm any_prefix one_call
          (λ f. new_schedule_info f 3 4 5 6 7 8 9)
          call_found
          (10 ∷ 20 ∷ []))
remove_schedules_iff_example =
    remove_schedules_iff llvm any_prefix one_call (λ f. new_schedule_info f 3 4 5 6 7 8 9)
      call_found (10 ∷ 20 ∷ [])
