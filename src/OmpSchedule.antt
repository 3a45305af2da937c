-- ===== src/OmpSchedule.antt =====
-- include/CGRAOmpPass.hpp and src/Passes/CGRAOmpPass/CGRAOmpPass.cpp: the call that sets up the static
-- schedule of a kernel, its arguments, and its removal.
pub mod Removed
use cgraomp.Prelude.{
  ℕ, zero, ◌≡◌, Bool, true, false, String, Option, none, some, List, [], ◌∷◌, get_elem?, has,
  insert_new, if◌then◌else◌,
}
use cgraomp.Errors.{
  Result, ok, err, fault, ◌>>=◌, deref, assertion_failed, null_dereference, use_after_free,
}
use cgraomp.Llvm.{Llvm}
use cgraomp.OmpKernels.{CallBase}
pub mod Arguments

-- The data members of `OmpScheduleInfo`: `info` is a set of values in the order of their insertion,
-- in which a null pointer is the address 0. An invalid one has no caller that is set.
pub record OmpScheduleInfo : Type 0 where
  pub info : List ℕ
  pub caller : Option ℕ
  pub valid : Bool

-- `info.insert` of one value after the other.
unfoldable pub insert_all : List ℕ → List ℕ → List ℕ
unfolding insert_new
insert_all set [] = set
insert_all set (v ∷ vs) = insert_all (insert_new v set) vs

unfoldable pub new_schedule_info : ℕ → ℕ → ℕ → ℕ → ℕ → ℕ → ℕ → ℕ → OmpScheduleInfo
unfolding insert_all
new_schedule_info caller schedule_type last_iter_flag lower_bound upper_bound stride increment
      chunk =
    record {
      info = insert_all [] (
          schedule_type ∷ last_iter_flag ∷ lower_bound ∷ upper_bound ∷ stride ∷ increment ∷ chunk
          ∷ []);
      caller = some caller;
      valid = true;
    }

-- The constructor without arguments inserts the null pointer nine times.
unfoldable pub invalid_schedule_info : OmpScheduleInfo
unfolding insert_all
invalid_schedule_info = record {
  info = insert_all [] (0 ∷ 0 ∷ 0 ∷ 0 ∷ 0 ∷ 0 ∷ 0 ∷ 0 ∷ 0 ∷ []);
  caller = none;
  valid = false;
}

unfoldable pub contains : ℕ → OmpScheduleInfo → Bool
contains v r = has v r.info

-- `info[i]`: an index that is out of range is an assertion that fails.
abbrev pub value_at : List ℕ → ℕ → Result ℕ
value_at values i = elim (get_elem? values i) [ none ↦ fault assertion_failed | some v ↦ ok v ]

unfoldable pub info_at : ℕ → OmpScheduleInfo → Result ℕ
info_at i r = value_at r.info i

unfoldable pub get_schedule_type : OmpScheduleInfo → Result ℕ
unfolding info_at
get_schedule_type r = info_at 0 r

unfoldable pub get_last_iter_flag : OmpScheduleInfo → Result ℕ
unfolding info_at
get_last_iter_flag r = info_at 1 r

unfoldable pub get_lower_bound : OmpScheduleInfo → Result ℕ
unfolding info_at
get_lower_bound r = info_at 2 r

unfoldable pub get_upper_bound : OmpScheduleInfo → Result ℕ
unfolding info_at
get_upper_bound r = info_at 3 r

unfoldable pub get_stride : OmpScheduleInfo → Result ℕ
unfolding info_at
get_stride r = info_at 4 r

unfoldable pub get_increment : OmpScheduleInfo → Result ℕ
unfolding info_at
get_increment r = info_at 5 r

unfoldable pub get_chunk : OmpScheduleInfo → Result ℕ
unfolding info_at
get_chunk r = info_at 6 r

-- The operands 2 to 8 of a call that has at least 9 of them.
unfoldable pub schedule_of : ℕ → List ℕ → OmpScheduleInfo
unfolding new_schedule_info invalid_schedule_info
schedule_of caller (loc ∷ gtid ∷ a ∷ b ∷ c ∷ d ∷ e ∷ f ∷ g ∷ rest) =
    new_schedule_info caller a b c d e f g
schedule_of caller _ = invalid_schedule_info

module _ (L : Llvm) (starts_with : String → String → Bool) where
  -- The first call of a function with this prefix; an indirect call before it is a null pointer.
  unfoldable pub find_init_call : List (CallBase L) → Result (Option (CallBase L))
  find_init_call [] = ok none
  find_init_call (call ∷ calls) = elim call.called_function [
    | none ↦ fault null_dereference
    | some f ↦
        let rest = find_init_call calls in
        if starts_with (L.get_name f) "__kmpc_for_static_init" then ok (some call) else rest
  ]

  -- OmpStaticShecudleAnalysis::run, on the calls of a function.
  unfoldable pub run_analysis : List (CallBase L) → Result OmpScheduleInfo
  unfolding find_init_call schedule_of invalid_schedule_info
  run_analysis calls = find_init_call calls >>= λ found. elim found [
    | none ↦ ok invalid_schedule_info
    | some call ↦ ok (schedule_of call.address call.operands)
  ]

  -- `eraseFromParent`; the analysis of a function that is met again is cached, with its caller.
  unfoldable pub erase : ℕ → List ℕ → Result (List ℕ)
  erase call erased = if has call erased then fault use_after_free else ok (insert_new call erased)

  -- RemoveScheduleRuntimePass::run, on the kernels, with the calls that are erased.
  unfoldable pub remove_schedules :
      (L.Function → List (CallBase L)) → List L.Function → List ℕ → Result (List ℕ)
  unfolding run_analysis erase
  remove_schedules body [] erased = ok erased
  remove_schedules body (f ∷ fs) erased = run_analysis (body f) >>= λ r.
      (if r.valid then (deref r.caller >>= λ call. erase call erased) else ok erased) >>= λ erased'.
      remove_schedules body fs erased'
