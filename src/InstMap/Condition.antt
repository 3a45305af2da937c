-- ===== src/InstMap/Condition.antt =====
-- src/Passes/CGRAModel/CGRAInstMap.cpp and include/CGRAInstMap.hpp, class MapCondition: when an
-- instruction may be mapped to an operation of the CGRA.
pub mod Ready
pub mod Meaning
pub mod Setters
use cgraomp.Prelude.{
  ℕ, ◌<◌, String, Bool, true, false, not, Option, none, some, List, [], ◌∷◌, ◌++◌, ◌<>◌, ltb,
  if◌then◌else◌,
}
use cgraomp.Prelude.Int.{ℤ, eqb_ℤ}
use cgraomp.Prelude.StringMap
use cgraomp.Prelude.StringMap.{StringMap}
use cgraomp.Errors.{
  Result, ok, err, fault, string_error, empty_function, assertion_failed, ◌and_then◌,
}
use cgraomp.Llvm.{Llvm, Predicate}

pub Predicate-discrete : Discrete Predicate
Predicate-discrete = hlevel

unfoldable pub same_pred : Predicate → Predicate → Bool
unfolding Predicate-discrete
same_pred a b = elim (Predicate-discrete a b) [ yes _ ↦ true | no _ ↦ false ]

-- `PredMap`, in the order of its initializer list.
abbrev pub pred_pairs : List (String × Predicate)
pred_pairs =
    ("eq", Predicate.icmp_eq)
    ∷ ("ne", Predicate.icmp_ne)
    ∷ ("ugt", Predicate.icmp_ugt)
    ∷ ("uge", Predicate.icmp_uge)
    ∷ ("ult", Predicate.icmp_ult)
    ∷ ("ule", Predicate.icmp_ule)
    ∷ ("sgt", Predicate.icmp_sgt)
    ∷ ("sge", Predicate.icmp_sge)
    ∷ ("slt", Predicate.icmp_slt)
    ∷ ("sle", Predicate.icmp_sle)
    ∷ ("false", Predicate.fcmp_false)
    ∷ ("oeq", Predicate.fcmp_oeq)
    ∷ ("ogt", Predicate.fcmp_ogt)
    ∷ ("oge", Predicate.fcmp_oge)
    ∷ ("olt", Predicate.fcmp_olt)
    ∷ ("ole", Predicate.fcmp_ole)
    ∷ ("one", Predicate.fcmp_one)
    ∷ ("ord", Predicate.fcmp_ord)
    ∷ ("ueq", Predicate.fcmp_ueq)
    ∷ ("ugt", Predicate.fcmp_ugt)
    ∷ ("uge", Predicate.fcmp_uge)
    ∷ ("ult", Predicate.fcmp_ult)
    ∷ ("ule", Predicate.fcmp_ule)
    ∷ ("une", Predicate.fcmp_une)
    ∷ ("uno", Predicate.fcmp_uno)
    ∷ ("true", Predicate.fcmp_true)
    ∷ []

unfoldable pub pred_map : StringMap Predicate
unfolding StringMap.of_list StringMap.of_list_onto StringMap.insert StringMap.find
pred_map = StringMap.of_list pred_pairs

module _ (L : Llvm) where
  open L use {
    Double, Instruction, fabs, fsub, fmul, fmax, fle, fone, dbl_epsilon, as_cmp_inst,
    is_overflowing, is_possibly_exact, is_fp_math, has_no_unsigned_wrap, has_no_signed_wrap,
    is_exact, is_fast, has_no_nans, has_no_infs, has_no_signed_zeros, has_allow_reciprocal,
    has_allow_contract, has_approx_func, has_allow_reassoc, get_num_operands, get_operand,
    as_constant_int, as_constant_fp,
  }

  -- The function object `match_use`: the two lambdas that `setConst` stores.
  pub data UseTest : Type 0 where
    equals_int : ℤ → UseTest
    equals_double : Double → UseTest

  -- `match_use` is empty, and `const_operand` and `cmp_pred` have no value, until they are set.
  pub record MapCondition : Type 0 where
    pub map_name : String
    pub flag_list : List String
    pub any_lhs : Bool
    pub any_rhs : Bool
    pub any_pred : Bool
    pub match_use : Option UseTest
    pub const_operand : ℕ
    pub is_use_int : Bool
    pub cmp_pred : Option Predicate
    pub pred_str : String

  unfoldable pub new_condition : String → MapCondition
  new_condition map_name = record {
    map_name = map_name;
    flag_list = [];
    any_lhs = true;
    any_rhs = true;
    any_pred = true;
    match_use = none;
    const_operand = 0;
    is_use_int = false;
    cmp_pred = none;
    pred_str = "";
  }

  -- FLAG_GETTER
  abbrev pub flag_getter : (Instruction → Bool) → (Instruction → Bool) → Instruction → Bool
  flag_getter isa getter i = if isa i then getter i else false

  unfoldable pub flag_getters : StringMap (Instruction → Bool)
  unfolding StringMap.of_list StringMap.of_list_onto StringMap.insert StringMap.find
  flag_getters = StringMap.of_list (
      ("nuw", flag_getter is_overflowing has_no_unsigned_wrap)
      ∷ ("nsw", flag_getter is_overflowing has_no_signed_wrap)
      ∷ ("exact", flag_getter is_possibly_exact is_exact)
      ∷ ("fast", flag_getter is_fp_math is_fast)
      ∷ ("nnan", flag_getter is_fp_math has_no_nans)
      ∷ ("ninf", flag_getter is_fp_math has_no_infs)
      ∷ ("nsz", flag_getter is_fp_math has_no_signed_zeros)
      ∷ ("arcp", flag_getter is_fp_math has_allow_reciprocal)
      ∷ ("contract", flag_getter is_fp_math has_allow_contract)
      ∷ ("afn", flag_getter is_fp_math has_approx_func)
      ∷ ("reassoc", flag_getter is_fp_math has_allow_reassoc)
      ∷ [])

  -- `setFlags`: an unknown flag is an error.
  unfoldable pub set_flags : MapCondition → List String → Result MapCondition
  set_flags c [] = ok c
  set_flags c (f ∷ flags) = elim (StringMap.find f flag_getters) [
    | none ↦ err (string_error ("Unknown flag \"" <> f <> "\" for instruction mapping condition"))
    | some _ ↦ set_flags (record c { flag_list = c.flag_list ++ f ∷ [] }) flags
  ]

  -- `setPred`
  unfoldable pub set_pred : MapCondition → String → Result MapCondition
  set_pred c pred = elim (StringMap.find pred pred_map) [
    | none ↦
        err
          (string_error ("Unknown pred type \"" <> pred <> "\" for instruction mapping condition"))
    | some p ↦ ok (record c { cmp_pred = some p; any_pred = false; pred_str = pred })
  ]

  -- `const_operand = 0 ? isLeft : 1`
  unfoldable pub const_position : Bool → ℕ
  const_position is_left = if false then (if is_left then 1 else 0) else 1

  -- The two overloads of `setConst`.
  unfoldable pub set_const : MapCondition → UseTest → Bool → Result MapCondition
  unfolding const_position
  set_const c use_value is_left =
      if not c.any_lhs
      then fault assertion_failed
      else if not c.any_rhs
      then fault assertion_failed
      else ok (record c {
        any_lhs = if is_left then false else c.any_lhs;
        any_rhs = if is_left then c.any_rhs else false;
        match_use = some use_value;
        const_operand = const_position is_left;
        is_use_int = elim use_value [ equals_int _ ↦ true | equals_double _ ↦ c.is_use_int ];
      })

  unfoldable pub equal_double : Double → Double → Bool
  equal_double a b = fle (fabs (fsub a b)) (fmul dbl_epsilon (fmax fone (fmax (fabs a) (fabs b))))

  -- The stored lambda at the operand number `n`, with the assertions on the value of a constant.
  unfoldable pub use_matches : UseTest → ℕ → Instruction → Result Bool
  unfolding equal_double
  use_matches (equals_int use_int) n i =
      if ltb n (get_num_operands i)
      then elim (as_constant_int (get_operand i n)) [
        | some value ↦ elim value [ some v ↦ ok (eqb_ℤ use_int v) | none ↦ fault assertion_failed ]
        | none ↦ ok false
      ]
      else ok false
  use_matches (equals_double use_double) n i =
      if ltb n (get_num_operands i)
      then elim (as_constant_fp (get_operand i n)) [
        | some value ↦ elim value [
          | some v ↦ ok (equal_double use_double v)
          | none ↦ fault assertion_failed
        ]
        | none ↦ ok false
      ]
      else ok false

  unfoldable pub call_match_use : MapCondition → Instruction → Result Bool
  unfolding use_matches
  call_match_use c i = elim c.match_use [
    | none ↦ fault empty_function
    | some test ↦ use_matches test c.const_operand i
  ]

  -- The loop over the flags. `FlagGetter[flag]` of an unknown flag is an empty function.
  unfoldable pub match_flags : List String → Instruction → Result Bool
  match_flags [] i = ok true
  match_flags (flag ∷ flags) i = elim (StringMap.find flag flag_getters) [
    | none ↦ fault empty_function
    | some getter ↦ let rest = match_flags flags i in if getter i then rest else ok false
  ]

  -- One of the two blocks `if (!any…) { if (!match_use(I)) return false; }`.
  unfoldable pub match_side : Bool → MapCondition → Instruction → Result Bool
  match_side any c i = if any then ok true else call_match_use c i

  unfoldable pub match_pred : MapCondition → Instruction → Bool
  match_pred c i = if c.any_pred then true else elim (as_cmp_inst i) [
    | none ↦ false
    | some p ↦ elim c.cmp_pred [ none ↦ false | some q ↦ same_pred p q ]
  ]

  -- `MapCondition::match`: each block may return `false` before the next one is entered.
  unfoldable pub matches : MapCondition → Instruction → Result Bool
  unfolding match_flags match_side match_pred call_match_use
  matches c i =
      match_flags c.flag_list i
      and_then match_side c.any_lhs c i
      and_then match_side c.any_rhs c i
      and_then ok (match_pred c i)
