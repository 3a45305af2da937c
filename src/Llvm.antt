-- ===== src/Llvm.antt =====
-- What the passes call of LLVM's IR classes, as an interface: the classes are not code of this
-- repository. Each field is named after the method or the `isa` test that the source calls.
use cgraomp.Prelude.{ℕ, ◌≡◌, ◌↔◌, String, Bool, true, Option, List}
use cgraomp.Prelude.Int.{ℤ}

-- Instruction::BinaryOps, Instruction::MemoryOps, Instruction::CastOps, Instruction::OtherOps and
-- Instruction::TermOps, as far as the source names them.
pub data BinaryOps : Type 0 where
  add fadd sub fsub mul fmul udiv sdiv fdiv urem frem srem shl lshr ashr and or xor : BinaryOps

pub data MemoryOps : Type 0 where
  load store : MemoryOps

pub data CastOps : Type 0 where
  bitcast zext : CastOps

pub data OtherOps : Type 0 where
  icmp fcmp phi call select : OtherOps

pub data TermOps : Type 0 where
  ret br : TermOps

-- CmpInst::Predicate
pub data Predicate : Type 0 where
  icmp_eq icmp_ne icmp_ugt icmp_uge icmp_ult icmp_ule icmp_sgt icmp_sge icmp_slt icmp_sle :
      Predicate
  fcmp_false fcmp_oeq fcmp_ogt fcmp_oge fcmp_olt fcmp_ole fcmp_one fcmp_ord fcmp_ueq : Predicate
  fcmp_ugt fcmp_uge fcmp_ult fcmp_ule fcmp_une fcmp_uno fcmp_true : Predicate

pub record Llvm : Type 1 where
  pub Double : Type 0
  pub Instruction : Type 0
  pub Value : Type 0
  pub Function : Type 0
  pub Module : Type 0
  -- double arithmetic
  pub fabs : Double → Double
  pub fsub : Double → Double → Double
  pub fmul : Double → Double → Double
  pub fmax : Double → Double → Double
  pub fle : Double → Double → Bool
  pub fone : Double
  pub dbl_epsilon : Double
  -- `dyn_cast` to an instruction class followed by its opcode
  pub as_binary_operator : Instruction → Option BinaryOps
  pub is_load_inst : Instruction → Bool
  pub is_store_inst : Instruction → Bool
  pub as_cmp_inst : Instruction → Option Predicate
  pub is_opcode_icmp : Instruction → Bool
  pub as_cast_inst : Instruction → Option (Option CastOps)
  pub isa_other_inst : OtherOps → Instruction → Bool
  pub isa_term_inst : TermOps → Instruction → Bool
  -- the operators' flags
  pub is_overflowing : Instruction → Bool
  pub is_possibly_exact : Instruction → Bool
  pub is_fp_math : Instruction → Bool
  pub has_no_unsigned_wrap : Instruction → Bool
  pub has_no_signed_wrap : Instruction → Bool
  pub is_exact : Instruction → Bool
  pub is_fast : Instruction → Bool
  pub has_no_nans : Instruction → Bool
  pub has_no_infs : Instruction → Bool
  pub has_no_signed_zeros : Instruction → Bool
  pub has_allow_reciprocal : Instruction → Bool
  pub has_allow_contract : Instruction → Bool
  pub has_approx_func : Instruction → Bool
  pub has_allow_reassoc : Instruction → Bool
  -- operands and constants
  pub get_num_operands : Instruction → ℕ
  pub get_operand : Instruction → ℕ → Value
  -- `dyn_cast<ConstantInt>` and getSExtValue, and `dyn_cast<ConstantFP>` and convertToDouble. The
  -- inner Option is `none` where these assert: an integer that needs more than 64 bits, and a
  -- number of another format than double.
  pub as_constant_int : Value → Option (Option ℤ)
  pub as_constant_fp : Value → Option (Option Double)
  -- calls: not a call, an indirect call, a call of a known function
  pub as_call_base : Instruction → Option (Option Function)
  pub get_name : Function → String
  -- `==` of two `Function *` is equality of pointers
  pub same_function : Function → Function → Bool
  pub same_function_iff : (f g : Function) → (same_function f g ≡ true) ↔ (f ≡ g)
  pub get_parent : Function → Module
  -- global variables and the constants that hold annotations
  pub get_global_variable : Module → String → Option Value
  pub user_operand : Value → ℕ → Value
  pub as_constant_array : Value → Option (List Value)
  pub as_constant_struct : Value → Option Value
  pub as_function : Value → Option Function
  pub as_global_variable : Value → Option Value
  pub initializer_c_string : Value → Option String
