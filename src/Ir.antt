-- ===== src/Ir.antt =====
-- What the analyses of loops call of LLVM's classes Value, User and Instruction, as an interface.
-- A value is its address; a `dyn_cast` or `isa` is a test.
use cgraomp.Prelude.{ℕ, ◌<◌, ◌≡◌, Bool, true, false, List}

pub record Ir : Type 1 where
  pub Ty : Type 0
  pub users : ℕ → List ℕ
  pub operands : ℕ → List ℕ
  pub operand_0 : ℕ → ℕ
  pub operand_1 : ℕ → ℕ
  pub is_load : ℕ → Bool
  pub is_store : ℕ → Bool
  -- an instruction is of one class
  pub is_store-is_load : (v : ℕ) → is_store v ≡ true → is_load v ≡ false
  pub is_call : ℕ → Bool
  pub is_constant : ℕ → Bool
  pub is_user : ℕ → Bool
  pub is_instruction : ℕ → Bool
  -- `isa<TruncInst>`, `isa<BitCastInst>` or `isa<UnaryOperator>`
  pub is_skipped : ℕ → Bool
  -- the number of such operations in a row, which SSA form makes finite
  pub skip_depth : ℕ → ℕ
  pub skip_depth-operand_0 : (v : ℕ) → is_skipped v ≡ true → skip_depth (operand_0 v) < skip_depth v
  pub type_of : ℕ → Ty
  pub is_pointer_ty : Ty → Bool
  pub pointer_element_type : Ty → Ty
  pub primitive_size_in_bits : Ty → ℕ
