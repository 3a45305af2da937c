-- ===== src/Tests/Analyses.antt =====
-- A loop of three instructions for the analyses: a load at address 1, an addition of a constant at
-- 2, and a store at 3; and expressions of addresses as trees.
use cgraomp.Prelude.{
  ℕ, suc, ◌+◌, ◌<◌, ◌≡◌, arith, Bool, true, false, Option, none, some, List, [], ◌∷◌, eqb, ltb,
  if◌then◌else◌,
}
use cgraomp.Prelude.Int.{pos}
use cgraomp.Llvm.{BinaryOps}
use cgraomp.Ir.{Ir}
use cgraomp.ScalarEvolution.{
  ScalarEvolution, ScevView, add_rec, add_expr, constant, unknown, children, total_size,
}
use cgraomp.LoopDependency.{LoopFacts}
use cgraomp.Tests.Sample.{Inst, binary, int, variable}

abbrev pub users_of : ℕ → List ℕ
users_of v = if eqb v 1 then 2 ∷ [] else if eqb v 2 then 3 ∷ [] else []

abbrev pub operands_of : ℕ → List ℕ
operands_of v =
    if eqb v 1
    then 10 ∷ []
    else if eqb v 2
    then 1 ∷ 20 ∷ []
    else if eqb v 3
    then 2 ∷ 11 ∷ []
    else []

pub one_class : (v : ℕ) → eqb v 3 ≡ true → eqb v 1 ≡ false
one_class v h = ground arith

pub never_skipped : (v : ℕ) → false ≡ true → 0 < 0
never_skipped v h = cc

abbrev pub ir : Ir
ir = record {
  Ty = ℕ;
  users = users_of;
  operands = operands_of;
  operand_0 = λ v. if eqb v 1 then 10 else if eqb v 2 then 1 else 2;
  operand_1 = λ v. if eqb v 2 then 20 else 11;
  is_load = λ v. eqb v 1;
  is_store = λ v. eqb v 3;
  is_store-is_load = one_class;
  is_call = λ v. false;
  is_constant = λ v. eqb v 20;
  is_user = λ v. true;
  is_instruction = λ v. ltb v 10;
  is_skipped = λ v. false;
  skip_depth = λ v. 0;
  skip_depth-operand_0 = λ v h. never_skipped v h;
  type_of = λ v. 32;
  is_pointer_ty = λ t. false;
  pointer_element_type = λ t. t;
  primitive_size_in_bits = λ t. t;
}

pub data Expr : Type 0 where
  recurrence : Expr → Expr → ℕ → Expr
  sum : Expr → Expr → Expr
  number address : ℕ → Expr

abbrev pub view_of : Expr → ScevView Expr
view_of (recurrence start step count) = add_rec start step count
view_of (sum a b) = add_expr (a ∷ b ∷ [])
view_of (number raw) = constant raw
view_of (address v) = unknown v

abbrev pub size_of : Expr → ℕ
size_of (recurrence start step count) = suc (size_of start)
size_of (sum a b) = suc (size_of a + size_of b)
size_of (number raw) = 1
size_of (address v) = 1

pub size_of-children : (s : Expr) → total_size size_of (children (view_of s)) < size_of s
size_of-children (recurrence start step count) = omega arith
size_of-children (sum a b) = omega arith
size_of-children (number raw) = omega arith
size_of-children (address v) = omega arith

abbrev pub trees : ScalarEvolution
trees = record { Scev = Expr; view = view_of; size = size_of; size-children = size_of-children }

-- Words of four bytes from 16 bytes behind the value at 10.
abbrev pub in_steps : Expr
in_steps = recurrence (sum (number 16) (address 10)) (number 4) 100

abbrev pub instructions : List ℕ
instructions = 1 ∷ 2 ∷ 3 ∷ []

abbrev pub no_schedule : ℕ → Bool
no_schedule v = false

-- The loop has block 7 and a phi node for a sum; its load reads what was stored two words before.
abbrev pub facts : LoopFacts
facts = record {
  nests =
      some (record { start = some 20; bin_op = some 5; const_step = some 1; indvar = some 4 })
      ∷ none
      ∷ [];
  blocks = 7 ∷ [];
  phis = record { address = 6; incoming = (20, 8) ∷ (2, 7) ∷ [] } ∷ [];
  dependences = some (record { is_backward = true; source = 1; destination = 3 } ∷ []);
  minus = λ a b. some 8;
}

abbrev pub as_inst : ℕ → Option Inst
as_inst v = if eqb v 2 then some (binary BinaryOps.add variable (int (pos 1))) else none
