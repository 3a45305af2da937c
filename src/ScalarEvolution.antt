-- ===== src/ScalarEvolution.antt =====
-- What the address generator pass calls of llvm::ScalarEvolution and the SCEV classes, as an
-- interface: an expression is seen through its kind and its parts.
use cgraomp.Prelude.{ℕ, ◌+◌, ◌<◌, Option, none, some, List, [], ◌∷◌}

-- SCEVTypes, as far as the source names them. A constant is its raw data, an unknown its value.
pub data ScevView (S : Type 0) : Type 0 where
  -- start, step, and the constant trip count of the loop
  add_rec : S → S → ℕ → ScevView S
  add_expr mul_expr cast_expr : List S → ScevView S
  constant unknown : ℕ → ScevView S
  other : ScevView S

-- `dyn_cast<SCEVConstant>`, and its raw data.
abbrev pub as_constant : {S : Type 0} → ScevView S → Option ℕ
as_constant (constant raw) = some raw
as_constant _ = none

-- The parts that the source goes down to.
abbrev pub children : {S : Type 0} → ScevView S → List S
children (add_rec start step count) = start ∷ []
children (add_expr ops) = ops
children (mul_expr ops) = ops
children (cast_expr ops) = ops
children _ = []

abbrev pub total_size : {S : Type 0} → (S → ℕ) → List S → ℕ
total_size size [] = 0
total_size size (s ∷ ss) = size s + total_size size ss

pub record ScalarEvolution : Type 1 where
  pub Scev : Type 0
  pub view : Scev → ScevView Scev
  -- expressions are finite: the parts of one are smaller than it is
  pub size : Scev → ℕ
  pub size-children : (s : Scev) → total_size size (children (view s)) < size s
