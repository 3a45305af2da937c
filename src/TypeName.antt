-- ===== src/TypeName.antt =====
-- include/CGRADataFlowGraph.hpp, DataNode::getTypeName: the name of the type of a constant or of data
-- from outside of the loop.
use cgraomp.Prelude.{ℕ, zero, suc, Bool, true, false, String, ◌<>◌, Option, none, some}
use cgraomp.Prelude.Int.{ℤ, pos, to_int}
pub mod Loop

-- The types of LLVM, as far as the function tells them apart; the width is getDataWidth.
pub data DataType : Type 0 where
  pointer_type : DataType → DataType
  array_type : ℕ → DataType → DataType
  floating_point_type integer_type : ℕ → DataType
  other_type : DataType

-- The loop `while (ele_ty->isPointerTy())`, on fuel: it takes the element type of `ty` each time.
unfoldable pub strip_pointers : ℕ → DataType → DataType → Option DataType
strip_pointers zero ty ele_ty = none
strip_pointers (suc fuel) (pointer_type element) (pointer_type inner) =
    strip_pointers fuel (pointer_type element) element
strip_pointers (suc fuel) ty ele_ty = some ele_ty

-- `to_string` and `formatv` with one argument are library functions.
module _ (to_string : ℤ → String) (formatv : String → String → String) where
  -- The loop over array types, with the format, and the name of the innermost type.
  unfoldable pub format_type : DataType → String → String
  format_type (array_type count element) format =
      format_type element (format <> formatv "[{0}]" (to_string (to_int (pos count))))
  format_type (floating_point_type width) format = formatv format ("float" <> to_string (pos width))
  format_type (integer_type width) format = formatv format ("int" <> to_string (pos width))
  format_type (pointer_type element) format = formatv format "unknown"
  format_type other_type format = formatv format "unknown"

  unfoldable pub get_type_name : ℕ → DataType → Option String
  unfolding strip_pointers format_type
  get_type_name fuel ty = elim (strip_pointers fuel ty ty) [
    | none ↦ none
    | some ele_ty ↦ some (format_type ele_ty "{0}")
  ]
