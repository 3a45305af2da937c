-- ===== src/TypeName/Loop.antt =====
-- When the loop over pointer types in DataNode::getTypeName ends (include/CGRADataFlowGraph.hpp).
use cgraomp.Prelude.{ℕ, zero, suc, ◌≡◌, ◌↔◌, refl, Bool, true, false, String, none, some}
use cgraomp.Prelude.Int.{ℤ}
use cgraomp.TypeName.{
  DataType, pointer_type, array_type, floating_point_type, integer_type, other_type, strip_pointers,
  format_type, get_type_name,
}

abbrev is_pointer : DataType → Bool
is_pointer (pointer_type t) = true
is_pointer _ = false

-- A pointer to a pointer.
abbrev pub is_double_pointer : DataType → Bool
is_double_pointer (pointer_type t) = is_pointer t
is_double_pointer _ = false

-- The type that is named: that behind a pointer, or the type itself.
abbrev pub pointee : DataType → DataType
pointee (pointer_type t) = t
pointee t = t

never_stripped :
    (fuel : ℕ) (t : DataType)
    → strip_pointers fuel (pointer_type (pointer_type t)) (pointer_type t) ≡ none
unfolding strip_pointers
never_stripped zero t = refl
never_stripped (suc fuel) t = never_stripped fuel t

double_none :
    (fuel : ℕ) (t : DataType)
    → strip_pointers fuel (pointer_type (pointer_type t)) (pointer_type (pointer_type t)) ≡ none
unfolding strip_pointers
double_none zero t = refl
double_none (suc fuel) t = never_stripped fuel t

module _ (to_string : ℤ → String) (formatv : String → String → String) where
  -- With enough fuel a type gets the name of the type behind its pointer, or its own, exactly when it
  -- is no pointer to a pointer.
  pub get_type_name_iff :
      (t : DataType)
      → ((fuel : ℕ) × (get_type_name to_string formatv fuel t
            ≡ some (format_type to_string formatv (pointee t) "{0}")))
        ↔ (is_double_pointer t ≡ false)
  unfolding get_type_name strip_pointers
  get_type_name_iff (pointer_type (pointer_type t)) = (
    (λ (fuel, h). absurd (let k = rw (get_type_name, double_none fuel t) at h in cc)),
    (λ h. absurd cc),
  )
  get_type_name_iff (pointer_type (array_type n t)) = ((λ h. refl), (λ h. (2, refl)))
  get_type_name_iff (pointer_type (floating_point_type w)) = ((λ h. refl), (λ h. (2, refl)))
  get_type_name_iff (pointer_type (integer_type w)) = ((λ h. refl), (λ h. (2, refl)))
  get_type_name_iff (pointer_type other_type) = ((λ h. refl), (λ h. (2, refl)))
  get_type_name_iff (array_type n t) = ((λ h. refl), (λ h. (1, refl)))
  get_type_name_iff (floating_point_type w) = ((λ h. refl), (λ h. (1, refl)))
  get_type_name_iff (integer_type w) = ((λ h. refl), (λ h. (1, refl)))
  get_type_name_iff other_type = ((λ h. refl), (λ h. (1, refl)))
