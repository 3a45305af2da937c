-- ===== src/GepStride/Offsets.antt =====
-- The strides of the indices of an address are the distances between the elements of an array.
use cgraomp.Prelude.{
  ℕ, suc, zero, ◌/◌, ◌*◌, ◌^◌, ◌≤◌, ◌<◌, ◌≡◌, refl, sym, ap, ◌∙◌, Bool, true, false, List, [], ◌∷◌,
  arith, if◌then◌else◌,
}
use cgraomp.Prelude.Int.{ℤ, pos, to_int}
use cgraomp.Errors.{ok}
use cgraomp.GepStride.{
  ElementType, array_type, integer_type, bfloat_type, float_type, double_type, fp128_type,
  other_type, get_data_width, get_array_element_sizes, mul_int, total_size, increments,
  element_bytes, append_last, strides,
}
use native.Mathlib.Nat.{mul_comm, mul_assoc, le-mul_of_pos_right, mul-le-mul_right}

-- The number of bytes of an object of a type.
unfoldable pub size_of : ElementType → ℕ
unfolding get_data_width
size_of (array_type count element) = size_of element * count
size_of t = get_data_width t / 8

-- The distances in bytes between objects that follow each other, by the number of the index: the
-- first index counts objects of the type, the next one the elements of this object, and so on.
unfoldable pub offsets : ElementType → List ℤ
unfolding size_of
offsets (array_type count element) = pos (size_of (array_type count element)) ∷ offsets element
offsets t = pos (size_of t) ∷ []

-- The number of innermost elements.
abbrev elements : ElementType → ℕ
elements (array_type count element) = elements element * count
elements _ = 1

-- The bytes of an innermost element.
abbrev bytes_of : ElementType → ℕ
bytes_of t = get_data_width (get_array_element_sizes t).1 / 8

to_int_small : (n : ℕ) → n < 2 ^ 31 → to_int (pos n) ≡ pos n
to_int_small n h = ground arith

mul_int_small : (a b : ℕ) → a * b < 2 ^ 31 → mul_int (pos a) (pos b) ≡ ok (pos (a * b))
mul_int_small a b h = ground arith

positive_sides : (a b : ℕ) → 0 < a * b → (0 < a) × (0 < b)
positive_sides zero b h = absurd (omega arith)
positive_sides (suc a) zero h = absurd (omega arith)
positive_sides (suc a) (suc b) h = (omega arith, omega arith)

exchange : (a b c : ℕ) → a * b * c ≡ a * c * b
exchange a b c = mul_assoc a b c ∙ ap (λ k. a * k) (mul_comm b c) ∙ sym (mul_assoc a c b)

size_of-elements : (t : ElementType) → size_of t ≡ elements t * bytes_of t
unfolding size_of get_array_element_sizes get_data_width
size_of-elements (array_type count element) =
    ap (λ k. k * count) (size_of-elements element)
    ∙ exchange (elements element) (bytes_of element) count
size_of-elements (integer_type width) = omega arith
size_of-elements bfloat_type = refl
size_of-elements float_type = refl
size_of-elements double_type = refl
size_of-elements fp128_type = refl
size_of-elements other_type = refl

elements_le : (t : ElementType) → 0 < size_of t → elements t ≤ size_of t
elements_le t h =
    let same = size_of-elements t in
    let positive = (positive_sides (elements t) (bytes_of t) (rw same at h)).1 in
    rw same (le-mul_of_pos_right (elements t) positive)

-- An array with bytes, and all of them less than 2 ^ 31.
inner_size :
    (count : ℕ) (element : ElementType)
    → 0 < size_of element * count
    → size_of element * count < 2 ^ 31
    → (0 < size_of element) × (size_of element < 2 ^ 31) × (count < 2 ^ 31)
inner_size count element some_bytes few =
    let (inner, outer) = positive_sides (size_of element) count some_bytes in
    let wide = le-mul_of_pos_right (size_of element) outer in
    let long : count ≤ size_of element * count =
      rw (mul_comm (size_of element) count) (le-mul_of_pos_right count inner) in
    (inner, omega arith, omega arith)

total_size_lem :
    (t : ElementType)
    → 0 < size_of t
    → size_of t < 2 ^ 31
    → total_size (get_array_element_sizes t).0 ≡ ok (pos (elements t))
unfolding total_size get_array_element_sizes size_of
total_size_lem (array_type count element) some_bytes few =
    let (inner, less, short) = inner_size count element some_bytes few in
    let bound : elements element * count ≤ size_of element * count =
      mul-le-mul_right count (elements_le element inner) in
    rw (to_int_small count short, total_size_lem element inner less)
      (mul_int_small (elements element) count (omega arith))
total_size_lem (integer_type width) some_bytes few = refl
total_size_lem bfloat_type some_bytes few = refl
total_size_lem float_type some_bytes few = refl
total_size_lem double_type some_bytes few = refl
total_size_lem fp128_type some_bytes few = refl
total_size_lem other_type some_bytes few = refl

-- The offsets but the last one.
abbrev outer_offsets : ElementType → List ℤ
outer_offsets (array_type count element) =
    pos (size_of (array_type count element)) ∷ outer_offsets element
outer_offsets _ = []

increments_lem :
    (t : ElementType)
    → 0 < size_of t
    → size_of t < 2 ^ 31
    → increments (pos (bytes_of t)) (get_array_element_sizes t).0 ≡ ok (outer_offsets t)
unfolding increments get_array_element_sizes size_of
increments_lem (array_type count element) some_bytes few =
    let (inner, less, short) = inner_size count element some_bytes few in
    let t = array_type count element in
    let same : size_of element * count ≡ elements element * count * bytes_of element =
      size_of-elements t in
    let first_one : mul_int (pos (elements t)) (pos (bytes_of element)) ≡ ok (pos (size_of t)) =
      mul_int_small (elements t) (bytes_of element) (rw (sym same) few) ∙ rw same refl in
    rw (increments_lem element inner less, total_size_lem t some_bytes few, first_one) refl
increments_lem (integer_type width) some_bytes few = refl
increments_lem bfloat_type some_bytes few = refl
increments_lem float_type some_bytes few = refl
increments_lem double_type some_bytes few = refl
increments_lem fp128_type some_bytes few = refl
increments_lem other_type some_bytes few = refl

append_last-outer_offsets :
    (t : ElementType) → append_last (outer_offsets t) (pos (bytes_of t)) ≡ offsets t
unfolding get_array_element_sizes offsets size_of
append_last-outer_offsets (array_type count element) =
    ap (λ rest. pos (size_of (array_type count element)) ∷ rest) (append_last-outer_offsets element)
append_last-outer_offsets (integer_type width) = refl
append_last-outer_offsets bfloat_type = refl
append_last-outer_offsets float_type = refl
append_last-outer_offsets double_type = refl
append_last-outer_offsets fp128_type = refl
append_last-outer_offsets other_type = refl

abbrev pub is_array : ElementType → Bool
is_array (array_type count element) = true
is_array _ = false

-- Take a type whose size in bytes, counted by the width of its innermost elements, is above 0 and
-- below 2 ^ 31. If it is an array type, the strides that are computed for an address are the
-- distances in bytes between objects that follow each other: between two objects of the type for
-- the first index, between two elements for the next one, and so on down to the innermost
-- elements; no multiplication overflows. If it is no array type, the only stride is 0.
pub strides_lem :
    (t : ElementType)
    → 0 < size_of t
    → size_of t < 2 ^ 31
    → strides t ≡ ok (if is_array t then offsets t else pos 0 ∷ [])
unfolding strides get_array_element_sizes element_bytes increments
strides_lem (array_type count element) some_bytes few =
    let t = array_type count element in
    rw (strides, element_bytes, increments_lem t some_bytes few, append_last-outer_offsets t) refl
strides_lem (integer_type width) some_bytes few = refl
strides_lem bfloat_type some_bytes few = refl
strides_lem float_type some_bytes few = refl
strides_lem double_type some_bytes few = refl
strides_lem fp128_type some_bytes few = refl
strides_lem other_type some_bytes few = refl
