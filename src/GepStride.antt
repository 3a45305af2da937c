-- ===== src/GepStride.antt =====
-- src/Passes/CGRAOmpComponents/Utils.cpp, getArrayElementSizes and getDataWidth, and the part of
-- src/Passes/CGRAOmpDFGPass/DFGPass.cpp that computes the strides of the indices of an address.
use cgraomp.Prelude.{ℕ, suc, zero, ◌/◌, ◌*◌, ◌^◌, Bool, List, [], ◌∷◌, ltb, if◌then◌else◌}
use cgraomp.Prelude.Int.{ℤ, pos, negsuc, to_int}
use cgraomp.Errors.{Result, ok, err, fault, ◌>>=◌, signed_overflow}
pub mod Offsets

-- The types of LLVM, as far as the source tells them apart.
pub data ElementType : Type 0 where
  array_type : ℕ → ElementType → ElementType
  integer_type : ℕ → ElementType
  bfloat_type float_type double_type fp128_type other_type : ElementType

-- Utils::getDataWidth
unfoldable pub get_data_width : ElementType → ℕ
get_data_width bfloat_type = 16
get_data_width float_type = 32
get_data_width double_type = 64
get_data_width fp128_type = 128
get_data_width (integer_type width) = width
get_data_width (array_type count element) = 0
get_data_width other_type = 0

-- Utils::getArrayElementSizes: a number of elements has 64 bits and is narrowed to `int`.
unfoldable pub get_array_element_sizes : ElementType → List ℤ × ElementType
get_array_element_sizes (array_type count element) =
    let (sizes, innermost) = get_array_element_sizes element in
    (to_int (pos count) ∷ sizes, innermost)
get_array_element_sizes (integer_type width) = ([], integer_type width)
get_array_element_sizes bfloat_type = ([], bfloat_type)
get_array_element_sizes float_type = ([], float_type)
get_array_element_sizes double_type = ([], double_type)
get_array_element_sizes fp128_type = ([], fp128_type)
get_array_element_sizes other_type = ([], other_type)

abbrev minus : ℕ → ℤ
minus zero = pos 0
minus (suc n) = negsuc n

abbrev product : ℤ → ℤ → ℤ
product (pos a) (pos b) = pos (a * b)
product (pos a) (negsuc b) = minus (a * suc b)
product (negsuc a) (pos b) = minus (suc a * b)
product (negsuc a) (negsuc b) = pos (suc a * suc b)

abbrev fits_int : ℤ → Bool
fits_int (pos a) = ltb a (2 ^ 31)
fits_int (negsuc a) = ltb a (2 ^ 31)

-- `a * b` for numbers of type `int`: an overflow is undefined.
abbrev pub mul_int : ℤ → ℤ → Result ℤ
mul_int a b = if fits_int (product a b) then ok (product a b) else fault signed_overflow

-- `total`: the product of the sizes from the last one on.
unfoldable pub total_size : List ℤ → Result ℤ
total_size [] = ok (pos 1)
total_size (size ∷ inner) = total_size inner >>= λ total. mul_int total size

-- The loop that fills `inc`, from the last size on.
unfoldable pub increments : ℤ → List ℤ → Result (List ℤ)
unfolding total_size
increments bytes [] = ok []
increments bytes (size ∷ inner) = increments bytes inner >>= λ inc.
    total_size (size ∷ inner) >>= λ total. mul_int total bytes >>= λ first_one. ok (first_one ∷ inc)

abbrev pub append_last : List ℤ → ℤ → List ℤ
append_last [] x = x ∷ []
append_last (y ∷ ys) x = y ∷ append_last ys x

-- The width of an element in bytes, if there is an array.
unfoldable pub element_bytes : List ℤ → ElementType → ℤ
element_bytes [] t = pos 0
element_bytes (size ∷ sizes) t = pos (get_data_width t / 8)

-- `inc`: the strides of the indices for an address computed from a pointer to this type.
unfoldable pub strides : ElementType → Result (List ℤ)
unfolding get_array_element_sizes increments element_bytes get_data_width
strides t =
    let (sizes, innermost) = get_array_element_sizes t in
    let bytes = element_bytes sizes innermost in
    increments bytes sizes >>= λ inc. ok (append_last inc bytes)
