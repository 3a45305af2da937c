-- ===== src/Errors.antt =====
-- include/CGRAModel.hpp, class ModelError, and the outcome of a fallible call.
--
-- `Expected<T>` and `Error` become `Result`: `ok`, `err`, and `fault` for what the C++ code leaves
-- undefined or ends by an exception. A fault is never taken for an error: no caller handles it.
use cgraomp.Prelude.{
  ◌≡◌, ◌↔◌, refl, subst, Bool, true, false, String, Option, none, some, List, [], if◌then◌else◌,
}

-- ModelError::ErrorType
pub data ErrorType : Type 0 where
  missing_key invalid_data_type invalid_value no_implemented : ErrorType

-- The data members of `ModelError`.
pub record ModelError : Type 0 where
  pub errtype : ErrorType
  pub json_val : String
  pub filename : String
  pub error_key : String
  pub error_val : String
  pub expected_type : String
  pub region : String
  pub valid_values : List String

-- The four constructors.
unfoldable pub missing_key_error : String → String → ModelError
missing_key_error filename missed_key = record {
  errtype = missing_key;
  json_val = "";
  filename = filename;
  error_key = missed_key;
  error_val = "";
  expected_type = "";
  region = "";
  valid_values = [];
}

-- The last argument is the printed JSON value.
unfoldable pub data_type_error : String → String → String → String → ModelError
data_type_error filename key expected json_val = record {
  errtype = invalid_data_type;
  json_val = json_val;
  filename = filename;
  error_key = key;
  error_val = "";
  expected_type = expected;
  region = "";
  valid_values = [];
}

unfoldable pub value_error : String → String → String → List String → ModelError
value_error filename key val list = record {
  errtype = invalid_value;
  json_val = "";
  filename = filename;
  error_key = key;
  error_val = val;
  expected_type = "";
  region = "";
  valid_values = list;
}

unfoldable pub not_implemented_error : String → String → String → ModelError
not_implemented_error filename key val = record {
  errtype = no_implemented;
  json_val = "";
  filename = filename;
  error_key = key;
  error_val = val;
  expected_type = "";
  region = "";
  valid_values = [];
}

unfoldable pub set_region : String → ModelError → ModelError
set_region region_str e = record e { region = region_str }

unfoldable pub is_missing_key : ModelError → Bool
is_missing_key e = elim e.errtype [ missing_key ↦ true | _ ↦ false ]

-- `StringError` and `ModelError`, the two classes of error that are made.
pub data Error : Type 0 where
  string_error : String → Error
  model_error : ModelError → Error

-- A null pointer is dereferenced, an empty `std::function` is called, an `assert` fails; a division
-- by zero, a signed overflow, an object that is deleted twice, and code marked by
-- `llvm_unreachable`. The last one is the model's own: its fuel ran out.
pub data Fault : Type 0 where
  null_dereference empty_function assertion_failed : Fault
  division_by_zero signed_overflow use_after_free unreachable_code out_of_fuel : Fault

pub data Result {ℓ} (A : Type ℓ) : Type ℓ where
  ok : A → Result A
  err : Error → Result A
  fault : Fault → Result A

-- What follows a call runs only on its value: a fault and an error are passed on.
infixl 5 ◌>>=◌
abbrev pub ◌>>=◌ {ℓ₁ ℓ₂} : {T : Type ℓ₁} {U : Type ℓ₂} → Result T → (T → Result U) → Result U
fault x >>= next = fault x
err e >>= next = err e
ok value >>= next = next value

-- `p->m` on a pointer that may be null.
abbrev pub deref {ℓ} : {A : Type ℓ} → Option A → Result A
deref none = fault null_dereference
deref (some a) = ok a

-- The result of a loop that may run out of the fuel of its model.
abbrev pub from_fuel {ℓ} : {A : Type ℓ} → Option A → Result A
from_fuel none = fault out_of_fuel
from_fuel (some a) = ok a

-- A test that returns `false` early.
infixr 6 ◌and_then◌
abbrev pub ◌and_then◌ : Result Bool → Result Bool → Result Bool
m and_then k = m >>= λ b. if b then k else ok false

pub ok_inj {ℓ} : {A : Type ℓ} {a b : A} → ok a ≡ ok b → a ≡ b
ok_inj h = cc

-- What holds of a result that is computed holds of the result that is returned.
pub of_ok {ℓ κ} : {A : Type ℓ} (P : A → Type κ) {a b : A} → P a → ok a ≡ ok b → P b
of_ok P p h = subst P (ok_inj h) p

-- A sequence of calls that succeeds passes through a value of the first one.
pub >>=-eq-ok {ℓ₁ ℓ₂} :
    {T : Type ℓ₁} {U : Type ℓ₂} (call : Result T) (next : T → Result U) {result : U}
    → call >>= next ≡ ok result
    → (value : T) × (call ≡ ok value) × (next value ≡ ok result)
>>=-eq-ok (fault x) next h = cc
>>=-eq-ok (err e) next h = cc
>>=-eq-ok (ok value) next h = (value, refl, h)

-- A call that returns a value.
abbrev pub Returns {ℓ} : {A : Type ℓ} → Result A → Type ℓ
Returns {A} r = (a : A) × (r ≡ ok a)

and_then_branch : (b : Bool) (k : Result Bool) → Returns k → Returns (if b then k else ok false)
and_then_branch true k h = h
and_then_branch false k h = (false, refl)

pub and_then-Returns : (m k : Result Bool) → Returns m → Returns k → Returns (m and_then k)
and_then-Returns m k (b, e) h = rw e (and_then_branch b k h)

pub and_then-true_iff :
    (m k : Result Bool) → ((m and_then k) ≡ ok true) ↔ ((m ≡ ok true) × (k ≡ ok true))
and_then-true_iff (ok true) k = (λ h. (refl, h), λ h. h.1)
and_then-true_iff (ok false) k = (λ h. cc, λ h. cc)
and_then-true_iff (err e) k = (λ h. cc, λ h. cc)
and_then-true_iff (fault x) k = (λ h. cc, λ h. cc)

-- What follows on a pointer that is not null.
pub deref-some {ℓ₁ ℓ₂} :
    {T : Type ℓ₁} {U : Type ℓ₂} {o : Option T} {a : T} (next : T → Result U)
    → o ≡ some a
    → deref o >>= next ≡ next a
deref-some next h = rw h refl
