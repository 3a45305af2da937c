-- ===== src/Tests/Sample.antt =====
-- A small instance of each interface: a few instructions, a module with two annotations, and JSON
-- documents as data.
use cgraomp.Prelude.{
  ℕ, zero, suc, ◌≡◌, ◌↔◌, String, Bool, true, false, Option, none, some, List, [], ◌∷◌, inr, ◌==◌,
  eqb, leb, arith, if◌then◌else◌, ◌+◌, ◌*◌, ◌-◌,
}
use cgraomp.Prelude.Int.{ℤ, pos}
use cgraomp.Llvm.{Llvm, BinaryOps, Predicate}
use cgraomp.Json.{Json}
use cgraomp.Model.{Files}

pub data Operand : Type 0 where
  int : ℤ → Operand
  variable annotations array : Operand
  struct func text : ℕ → Operand
  slot : ℕ → ℕ → Operand

pub data Inst : Type 0 where
  binary : BinaryOps → Operand → Operand → Inst
  icmp fcmp : Predicate → Inst
  call : Option ℕ → Inst

abbrev binary_operator : Inst → Option BinaryOps
binary_operator (binary op _ _) = some op
binary_operator _ = none

abbrev cmp_inst : Inst → Option Predicate
cmp_inst (icmp p) = some p
cmp_inst (fcmp p) = some p
cmp_inst _ = none

abbrev is_icmp : Inst → Bool
is_icmp (icmp p) = true
is_icmp _ = false

abbrev call_base : Inst → Option (Option ℕ)
call_base (call f) = some f
call_base _ = none

abbrev num_operands : Inst → ℕ
num_operands (call f) = 0
num_operands _ = 2

abbrev operand : Inst → ℕ → Operand
operand (binary _ a b) zero = a
operand (binary _ a b) (suc n) = b
operand _ _ = variable

abbrev constant_int : Operand → Option (Option ℤ)
constant_int (int n) = some (some n)
constant_int _ = none

abbrev user_operand : Operand → ℕ → Operand
user_operand annotations n = array
user_operand (struct k) n = slot k n
user_operand (slot k zero) n = func k
user_operand (slot k (suc j)) n = text k
user_operand _ _ = variable

abbrev constant_array : Operand → Option (List Operand)
constant_array array = some (struct 0 ∷ struct 1 ∷ [])
constant_array _ = none

abbrev constant_struct : Operand → Option Operand
constant_struct (struct k) = some (struct k)
constant_struct _ = none

abbrev as_function : Operand → Option ℕ
as_function (func k) = some k
as_function _ = none

abbrev global_variable : Operand → Option Operand
global_variable (text k) = some (text k)
global_variable _ = none

abbrev c_string : Operand → Option String
c_string (text k) = some (if eqb k 0 then "cgra_custom_inst" else "note")
c_string _ = none

pub eqb_iff : (a b : ℕ) → (eqb a b ≡ true) ↔ (a ≡ b)
eqb_iff a b = ground arith

-- Functions are numbers; function 0 is the custom instruction "FMA".
abbrev pub llvm : Llvm
llvm = record {
  Double = ℕ;
  Instruction = Inst;
  Value = Operand;
  Function = ℕ;
  Module = Unit {0};
  fabs = λ x. x;
  fsub = λ x y. x - y + (y - x);
  fmul = λ x y. x * y;
  fmax = λ x y. if leb x y then y else x;
  fle = leb;
  fone = 1;
  dbl_epsilon = 0;
  as_binary_operator = binary_operator;
  is_load_inst = λ i. false;
  is_store_inst = λ i. false;
  as_cmp_inst = cmp_inst;
  is_opcode_icmp = is_icmp;
  as_cast_inst = λ i. none;
  isa_other_inst = λ op i. false;
  isa_term_inst = λ op i. false;
  is_overflowing = λ i. true;
  is_possibly_exact = λ i. false;
  is_fp_math = λ i. false;
  has_no_unsigned_wrap = λ i. false;
  has_no_signed_wrap = λ i. true;
  is_exact = λ i. false;
  is_fast = λ i. false;
  has_no_nans = λ i. false;
  has_no_infs = λ i. false;
  has_no_signed_zeros = λ i. false;
  has_allow_reciprocal = λ i. false;
  has_allow_contract = λ i. false;
  has_approx_func = λ i. false;
  has_allow_reassoc = λ i. false;
  get_num_operands = num_operands;
  get_operand = operand;
  as_constant_int = constant_int;
  as_constant_fp = λ v. none;
  as_call_base = call_base;
  get_name = λ f. if eqb f 0 then "FMA" else "f";
  same_function = eqb;
  same_function_iff = eqb_iff;
  get_parent = λ f. tt;
  get_global_variable =
      λ m name. if name == "llvm.global.annotations" then some annotations else none;
  user_operand = user_operand;
  as_constant_array = constant_array;
  as_constant_struct = constant_struct;
  as_function = as_function;
  as_global_variable = global_variable;
  initializer_c_string = c_string;
}

mutual
  pub data Doc : Type 0 where
    str : String → Doc
    bool : Bool → Doc
    num : ℤ → Doc
    arr : Docs → Doc
    obj : Fields → Doc

  pub data Docs : Type 0 where
    nil : Docs
    cons : Doc → Docs → Docs

  pub data Fields : Type 0 where
    end : Fields
    field : String → Doc → Fields → Fields

abbrev get : Fields → String → Option Doc
get end k = none
get (field j d fs) k = let rest = get fs k in if j == k then some d else rest

abbrev elements : Docs → List Doc
elements nil = []
elements (cons d ds) = d ∷ elements ds

abbrev as_string : Doc → Option String
as_string (str s) = some s
as_string _ = none

abbrev as_boolean : Doc → Option Bool
as_boolean (bool b) = some b
as_boolean _ = none

abbrev as_integer : Doc → Option ℤ
as_integer (num n) = some n
as_integer _ = none

abbrev as_object : Doc → Option Fields
as_object (obj fs) = some fs
as_object _ = none

abbrev as_array : Doc → Option (List Doc)
as_array (arr ds) = some (elements ds)
as_array _ = none

abbrev pub json : Json ℕ
json = record {
  Value = Doc;
  Object = Fields;
  get = get;
  as_string = as_string;
  as_boolean = as_boolean;
  as_integer = as_integer;
  as_number = λ v. none;
  as_object = as_object;
  as_array = as_array;
  print = λ v. "value";
}

abbrev pub denied : Doc
denied = obj (field "allowed" (bool false) end)

abbrev pub generic_dependency : Doc
generic_dependency = obj (field "allowed" (bool true) (field "type" (str "generic") end))

-- "add" by 1 is mapped to "inc", and other additions to "add".
abbrev pub mappings : Doc
mappings = arr (
    cons
      (obj (
        field "inst" (str "add") (
          field "map" (str "inc") (field "rhs" (obj (field "ConstantInt" (num (pos 1)) end)) end))))
      (cons (obj (field "inst" (str "add") (field "map" (str "add") end))) nil))

abbrev pub config : String → Fields
config category = field "category" (str category) (
    field "address_generator"
      (obj (field "control" (str "affine") (field "max_nested_level" (num (pos 3)) end)))
      (field "conditional" denied (
        field "inter-loop-dependency" generic_dependency (
          field "custom_instructions" (arr (cons (str "FMA") nil)) (
            field "generic_instructions"
              (arr (cons (str "add") (cons (str "mul") (cons (str "fcmp") nil))))
              (field "instruction_map" mappings end))))))

abbrev pub files : Files json
files = record {
  contents = λ name. if name == "cgra.json" then some "text" else none;
  strerror = "No such file or directory";
  parse = λ text. inr (obj (config "decoupled"));
  int64_text = λ n. "n";
}
