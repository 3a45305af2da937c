-- ===== src/InstMap/Entry.antt =====
-- src/Passes/CGRAModel/CGRAInstMap.cpp and include/CGRAInstMap.hpp, class InstMapEntry and the
-- classes derived from it: which instructions an entry of the map stands for.
use cgraomp.Prelude.{
  String, Bool, true, false, not, ◌&&◌, Option, none, some, [], ◌∷◌, ◌==◌, is_some, if◌then◌else◌,
}
use cgraomp.Prelude.StringMap
use cgraomp.Prelude.StringMap.{StringMap}
use cgraomp.Errors.{Result, ok, fault, null_dereference, ◌>>=◌, ◌and_then◌}
use cgraomp.Llvm.{Llvm, BinaryOps, MemoryOps, CastOps, OtherOps, TermOps}
use cgraomp.Annotation
use cgraomp.Annotation.{Table}
use cgraomp.InstMap.Condition.{MapCondition, new_condition, matches}

BinaryOps-discrete : Discrete BinaryOps
BinaryOps-discrete = hlevel

CastOps-discrete : Discrete CastOps
CastOps-discrete = hlevel

unfoldable pub same_binary : BinaryOps → BinaryOps → Bool
unfolding BinaryOps-discrete
same_binary a b = elim (BinaryOps-discrete a b) [ yes _ ↦ true | no _ ↦ false ]

unfoldable pub same_cast : CastOps → CastOps → Bool
unfolding CastOps-discrete
same_cast a b = elim (CastOps-discrete a b) [ yes _ ↦ true | no _ ↦ false ]

-- OtherOpMapEntry::OptCategory with the opcode of that category.
pub data OtherCategory : Type 0 where
  terminator : TermOps → OtherCategory
  cast : CastOps → OtherCategory
  other : OtherOps → OtherCategory

-- The derived classes with their own data members.
pub data Derived : Type 0 where
  binary_op : BinaryOps → Derived
  comp_op : Bool → Derived
  mem_op : MemoryOps → Derived
  custom_op : Derived
  other_op : OtherCategory → Derived

-- CGRAOMP_CUSTOM_INST_ATTR
abbrev pub custom_inst_attr : String
custom_inst_attr = "cgra_custom_inst"

module _ (L : Llvm) where
  open L use {
    Instruction, Function, as_binary_operator, is_load_inst, is_store_inst, as_cmp_inst,
    is_opcode_icmp, as_cast_inst, isa_other_inst, isa_term_inst, as_call_base, get_name,
  }

  pub record InstMapEntry : Type 0 where
    pub opcode_str : String
    pub derived : Derived
    pub map_cond : MapCondition L

  -- The constructors: `nullptr` gives the entry a condition of its own, mapped to the opcode.
  unfoldable pub make_entry : String → Derived → Option (MapCondition L) → InstMapEntry
  make_entry opcode d none = record {
    opcode_str = opcode;
    derived = d;
    map_cond = new_condition L opcode;
  }
  make_entry opcode d (some c) = record { opcode_str = opcode; derived = d; map_cond = c }

  -- `getMapName`
  unfoldable pub get_map_name : InstMapEntry → String
  get_map_name e = e.map_cond.map_name

  -- `match(StringRef)`
  unfoldable pub match_opcode : String → InstMapEntry → Bool
  match_opcode opcode e = e.opcode_str == opcode

  -- CompOpMapEntry::match
  unfoldable pub match_comp : Bool → MapCondition L → Instruction → Result Bool
  match_comp is_integer c i =
      if is_some (as_cmp_inst i)
      then (if is_opcode_icmp i && is_integer
          then matches L c i
          else if is_opcode_icmp i && not is_integer
          then matches L c i
          else ok false)
      else ok false

  -- MemoryOpMapEntry::match
  unfoldable pub match_memory : MemoryOps → Instruction → Bool
  match_memory mem_kind i =
      if is_load_inst i
      then elim mem_kind [ MemoryOps.load ↦ true | MemoryOps.store ↦ false ]
      else if is_store_inst i
      then elim mem_kind [ MemoryOps.store ↦ true | MemoryOps.load ↦ false ]
      else false

  -- OtherOpMapEntry::match
  unfoldable pub match_other : OtherCategory → MapCondition L → Instruction → Result Bool
  match_other (terminator op) c i = if isa_term_inst op i then matches L c i else ok false
  match_other (cast op) c i = elim (as_cast_inst i) [
    | none ↦ ok false
    | some none ↦ ok false
    | some (some op') ↦ if same_cast op' op then matches L c i else ok false
  ]
  match_other (other op) c i = if isa_other_inst op i then matches L c i else ok false

  -- `isCustomOpFunc`, over the annotations that the analysis managers hold.
  unfoldable pub is_custom_op_func : Option (Table L) → Function → Result Bool
  is_custom_op_func cached f =
      Annotation.run L cached f >>= λ annot. ok (Annotation.contains annot custom_inst_attr)

  -- CustomInstMapEntry::match. `getCalledFunction` of an indirect call is null.
  unfoldable pub match_custom :
      Option (Table L) → String → MapCondition L → Instruction → Result Bool
  unfolding is_custom_op_func
  match_custom cached opcode c i = elim (as_call_base i) [
    | none ↦ ok false
    | some none ↦ fault null_dereference
    | some (some f) ↦
        if get_name f == opcode
        then (is_custom_op_func cached f and_then matches L c i)
        else ok false
  ]

  -- BinaryOpMapEntry::match
  unfoldable pub match_binary : BinaryOps → MapCondition L → Instruction → Result Bool
  match_binary ops c i = elim (as_binary_operator i) [
    | none ↦ ok false
    | some op ↦ if same_binary op ops then matches L c i else ok false
  ]

  -- The virtual `match(Instruction *)`.
  unfoldable pub match_inst : Option (Table L) → InstMapEntry → Instruction → Result Bool
  unfolding match_binary match_comp match_memory match_custom match_other
  match_inst cached e i = elim e.derived [
    | binary_op ops ↦ match_binary ops e.map_cond i
    | comp_op is_integer ↦ match_comp is_integer e.map_cond i
    | mem_op kind ↦ ok (match_memory kind i)
    | custom_op ↦ match_custom cached e.opcode_str e.map_cond i
    | other_op cat ↦ match_other cat e.map_cond i
  ]

-- What `entry_gen` holds for an opcode: the string and the class of the entries to make.
pub record Generator : Type 0 where
  pub opcode : String
  pub kind : Derived

abbrev generator : String → Derived → String × Generator
generator opcode d = (opcode, record { opcode = opcode; kind = d })

-- The initial value of `entry_gen`.
unfoldable pub entry_gen : StringMap Generator
unfolding StringMap.of_list StringMap.of_list_onto StringMap.insert StringMap.find
entry_gen = StringMap.of_list (
    generator "add" (binary_op BinaryOps.add)
    ∷ generator "fadd" (binary_op BinaryOps.fadd)
    ∷ generator "sub" (binary_op BinaryOps.sub)
    ∷ generator "fsub" (binary_op BinaryOps.fsub)
    ∷ generator "mul" (binary_op BinaryOps.mul)
    ∷ generator "fmul" (binary_op BinaryOps.fmul)
    ∷ generator "udiv" (binary_op BinaryOps.udiv)
    ∷ generator "sdiv" (binary_op BinaryOps.sdiv)
    ∷ generator "fdiv" (binary_op BinaryOps.fdiv)
    ∷ generator "urem" (binary_op BinaryOps.urem)
    ∷ generator "frem" (binary_op BinaryOps.frem)
    ∷ generator "srem" (binary_op BinaryOps.srem)
    ∷ generator "shl" (binary_op BinaryOps.shl)
    ∷ generator "lshr" (binary_op BinaryOps.lshr)
    ∷ generator "ashr" (binary_op BinaryOps.ashr)
    ∷ generator "and" (binary_op BinaryOps.and)
    ∷ generator "or" (binary_op BinaryOps.or)
    ∷ generator "xor" (binary_op BinaryOps.xor)
    ∷ generator "icmp" (comp_op true)
    ∷ generator "fcmp" (comp_op false)
    ∷ generator "load" (mem_op MemoryOps.load)
    ∷ generator "store" (mem_op MemoryOps.store)
    ∷ generator "select" (other_op (other OtherOps.select))
    ∷ generator "bitcast" (other_op (cast CastOps.bitcast))
    ∷ generator "zext" (other_op (cast CastOps.zext))
    ∷ [])
