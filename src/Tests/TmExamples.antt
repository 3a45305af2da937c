-- ===== src/Tests/TmExamples.antt =====
-- The theorems on the data-flow graph of a kernel for a time-multiplexed CGRA.
use cgraomp.Prelude.{
  ℕ, ◌+◌, ◌≡◌, refl, Bool, false, Option, none, some, List, [], ◌∷◌, eqb, any, arith, if◌then◌else◌,
}
use cgraomp.Prelude.Int.{pos}
use cgraomp.Errors.{ok}
use cgraomp.Ir.{Ir}
use cgraomp.InstMap
use cgraomp.Annotation
use cgraomp.Llvm.{BinaryOps}
use cgraomp.LoopDependency.{LoopDependency, LoopDependencyInfo, simple_loop_dependency}
use cgraomp.GepStride.{array_type, float_type, strides, get_data_width}
use cgraomp.GepStride.Offsets.{offsets, size_of, strides_lem}
use cgraomp.TmDfg.{TmBuilding, KernelIr, LoopControl, HashOrder}
use cgraomp.DataFlowGraph.{new_dfg}
use cgraomp.DfgPass.{Building, add_value}
use cgraomp.Tests.Graphs.{lists}
use cgraomp.Tests.Sample.{Inst, binary, variable}
use cgraomp.Tests.Analyses.{ir}

-- The phi node 10 counts by the addition 12; 11 is the address of an element of the array 30, and
-- 13 is added to what stands there; 17 is the branch back. 20 and 21 are constants.
abbrev loop_operands : ℕ → List ℕ
loop_operands v = if eqb v 12 then 10 ∷ 20 ∷ [] else if eqb v 13 then 11 ∷ 20 ∷ [] else []

abbrev in_loop : ℕ → Bool
in_loop v = any (eqb v) (10 ∷ 11 ∷ 12 ∷ 13 ∷ 17 ∷ [])

abbrev loop_ir : Ir
loop_ir = record ir {
  operands = loop_operands;
  is_instruction = in_loop;
  is_constant = λ v. any (eqb v) (20 ∷ 21 ∷ []);
}

abbrev loop_kernel : KernelIr
loop_kernel = record {
  insts = 10 ∷ 11 ∷ 12 ∷ 13 ∷ 17 ∷ [];
  is_phi = λ v. eqb v 10;
  is_gep = λ v. eqb v 11;
  is_inside = in_loop;
  is_argument = λ v. false;
  pointer_operand = λ v. 30;
  source_element_type = λ v. array_type 4 float_type;
  indices = λ v. 21 ∷ 10 ∷ [];
}

abbrev loop_control : LoopControl
loop_control = record { back_branch = some 17; back_condition = none }

abbrev counting : LoopDependency
counting = simple_loop_dependency 12 21 10

abbrev loop_deps : LoopDependencyInfo
loop_deps = record { indvar_dep_list = counting ∷ []; mem_dep_list = []; lc_dep_list = [] }

abbrev same_order : HashOrder
same_order = record {
  values = λ set. set;
  has-values = λ a set. refl;
  phis = λ map. map;
  phis-All = λ P map all. all;
  any-phis = λ p map. refl;
}

abbrev as_op : ℕ → Option Inst
as_op v = some (binary BinaryOps.add variable variable)

-- The virtual root is at 100.
abbrev value_node : ℕ → ℕ
value_node v = v + 101

abbrev address_node : ℕ → ℕ
address_node k = k + 1001

strides_lem_example : strides (array_type 4 float_type) ≡ ok (offsets (array_type 4 float_type))
unfolding size_of get_data_width
strides_lem_example = strides_lem (array_type 4 float_type) (omega arith) (omega arith)

-- The operation 12 and the constant 20 have nodes.
abbrev start : Building lists
start = record { dfg = new_dfg lists 100 pos; value_to_node = []; custom_ops = []; extra_info = [] }

abbrev with_op : Building lists
with_op = (add_value lists value_node 12 start).1

abbrev with_data : Building lists
with_data = (add_value lists value_node 20 with_op).1

abbrev ready : TmBuilding lists
ready = record {
  base = with_data;
  kernel_inst = 12 ∷ [];
  gep_set = [];
  distances = [];
  made_ids = 0;
}
