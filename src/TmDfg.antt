-- ===== src/TmDfg.antt =====
-- src/Passes/CGRAOmpDFGPass/DFGPass.cpp, createDataFlowGraph for a kernel of a time-multiplexed CGRA:
-- the nodes of the kernel, and the data that come from outside of it.
pub mod Deps
pub mod Geps
pub mod Graph
pub mod Grown
pub mod Linked
pub mod Dependency
pub mod Remaining
pub mod Connected
pub mod Addresses
pub mod Indices
pub mod Pointers
pub mod Kernel
pub mod Insts
pub mod Carried
pub mod Given
pub mod Readied
pub mod Prepared
pub mod Built
use cgraomp.Prelude.{
  ℕ, ◌≡◌, Bool, true, false, not, ◌&&◌, ◌||◌, Option, none, some, List, [], ◌∷◌, eqb, has,
  insert_new, All, any, if◌then◌else◌,
}
use cgraomp.Prelude.Int.{ℤ}
use cgraomp.Errors.{Result, ok, err, fault, ◌>>=◌, deref}
use cgraomp.Llvm.{Llvm}
use cgraomp.Ir.{Ir}
use cgraomp.Annotation.{Table}
use cgraomp.Model.{CgraModel, is_supported}
use cgraomp.LoopDependency.{LoopDependency}
use cgraomp.GepStride.{ElementType}
use cgraomp.Directed.{DirectedGraph}
use cgraomp.DataFlowGraph.{add_node}
use cgraomp.DfgPass.{Building, add_value, is_custom}

-- What the pass asks of the loop: its instructions, block by block in the order of the visit; which
-- of them are phi nodes or GEPs; which instructions stand in the loop; the arguments of the
-- function; and the parts of a GEP.
pub record KernelIr : Type 0 where
  pub insts : List ℕ
  pub is_phi : ℕ → Bool
  pub is_gep : ℕ → Bool
  pub is_inside : ℕ → Bool
  pub is_argument : ℕ → Bool
  pub pointer_operand : ℕ → ℕ
  pub source_element_type : ℕ → ElementType
  pub indices : ℕ → List ℕ

-- `getBackBranch` and `getBackCondition` of the result of the verification.
pub record LoopControl : Type 0 where
  pub back_branch : Option ℕ
  pub back_condition : Option ℕ

-- A `DenseMap<PHINode*, LoopDependency*>`, whose keys may be null.
abbrev pub PhiMap : Type 0
PhiMap = List (Option ℕ × LoopDependency)

abbrev pub same_pointer : Option ℕ → Option ℕ → Bool
same_pointer none none = true
same_pointer (some a) (some b) = eqb a b
same_pointer _ _ = false

-- The order in which a set or a map of pointers is walked, which its contents do not determine.
pub record HashOrder : Type 1 where
  pub values : List ℕ → List ℕ
  pub has-values : (a : ℕ) (set : List ℕ) → has a (values set) ≡ has a set
  pub phis : PhiMap → PhiMap
  pub phis-All :
      (P : Option ℕ × LoopDependency → Type 0) (map : PhiMap) → All P map → All P (phis map)
  pub any-phis :
      (p : Option ℕ × LoopDependency → Bool) (map : PhiMap) → any p (phis map) ≡ any p map

-- `idv_phis[dep->getPhi()] = dep`
unfoldable pub assign_phi : Option ℕ → LoopDependency → PhiMap → PhiMap
assign_phi phi dep [] = (phi, dep) ∷ []
assign_phi phi dep ((key, old) ∷ rest) =
    let others = assign_phi phi dep rest in
    if same_pointer key phi then (phi, dep) ∷ rest else (key, old) ∷ others

unfoldable pub phi_map : List LoopDependency → PhiMap → PhiMap
unfolding assign_phi
phi_map [] map = map
phi_map (dep ∷ deps) map = phi_map deps (assign_phi dep.phi dep map)

-- The lambda `phi_contained`, for a pointer that is not null.
unfoldable pub phi_contained : PhiMap → ℕ → Bool
phi_contained [] phi = false
phi_contained ((key, dep) ∷ rest) phi =
    let others = phi_contained rest phi in if same_pointer key (some phi) then true else others

-- `value_to_node.find(V) != value_to_node.end()`: a value may have a null node.
unfoldable pub is_node_exist : ℕ → List (ℕ × Option ℕ) → Bool
is_node_exist v [] = false
is_node_exist v ((w, n) ∷ rest) =
    let others = is_node_exist v rest in if eqb w v then true else others

-- The test for a phi node of a dependency, a GEP or the control of the loop.
pub data InstClass : Type 0 where
  skipped gep_inst kernel_op : InstClass

module _ (K : KernelIr) where
  unfoldable pub classify : PhiMap → PhiMap → LoopControl → ℕ → InstClass
  classify idv lc control v =
      if K.is_phi v
      then if phi_contained idv v || phi_contained lc v then skipped else kernel_op
      else if K.is_gep v
      then gep_inst
      else if same_pointer (some v) control.back_branch
          || same_pointer (some v) control.back_condition
      then skipped
      else kernel_op

module _ (I : Ir) (K : KernelIr) where
  -- Data from outside of the loop, constants and arguments get nodes.
  abbrev pub is_source : ℕ → Bool
  is_source v =
      if I.is_instruction v then not (K.is_inside v) else I.is_constant v || K.is_argument v

module _ (D : DirectedGraph) where
  -- The locals of the function. `distances` are those of the edges of dependencies, by address;
  -- `made_ids` counts the calls of `make_unique_id`.
  pub record TmBuilding : Type 0 where
    pub base : Building D
    pub kernel_inst : List ℕ
    pub gep_set : List ℕ
    pub distances : List (ℕ × ℤ)
    pub made_ids : ℕ

  module _ (L : Llvm) (as_instruction : ℕ → Option L.Instruction) (cached : Option (Table L))
      (model : CgraModel L) (node_of : ℕ → ℕ) where
    -- The node of an instruction that the model supports.
    unfoldable pub add_kernel_op : ℕ → TmBuilding → Result TmBuilding
    unfolding add_value
    add_kernel_op v t = elim (as_instruction v) [
      | none ↦ ok t
      | some i ↦ is_supported L cached i model >>= λ imap. elim imap [
        | none ↦ ok t
        | some p ↦
            let b = (add_value D node_of v t.base).1 in
            ok (record t {
              base =
                  if is_custom p.derived
                  then record b { custom_ops = insert_new v b.custom_ops }
                  else b;
              kernel_inst = insert_new v t.kernel_inst;
            })
      ]
    ]

    unfoldable pub add_inst :
        KernelIr → PhiMap → PhiMap → LoopControl → ℕ → TmBuilding → Result TmBuilding
    unfolding classify add_kernel_op
    add_inst K idv lc control v t = elim (classify K idv lc control v) [
      | skipped ↦ ok t
      | gep_inst ↦ ok (record t { gep_set = insert_new v t.gep_set })
      | kernel_op ↦ add_kernel_op v t
    ]

    unfoldable pub add_insts :
        KernelIr → PhiMap → PhiMap → LoopControl → List ℕ → TmBuilding → Result TmBuilding
    unfolding add_inst
    add_insts K idv lc control [] t = ok t
    add_insts K idv lc control (v ∷ vs) t =
        add_inst K idv lc control v t >>= λ t'. add_insts K idv lc control vs t'

  module _ (I : Ir) (K : KernelIr) (node_of : ℕ → ℕ) where
    unfoldable pub add_operand_sources : List ℕ → Building D → Building D
    unfolding add_value
    add_operand_sources [] b = b
    add_operand_sources (v ∷ vs) b =
        add_operand_sources vs (if is_source I K v then (add_value D node_of v b).1 else b)

    unfoldable pub add_sources : List ℕ → Building D → Building D
    unfolding add_operand_sources
    add_sources [] b = b
    add_sources (sink ∷ sinks) b = add_sources sinks (add_operand_sources (I.operands sink) b)
