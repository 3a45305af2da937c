-- ===== src/LoopDependency.antt =====
-- include/LoopDependencyAnalysis.hpp and
-- src/Passes/CGRAOmpVerifyPass/LoopDependencyAnalysis.cpp: the dependencies between the iterations of
-- a loop, by induction variables, by registers and by memory.
use cgraomp.Prelude.{
  ℕ, ◌/◌, ◌+◌, Bool, true, false, not, ◌&&◌, Option, none, some, List, [], ◌∷◌, ◌++◌, length, eqb,
  ltb, has, insert_new, if◌then◌else◌,
}
use cgraomp.Prelude.Int.{ℤ, pos, negsuc, to_int}
use cgraomp.Errors.{
  Result, ok, err, fault, ◌>>=◌, deref, null_dereference, assertion_failed, division_by_zero,
}
use cgraomp.Ir.{Ir}
pub mod Distance
pub mod Phis
pub mod Independent

-- LoopDependency::DepKind
pub data DepKind : Type 0 where
  simple memory induction_var : DepKind

-- The data members of `LoopDependency`; null pointers are `none`. `access` holds the store and the
-- load of a dependency by memory.
pub record LoopDependency : Type 0 where
  pub kind : DepKind
  pub def : Option ℕ
  pub init : Option ℕ
  pub phi : Option ℕ
  pub distance : ℤ
  pub access : Option (ℕ × ℕ)

unfoldable pub simple_loop_dependency : ℕ → ℕ → ℕ → LoopDependency
simple_loop_dependency def init phi = record {
  kind = simple;
  def = some def;
  init = some init;
  phi = some phi;
  distance = pos 1;
  access = none;
}

unfoldable pub induction_variable_dependency : Option ℕ → Option ℕ → Option ℕ → LoopDependency
induction_variable_dependency indvar bin_op start = record {
  kind = induction_var;
  def = bin_op;
  init = start;
  phi = indvar;
  distance = pos 1;
  access = none;
}

-- LoopDependencyInfo
pub record LoopDependencyInfo : Type 0 where
  pub indvar_dep_list : List LoopDependency
  pub mem_dep_list : List LoopDependency
  pub lc_dep_list : List LoopDependency

unfoldable pub add_idv_dep : LoopDependency → LoopDependencyInfo → LoopDependencyInfo
add_idv_dep d r = record r { indvar_dep_list = r.indvar_dep_list ++ d ∷ [] }

unfoldable pub add_mem_dep : LoopDependency → LoopDependencyInfo → LoopDependencyInfo
add_mem_dep d r = record r { mem_dep_list = r.mem_dep_list ++ d ∷ [] }

unfoldable pub add_dep : LoopDependency → LoopDependencyInfo → LoopDependencyInfo
add_dep d r = record r { lc_dep_list = r.lc_dep_list ++ d ∷ [] }

unfoldable pub get_num_dep : LoopDependencyInfo → ℕ
get_num_dep r = length r.lc_dep_list

unfoldable pub get_num_mem_dep : LoopDependencyInfo → ℕ
get_num_mem_dep r = length r.mem_dep_list

-- What LLVM says of one loop of the nest that has an induction descriptor: the start value, the
-- operation, the constant step, if it has one, and the induction variable.
pub record InductionDescriptor : Type 0 where
  pub start : Option ℕ
  pub bin_op : Option ℕ
  pub const_step : Option ℕ
  pub indvar : Option ℕ

-- A phi node: its incoming values, each with the block that it comes from.
pub record PhiNode : Type 0 where
  pub address : ℕ
  pub incoming : List (ℕ × ℕ)

-- A dependence that LLVM's loop access analysis has found.
pub record Dependence : Type 0 where
  pub is_backward : Bool
  pub source : ℕ
  pub destination : ℕ

-- A loop, as the pass sees it. `dependences` is null if there are too many of them; `minus` is the
-- raw data of the difference of two addresses, if that is a constant.
pub record LoopFacts : Type 0 where
  pub nests : List (Option InductionDescriptor)
  pub blocks : List ℕ
  pub phis : List PhiNode
  pub dependences : Option (List Dependence)
  pub minus : ℕ → ℕ → Option ℕ

-- `indvar_set.insert` of a pointer that may be null
abbrev insert_pointer : Option ℕ → List ℕ → List ℕ
insert_pointer none set = set
insert_pointer (some p) set = insert_new p set

-- The loops of the nest, outermost first; the set holds the induction variables.
unfoldable pub add_induction :
    List (Option InductionDescriptor) → List ℕ × LoopDependencyInfo → List ℕ × LoopDependencyInfo
unfolding add_idv_dep induction_variable_dependency
add_induction [] s = s
add_induction (none ∷ nests) s = add_induction nests s
add_induction (some d ∷ nests) (set, r) = add_induction nests (elim d.const_step [
  | none ↦ (set, r)
  | some step ↦ (
    insert_pointer d.indvar set,
    add_idv_dep (induction_variable_dependency d.indvar d.bin_op d.start) r,
  )
])

-- `a <= b` for numbers of type `int`
abbrev pub leb_ℤ : ℤ → ℤ → Bool
leb_ℤ (pos a) (pos b) = if eqb a b then true else ltb a b
leb_ℤ (pos a) (negsuc b) = false
leb_ℤ (negsuc a) (pos b) = true
leb_ℤ (negsuc a) (negsuc b) = if eqb a b then true else ltb b a

module _ (I : Ir) where
  open I use {
    operand_0, operand_1, is_load, is_store, is_instruction, type_of, primitive_size_in_bits,
  }

  -- The loop over the incoming values of a phi node, with `init` and `carried`.
  unfoldable pub scan_incoming :
      List ℕ → List (ℕ × ℕ) → Option ℕ → Option ℕ → Result (Option ℕ × Option ℕ)
  scan_incoming blocks [] init carried = ok (init, carried)
  scan_incoming blocks ((value, block) ∷ rest) init carried = elim (has block blocks) [
    | true ↦ elim carried [
      | some c ↦ ok (init, some c)
      | none ↦ scan_incoming blocks rest init (if is_instruction value then some value else none)
    ]
    | false ↦ elim init [
      | some i ↦ fault assertion_failed
      | none ↦ scan_incoming blocks rest (some value) carried
    ]
  ]

  unfoldable pub add_phi :
      List ℕ → List ℕ → PhiNode → LoopDependencyInfo → Result LoopDependencyInfo
  unfolding scan_incoming add_dep simple_loop_dependency
  add_phi indvars blocks phi r =
      if has phi.address indvars
      then ok r
      else scan_incoming blocks phi.incoming none none >>= λ found. ok (elim found.0 [
        | none ↦ r
        | some init ↦ elim found.1 [
          | none ↦ r
          | some carried ↦ add_dep (simple_loop_dependency carried init phi.address) r
        ]
      ])

  unfoldable pub add_phis :
      List ℕ → List ℕ → List PhiNode → LoopDependencyInfo → Result LoopDependencyInfo
  unfolding add_phi
  add_phis indvars blocks [] r = ok r
  add_phis indvars blocks (phi ∷ phis) r =
      add_phi indvars blocks phi r >>= λ r'. add_phis indvars blocks phis r'

  unfoldable pub word_size : ℕ → ℕ
  word_size v = primitive_size_in_bits (type_of v) / 8

  -- The address of a load or a store, and the size of the word that it moves.
  unfoldable pub access_of : ℕ → Option (ℕ × ℕ)
  unfolding word_size
  access_of v =
      if is_load v
      then some (operand_0 v, word_size v)
      else if is_store v
      then some (operand_1 v, word_size (operand_0 v))
      else none

  -- A 64-bit difference of addresses is divided by the size of a word, both unsigned, and the
  -- quotient becomes an `int`.
  unfoldable pub quotient : ℕ → ℕ → Result ℤ
  quotient raw size = if eqb size 0 then fault division_by_zero else ok (to_int (pos (raw / size)))

  unfoldable pub get_distance : (ℕ → ℕ → Option ℕ) → ℕ → ℕ → Result (Option ℤ)
  unfolding access_of quotient
  get_distance minus a b = elim (access_of a) [
    | none ↦ ok none
    | some pa ↦ elim (access_of b) [
      | none ↦ ok none
      | some pb ↦ if not (eqb pa.1 pb.1) then fault assertion_failed else elim (minus pa.0 pb.0) [
        | none ↦ ok none
        | some raw ↦ quotient raw pa.1 >>= λ d. ok (some d)
      ]
    ]
  ]

  unfoldable pub memory_loop_dependency : ℕ → ℕ → ℤ → LoopDependency
  memory_loop_dependency store load distance = record {
    kind = memory;
    def = some (operand_0 store);
    init = none;
    phi = none;
    distance = distance;
    access = some (store, load);
  }

  -- One dependence: a load that reads what a store of an earlier iteration has written.
  unfoldable pub add_dependence :
      ℤ → (ℕ → ℕ → Option ℕ) → Dependence → LoopDependencyInfo → Result LoopDependencyInfo
  unfolding get_distance add_mem_dep memory_loop_dependency
  add_dependence threshold minus dep r =
      if dep.is_backward && is_load dep.source && is_store dep.destination
      then (get_distance minus dep.destination dep.source >>= λ distance. ok (elim distance [
        | none ↦ r
        | some d ↦
            if leb_ℤ d threshold
            then add_mem_dep (memory_loop_dependency dep.destination dep.source d) r
            else r
      ]))
      else ok r

  unfoldable pub add_dependences :
      ℤ → (ℕ → ℕ → Option ℕ) → List Dependence → LoopDependencyInfo → Result LoopDependencyInfo
  unfolding add_dependence
  add_dependences threshold minus [] r = ok r
  add_dependences threshold minus (dep ∷ deps) r =
      add_dependence threshold minus dep r >>= λ r'. add_dependences threshold minus deps r'

  unfoldable pub run : ℤ → LoopFacts → Result LoopDependencyInfo
  unfolding add_induction add_phis add_dependences
  run threshold l =
      let (indvars, r) =
        add_induction l.nests
          ([], record { indvar_dep_list = []; mem_dep_list = []; lc_dep_list = [] }) in
      add_phis indvars l.blocks l.phis r >>= λ r1.
      deref l.dependences >>= λ deps. add_dependences threshold l.minus deps r1
