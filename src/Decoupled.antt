-- ===== src/Decoupled.antt =====
-- include/DecoupledAnalysis.hpp and src/Passes/CGRAOmpVerifyPass/DecoupledAnalysis.cpp: a kernel
-- for a decoupled CGRA is split into loads, stores, and the computation between them. Sets of
-- pointers are lists of addresses.
use cgraomp.Prelude.{
  ℕ, zero, suc, ◌+◌, ◌-◌, Bool, true, false, not, ◌&&◌, ◌||◌, String, Option, none, some, List, [],
  ◌∷◌, ◌++◌, keep, ltb, length, take, has, insert_new, subtract, intersect, if◌then◌else◌, is_some,
}
use cgraomp.Ir.{Ir}
pub mod Search
pub mod Reach
pub mod Result

-- The result: an error, or the parts of the kernel.
pub record DecoupledAnalysis : Type 0 where
  pub mem_load : List ℕ
  pub mem_store : List ℕ
  pub comp : List ℕ
  pub loop_invariant : List ℕ
  pub err_cause : Option String
  pub invar_skip_seq : List (ℕ × List ℕ)

abbrev pub no_result : DecoupledAnalysis
no_result = record {
  mem_load = [];
  mem_store = [];
  comp = [];
  loop_invariant = [];
  err_cause = none;
  invar_skip_seq = [];
}

unfoldable pub set_error : String → DecoupledAnalysis → DecoupledAnalysis
set_error cause r = record r { err_cause = some cause }

abbrev pub succeeds : DecoupledAnalysis → Bool
succeeds r = not (is_some r.err_cause)

-- The breadth-first search ends, meets a load, or has no fuel left.
pub data Outcome : Type 0 where
  done : List ℕ → Outcome
  dependent_load out_of_fuel : Outcome

-- The loop invariants so far, with the operations that are skipped in front of them.
abbrev pub Invars : Type 0
Invars = List ℕ × List (ℕ × List ℕ)

module _ (I : Ir) where
  open I use {
    users, operands, operand_0, is_load, is_store, is_call, is_constant, is_user, is_skipped,
  }

  -- A load of a pointer, not of data.
  unfoldable pub is_pointer_value : ℕ → Bool
  is_pointer_value ld =
      let operand_ty = I.type_of (operand_0 ld) in
      I.is_pointer_ty operand_ty && I.is_pointer_ty (I.pointer_element_type operand_ty)

  -- The loads of data, given the test that an address belongs to the schedule of OpenMP.
  unfoldable pub loads_of : (ℕ → Bool) → List ℕ → List ℕ
  loads_of in_schedule insts =
      keep (λ i. is_load i && not (in_schedule (operand_0 i)) && not (is_pointer_value i)) insts

  unfoldable pub stores_of : List ℕ → List ℕ
  stores_of insts = keep (λ i. not (is_load i) && is_store i) insts

  -- A successor is queued when it is met first. The pair is the queue and the set `traversed`.
  unfoldable pub offer : ℕ → List ℕ × List ℕ → List ℕ × List ℕ
  offer next s = if has next s.1 then s else (s.0 ++ next ∷ [], s.1 ++ next ∷ [])

  unfoldable pub scan : List ℕ → List ℕ × List ℕ → Option (List ℕ × List ℕ)
  scan [] s = some s
  scan (next ∷ others) s =
      let rest = scan others (offer next s) in if is_load next then none else rest

  unfoldable pub search : ℕ → List ℕ → List ℕ × List ℕ → Outcome
  unfolding scan offer
  search fuel stores ([], traversed) = done traversed
  search zero stores (v ∷ fifo, traversed) = out_of_fuel
  search (suc fuel) stores (v ∷ fifo, traversed) = elim (has v stores) [
    | true ↦ search fuel stores (fifo, traversed)
    | false ↦ elim (scan (users v) (fifo, traversed)) [
      | none ↦ dependent_load
      | some s ↦ search fuel stores s
    ]
  ]

  -- The operations from a value on that are skipped, and the value behind them.
  unfoldable pub skip : ℕ → ℕ → List ℕ → ℕ × List ℕ
  skip zero last seq = (last, seq)
  skip (suc fuel) last seq =
      let rest = skip fuel (operand_0 last) (seq ++ last ∷ []) in
      if is_skipped last then rest else (last, seq)

  unfoldable pub add_invar : List ℕ → ℕ → Invars → Invars
  unfolding skip
  add_invar kernel_nodes operand s =
      let (last, seq) = skip (I.skip_depth operand) operand [] in
      if has last kernel_nodes then s else (
        insert_new operand s.0,
        elim seq [ [] ↦ s.1 | x ∷ xs ↦ (operand, (x ∷ xs) ++ last ∷ []) ∷ s.1 ],
      )

  -- One operand of a node of the computation.
  unfoldable pub track_operand : List ℕ → List ℕ → List ℕ → ℕ → Invars → Invars
  unfolding add_invar
  track_operand kernel_nodes traversed loads operand s =
      if not (is_user operand) || has operand traversed || has operand loads
      then s
      else if is_constant operand
      then (insert_new operand s.0, s.1)
      else if has operand s.0
      then s
      else add_invar kernel_nodes operand s

  unfoldable pub track_operands : List ℕ → List ℕ → List ℕ → List ℕ → Invars → Invars
  unfolding track_operand
  track_operands kernel_nodes traversed loads [] s = s
  track_operands kernel_nodes traversed loads (operand ∷ rest) s =
      track_operands kernel_nodes traversed loads rest
        (track_operand kernel_nodes traversed loads operand s)

  -- The last operand of a store is its destination, and that of a call is the function.
  unfoldable pub tracked_operands : ℕ → List ℕ
  tracked_operands user =
      if is_store user || is_call user
      then take (length (operands user) - 1) (operands user)
      else operands user

  unfoldable pub track_all : List ℕ → List ℕ → List ℕ → List ℕ → Invars → Invars
  unfolding track_operands tracked_operands
  track_all kernel_nodes traversed loads [] s = s
  track_all kernel_nodes traversed loads (user ∷ rest) s =
      track_all kernel_nodes traversed loads rest
        (track_operands kernel_nodes traversed loads (tracked_operands user) s)

  -- What is made of the nodes that the search has met.
  unfoldable pub conclude : List ℕ → List ℕ → List ℕ → List ℕ → DecoupledAnalysis
  unfolding set_error track_all
  conclude insts loads stores traversed =
      if ltb (length (intersect traversed stores)) (length stores)
      then set_error "Unreachable store exists" no_result
      else let comp = subtract traversed stores in
        let invars = track_all insts comp loads comp ([], []) in
        record {
          mem_load = loads;
          mem_store = stores;
          comp = comp;
          loop_invariant = invars.0;
          err_cause = none;
          invar_skip_seq = invars.1;
        }

  -- The analysis of the instructions of the innermost loop; `none` if the fuel ran out.
  unfoldable pub run : ℕ → (ℕ → Bool) → List ℕ → Option DecoupledAnalysis
  unfolding loads_of stores_of search conclude set_error
  run fuel in_schedule insts =
      let loads = loads_of in_schedule insts in
      let stores = stores_of insts in
      elim (search fuel stores (loads, [])) [
        | done traversed ↦ some (conclude insts loads stores traversed)
        | dependent_load ↦ some (set_error "Loop dependent mem loads are included" no_result)
        | out_of_fuel ↦ none
      ]
