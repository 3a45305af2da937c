-- ===== src/InstMap.antt =====
-- src/Passes/CGRAModel/CGRAInstMap.cpp and include/CGRAInstMap.hpp, class InstMap: the table of
-- the instructions that a CGRA supports. Shared pointers to entries are kept with their address,
-- since `add_map_entry` finds the default entry by comparing pointers; `entry_gen`, a static
-- member that `add_custom_inst` writes to, is part of the state.
pub mod Condition
pub mod Entry
pub mod Invariant
pub mod Preserved
pub mod Rules
pub mod Refinement
pub mod Find
use cgraomp.Prelude.{
  ℕ, suc, String, Bool, true, false, not, Option, none, some, List, [], ◌∷◌, ◌++◌, ◌<>◌, eqb, keep,
  if◌then◌else◌,
}
use cgraomp.Prelude.StringMap
use cgraomp.Prelude.StringMap.{StringMap}
use cgraomp.Errors.{Result, ok, err, fault, string_error, empty_function, ◌>>=◌}
use cgraomp.Llvm.{Llvm}
use cgraomp.Annotation.{Table}
use Condition.{MapCondition}
use Entry.{InstMapEntry, make_entry, match_opcode, match_inst, Derived, custom_op, Generator}

module _ (L : Llvm) where
  open L use {Instruction}

  -- A `shared_ptr<InstMapEntry>`.
  pub record EntryPtr : Type 0 where
    pub address : ℕ
    pub entry : InstMapEntry L
    pub open entry use *

  -- A null pointer in `defaultEntries` is `none`. `next` is the first address not in use.
  pub record InstMap : Type 0 where
    pub entries : List EntryPtr
    pub default_entries : StringMap (Option ℕ)
    pub entry_gen : StringMap Generator
    pub next : ℕ

  -- The constructor, with the value that the static `entry_gen` has by then.
  unfoldable pub new_inst_map : StringMap Generator → InstMap
  new_inst_map gens = record { entries = []; default_entries = []; entry_gen = gens; next = 0 }

  unfoldable pub is_added : String → InstMap → Bool
  is_added opcode m = elim (StringMap.find opcode m.default_entries) [
    | none ↦ false
    | some _ ↦ true
  ]

  -- `entry_gen[opcode](…)`, and the entry is pushed back.
  unfoldable pub push_entry : Generator → Option (MapCondition L) → InstMap → InstMap
  push_entry g c m = record m {
    entries = m.entries ++ record { address = m.next; entry = make_entry L g.opcode g.kind c } ∷ [];
    next = suc m.next;
  }

  -- `defaultEntries[opcode] = x`
  unfoldable pub set_default : String → Option ℕ → InstMap → InstMap
  set_default opcode x m = record m {
    default_entries = StringMap.assign opcode x m.default_entries;
  }

  unfoldable pub add_generic_inst : String → InstMap → Result InstMap
  unfolding is_added push_entry set_default
  add_generic_inst opcode m =
      if is_added opcode m then ok m else elim (StringMap.find opcode m.entry_gen) [
        | some g ↦ ok (set_default opcode (some m.next) (push_entry g none m))
        | none ↦
            err
              (string_error ("Unknown opcode \"" <> opcode <> "\" for the supported instructions"))
      ]

  unfoldable pub add_custom_inst : String → InstMap → InstMap
  unfolding is_added push_entry set_default
  add_custom_inst opcode m =
      if is_added opcode m
      then m
      else (let g : Generator = record { opcode = opcode; kind = custom_op } in
          let m' : InstMap = record m { entry_gen = StringMap.assign opcode g m.entry_gen } in
          set_default opcode (some m.next) (push_entry g none m'))

  -- The loop that erases every pointer equal to the default entry's.
  unfoldable pub erase_entry : ℕ → InstMap → InstMap
  erase_entry a m = record m { entries = keep (λ p. not (eqb p.address a)) m.entries }

  unfoldable pub add_map_entry : String → MapCondition L → InstMap → Result InstMap
  unfolding push_entry set_default erase_entry
  add_map_entry opcode c m = elim (StringMap.find opcode m.default_entries) [
    | none ↦ err (
        string_error
          ("A mapping condition for not supported insruction \"" <> opcode <> "\" is specified"))
    | some d ↦ elim (StringMap.find opcode m.entry_gen) [
      | none ↦ fault empty_function
      | some g ↦ elim d [
        | some a ↦ ok (set_default opcode none (push_entry g (some c) (erase_entry a m)))
        | none ↦ ok (push_entry g (some c) m)
      ]
    ]
  ]

  -- `find(StringRef)`
  unfoldable pub find_opcode_in : String → List EntryPtr → Option EntryPtr
  unfolding match_opcode
  find_opcode_in opcode [] = none
  find_opcode_in opcode (p ∷ ps) =
      let rest = find_opcode_in opcode ps in if match_opcode L opcode p.entry then some p else rest

  unfoldable pub find_opcode : String → InstMap → Option EntryPtr
  unfolding find_opcode_in
  find_opcode opcode m = find_opcode_in opcode m.entries

  -- `find(Instruction *)`
  unfoldable pub find_inst_in :
      Option (Table L) → Instruction → List EntryPtr → Result (Option EntryPtr)
  unfolding match_inst
  find_inst_in cached i [] = ok none
  find_inst_in cached i (p ∷ ps) = elim (match_inst L cached p.entry i) [
    | ok true ↦ ok (some p)
    | ok false ↦ find_inst_in cached i ps
    | err e ↦ err e
    | fault x ↦ fault x
  ]

  unfoldable pub find_inst : Option (Table L) → Instruction → InstMap → Result (Option EntryPtr)
  unfolding find_inst_in
  find_inst cached i m = find_inst_in cached i m.entries
