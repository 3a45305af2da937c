-- ===== src/AffineAg.antt =====
-- include/AGVerifyPass.hpp and src/Passes/CGRAOmpVerifyPass/AGVerifyPass.cpp: whether the addresses
-- of a kernel are affine, and the configuration of an affine address generator.
use cgraomp.Prelude.{
  ℕ, zero, suc, ◌+◌, Bool, true, false, not, Option, none, some, List, [], ◌∷◌, ◌++◌, leb, length,
  eqb, has, if◌then◌else◌, is_some,
}
use cgraomp.Prelude.Int.{ℤ, pos, low_word, to_int}
use cgraomp.ScalarEvolution.{
  ScalarEvolution, ScevView, add_rec, add_expr, mul_expr, cast_expr, constant, unknown, other,
  as_constant,
}
pub mod Total
pub mod Simple
pub mod Affine
pub mod Kernel

-- DimEntry_t
pub record DimEntry : Type 0 where
  pub start : ℤ
  pub step : ℤ
  pub count : ℤ

-- ConfigTy
pub record Config : Type 0 where
  pub valid : Bool
  pub config : List DimEntry
  pub base : Option ℕ

-- `*offset += *raw`, for an `int` and a 64-bit word.
unfoldable pub add_offset : ℤ → ℕ → ℤ
add_offset offset raw = to_int (pos (low_word offset + raw))

abbrev pub invalidated : Config → Config
invalidated c = record c { valid = false }

-- `if (C.base == nullptr) C.base = val;`
unfoldable pub default_base : ℕ → Config → Config
default_base v c = if is_some c.base then c else record c { base = some v }

-- AffineAGCompatibility: the configurations, and the instructions whose addresses are not affine.
pub record Compatibility : Type 0 where
  pub config : List (ℕ × Config)
  pub invalid_list : List ℕ
  pub is_violate : Bool

-- `config[I] = C`
unfoldable pub assign_config : ℕ → Config → List (ℕ × Config) → List (ℕ × Config)
assign_config i c [] = (i, c) ∷ []
assign_config i c ((j, d) ∷ cs) =
    let rest = assign_config i c cs in if eqb j i then (i, c) ∷ cs else (j, d) ∷ rest

unfoldable pub find_config : ℕ → List (ℕ × Config) → Option Config
find_config i [] = none
find_config i ((j, d) ∷ cs) = let rest = find_config i cs in if eqb j i then some d else rest

unfoldable pub add : ℕ → Config → Compatibility → Compatibility
unfolding assign_config
add i c r =
    let r' =
      if c.valid
      then r
      else record r { invalid_list = r.invalid_list ++ i ∷ []; is_violate = true } in
    record r' { config = assign_config i c r'.config }

module _ (E : ScalarEvolution) where
  open E use {Scev, view}

  -- What parseStartSCEV returns, and what it writes to its two pointers.
  pub record Start : Type 0 where
    pub parsed : Bool
    pub offset : ℤ
    pub base : Option ℕ

  -- The loop over at most two operands: a second base ends it.
  unfoldable pub parse_operands : List Scev → ℤ → Option ℕ → Start
  unfolding add_offset
  parse_operands [] offset base = record { parsed = true; offset = offset; base = base }
  parse_operands (o ∷ os) offset base = elim (view o) [
    | constant raw ↦ parse_operands os (add_offset offset raw) base
    | unknown v ↦ elim base [
      | some b ↦ record { parsed = false; offset = offset; base = some b }
      | none ↦ parse_operands os offset (some v)
    ]
    | _ ↦ parse_operands os offset base
  ]

  unfoldable pub parse_start_scev : Scev → Start
  unfolding parse_operands
  parse_start_scev s = elim (view s) [
    | add_expr ops ↦
        if leb (length ops) 2
        then parse_operands ops (pos 0) none
        else record { parsed = false; offset = pos 0; base = none }
    | unknown v ↦ record { parsed = true; offset = pos 0; base = some v }
    | _ ↦ record { parsed = true; offset = pos 0; base = none }
  ]

  -- `emplace_back` of each operand: the last one is on top.
  unfoldable pub push_all : List Scev → List Scev → List Scev
  push_all [] stack = stack
  push_all (o ∷ os) stack = push_all os (o ∷ stack)

  unfoldable pub set_base : Start → Config → Config
  set_base s c = if s.parsed then record c { base = s.base } else c

  -- One level of a recurrence: its entry comes in front of the others.
  unfoldable pub add_entry : Scev → ℤ → ℕ → Config → Config
  unfolding set_base parse_start_scev
  add_entry start step count c =
      let p = parse_start_scev start in
      let c' = set_base p c in
      record c' {
        config = record { start = p.offset; step = step; count = to_int (pos count) } ∷ c'.config;
      }

  -- The depth-first search; a stack is a list with its top in front. `none` if the fuel ran out.
  unfoldable pub search : ℕ → List Scev → Bool → Config → Option Config
  unfolding add_entry default_base push_all
  search fuel [] end_addrec c = some c
  search zero (s ∷ stack) end_addrec c = none
  search (suc fuel) (s ∷ stack) end_addrec c = elim (view s) [
    | add_rec start step count ↦ elim end_addrec [
      | true ↦ some (invalidated c)
      | false ↦ elim (as_constant (view step)) [
        | some raw ↦ search fuel (start ∷ stack) false (add_entry start (to_int (pos raw)) count c)
        | none ↦ search fuel (start ∷ []) false (add_entry start (pos 0) count (invalidated c))
      ]
    ]
    | add_expr ops ↦ search fuel (push_all ops stack) true c
    | mul_expr ops ↦ search fuel (push_all ops stack) true c
    | cast_expr ops ↦ search fuel (push_all ops stack) true c
    | constant raw ↦ search fuel stack true c
    | unknown v ↦ search fuel stack true (default_base v c)
    | other ↦ some (invalidated c)
  ]

  -- The search from one expression, with fuel for its size.
  unfoldable pub verify_scev_as_affine_ag : Scev → Option Config
  unfolding search
  verify_scev_as_affine_ag s =
      search (E.size s) (s ∷ []) false (record { valid = true; config = []; base = none })

  -- The loop over loads or stores, each with the expression of its address, if that has one.
  unfoldable pub add_all : List (ℕ × Option Scev) → Compatibility → Option Compatibility
  unfolding add verify_scev_as_affine_ag
  add_all [] r = some r
  add_all ((i, none) ∷ accesses) r = add_all accesses (record r { is_violate = true })
  add_all ((i, some s) ∷ accesses) r = elim (verify_scev_as_affine_ag s) [
    | some c ↦ add_all accesses (add i c r)
    | none ↦ none
  ]

  -- The pass, for the accesses of a kernel that was decoupled; for another one nothing is tested.
  unfoldable pub run : Bool → List (ℕ × Option Scev) → List (ℕ × Option Scev) → Option Compatibility
  unfolding add_all
  run decoupled loads stores =
      let result : Compatibility = record { config = []; invalid_list = []; is_violate = false } in
      if decoupled
      then elim (add_all loads result) [ none ↦ none | some r ↦ add_all stores r ]
      else some result
