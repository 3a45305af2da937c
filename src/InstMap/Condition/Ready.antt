-- ===== src/InstMap/Condition/Ready.antt =====
-- A condition that was set up by the setters can be tested on every instruction.
use cgraomp.Prelude.{
  ℕ, ◌≡◌, refl, String, Bool, Bool-cases, ltb, none, some, true, false, ◌&&◌, Option-cases, List,
  [], ◌∷◌, ◌++◌, arith, inl, inr, is_some, All, All-concat, if◌then◌else◌,
}
use cgraomp.Prelude.Int.{eqb_ℤ}
use cgraomp.Prelude.StringMap
use cgraomp.Errors.{ok, of_ok, Returns, and_then-Returns}
use cgraomp.Llvm.{Llvm}
use cgraomp.InstMap.Condition.{
  MapCondition, UseTest, new_condition, flag_getters, pred_map, set_flags, set_pred, set_const,
  match_flags, match_side, match_pred, call_match_use, use_matches, matches, equal_double,
}

module _ (L : Llvm) where
  open L use {Instruction}

  abbrev pub IsFlag : String → Type 0
  IsFlag f = is_some (StringMap.find f (flag_getters L)) ≡ true

  pub record IsReady (c : MapCondition L) : Type 0 where
    pub flags : All IsFlag c.flag_list
    pub use_set : c.any_lhs && c.any_rhs ≡ false → is_some c.match_use ≡ true
    pub pred_set : c.any_pred ≡ false → is_some c.cmp_pred ≡ true

  pub new_condition-IsReady : (name : String) → IsReady (new_condition L name)
  unfolding new_condition
  new_condition-IsReady name = record { flags = tt; use_set = λ e. cc; pred_set = λ e. cc }

  -- Flags are taken in order, all of them known; one that is not known is an error.
  pub set_flags-IsReady :
      (flags : List String) (c c' : MapCondition L)
      → IsReady c
      → set_flags L c flags ≡ ok c'
      → IsReady c'
  unfolding set_flags
  set_flags-IsReady [] c c' r h = ground arith
  set_flags-IsReady (f ∷ flags) c c' r h = elim (Option-cases (StringMap.find f (flag_getters L))) [
    | inl unknown ↦ absurd (ground arith)
    | inr (g, known) ↦
        set_flags-IsReady flags (record c { flag_list = c.flag_list ++ f ∷ [] }) c'
          (record {
            flags = All-concat IsFlag c.flag_list f r.flags (ground arith);
            use_set = r.use_set;
            pred_set = r.pred_set;
          })
          (rw (known, set_flags) at h)
  ]

  pub set_pred-IsReady :
      (pred : String) (c c' : MapCondition L) → IsReady c → set_pred L c pred ≡ ok c' → IsReady c'
  unfolding set_pred
  set_pred-IsReady pred c c' r h = elim (Option-cases (StringMap.find pred pred_map)) [
    | inl unknown ↦ absurd (ground arith)
    | inr (p, known) ↦
        of_ok IsReady (record { flags = r.flags; use_set = r.use_set; pred_set = λ e. refl })
          (rw (known, set_pred) at h)
  ]

  pub set_const-IsReady :
      (t : UseTest L) (left : Bool) (c c' : MapCondition L)
      → IsReady c
      → set_const L c t left ≡ ok c'
      → IsReady c'
  unfolding set_const
  set_const-IsReady t left c c' r h = record {
    flags = ground (arith, r.flags);
    use_set = ground arith;
    pred_set = ground (arith, r.pred_set);
  }

  match_flags_total :
      (flags : List String) (i : Instruction) → All IsFlag flags → Returns (match_flags L flags i)
  unfolding match_flags
  match_flags_total [] i h = (true, refl)
  match_flags_total (f ∷ flags) i h = elim (Option-cases (StringMap.find f (flag_getters L))) [
    | inl unknown ↦ absurd (ground arith)
    | inr (getter, known) ↦
        let (b, e) = match_flags_total flags i h.1 in (if getter i then b else false, ground arith)
  ]

  -- The operand, if it is a constant of the kind that is asked for, has a value that can be read.
  abbrev pub is_readable : UseTest L → ℕ → Instruction → Bool
  is_readable (UseTest.equals_int v) n i = elim (L.as_constant_int (L.get_operand i n)) [
    | none ↦ true
    | some value ↦ is_some value
  ]
  is_readable (UseTest.equals_double v) n i = elim (L.as_constant_fp (L.get_operand i n)) [
    | none ↦ true
    | some value ↦ is_some value
  ]

  abbrev pub CanRead : MapCondition L → Instruction → Type 0
  CanRead c i = (t : UseTest L) → c.match_use ≡ some t → is_readable t c.const_operand i ≡ true

  use_matches_total :
      (t : UseTest L) (n : ℕ) (i : Instruction)
      → is_readable t n i ≡ true
      → Returns (use_matches L t n i)
  unfolding use_matches
  use_matches_total (UseTest.equals_int v) n i h =
      elim (Bool-cases (ltb n (L.get_num_operands i))) [
        | inr over ↦ rw over (false, refl)
        | inl there ↦ elim (Option-cases (L.as_constant_int (L.get_operand i n))) [
          | inl e ↦ rw (there, e) (false, refl)
          | inr (value, e) ↦ elim (Option-cases value) [
            | inl unread ↦ absurd (ground arith)
            | inr (x, known) ↦ rw (there, e, known) (eqb_ℤ v x, refl)
          ]
        ]
      ]
  use_matches_total (UseTest.equals_double v) n i h =
      elim (Bool-cases (ltb n (L.get_num_operands i))) [
        | inr over ↦ rw over (false, refl)
        | inl there ↦ elim (Option-cases (L.as_constant_fp (L.get_operand i n))) [
          | inl e ↦ rw (there, e) (false, refl)
          | inr (value, e) ↦ elim (Option-cases value) [
            | inl unread ↦ absurd (ground arith)
            | inr (x, known) ↦ rw (there, e, known) (equal_double L v x, refl)
          ]
        ]
      ]

  match_side_total :
      (any : Bool) (c : MapCondition L) (i : Instruction)
      → (any ≡ false → is_some c.match_use ≡ true)
      → CanRead c i
      → Returns (match_side L any c i)
  unfolding match_side call_match_use
  match_side_total true c i h r = (true, refl)
  match_side_total false c i h r = elim (Option-cases c.match_use) [
    | inl empty ↦ absurd (ground arith)
    | inr (t, e) ↦ rw (e, call_match_use) (use_matches_total t c.const_operand i (r t e))
  ]

  -- Testing a condition whose flags are all known, and whose constant and predicate are set if it
  -- asks for them, returns true or false on every instruction whose operand at the position of the
  -- constant, if it is a constant of that kind, has a value that can be read: no empty function is
  -- called, and no assertion fails.
  pub matches_total :
      (c : MapCondition L) (i : Instruction) → IsReady c → CanRead c i → Returns (matches L c i)
  unfolding matches
  matches_total c i r read = and_then-Returns _ _ (match_flags_total c.flag_list i r.flags) (
      and_then-Returns _ _ (match_side_total c.any_lhs c i (λ e. r.use_set (ground arith)) read) (
        and_then-Returns _ _ (match_side_total c.any_rhs c i (λ e. r.use_set (ground arith)) read)
          (match_pred L c i, refl)))
