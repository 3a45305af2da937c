-- ===== src/Config/Mapping/Ready.antt =====
-- What an entry of "instruction_map" is turned into.
use cgraomp.Prelude.{
  ◌≡◌, refl, ap, subst, String, Bool, true, false, Bool-cases, Option-cases, Option, none, some,
  List, arith, inl, inr,
}
use cgraomp.Prelude.Int.{to_int}
use cgraomp.Errors.{
  Result, ok, err, fault, string_error, model_error, is_missing_key, ok_inj, of_ok, >>=-eq-ok,
}
use cgraomp.Llvm.{Llvm}
use cgraomp.Json.{Json}
use cgraomp.InstMap.Condition.{MapCondition, new_condition, equals_int, equals_double}
use cgraomp.InstMap.Condition.Ready.{
  IsReady, new_condition-IsReady, set_flags-IsReady, set_pred-IsReady, set_const-IsReady,
}
use cgraomp.Config.Strings.{get_string_array}
use cgraomp.Config.Mapping.{
  inst_key, map_key, const_lhs_key, const_rhs_key, const_int_key, const_dbl_key, flags_key,
  pred_key, required_string, flag_condition, pred_condition, const_condition, operand_condition,
  create_map_condition,
}

module _ (L : Llvm) (J : Json L.Double) where
  open J use {Value, Object, get, as_string, as_integer, as_number, as_object}

  flag_condition-IsReady :
      (obj : Object) (filename : String) (c c' : MapCondition L)
      → IsReady L c
      → flag_condition L J obj filename c ≡ ok c'
      → IsReady L c'
  unfolding flag_condition
  flag_condition-IsReady obj filename c c' r h =
      by_list (get_string_array J obj flags_key filename) refl
    where
      by_list :
          (l : Result (List String)) → get_string_array J obj flags_key filename ≡ l → IsReady L c'
      by_list (ok flags) e = set_flags-IsReady L flags c c' r (rw (e, flag_condition) at h)
      by_list (err (model_error x)) e = elim (Bool-cases (is_missing_key x)) [
        | inl missing ↦ let same : c ≡ c' = ground arith in subst (IsReady L) same r
        | inr other ↦ absurd (ground arith)
      ]
      by_list (err (string_error s)) e = absurd (ground arith)
      by_list (fault x) e = absurd (ground arith)

  pred_condition-IsReady :
      (obj : Object) (filename : String) (c c' : MapCondition L)
      → IsReady L c
      → pred_condition L J obj filename c ≡ ok c'
      → IsReady L c'
  unfolding pred_condition
  pred_condition-IsReady obj filename c c' r h = elim (Option-cases (get obj pred_key)) [
    | inl e ↦ of_ok (IsReady L) r (rw (e, pred_condition) at h)
    | inr (v, e) ↦ elim (Option-cases (as_string v)) [
      | inl e' ↦ absurd (ground arith)
      | inr (pred, e') ↦ set_pred-IsReady L pred c c' r (rw (e, e', pred_condition) at h)
    ]
  ]

  const_condition-IsReady :
      (filename : String) (c c' : MapCondition L) (p : Option Object) (left : Bool)
      → IsReady L c
      → const_condition L J filename c p left ≡ ok c'
      → IsReady L c'
  unfolding const_condition
  const_condition-IsReady filename c c' none left r h = absurd (ground arith)
  const_condition-IsReady filename c c' (some obj) left r h =
      elim (Option-cases (get obj const_int_key)) [
        | inr (ci, e) ↦ elim (Option-cases (as_integer ci)) [
          | inl e' ↦ absurd (ground arith)
          | inr (n, e') ↦
              set_const-IsReady L (equals_int (to_int n)) left c c' r
                (rw (e, e', const_condition) at h)
        ]
        | inl e ↦ elim (Option-cases (get obj const_dbl_key)) [
          | inl e' ↦ of_ok (IsReady L) r (rw (e, e', const_condition) at h)
          | inr (cd, e') ↦ elim (Option-cases (as_number cd)) [
            | inl e2 ↦ absurd (ground arith)
            | inr (d, e2) ↦
                set_const-IsReady L (equals_double d) left c c' r
                  (rw (e, e', e2, const_condition) at h)
          ]
        ]
      ]

  operand_condition-IsReady :
      (obj : Object) (filename : String) (c c' : MapCondition L)
      → IsReady L c
      → operand_condition L J obj filename c ≡ ok c'
      → IsReady L c'
  unfolding operand_condition
  operand_condition-IsReady obj filename c c' r h = elim (Option-cases (get obj const_lhs_key)) [
    | inr (lhs, e) ↦
        const_condition-IsReady filename c c' (as_object lhs) true r
          (rw (e, operand_condition) at h)
    | inl e ↦ elim (Option-cases (get obj const_rhs_key)) [
      | inl e' ↦ of_ok (IsReady L) r (rw (e, e', operand_condition) at h)
      | inr (rhs, e') ↦
          const_condition-IsReady filename c c' (as_object rhs) false r
            (rw (e, e', operand_condition) at h)
    ]
  ]

  -- An entry of the instruction map that is accepted gives a condition whose flags are all known,
  -- and whose constant and predicate are set if it asks for them.
  pub create_map_condition-IsReady :
      (obj : Object) (filename : String) (opcode : String) (c : MapCondition L)
      → create_map_condition L J obj filename ≡ ok (opcode, c)
      → IsReady L c
  unfolding create_map_condition
  create_map_condition-IsReady obj filename opcode c h =
      let (inst, e0, h0) = >>=-eq-ok (required_string L J obj filename inst_key) _ h in
      let (name, e1, h1) = >>=-eq-ok (required_string L J obj filename map_key) _ h0 in
      let (c1, e2, h2) = >>=-eq-ok (flag_condition L J obj filename (new_condition L name)) _ h1 in
      let (c2, e3, h3) = >>=-eq-ok (pred_condition L J obj filename c1) _ h2 in
      let (c3, e4, h4) = >>=-eq-ok (operand_condition L J obj filename c2) _ h3 in
      let last : c3 ≡ c = ap (λ p. p.1) (ok_inj h4) in
      subst (IsReady L) last (
        operand_condition-IsReady obj filename c2 c3
          (pred_condition-IsReady obj filename c1 c2
            (flag_condition-IsReady obj filename (new_condition L name) c1
              (new_condition-IsReady L name) e2)
            e3)
          e4)
