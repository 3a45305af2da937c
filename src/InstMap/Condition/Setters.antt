-- ===== src/InstMap/Condition/Setters.antt =====
-- What the setters of a condition lose.
use cgraomp.Prelude.{
  ◌≡◌, subst, String, ◌==◌, Bool, true, false, Bool-cases, Option-cases, some_inj, some, [], ◌∷◌,
  arith, inl, inr, All,
}
use cgraomp.Prelude.StringMap
use cgraomp.Errors.{ok}
use cgraomp.Llvm.{Llvm, Predicate}
use cgraomp.InstMap.Condition.{MapCondition, UseTest, pred_map, set_pred, set_const, matches}

-- The predicates that "ugt", "uge", "ult" and "ule" have for floating-point comparisons.
abbrev pub is_shadowed : Predicate → Bool
is_shadowed Predicate.fcmp_ugt = true
is_shadowed Predicate.fcmp_uge = true
is_shadowed Predicate.fcmp_ult = true
is_shadowed Predicate.fcmp_ule = true
is_shadowed _ = false

find_among :
    (P : Predicate → Type 0) (m : StringMap.StringMap Predicate)
    → All (λ kp. P kp.1) m
    → (k : String) (p : Predicate) → StringMap.find k m ≡ some p
    → P p
unfolding StringMap.find
find_among P [] h k p e = absurd (ground arith)
find_among P ((j, q) ∷ m) h k p e = elim (Bool-cases (j == k)) [
  | inl hit ↦ subst P (some_inj (rw (hit, StringMap.find) at e)) h.0
  | inr miss ↦ find_among P m h.1 k p (rw (miss, StringMap.find) at e)
]

pred_map-shadowed : All (λ kp. is_shadowed kp.1 ≡ false) pred_map
unfolding pred_map
pred_map-shadowed = ground arith

module _ (L : Llvm) where
  open L use {Instruction}

  -- A condition whose predicate was set from a text, whatever the text, never has one of the
  -- predicates ugt, uge, ult and ule of floating-point comparisons.
  pub set_pred_shadowed :
      (c c' : MapCondition L) (pred : String) (p : Predicate)
      → set_pred L c pred ≡ ok c'
      → c'.cmp_pred ≡ some p
      → is_shadowed p ≡ false
  unfolding set_pred
  set_pred_shadowed c c' pred p h e = elim (Option-cases (StringMap.find pred pred_map)) [
    | inl unknown ↦ absurd (ground arith)
    | inr (q, known) ↦
        let same : q ≡ p = ground arith in
        subst (λ x. is_shadowed x ≡ false) same
          (find_among (λ x. is_shadowed x ≡ false) pred_map pred_map-shadowed pred q known)
  ]

  -- Made from the same condition, one that asks for a constant left operand and one that asks for
  -- the same constant as the right operand give the same result on every instruction.
  pub set_const_sides :
      (c left right : MapCondition L) (t : UseTest L) (i : Instruction)
      → set_const L c t true ≡ ok left
      → set_const L c t false ≡ ok right
      → matches L left i ≡ matches L right i
  unfolding set_const matches
  set_const_sides c left right t i h k = ground arith
