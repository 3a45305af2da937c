-- ===== src/InstMap/Condition/Meaning.antt =====
-- What a condition says of an instruction.
use cgraomp.Prelude.{
  ◌≡◌, ◌↔◌, ◌⊎◌, refl, String, Bool, true, false, ◌&&◌, Option-cases, some, List, [], ◌∷◌, arith,
  inl, inr, All,
}
use cgraomp.Prelude.StringMap
use cgraomp.Errors.{ok, and_then-true_iff}
use cgraomp.Llvm.{Llvm, Predicate}
use cgraomp.InstMap.Condition.{
  MapCondition, UseTest, same_pred, Predicate-discrete, flag_getters, match_flags, match_side,
  match_pred, call_match_use, use_matches, matches,
}

same_pred_iff : (p q : Predicate) → (same_pred p q ≡ true) ↔ (p ≡ q)
unfolding same_pred
same_pred_iff p q = elim (Predicate-discrete p q) [
  | yes e ↦ (λ _. e, λ _. ground arith)
  | no n ↦ (λ h. absurd (ground arith), λ e. absurd (n e))
]

module _ (L : Llvm) where
  open L use {Instruction, as_cmp_inst}

  abbrev pub HasFlag : Instruction → String → Type 0
  HasFlag i f =
      (getter : Instruction → Bool) × (StringMap.find f (flag_getters L) ≡ some getter)
      × (getter i ≡ true)

  -- One of the operands is the constant that was set.
  abbrev pub UsesConstant : MapCondition L → Instruction → Type 0
  UsesConstant c i =
      (t : UseTest L) × (c.match_use ≡ some t) × (use_matches L t c.const_operand i ≡ ok true)

  abbrev pub HasPredicate : MapCondition L → Instruction → Type 0
  HasPredicate c i = (p : Predicate) × (as_cmp_inst i ≡ some p) × (c.cmp_pred ≡ some p)

  pub record Meets (c : MapCondition L) (i : Instruction) : Type 0 where
    pub flags : All (HasFlag i) c.flag_list
    pub use_ok : (c.any_lhs && c.any_rhs ≡ true) ⊎ UsesConstant c i
    pub pred_ok : (c.any_pred ≡ true) ⊎ HasPredicate c i

  match_flags_iff :
      (flags : List String) (i : Instruction)
      → (match_flags L flags i ≡ ok true) ↔ All (HasFlag i) flags
  unfolding match_flags
  match_flags_iff [] i = (λ _. tt, λ _. refl)
  match_flags_iff (f ∷ flags) i = elim (Option-cases (StringMap.find f (flag_getters L))) [
    | inl unknown ↦ (λ h. absurd (ground arith), λ h. absurd (ground arith))
    | inr (g, known) ↦ (
      λ h. ((g, known, ground arith), (match_flags_iff flags i).0 (ground arith)),
      λ h. ground (arith, (match_flags_iff flags i).1 h.1, h.0.1, h.0.2),
    )
  ]

  match_side_iff :
      (any : Bool) (c : MapCondition L) (i : Instruction)
      → (match_side L any c i ≡ ok true) ↔ ((any ≡ true) ⊎ UsesConstant c i)
  unfolding match_side call_match_use
  match_side_iff true c i = (λ h. inl refl, λ h. refl)
  match_side_iff false c i = elim (Option-cases c.match_use) [
    | inl empty ↦ (λ h. absurd (ground arith), λ h. ground arith)
    | inr (t, e) ↦ (λ h. inr (t, e, rw (e, call_match_use) at h), λ h. ground arith)
  ]

  match_pred_iff :
      (c : MapCondition L) (i : Instruction)
      → (ok (match_pred L c i) ≡ ok true) ↔ ((c.any_pred ≡ true) ⊎ HasPredicate c i)
  unfolding match_pred
  match_pred_iff c i = elim (Option-cases (as_cmp_inst i)) [
    | inl e ↦ (λ h. ground arith, λ h. ground arith)
    | inr (p, e) ↦ elim (Option-cases c.cmp_pred) [
      | inl e' ↦ (λ h. ground arith, λ h. ground arith)
      | inr (q, e') ↦
          (λ h. ground (arith, (same_pred_iff p q).0), λ h. ground (arith, (same_pred_iff p q).1))
    ]
  ]

  either_side :
      (c : MapCondition L) (i : Instruction)
      → (c.any_lhs ≡ true) ⊎ UsesConstant c i
      → (c.any_rhs ≡ true) ⊎ UsesConstant c i
      → (c.any_lhs && c.any_rhs ≡ true) ⊎ UsesConstant c i
  either_side c i (inr u) r = inr u
  either_side c i (inl l) (inr u) = inr u
  either_side c i (inl l) (inl r) = inl (ground arith)

  side_of :
      (any : Bool) (c : MapCondition L) (i : Instruction)
      → (c.any_lhs && c.any_rhs ≡ true → any ≡ true)
      → (c.any_lhs && c.any_rhs ≡ true) ⊎ UsesConstant c i
      → (any ≡ true) ⊎ UsesConstant c i
  side_of any c i f (inl e) = inl (f e)
  side_of any c i f (inr u) = inr u

  -- An instruction passes the test of a mapping condition exactly if it has all the flags, uses
  -- the constant that was set if one is asked for, and has the predicate if one is asked for.
  pub matches_iff : (c : MapCondition L) (i : Instruction) → (matches L c i ≡ ok true) ↔ Meets c i
  unfolding matches
  matches_iff c i =
      let flags = match_flags_iff c.flag_list i in
      let left = match_side_iff c.any_lhs c i in
      let right = match_side_iff c.any_rhs c i in
      let pred = match_pred_iff c i in
      (
        λ h.
            let (f, rest) = (and_then-true_iff _ _).0 h in
            let (l, rest') = (and_then-true_iff _ _).0 rest in
            let (r, p) = (and_then-true_iff _ _).0 rest' in
            record {
              flags = flags.0 f;
              use_ok = either_side c i (left.0 l) (right.0 r);
              pred_ok = pred.0 p;
            },
        λ h. (and_then-true_iff _ _).1 (
          flags.1 h.flags,
          (and_then-true_iff _ _).1 (
            left.1 (side_of c.any_lhs c i (λ e. ground arith) h.use_ok),
            (and_then-true_iff _ _).1
                (right.1 (side_of c.any_rhs c i (λ e. ground arith) h.use_ok), pred.1 h.pred_ok),
          ),
        ),
      )
