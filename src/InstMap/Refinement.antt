-- ===== src/InstMap/Refinement.antt =====
-- The operations of the table of instructions implement those on rules.
use mathlib.Core.List.{map-append}
use cgraomp.Prelude.{
  ℕ, ◌≡◌, refl, ◌∙◌, String, false, not, Bool-cases, Option-cases, Option, none, some, List, [],
  ◌∷◌, map, arith, inl, inr, eqb, keep, All, All-map, eq_iff,
}
use cgraomp.Prelude.StringMap
use cgraomp.Prelude.StringMap.{find-assign}
use cgraomp.Errors.{ok, of_ok}
use cgraomp.Llvm.{Llvm}
use cgraomp.InstMap.{
  InstMap, EntryPtr, is_added, push_entry, set_default, erase_entry, add_generic_inst,
  add_custom_inst, add_map_entry,
}
use cgraomp.InstMap.Entry.{custom_op, Generator, make_entry}
use cgraomp.InstMap.Condition.{MapCondition}
use cgraomp.InstMap.Invariant.{Inv, Owned}
use cgraomp.InstMap.Preserved.{with_generator-Inv}
use cgraomp.InstMap.Rules.{
  add_rule, add_condition, is_plain, rule_of, rules, supports-rules, rules-add_new,
}

module _ (L : Llvm) where
  -- In a well-formed table, a generic instruction that is accepted adds a rule without a condition
  -- behind the others, unless its opcode has rules already; then the rules stay as they are.
  pub add_generic_inst-rules :
      (op : String) (m m' : InstMap L)
      → Inv L m
      → add_generic_inst L op m ≡ ok m'
      → rules L m' ≡ add_rule L op (rules L m)
  unfolding add_generic_inst add_rule
  add_generic_inst-rules op m m' v e = elim (Bool-cases (is_added L op m)) [
    | inl old ↦
        of_ok (λ m'. rules L m' ≡ add_rule L op (rules L m))
          (ground (arith, supports-rules L op m v)) (rw (old, add_generic_inst) at e)
    | inr new ↦ elim (Option-cases (StringMap.find op m.entry_gen)) [
      | inl unknown ↦ absurd (ground arith)
      | inr (g, found) ↦
          of_ok (λ m'. rules L m' ≡ add_rule L op (rules L m))
            (ground
              (arith, supports-rules L op m v, rules-add_new L m op g v new (v.named op g found)))
            (rw (new, found, add_generic_inst) at e)
    ]
  ]

  with_generator-rules :
      (m : InstMap L) (op : String) (g : Generator)
      → (rules L (record m { entry_gen = StringMap.assign op g m.entry_gen }) ≡ rules L m)
        × (is_added L op (record m { entry_gen = StringMap.assign op g m.entry_gen })
            ≡ is_added L op m)
  unfolding rules rule_of is_added
  with_generator-rules m op g = (refl, refl)

  -- In a well-formed table, a custom instruction adds a rule without a condition behind the
  -- others, unless its opcode has rules already; then the rules stay as they are.
  pub add_custom_inst-rules :
      (op : String) (m : InstMap L)
      → Inv L m
      → rules L (add_custom_inst L op m) ≡ add_rule L op (rules L m)
  unfolding add_custom_inst add_rule
  add_custom_inst-rules op m v = elim (Bool-cases (is_added L op m)) [
    | inl old ↦ rw (old, add_custom_inst) (ground (arith, supports-rules L op m v))
    | inr new ↦
        let g : Generator = record { opcode = op; kind = custom_op } in
        let m' : InstMap L = record m { entry_gen = StringMap.assign op g m.entry_gen } in
        let same = with_generator-rules m op g in
        rw (new, add_custom_inst)
          (ground (
            arith,
            supports-rules L op m v,
            same,
            rules-add_new L m' op g (with_generator-Inv L m op g v refl) (same.1 ∙ new) refl,
          ))
  ]

  erased_rules :
      (m m' : InstMap L) (op : String) (a : ℕ) (ps : List (EntryPtr L))
      → All (λ p. eqb p.address a ≡ is_plain L op (rule_of L m p)) ps
      → All (λ p. (is_plain L op (rule_of L m p) ≡ false) → rule_of L m' p ≡ rule_of L m p) ps
      → map (rule_of L m') (keep (λ p. not (eqb p.address a)) ps)
        ≡ keep (λ r. not (is_plain L op r)) (map (rule_of L m) ps)
  unfolding keep
  erased_rules m m' op a [] h k = refl
  erased_rules m m' op a (p ∷ ps) h k = ground (arith, erased_rules m m' op a ps h.1 k.1, h.0, k.0)

  -- Rules before the condition that replaces the default are the others, as they were.
  rules-replace :
      (m : InstMap L) (op : String) (g : Generator) (c : MapCondition L) (a : ℕ)
      → Inv L m
      → g.opcode ≡ op
      → StringMap.find op m.default_entries ≡ some (some a)
      → rules L (set_default L op none (push_entry L g (some c) (erase_entry L a m)))
        ≡ add_condition L op c (rules L m)
  unfolding rules rule_of set_default push_entry erase_entry make_entry add_condition
  rules-replace m op g c a v name default =
      let m' = set_default L op none (push_entry L g (some c) (erase_entry L a m)) in
      let lookup = λ (o : String). find-assign {V = Option ℕ} op o none m.default_entries in
      let own : All (λ p. eqb p.address a ≡ is_plain L op (rule_of L m p)) m.entries =
        All-map (Owned L m) _ m.entries (λ p h. ground (arith, h op, eq_iff p.opcode_str op))
          v.owned in
      let other : All
          (λ p. (is_plain L op (rule_of L m p) ≡ false) → rule_of L m' p ≡ rule_of L m p)
          m.entries =
        All-map (Owned L m) _ m.entries
          (λ p h k.
            ground (arith, lookup p.opcode_str, eq_iff p.opcode_str op, eq_iff op p.opcode_str))
          v.owned in
      rw map-append (
        ground
          (arith, erased_rules m m' op a m.entries own other, lookup g.opcode, eq_iff op g.opcode))

  no_plain_rules :
      (m : InstMap L) (op : String) (ps : List (EntryPtr L))
      → StringMap.find op m.default_entries ≡ some none
      → keep (λ r. not (is_plain L op r)) (map (rule_of L m) ps) ≡ map (rule_of L m) ps
  unfolding keep rule_of
  no_plain_rules m op [] h = refl
  no_plain_rules m op (p ∷ ps) h = ground (arith, no_plain_rules m op ps h, eq_iff p.opcode_str op)

  rules-add_more :
      (m : InstMap L) (op : String) (g : Generator) (c : MapCondition L)
      → Inv L m
      → g.opcode ≡ op
      → StringMap.find op m.default_entries ≡ some none
      → rules L (push_entry L g (some c) m) ≡ add_condition L op c (rules L m)
  unfolding rules rule_of push_entry make_entry add_condition
  rules-add_more m op g c v name no_default =
      rw map-append (ground (arith, no_plain_rules m op m.entries no_default))

  -- In a well-formed table, a mapping condition that is accepted takes the place of the rule
  -- without a condition of its opcode, and otherwise comes behind the conditions that are there;
  -- the other rules stay as they are.
  pub add_map_entry-rules :
      (op : String) (c : MapCondition L) (m m' : InstMap L)
      → Inv L m
      → add_map_entry L op c m ≡ ok m'
      → rules L m' ≡ add_condition L op c (rules L m)
  unfolding add_map_entry
  add_map_entry-rules op c m m' v e = elim (Option-cases (StringMap.find op m.default_entries)) [
    | inl unknown ↦ absurd (ground arith)
    | inr (d, default) ↦ elim (Option-cases (StringMap.find op m.entry_gen)) [
      | inl no_generator ↦ absurd (ground arith)
      | inr (g, found) ↦ by_default d default g found
    ]
  ]
    where
      by_default :
          (d : Option ℕ)
          → StringMap.find op m.default_entries ≡ some d
          → (g : Generator) → StringMap.find op m.entry_gen ≡ some g
          → rules L m' ≡ add_condition L op c (rules L m)
      by_default (some a) default g found =
          of_ok (λ m'. rules L m' ≡ add_condition L op c (rules L m))
            (rules-replace m op g c a v (v.named op g found) default)
            (rw (default, found, add_map_entry) at e)
      by_default none default g found =
          of_ok (λ m'. rules L m' ≡ add_condition L op c (rules L m))
            (rules-add_more m op g c v (v.named op g found) default)
            (rw (default, found, add_map_entry) at e)
