-- ===== src/InstMap/Rules.antt =====
-- What the table of instructions promises, without addresses: a list of rules, in the order in
-- which they are tried. An opcode is supported without a condition, by one rule, until a first
-- condition is given for it; from then on by one rule for each condition.
use mathlib.Core.List.{map-append}
use cgraomp.Prelude.{
  ◌≡◌, refl, String, Bool, true, false, not, ◌&&◌, Option, none, some, List, [], ◌∷◌, ◌++◌, map,
  ◌==◌, arith, eqb, is_some, keep, All, All-map, if◌then◌else◌, eq_iff,
}
use cgraomp.Prelude.StringMap
use cgraomp.Prelude.StringMap.{find-assign}
use cgraomp.Llvm.{Llvm}
use cgraomp.InstMap.{
  InstMap, EntryPtr, is_added, push_entry, set_default, find_opcode_in, find_opcode,
}
use cgraomp.InstMap.Entry.{Generator, make_entry}
use cgraomp.InstMap.Condition.{MapCondition}
use cgraomp.InstMap.Invariant.{Inv, Registered}

module _ (L : Llvm) where
  -- `none` is a rule without a condition.
  pub record Rule : Type 0 where
    pub opcode : String
    pub condition : Option (MapCondition L)

  unfoldable pub supports : String → List Rule → Bool
  supports op [] = false
  supports op (r ∷ rs) = let rest = supports op rs in if r.opcode == op then true else rest

  unfoldable pub add_rule : String → List Rule → List Rule
  add_rule op rs =
      if supports op rs then rs else rs ++ record { opcode = op; condition = none } ∷ []

  abbrev pub is_plain : String → Rule → Bool
  is_plain op r = r.opcode == op && not (is_some r.condition)

  unfoldable pub add_condition : String → MapCondition L → List Rule → List Rule
  add_condition op c rs =
      keep (λ r. not (is_plain op r)) rs ++ record { opcode = op; condition = some c } ∷ []

  -- An entry is a default entry if `default_entries` points to it.
  abbrev pub is_default : InstMap L → EntryPtr L → Bool
  is_default m p = elim (StringMap.find p.opcode_str m.default_entries) [
    | some (some a) ↦ eqb p.address a
    | _ ↦ false
  ]

  unfoldable pub rule_of : InstMap L → EntryPtr L → Rule
  rule_of m p = record {
    opcode = p.opcode_str;
    condition = if is_default m p then none else some p.map_cond;
  }

  unfoldable pub rules : InstMap L → List Rule
  rules m = map (rule_of m) m.entries

  pub map_agree :
      (m m' : InstMap L) (ps : List (EntryPtr L))
      → All (λ p. rule_of m' p ≡ rule_of m p) ps
      → map (rule_of m') ps ≡ map (rule_of m) ps
  map_agree m m' [] h = refl
  map_agree m m' (p ∷ ps) h = cc (h.0, map_agree m m' ps h.1)

  supports-map :
      (op : String) (m : InstMap L) (ps : List (EntryPtr L))
      → supports op (map (rule_of m) ps) ≡ is_some (find_opcode_in L op ps)
  unfolding supports rule_of find_opcode_in
  supports-map op m [] = refl
  supports-map op m (p ∷ ps) = ground (arith, supports-map op m ps)

  not_added :
      (op : String) (m : InstMap L) (ps : List (EntryPtr L))
      → All (Registered L m) ps
      → is_added L op m ≡ false
      → find_opcode_in L op ps ≡ none
  unfolding find_opcode_in is_added
  not_added op m [] h e = refl
  not_added op m (p ∷ ps) h e = ground (arith, not_added op m ps h.1 e, eq_iff p.opcode_str op)

  -- The rules support exactly the opcodes that were added.
  pub supports-rules :
      (op : String) (m : InstMap L) → Inv L m → supports op (rules m) ≡ is_added L op m
  unfolding rules find_opcode
  supports-rules op m v =
      ground
        (arith, supports-map op m m.entries, not_added op m m.entries v.registered, v.present op)

  pub rules-add_new :
      (m : InstMap L) (op : String) (g : Generator)
      → Inv L m
      → is_added L op m ≡ false
      → g.opcode ≡ op
      → rules (set_default L op (some m.next) (push_entry L g none m))
        ≡ rules m ++ record { opcode = op; condition = none } ∷ []
  unfolding rules set_default push_entry rule_of make_entry is_added
  rules-add_new m op g v absent name =
      let m' = set_default L op (some m.next) (push_entry L g none m) in
      let lookup = λ (o : String). find-assign op o (some m.next) m.default_entries in
      rw map-append (
        ground (
          arith,
          map_agree m m' m.entries (
              All-map (Registered L m) _ m.entries
                (λ p h. ground (arith, lookup p.opcode_str, eq_iff op p.opcode_str)) v.registered),
          lookup g.opcode,
          eq_iff op g.opcode,
        ))
