-- ===== src/InstMap/Invariant.antt =====
-- The well-formedness of the table of instructions, which every operation keeps.
use cgraomp.Prelude.{
  ℕ, suc, ◌<◌, ◌≡◌, refl, String, true, false, Option, none, some, List, [], ◌∷◌, ◌++◌, ◌==◌, arith,
  is_some, All, All-concat, All-map, All-map₂, if◌then◌else◌, eq_iff,
}
use cgraomp.Prelude.StringMap
use cgraomp.Prelude.StringMap.{find-assign}
use cgraomp.Llvm.{Llvm}
use cgraomp.InstMap.{
  InstMap, EntryPtr, is_added, push_entry, set_default, find_opcode_in, find_opcode,
}
use cgraomp.InstMap.Entry.{Derived, Generator, make_entry}
use cgraomp.InstMap.Condition.{MapCondition}

module _ (L : Llvm) where
  abbrev pub Registered : InstMap L → EntryPtr L → Type 0
  Registered m p = is_added L p.opcode_str m ≡ true

  abbrev pub Owned : InstMap L → EntryPtr L → Type 0
  Owned m p =
      (op : String)
      → StringMap.find op m.default_entries ≡ some (some p.address)
      → p.opcode_str ≡ op

  pub record Inv (m : InstMap L) : Type 0 where
    -- every entry's opcode is a key of `default_entries`
    pub registered : All (Registered m) m.entries
    pub fresh : All (λ p. p.address < m.next) m.entries
    -- a default pointer leads to an entry of that opcode
    pub owned : All (Owned m) m.entries
    pub valid :
        (op : String) (a : ℕ) → StringMap.find op m.default_entries ≡ some (some a) → a < m.next
    -- every key has an entry, and the means to make more
    pub present : (op : String) → is_added L op m ≡ true → is_some (find_opcode L op m) ≡ true
    pub generated :
        (op : String) → is_added L op m ≡ true → is_some (StringMap.find op m.entry_gen) ≡ true
    pub named :
        (op : String) (g : Generator) → StringMap.find op m.entry_gen ≡ some g → g.opcode ≡ op

  pub find_opcode_in-concat :
      (op : String) (ps : List (EntryPtr L)) (q : EntryPtr L)
      → is_some (find_opcode_in L op (ps ++ q ∷ []))
        ≡ (if is_some (find_opcode_in L op ps) then true else (q.opcode_str == op))
  unfolding find_opcode_in
  find_opcode_in-concat op [] q = ground arith
  find_opcode_in-concat op (p ∷ ps) q = ground (arith, find_opcode_in-concat op ps q)

  pub is_added-set_default :
      (o op : String) (x : Option ℕ) (m : InstMap L)
      → is_added L o (set_default L op x m) ≡ (if op == o then true else is_added L o m)
  unfolding is_added set_default
  is_added-set_default o op x m = ground (arith, find-assign op o x m.default_entries)

  pub is_added-push_entry :
      (o : String) (g : Generator) (c : Option (MapCondition L)) (m : InstMap L)
      → is_added L o (push_entry L g c m) ≡ is_added L o m
  unfolding is_added push_entry
  is_added-push_entry o g c m = refl

  pub make_entry-opcode :
      (op : String) (d : Derived) (c : Option (MapCondition L))
      → (make_entry L op d c).opcode_str ≡ op
  unfolding make_entry
  make_entry-opcode op d none = refl
  make_entry-opcode op d (some c) = refl

  -- A new opcode: the default entry is pushed and remembered.
  pub Inv-add_new :
      (m : InstMap L) (op : String) (g : Generator)
      → Inv m
      → is_added L op m ≡ false
      → StringMap.find op m.entry_gen ≡ some g
      → Inv (set_default L op (some m.next) (push_entry L g none m))
  unfolding set_default push_entry make_entry find_opcode
  Inv-add_new m op g v absent found =
      let m' = set_default L op (some m.next) (push_entry L g none m) in
      let name = v.named op g found in
      let added = λ (o : String). is_added-set_default o op (some m.next) (push_entry L g none m) in
      let lookup = λ (o : String). find-assign op o (some m.next) m.default_entries in
      record {
        registered =
            All-concat (Registered m') m.entries _
              (All-map (Registered m) (Registered m') m.entries
                (λ p h.
                  ground (arith, added p.opcode_str, is_added-push_entry p.opcode_str g none m))
                v.registered)
              (ground (arith, added g.opcode, eq_iff op g.opcode));
        fresh =
            All-concat _ m.entries _
              (All-map _ (λ p. p.address < suc m.next) m.entries (λ p h. omega arith) v.fresh)
              (omega arith);
        owned =
            All-concat (Owned m') m.entries _
              (All-map₂ (λ p. p.address < m.next) (Owned m) (Owned m') m.entries
                (λ p below h o e. ground (arith, lookup o, h o)) v.fresh v.owned)
              (λ o e. ground (arith, lookup o, eq_iff op o, v.valid o m.next));
        valid = λ o a h. ground (arith, lookup o, v.valid o a);
        present = λ o h. ground (
          arith,
          added o,
          is_added-push_entry o g none m,
          eq_iff op o,
          eq_iff g.opcode o,
          v.present o,
          find_opcode_in-concat o m.entries
              (record { address = m.next; entry = make_entry L g.opcode g.kind none }),
        );
        generated = λ o h.
            ground (arith, added o, is_added-push_entry o g none m, eq_iff op o, v.generated o);
        named = v.named;
      }
