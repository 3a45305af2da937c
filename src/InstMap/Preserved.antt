-- ===== src/InstMap/Preserved.antt =====
-- Every operation of the table of instructions keeps it well-formed.
use cgraomp.Prelude.{
  ℕ, suc, ◌<◌, ◌≡◌, refl, ap, sym, ◌∙◌, String, false, not, Bool-cases, Option-cases, Option, none,
  some, List, [], ◌∷◌, ◌==◌, arith, inl, inr, eqb, is_some, keep, All, All-concat, All-keep,
  All-map, eq_iff,
}
use cgraomp.Prelude.StringMap
use cgraomp.Prelude.StringMap.{find-assign}
use cgraomp.Errors.{ok, of_ok}
use cgraomp.Llvm.{Llvm}
use cgraomp.InstMap.{
  InstMap, EntryPtr, new_inst_map, is_added, push_entry, set_default, erase_entry, add_generic_inst,
  add_custom_inst, add_map_entry, find_opcode_in, find_opcode,
}
use cgraomp.InstMap.Entry.{custom_op, Generator, make_entry, entry_gen}
use cgraomp.InstMap.Condition.{MapCondition}
use cgraomp.InstMap.Invariant.{Inv, Registered, Owned, Inv-add_new, find_opcode_in-concat}

-- The generators are stored under their own opcodes.
named_by_key :
    (gs : StringMap.StringMap Generator)
    → All (λ kg. kg.1.opcode ≡ kg.0) gs
    → (op : String) (g : Generator) → StringMap.find op gs ≡ some g
    → g.opcode ≡ op
unfolding StringMap.find
named_by_key [] h op g e = cc
named_by_key ((k, g') ∷ gs) h op g e = ground (arith, eq_iff k op, named_by_key gs h.1 op g)

-- Every generator makes entries of the opcode that it is stored under.
abbrev pub IsNamed : StringMap.StringMap Generator → Type 0
IsNamed gens = (op : String) (g : Generator) → StringMap.find op gens ≡ some g → g.opcode ≡ op

pub entry_gen-IsNamed : IsNamed entry_gen
unfolding entry_gen
entry_gen-IsNamed = named_by_key entry_gen (ground arith)

module _ (L : Llvm) where
  pub new_inst_map-Inv :
      (gens : StringMap.StringMap Generator) → IsNamed gens → Inv L (new_inst_map L gens)
  unfolding new_inst_map is_added StringMap.find
  new_inst_map-Inv gens h = record {
    registered = tt;
    fresh = tt;
    owned = tt;
    valid = λ o a h. cc;
    present = λ o h. cc;
    generated = λ o h. cc;
    named = h;
  }

  pub add_generic_inst-Inv :
      (op : String) (m m' : InstMap L) → Inv L m → add_generic_inst L op m ≡ ok m' → Inv L m'
  unfolding add_generic_inst
  add_generic_inst-Inv op m m' v e = elim (Bool-cases (is_added L op m)) [
    | inl old ↦ of_ok (Inv L) v (rw (old, add_generic_inst) at e)
    | inr new ↦ elim (Option-cases (StringMap.find op m.entry_gen)) [
      | inl unknown ↦ absurd (ground arith)
      | inr (g, found) ↦
          of_ok (Inv L) (Inv-add_new L m op g v new found) (rw (new, found, add_generic_inst) at e)
    ]
  ]

  pub with_generator-Inv :
      (m : InstMap L) (op : String) (g : Generator)
      → Inv L m
      → g.opcode ≡ op
      → Inv L (record m { entry_gen = StringMap.assign op g m.entry_gen })
  unfolding find_opcode is_added
  with_generator-Inv m op g v e =
      let lookup = λ (o : String). find-assign op o g m.entry_gen in
      record {
        registered = v.registered;
        fresh = v.fresh;
        owned = v.owned;
        valid = v.valid;
        present = v.present;
        generated = λ o h. ground (arith, lookup o, v.generated o);
        named = λ o g' h. ground (arith, lookup o, eq_iff op o, v.named o g');
      }

  custom_not_added :
      (op : String) (m : InstMap L) (g : Generator)
      → is_added L op m ≡ false
      → is_added L op (record m { entry_gen = StringMap.assign op g m.entry_gen }) ≡ false
  unfolding is_added
  custom_not_added op m g h = h

  pub add_custom_inst-Inv : (op : String) (m : InstMap L) → Inv L m → Inv L (add_custom_inst L op m)
  unfolding add_custom_inst
  add_custom_inst-Inv op m v = elim (Bool-cases (is_added L op m)) [
    | inl old ↦ rw (old, add_custom_inst) v
    | inr new ↦
        let g : Generator = record { opcode = op; kind = custom_op } in
        let m' : InstMap L = record m { entry_gen = StringMap.assign op g m.entry_gen } in
        rw (new, add_custom_inst)
          (Inv-add_new L m' op g (with_generator-Inv m op g v refl) (custom_not_added op m g new)
            (ground (arith, find-assign op op g m.entry_gen, eq_iff op op)))
  ]

  find_opcode_in-keep :
      (o op : String) (a : ℕ) (ps : List (EntryPtr L))
      → All (λ p. p.address ≡ a → p.opcode_str ≡ op) ps
      → (op == o) ≡ false
      → is_some (find_opcode_in L o (keep (λ p. not (eqb p.address a)) ps))
        ≡ is_some (find_opcode_in L o ps)
  unfolding find_opcode_in keep
  find_opcode_in-keep o op a [] h e = refl
  find_opcode_in-keep o op a (p ∷ ps) h e =
      ground (arith, find_opcode_in-keep o op a ps h.1 e, eq_iff op o, eq_iff p.opcode_str o)

  -- The default entry gives way to the first entry with a condition.
  Inv-replace :
      (m : InstMap L) (op : String) (g : Generator) (c : MapCondition L) (a : ℕ)
      → Inv L m
      → StringMap.find op m.default_entries ≡ some (some a)
      → StringMap.find op m.entry_gen ≡ some g
      → Inv L (set_default L op none (push_entry L g (some c) (erase_entry L a m)))
  unfolding set_default push_entry erase_entry make_entry find_opcode is_added
  Inv-replace m op g c a v default found =
      let m' = set_default L op none (push_entry L g (some c) (erase_entry L a m)) in
      let kept = keep (λ p. not (eqb p.address a)) m.entries in
      let name = v.named op g found in
      let own : All (λ p. p.address ≡ a → p.opcode_str ≡ op) m.entries =
        All-map (Owned L m) _ m.entries (λ p h q. h op (default ∙ ap (λ n. some (some n)) (sym q)))
          v.owned in
      let lookup = λ (o : String). find-assign {V = Option ℕ} op o none m.default_entries in
      record {
        registered =
            All-concat (Registered L m') kept _
              (All-keep (Registered L m') _ m.entries (
                All-map (Registered L m) (Registered L m') m.entries
                  (λ p h. ground (arith, lookup p.opcode_str)) v.registered))
              (ground (arith, lookup g.opcode, eq_iff op g.opcode));
        fresh =
            All-concat _ kept _
              (All-keep (λ p. p.address < suc m.next) _ m.entries
                (All-map _ (λ p. p.address < suc m.next) m.entries (λ p h. omega arith) v.fresh))
              (omega arith);
        owned =
            All-concat (Owned L m') kept _
              (All-keep (Owned L m') _ m.entries (
                All-map (Owned L m) (Owned L m') m.entries
                  (λ p h o e. ground (arith, lookup o, h o)) v.owned))
              (λ o e. ground (arith, lookup o, eq_iff op o, v.valid o m.next));
        valid = λ o b h. ground (arith, lookup o, v.valid o b);
        present = λ o h. ground (
          arith,
          lookup o,
          eq_iff op o,
          eq_iff g.opcode o,
          v.present o,
          find_opcode_in-keep o op a m.entries own,
          find_opcode_in-concat L o kept
              (record { address = m.next; entry = make_entry L g.opcode g.kind (some c) }),
        );
        generated = λ o h. ground (arith, lookup o, eq_iff op o, v.generated o);
        named = v.named;
      }

  -- One more entry with a condition.
  Inv-add_more :
      (m : InstMap L) (op : String) (g : Generator) (c : MapCondition L)
      → Inv L m
      → StringMap.find op m.default_entries ≡ some none
      → StringMap.find op m.entry_gen ≡ some g
      → Inv L (push_entry L g (some c) m)
  unfolding push_entry make_entry find_opcode is_added
  Inv-add_more m op g c v no_default found =
      let m' = push_entry L g (some c) m in
      let name = v.named op g found in
      record {
        registered =
            All-concat (Registered L m') m.entries _ v.registered
              (ground (arith, eq_iff op g.opcode));
        fresh =
            All-concat _ m.entries _
              (All-map _ (λ p. p.address < suc m.next) m.entries (λ p h. omega arith) v.fresh)
              (omega arith);
        owned =
            All-concat (Owned L m') m.entries _ v.owned (λ o e. ground (arith, v.valid o m.next));
        valid = λ o b h. ground (arith, v.valid o b);
        present = λ o h. ground (
          arith,
          v.present o,
          find_opcode_in-concat L o m.entries
              (record { address = m.next; entry = make_entry L g.opcode g.kind (some c) }),
        );
        generated = v.generated;
        named = v.named;
      }

  -- A mapping condition that is accepted leaves a well-formed table well-formed: fresh addresses,
  -- default pointers to entries of their own opcode, an entry and a generator for every opcode
  -- that was added.
  pub add_map_entry-Inv :
      (op : String) (c : MapCondition L) (m m' : InstMap L)
      → Inv L m
      → add_map_entry L op c m ≡ ok m'
      → Inv L m'
  unfolding add_map_entry
  add_map_entry-Inv op c m m' v e = elim (Option-cases (StringMap.find op m.default_entries)) [
    | inl unknown ↦ absurd (ground arith)
    | inr (some a, default) ↦ elim (Option-cases (StringMap.find op m.entry_gen)) [
      | inl no_generator ↦ absurd (ground arith)
      | inr (g, found) ↦
          of_ok (Inv L) (Inv-replace m op g c a v default found)
            (rw (default, found, add_map_entry) at e)
    ]
    | inr (none, no_default) ↦ elim (Option-cases (StringMap.find op m.entry_gen)) [
      | inl no_generator ↦ absurd (ground arith)
      | inr (g, found) ↦
          of_ok (Inv L) (Inv-add_more m op g c v no_default found)
            (rw (no_default, found, add_map_entry) at e)
    ]
  ]

  -- In a well-formed table a mapping condition is accepted exactly if its opcode was added.
  pub add_map_entry_total :
      (op : String) (c : MapCondition L) (m : InstMap L)
      → Inv L m
      → is_some (elim (add_map_entry L op c m) [ ok m' ↦ some m' | _ ↦ none ]) ≡ is_added L op m
  unfolding add_map_entry is_added
  add_map_entry_total op c m v = ground (arith, v.generated op)
