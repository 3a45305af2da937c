-- ===== src/InstMap/Find.antt =====
-- Which entry an instruction is mapped by.
use cgraomp.Prelude.{
  ◌≡◌, ◌≢◌, ◌↔◌, refl, ap, subst, String, Bool, true, false, Option, some, some_inj, List, [], ◌∷◌,
  ◌++◌, arith, All,
}
use cgraomp.Errors.{Result, ok, err, fault, ok_inj}
use cgraomp.Llvm.{Llvm}
use cgraomp.Annotation.{Table}
use cgraomp.InstMap.{InstMap, EntryPtr, find_inst_in, find_inst}
use cgraomp.InstMap.Entry.{comp_op, make_entry, match_inst, match_comp}
use cgraomp.InstMap.Condition.{MapCondition}

module _ (L : Llvm) where
  open L use {Instruction, is_opcode_icmp}

  -- The entries in front of `q` do not match, and `q` does.
  pub record IsFirst (cached : Option (Table L)) (i : Instruction) (ps : List (EntryPtr L))
      (q : EntryPtr L) : Type 0 where
    pub before : List (EntryPtr L)
    pub behind : List (EntryPtr L)
    pub split : ps ≡ before ++ q ∷ behind
    pub passed : All (λ p. match_inst L cached p.entry i ≡ ok false) before
    pub hit : match_inst L cached q.entry i ≡ ok true

  find_inst_in-some :
      (cached : Option (Table L)) (i : Instruction) (ps : List (EntryPtr L)) (q : EntryPtr L)
      → find_inst_in L cached i ps ≡ ok (some q)
      → IsFirst cached i ps q
  unfolding find_inst_in
  find_inst_in-some cached i [] q h = absurd (ground arith)
  find_inst_in-some cached i (p ∷ ps) q h =
      by_test (match_inst L cached p.entry i) refl h (find_inst_in-some cached i ps q)
    where
      by_test :
          (r : Result Bool)
          → match_inst L cached p.entry i ≡ r
          → (elim r [
            | ok true ↦ ok (some p)
            | ok false ↦ find_inst_in L cached i ps
            | err e ↦ err e
            | fault x ↦ fault x
          ])
            ≡ ok (some q)
          → (find_inst_in L cached i ps ≡ ok (some q) → IsFirst cached i ps q)
          → IsFirst cached i (p ∷ ps) q
      by_test (ok true) e h later =
          let same : p ≡ q = some_inj (ok_inj h) in
          subst (IsFirst cached i (p ∷ ps)) same
            (record { before = []; behind = ps; split = refl; passed = tt; hit = e })
      by_test (ok false) e h later =
          let f = later h in
          record {
            before = p ∷ f.before;
            behind = f.behind;
            split = ap (λ l. p ∷ l) f.split;
            passed = (e, f.passed);
            hit = f.hit;
          }
      by_test (err x) e h later = absurd (ground arith)
      by_test (fault x) e h later = absurd (ground arith)

  first-find_inst_in :
      (cached : Option (Table L)) (i : Instruction) (ps : List (EntryPtr L)) (q : EntryPtr L)
      → IsFirst cached i ps q
      → find_inst_in L cached i ps ≡ ok (some q)
  unfolding find_inst_in
  first-find_inst_in cached i ps q f = rw f.split (skip f.before f.passed)
    where
      skip :
          (xs : List (EntryPtr L))
          → All (λ p. match_inst L cached p.entry i ≡ ok false) xs
          → find_inst_in L cached i (xs ++ q ∷ f.behind) ≡ ok (some q)
      skip [] h = rw (f.hit, find_inst_in)
      skip (x ∷ xs) h = rw (h.0, find_inst_in) (skip xs h.1)

  -- The search for an instruction returns an entry exactly if that entry matches it and every
  -- entry in front of it in the table is tested and does not.
  pub find_inst_iff :
      (cached : Option (Table L)) (i : Instruction) (m : InstMap L) (q : EntryPtr L)
      → (find_inst L cached i m ≡ ok (some q)) ↔ IsFirst cached i m.entries q
  unfolding find_inst
  find_inst_iff cached i m q =
      (find_inst_in-some cached i m.entries q, first-find_inst_in cached i m.entries q)

  -- Entries for comparisons with the same condition give the same result on every instruction,
  -- whether they are entries for integers or for floating-point numbers.
  pub comparison_kinds :
      (cached : Option (Table L)) (op op' : String) (a b : Bool) (c : MapCondition L)
      (i : Instruction)
      → match_inst L cached (make_entry L op (comp_op a) (some c)) i
        ≡ match_inst L cached (make_entry L op' (comp_op b) (some c)) i
  unfolding match_inst make_entry match_comp
  comparison_kinds cached op op' a b c i = ground arith

  -- An instruction whose opcode is not that of integer comparisons is never mapped by an entry for
  -- comparisons.
  pub float_comparison :
      (cached : Option (Table L)) (i : Instruction) (m : InstMap L) (q : EntryPtr L) (b : Bool)
      → is_opcode_icmp i ≡ false
      → find_inst L cached i m ≡ ok (some q)
      → q.derived ≢ comp_op b
  unfolding match_inst match_comp
  float_comparison cached i m q b float found kind =
      let hit = ((find_inst_iff cached i m q).0 found).hit in absurd (ground arith)
