-- ===== src/Verify/Availability.antt =====
-- The check that the instructions of a kernel are supported.
use cgraomp.Prelude.{
  ◌≡◌, ◌↔◌, refl, sym, ◌∙◌, Bool, true, false, Option, none, some, List, [], ◌∷◌, arith, any, All,
}
use cgraomp.Errors.{ok, ok_inj, >>=-eq-ok}
use cgraomp.Llvm.{Llvm}
use cgraomp.Annotation.{Table}
use cgraomp.InstMap.{EntryPtr}
use cgraomp.Model.{CgraModel, is_supported}
use cgraomp.Verify.{
  add_unsupported, add_all_unsupported, is_available, unsupported_of, check_unsupported_inst, run,
}

module _ (L : Llvm) (cached : Option (Table L)) (model : CgraModel L) where
  open L use {Instruction}

  abbrev pub IsSupported : Instruction → Type 0
  IsSupported i = (p : EntryPtr L) × (is_supported L cached i model ≡ ok (some p))

  unsupported_of-none :
      (is : List Instruction) → unsupported_of L cached model is ≡ ok [] → All IsSupported is
  unfolding unsupported_of
  unsupported_of-none [] h = tt
  unsupported_of-none (i ∷ is) h =
      let (imap, e, h') = >>=-eq-ok (is_supported L cached i model) _ h in
      let (rest, e', h2) = >>=-eq-ok (unsupported_of L cached model is) _ h' in
      both imap rest e e' (ok_inj h2) (unsupported_of-none is)
    where
      both :
          (imap : Option (EntryPtr L)) (rest : List Instruction)
          → is_supported L cached i model ≡ ok imap
          → unsupported_of L cached model is ≡ ok rest
          → elim imap [ none ↦ i ∷ rest | some p ↦ rest ] ≡ []
          → (unsupported_of L cached model is ≡ ok [] → All IsSupported is)
          → All IsSupported (i ∷ is)
      both none rest e e' none_left later = absurd (ground arith)
      both (some p) rest e e' none_left later = ((p, e), later (rw (← none_left) e'))

  unsupported_of-All :
      (is : List Instruction) → All IsSupported is → unsupported_of L cached model is ≡ ok []
  unfolding unsupported_of
  unsupported_of-All [] h = refl
  unsupported_of-All (i ∷ is) h = rw (h.0.1, unsupported_of-All is h.1) refl

  module _ (same : Instruction → Instruction → Bool) where
    -- Instructions are only added.
    unavailable :
        (us : List Instruction) (u : Instruction) (others : List Instruction)
        → is_available L (add_all_unsupported L same us (u ∷ others)) ≡ false
    unfolding is_available add_all_unsupported add_unsupported
    unavailable [] u others = refl
    unavailable (v ∷ us) u others =
        ground (arith, unavailable us u others, unavailable us v (u ∷ others))

    run_of :
        (is us : List Instruction)
        → unsupported_of L cached model is ≡ ok us
        → run L same cached model is ≡ ok (add_all_unsupported L same us [])
    unfolding run check_unsupported_inst add_all_unsupported
    run_of is [] e = rw e refl
    run_of is (u ∷ us) e = rw e refl

    available-none :
        (is us ws : List Instruction)
        → unsupported_of L cached model is ≡ ok ws
        → run L same cached model is ≡ ok us
        → is_available L us ≡ true
        → All IsSupported is
    unfolding add_all_unsupported add_unsupported any
    available-none is us [] e r h = unsupported_of-none is e
    available-none is us (w ∷ ws) e r h =
        let us_eq : us ≡ add_all_unsupported L same (w ∷ ws) [] =
          ok_inj (sym r ∙ run_of is (w ∷ ws) e) in
        let no = unavailable ws w [] in absurd (cc (us_eq, no, h))

    -- The check of the instructions of a kernel returns and finds none that is unsupported exactly
    -- if the model returns an entry for each of them.
    pub run-is_available_iff :
        (is : List Instruction)
        → ((us : List Instruction) × (run L same cached model is ≡ ok us)
            × (is_available L us ≡ true))
          ↔ All IsSupported is
    unfolding is_available run check_unsupported_inst
    run-is_available_iff is = (
      λ h.
          let (us, r, available) = h in
          let (_, e, _) = >>=-eq-ok (check_unsupported_inst L cached model is) _ r in
          let (ws, e', _) = >>=-eq-ok (unsupported_of L cached model is) _ e in
          available-none is us ws e' r available,
      λ h. ([], run_of is [] (unsupported_of-All is h), refl),
    )
