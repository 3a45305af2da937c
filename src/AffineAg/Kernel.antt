-- ===== src/AffineAg/Kernel.antt =====
-- The accesses of a kernel, together.
use cgraomp.Prelude.{ℕ, ◌≡◌, ◌↔◌, refl, true, false, Option, none, some, List, [], ◌∷◌, arith, All}
use cgraomp.ScalarEvolution.{ScalarEvolution}
use cgraomp.AffineAg.{Config, DimEntry, Compatibility, add, add_all, run}
use cgraomp.AffineAg.Affine.{IsNest, verify_scev_as_affine_ag_iff}

-- An access adds no violation exactly if its configuration is valid.
add-clean_iff :
    (i : ℕ) (c : Config) (r : Compatibility)
    → ((add i c r).is_violate ≡ false) ↔ ((c.valid ≡ true) × (r.is_violate ≡ false))
unfolding add
add-clean_iff i c r = (λ h. ground arith, λ h. ground arith)

module _ (E : ScalarEvolution) where
  open E use {Scev}

  -- An access whose address has an expression that is a nest of recurrences.
  abbrev pub IsNestAccess : ℕ × Option Scev → Type 0
  IsNestAccess (i, none) = ⊥
  IsNestAccess (i, some s) = (dims : List DimEntry) × IsNest E s dims

  -- The loop over accesses: no violation is added exactly if all are such accesses.
  add_all-is_violate :
      (accesses : List (ℕ × Option Scev)) (r : Compatibility)
      → (r' : Compatibility) × (add_all E accesses r ≡ some r')
        × ((r'.is_violate ≡ false) ↔ ((r.is_violate ≡ false) × All IsNestAccess accesses))
  unfolding add_all
  add_all-is_violate [] r = (r, refl, (λ h. (h, tt), λ h. h.0))
  add_all-is_violate ((i, none) ∷ accesses) r =
      let (r', e, later) = add_all-is_violate accesses (record r { is_violate = true }) in
      (r', e, (λ h. let (never, _) = later.0 h in cc, λ h. absurd h.1.0))
  add_all-is_violate ((i, some s) ∷ accesses) r =
      let (c, f, affine, _) = verify_scev_as_affine_ag_iff E s in
      let (r', e, later) = add_all-is_violate accesses (add i c r) in
      (
        r',
        rw (f, add_all) e,
        (
          λ h.
              let (clean, rest) = later.0 h in
              let (valid, before) = (add-clean_iff i c r).0 clean in
              (before, (affine.0 valid, rest)),
          λ h. later.1 ((add-clean_iff i c r).1 (affine.1 h.1.0, h.0), h.1.1),
        ),
      )

  -- For a kernel that was decoupled the verification of accesses returns, and it finds no
  -- violation exactly if the address of every load and store has an expression that is a nest of
  -- recurrences with constant steps over sums, products and casts of constants and values.
  pub run-IsNestAccess_iff :
      (loads stores : List (ℕ × Option Scev))
      → (r : Compatibility) × (run E true loads stores ≡ some r)
        × ((r.is_violate ≡ false) ↔ (All IsNestAccess loads × All IsNestAccess stores))
  unfolding run
  run-IsNestAccess_iff loads stores =
      let result : Compatibility = record { config = []; invalid_list = []; is_violate = false } in
      let (r, e, first) = add_all-is_violate loads result in
      let (r', e', second) = add_all-is_violate stores r in
      (
        r',
        rw (e, run) e',
        (
          λ h. let (clean, b) = second.0 h in ((first.0 clean).1, b),
          λ h. second.1 (first.1 (refl, h.0), h.1),
        ),
      )
