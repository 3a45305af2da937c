-- ===== src/AffineAg/Affine.antt =====
-- Nests of recurrences, and what the search makes of one.
use cgraomp.Prelude.{
  ℕ, zero, suc, ◌≡◌, ◌↔◌, inl, inr, refl, sym, ap, subst, ◌∙◌, true, false, none, some, List, [],
  ◌∷◌, ◌++◌, arith, Option-cases,
}
use cgraomp.Prelude.Int.{ℤ, pos, to_int}
use cgraomp.ScalarEvolution.{
  ScalarEvolution, ScevView, add_rec, add_expr, mul_expr, cast_expr, constant, unknown, other,
  as_constant,
}
use cgraomp.AffineAg.{
  Config, DimEntry, invalidated, set_base, add_entry, parse_start_scev, search,
  verify_scev_as_affine_ag,
}
use cgraomp.AffineAg.Total.{search_total}
use cgraomp.AffineAg.Simple.{
  IsSimple, Searched, search-Searched, IsHead-of, IsSimple-stack, AreSimple,
}

module _ (E : ScalarEvolution) where
  open E use {Scev, view, size}

  abbrev pub entry_of : Scev → ℕ → ℕ → DimEntry
  entry_of start raw count = record {
    start = (parse_start_scev E start).offset;
    step = to_int (pos raw);
    count = to_int (pos count);
  }

  -- Nested recurrences with constant steps over a simple expression, with the entries of their
  -- levels, the innermost recurrence first.
  pub data IsNest : Scev → List DimEntry → Type 0 where
    simple : (s : Scev) → IsSimple E s → IsNest s []
    nested :
        (s start step : Scev) (count raw : ℕ) (dims : List DimEntry)
        → view s ≡ add_rec start step count
        → as_constant (view step) ≡ some raw
        → IsNest start dims
        → IsNest s (dims ++ entry_of start raw count ∷ [])

  record IsSearched (s : Scev) (c c' : Config) : Type 0 where
    stays_invalid : c.valid ≡ false → c'.valid ≡ false
    affine :
        c'.valid ≡ true → (dims : List DimEntry) × IsNest s dims × (c'.config ≡ dims ++ c.config)
    accepts : (dims : List DimEntry) → IsNest s dims → c'.valid ≡ c.valid

  add_entry-kept :
      (start : Scev) (raw count : ℕ) (c : Config)
      → ((add_entry E start (to_int (pos raw)) count c).valid ≡ c.valid)
        × ((add_entry E start (to_int (pos raw)) count c).config
            ≡ entry_of start raw count ∷ c.config)
  unfolding add_entry set_base
  add_entry-kept start raw count c = (ground arith, ground arith)

  add_entry-valid :
      (start : Scev) (step : ℤ) (count : ℕ) (c : Config)
      → (add_entry E start step count c).valid ≡ c.valid
  unfolding add_entry set_base
  add_entry-valid start step count c = ground arith

  append_assoc_entry :
      (dims : List DimEntry) (x : DimEntry) (rest : List DimEntry)
      → dims ++ x ∷ rest ≡ (dims ++ x ∷ []) ++ rest
  append_assoc_entry [] x rest = refl
  append_assoc_entry (d ∷ dims) x rest = cc (append_assoc_entry dims x rest)

  abbrev not_simple :
      (s start step : Scev) (count : ℕ) → view s ≡ add_rec start step count → IsSimple E s → ⊥
  not_simple s start step count e h = rw e at (IsHead-of E s h)

  level_of :
      (s start step : Scev) (count : ℕ) (dims : List DimEntry)
      → view s ≡ add_rec start step count
      → IsNest s dims
      → (raw : ℕ) × (inner : List DimEntry) × (as_constant (view step) ≡ some raw)
        × IsNest start inner
  level_of s start step count _ e (simple _ h) = absurd (not_simple s start step count e h)
  level_of s start step count _ e (nested _ start' step' count' raw dims f k h) =
      let same : add_rec start' step' count' ≡ add_rec start step count = sym f ∙ e in
      let same_start : start' ≡ start = cc in
      let same_step : step' ≡ step = cc in
      (raw, dims, rw (← same_step) k, subst (λ x. IsNest x dims) same_start h)

  level-IsSearched :
      (s start step : Scev) (count raw : ℕ) (c c' : Config)
      → view s ≡ add_rec start step count
      → as_constant (view step) ≡ some raw
      → IsSearched start (add_entry E start (to_int (pos raw)) count c) c'
      → IsSearched s c c'
  level-IsSearched s start step count raw c c' e k r =
      let entry = add_entry-kept start raw count c in
      record {
        stays_invalid = λ h. r.stays_invalid (entry.0 ∙ h);
        affine = λ h.
            let (dims, a, same) = r.affine h in
            (
              dims ++ entry_of start raw count ∷ [],
              nested s start step count raw dims e k a,
              same
                  ∙ ap (λ x. dims ++ x) entry.1
                  ∙ append_assoc_entry dims (entry_of start raw count) c.config,
            );
        accepts = λ dims h.
            let (_, inner, _, a) = level_of s start step count dims e h in
            r.accepts inner a ∙ entry.0;
      }

  -- A recurrence with another step makes the result invalid.
  unsteady-IsSearched :
      (s start step : Scev) (count : ℕ) (c c' : Config)
      → view s ≡ add_rec start step count
      → as_constant (view step) ≡ none
      → c'.valid ≡ false
      → IsSearched s c c'
  unsteady-IsSearched s start step count c c' e k h = record {
    stays_invalid = λ _. h;
    affine = λ v. cc;
    accepts = λ dims a. let (raw, _, f, _) = level_of s start step count dims e a in cc;
  }

  simple-IsSearched :
      (s : Scev) (c c' : Config)
      → ((start step : Scev) (count : ℕ) → view s ≡ add_rec start step count → ⊥)
      → Searched E (s ∷ []) c c'
      → IsSearched s c c'
  simple-IsSearched s c c' flat r = record {
    stays_invalid = r.stays_invalid;
    affine = λ h. ([], simple s (IsSimple-stack E s [] (r.simple h)).0, r.same_config);
    accepts = λ dims a. r.accepts (AreSimple.cons s [] (simple_of dims a) AreSimple.nil);
  }
    where
      simple_of : (dims : List DimEntry) → IsNest s dims → IsSimple E s
      simple_of _ (simple _ h) = h
      simple_of _ (nested _ start step count raw dims e k h) = absurd (flat start step count e)

  search-IsSearched :
      (fuel : ℕ) (s : Scev) (c c' : Config)
      → search E fuel (s ∷ []) false c ≡ some c'
      → IsSearched s c c'
  unfolding search
  search-IsSearched zero s c c' e = cc
  search-IsSearched (suc fuel) s c c' e =
      by_view (view s) refl (λ start c h. search-IsSearched fuel start c c' h)
    where
      flat_case :
          ((start step : Scev) (count : ℕ) → view s ≡ add_rec start step count → ⊥)
          → search E (suc fuel) (s ∷ []) true c ≡ some c'
          → IsSearched s c c'
      flat_case flat h =
          simple-IsSearched s c c' flat (search-Searched E (suc fuel) (s ∷ []) c c' h)

      by_view :
          (w : ScevView Scev)
          → view s ≡ w
          → ((start : Scev) (c : Config)
              → search E fuel (start ∷ []) false c ≡ some c'
              → IsSearched start c c')
          → IsSearched s c c'
      by_view (add_rec start step count) f later = elim (Option-cases (as_constant (view step))) [
        | inl k ↦
            let r = later start _ (rw (f, k, search) at e) in
            unsteady-IsSearched s start step count c c' f k
              (r.stays_invalid (add_entry-valid start (pos 0) count (invalidated c)))
        | inr (raw, k) ↦
            level-IsSearched s start step count raw c c' f k
              (later start _ (rw (f, k, search) at e))
      ]
      by_view (add_expr ops) f later =
          flat_case (λ a b n h. cc) (rw (f, search) (rw (f, search) at e))
      by_view (mul_expr ops) f later =
          flat_case (λ a b n h. cc) (rw (f, search) (rw (f, search) at e))
      by_view (cast_expr ops) f later =
          flat_case (λ a b n h. cc) (rw (f, search) (rw (f, search) at e))
      by_view (constant raw) f later =
          flat_case (λ a b n h. cc) (rw (f, search) (rw (f, search) at e))
      by_view (unknown v) f later = flat_case (λ a b n h. cc) (rw (f, search) (rw (f, search) at e))
      by_view other f later = flat_case (λ a b n h. cc) (rw (f, search) (rw (f, search) at e))

  -- The search in the expression of an address returns, and it finds the address valid exactly if
  -- the expression is a nest of recurrences with constant steps over sums, products and casts of
  -- constants and values; then the configuration has one entry for each level, that of the whole
  -- expression last, with its start, step and trip count.
  pub verify_scev_as_affine_ag_iff :
      (s : Scev)
      → (c : Config) × (verify_scev_as_affine_ag E s ≡ some c)
        × ((c.valid ≡ true) ↔ ((dims : List DimEntry) × IsNest s dims))
        × (c.valid ≡ true → IsNest s c.config)
  unfolding verify_scev_as_affine_ag
  verify_scev_as_affine_ag_iff s =
      let first : Config = record { valid = true; config = []; base = none } in
      let (c, e) = search_total E (size s) (s ∷ []) false first (omega arith) in
      let r = search-IsSearched (size s) s first c e in
      (
        c,
        e,
        (λ h. let (dims, a, _) = r.affine h in (dims, a), λ p. r.accepts p.0 p.1),
        λ h. let (dims, a, same) = r.affine h in subst (IsNest s) (sym (same ∙ append-nil dims)) a,
      )
    where
      append-nil : (dims : List DimEntry) → dims ++ [] ≡ dims
      append-nil [] = refl
      append-nil (d ∷ dims) = cc (append-nil dims)
