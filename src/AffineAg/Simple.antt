-- ===== src/AffineAg/Simple.antt =====
-- Expressions without recurrences, and the part of the search that is about them.
use cgraomp.Prelude.{
  ℕ, zero, suc, ◌≡◌, refl, subst, ◌∙◌, true, false, some, List, [], ◌∷◌, arith, some_inj,
}
use cgraomp.ScalarEvolution.{
  ScalarEvolution, ScevView, add_rec, add_expr, mul_expr, cast_expr, constant, unknown, other,
}
use cgraomp.AffineAg.{Config, push_all, default_base, invalidated, search}

module _ (E : ScalarEvolution) where
  open E use {Scev, view, size}

  -- Sums, products and casts of constants and values.
  mutual
    pub data IsSimple : Scev → Type 0 where
      sum : (s : Scev) (ops : List Scev) → view s ≡ add_expr ops → AreSimple ops → IsSimple s
      product : (s : Scev) (ops : List Scev) → view s ≡ mul_expr ops → AreSimple ops → IsSimple s
      cast : (s : Scev) (ops : List Scev) → view s ≡ cast_expr ops → AreSimple ops → IsSimple s
      number : (s : Scev) (raw : ℕ) → view s ≡ constant raw → IsSimple s
      value : (s : Scev) (v : ℕ) → view s ≡ unknown v → IsSimple s

    pub data AreSimple : List Scev → Type 0 where
      nil : AreSimple []
      cons : (s : Scev) (ss : List Scev) → IsSimple s → AreSimple ss → AreSimple (s ∷ ss)

  pub push_all-AreSimple :
      (ops stack : List Scev) → AreSimple (push_all E ops stack) → AreSimple ops × AreSimple stack
  unfolding push_all
  push_all-AreSimple [] stack h = (nil, h)
  push_all-AreSimple (o ∷ os) stack h = both (push_all-AreSimple os (o ∷ stack) h)
    where
      both : AreSimple os × AreSimple (o ∷ stack) → AreSimple (o ∷ os) × AreSimple stack
      both (a, cons _ _ b c) = (cons o os b a, c)

  pub AreSimple-push_all :
      (ops stack : List Scev) → AreSimple ops → AreSimple stack → AreSimple (push_all E ops stack)
  unfolding push_all
  AreSimple-push_all [] stack a b = b
  AreSimple-push_all (o ∷ os) stack (cons _ _ a as') b =
      AreSimple-push_all os (o ∷ stack) as' (cons o stack a b)

  -- An expression that is not simple by its own kind.
  abbrev pub IsHead : ScevView Scev → Type 0
  IsHead (add_rec start step count) = ⊥
  IsHead other = ⊥
  IsHead (add_expr ops) = AreSimple ops
  IsHead (mul_expr ops) = AreSimple ops
  IsHead (cast_expr ops) = AreSimple ops
  IsHead _ = Unit {0}

  pub IsHead-of : (s : Scev) → IsSimple s → IsHead (view s)
  IsHead-of s (sum _ ops e h) = rw e h
  IsHead-of s (product _ ops e h) = rw e h
  IsHead-of s (cast _ ops e h) = rw e h
  IsHead-of s (number _ raw e) = rw e tt
  IsHead-of s (value _ v e) = rw e tt

  -- What the search makes of a stack of expressions behind the recurrences.
  pub record Searched (stack : List Scev) (c c' : Config) : Type 0 where
    pub same_config : c'.config ≡ c.config
    pub stays_invalid : c.valid ≡ false → c'.valid ≡ false
    pub simple : c'.valid ≡ true → AreSimple stack
    pub accepts : AreSimple stack → c'.valid ≡ c.valid

  default_base-kept :
      (v : ℕ) (c : Config)
      → ((default_base v c).config ≡ c.config) × ((default_base v c).valid ≡ c.valid)
  unfolding default_base
  default_base-kept v c = (ground arith, ground arith)

  pub IsSimple-stack :
      (s : Scev) (stack : List Scev) → AreSimple (s ∷ stack) → IsSimple s × AreSimple stack
  IsSimple-stack s stack (cons _ _ h hs) = (h, hs)

  -- An expression is replaced by its operands.
  operands-Searched :
      (s : Scev) (ops stack : List Scev) (c c' : Config)
      → (AreSimple ops → IsSimple s)
      → (IsSimple s → AreSimple ops)
      → Searched (push_all E ops stack) c c'
      → Searched (s ∷ stack) c c'
  operands-Searched s ops stack c c' up down r = record {
    same_config = r.same_config;
    stays_invalid = r.stays_invalid;
    simple = λ h. let (a, b) = push_all-AreSimple ops stack (r.simple h) in cons s stack (up a) b;
    accepts = λ h.
        let (a, b) = IsSimple-stack s stack h in
        r.accepts (AreSimple-push_all ops stack (down a) b);
  }

  leaf-Searched :
      (s : Scev) (stack : List Scev) (c d c' : Config)
      → IsSimple s
      → (d.config ≡ c.config) × (d.valid ≡ c.valid)
      → Searched stack d c'
      → Searched (s ∷ stack) c c'
  leaf-Searched s stack c d c' leaf same r = record {
    same_config = r.same_config ∙ same.0;
    stays_invalid = λ h. r.stays_invalid (same.1 ∙ h);
    simple = λ h. cons s stack leaf (r.simple h);
    accepts = λ h. r.accepts (IsSimple-stack s stack h).1 ∙ same.1;
  }

  refused-Searched :
      (s : Scev) (stack : List Scev) (c : Config)
      → (IsSimple s → ⊥)
      → Searched (s ∷ stack) c (invalidated c)
  refused-Searched s stack c never = record {
    same_config = refl;
    stays_invalid = λ h. refl;
    simple = λ h. cc;
    accepts = λ h. absurd (never (IsSimple-stack s stack h).0);
  }

  -- Behind the recurrences only simple expressions are accepted, and the entries stay.
  pub search-Searched :
      (fuel : ℕ) (stack : List Scev) (c c' : Config)
      → search E fuel stack true c ≡ some c'
      → Searched stack c c'
  unfolding search
  search-Searched fuel [] c c' e = subst (Searched [] c) (some_inj e) (record {
    same_config = refl;
    stays_invalid = λ h. h;
    simple = λ h. nil;
    accepts = λ h. refl;
  })
  search-Searched zero (s ∷ stack) c c' e = cc
  search-Searched (suc fuel) (s ∷ stack) c c' e =
      by_view (view s) refl (λ st c h. search-Searched fuel st c c' h)
    where
      by_view :
          (w : ScevView Scev)
          → view s ≡ w
          → ((st : List Scev) (c : Config) → search E fuel st true c ≡ some c' → Searched st c c')
          → Searched (s ∷ stack) c c'
      by_view (add_rec start step count) f later =
          subst (Searched (s ∷ stack) c) (some_inj (rw (f, search) at e))
            (refused-Searched s stack c (λ h. rw f at (IsHead-of s h)))
      by_view (add_expr ops) f later =
          operands-Searched s ops stack c c' (sum s ops f) (λ h. rw f at (IsHead-of s h))
            (later (push_all E ops stack) c (rw (f, search) at e))
      by_view (mul_expr ops) f later =
          operands-Searched s ops stack c c' (product s ops f) (λ h. rw f at (IsHead-of s h))
            (later (push_all E ops stack) c (rw (f, search) at e))
      by_view (cast_expr ops) f later =
          operands-Searched s ops stack c c' (cast s ops f) (λ h. rw f at (IsHead-of s h))
            (later (push_all E ops stack) c (rw (f, search) at e))
      by_view (constant raw) f later =
          leaf-Searched s stack c c c' (number s raw f) (refl, refl)
            (later stack c (rw (f, search) at e))
      by_view (unknown v) f later =
          leaf-Searched s stack c (default_base v c) c' (value s v f) (default_base-kept v c)
            (later stack (default_base v c) (rw (f, search) at e))
      by_view other f later =
          subst (Searched (s ∷ stack) c) (some_inj (rw (f, search) at e))
            (refused-Searched s stack c (λ h. rw f at (IsHead-of s h)))
