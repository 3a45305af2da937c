-- ===== src/AffineAg/Total.antt =====
-- The search ends: each expression is larger than its parts together.
use cgraomp.Prelude.{
  ℕ, zero, suc, ◌+◌, ◌≤◌, ◌<◌, ◌≡◌, inl, inr, refl, subst, Bool, true, false, some, List, [], ◌∷◌,
  arith, Option-cases,
}
use cgraomp.ScalarEvolution.{
  ScalarEvolution, ScevView, add_rec, add_expr, mul_expr, cast_expr, constant, unknown, other,
  children, total_size, as_constant,
}
use cgraomp.AffineAg.{Config, push_all, default_base, invalidated, search}

module _ (E : ScalarEvolution) where
  open E use {Scev, view, size}

  total-push_all :
      (ops stack : List Scev)
      → total_size size (push_all E ops stack) ≡ total_size size ops + total_size size stack
  unfolding push_all
  total-push_all [] stack = omega arith
  total-push_all (o ∷ os) stack = omega (arith, total-push_all os (o ∷ stack))

  children_less :
      (s : Scev) (w : ScevView Scev) → view s ≡ w → total_size size (children w) < size s
  children_less s w e = subst (λ w. total_size size (children w) < size s) e (E.size-children s)

  -- The search ends, with fuel for the sizes of the expressions on the stack.
  pub search_total :
      (fuel : ℕ) (stack : List Scev) (end_addrec : Bool) (c : Config)
      → total_size size stack ≤ fuel
      → (c' : Config) × (search E fuel stack end_addrec c ≡ some c')
  unfolding search
  search_total fuel [] b c enough = (c, refl)
  search_total zero (s ∷ stack) b c enough =
      let positive = E.size-children s in absurd (omega arith)
  search_total (suc fuel) (s ∷ stack) b c enough =
      by_view (view s) refl b (λ st b c h. search_total fuel st b c h)
    where
      by_view :
          (w : ScevView Scev)
          → view s ≡ w
          → (b : Bool)
          → ((st : List Scev) (b : Bool) (c : Config)
              → total_size size st ≤ fuel
              → (c' : Config) × (search E fuel st b c ≡ some c'))
          → (c' : Config) × (search E (suc fuel) (s ∷ stack) b c ≡ some c')
      by_view (add_rec start step count) e true later = (invalidated c, rw (e, search) refl)
      by_view (add_rec start step count) e false later =
          let less = children_less s (add_rec start step count) e in
          elim (Option-cases (as_constant (view step))) [
            | inl f ↦ rw (e, f, search) (later (start ∷ []) false _ (omega arith))
            | inr (raw, f) ↦ rw (e, f, search) (later (start ∷ stack) false _ (omega arith))
          ]
      by_view (add_expr ops) e b later =
          let less = children_less s (add_expr ops) e in
          rw (e, search)
            (later (push_all E ops stack) true c (omega (arith, total-push_all ops stack)))
      by_view (mul_expr ops) e b later =
          let less = children_less s (mul_expr ops) e in
          rw (e, search)
            (later (push_all E ops stack) true c (omega (arith, total-push_all ops stack)))
      by_view (cast_expr ops) e b later =
          let less = children_less s (cast_expr ops) e in
          rw (e, search)
            (later (push_all E ops stack) true c (omega (arith, total-push_all ops stack)))
      by_view (constant raw) e b later =
          let less = children_less s (constant raw) e in
          rw (e, search) (later stack true c (omega arith))
      by_view (unknown v) e b later =
          let less = children_less s (unknown v) e in
          rw (e, search) (later stack true (default_base v c) (omega arith))
      by_view other e b later = (invalidated c, rw (e, search) refl)
