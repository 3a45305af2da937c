-- ===== src/Annotation/Cache.antt =====
-- The cached result of the module pass and the function pass's own search agree.
use cgraomp.Prelude.{
  ◌≡◌, ◌⊎◌, refl, String, Option-cases, Option, none, some, List, [], ◌∷◌, arith, inl, inr,
  if◌then◌else◌,
}
use cgraomp.Errors.{Error, Fault, Result, ok, err, fault}
use cgraomp.Llvm.{Llvm}
use cgraomp.Annotation.{
  Table, table_at, annotate, insert_text, annotated, annotation_text, module_loop, function_loop,
  annotation_array, run_module, run,
}

text_cases :
    (r : Result (Option String))
    → (r ≡ ok none)
      ⊎ ((s : String) × (r ≡ ok (some s)))
      ⊎ ((e : Error) × (r ≡ err e))
      ⊎ ((x : Fault) × (r ≡ fault x))
text_cases (ok none) = inl refl
text_cases (ok (some s)) = inr (inl (s, refl))
text_cases (err e) = inr (inr (inl (e, refl)))
text_cases (fault x) = inr (inr (inr (x, refl)))

module _ (L : Llvm) where
  open L use {Value, Function, same_function, same_function_iff, get_parent}

  table_at-annotate :
      (f g : Function) (s : String) (t : Table L)
      → table_at L g (annotate L f s t)
        ≡ (if same_function f g then insert_text s (table_at L g t) else table_at L g t)
  unfolding table_at annotate
  table_at-annotate f g s [] = refl
  table_at-annotate f g s ((h, ts) ∷ t) = ground (
    arith,
    same_function_iff f g,
    same_function_iff h f,
    same_function_iff h g,
    table_at-annotate f g s t,
  )

  loops_agree :
      (g : Function) (us : List Value) (t t' : Table L)
      → module_loop L us t ≡ ok t'
      → function_loop L g us (table_at L g t) ≡ ok (table_at L g t')
  unfolding module_loop function_loop
  loops_agree g [] t t' h = ground arith
  loops_agree g (u ∷ us) t t' h = elim (Option-cases (annotated L u)) [
    | inl skipped ↦ ground (arith, loops_agree g us t t')
    | inr ((cs, f), e) ↦ elim (text_cases (annotation_text L cs)) [
      | inl no_text ↦ ground (arith, loops_agree g us t t')
      | inr (inl (s, text)) ↦
          ground (arith, loops_agree g us (annotate L f s t) t', table_at-annotate f g s t)
      | inr (inr (inl (x, failed))) ↦ ground arith
      | inr (inr (inr (x, failed))) ↦ ground arith
    ]
  ]

  -- Whenever the module pass succeeds on the module of a function, the function pass returns the
  -- same annotations with that result in the cache and without it.
  pub run_cached :
      (g : Function) (t : Table L)
      → run_module L (get_parent g) ≡ ok t
      → run L (some t) g ≡ run L none g
  unfolding run run_module table_at
  run_cached g t h = elim (Option-cases (annotation_array L (get_parent g))) [
    | inl absent ↦ ground arith
    | inr (us, e) ↦ ground (arith, loops_agree g us [] t)
  ]
