-- ===== src/LoopDependency/Independent.antt =====
-- The dependencies that the analysis counts, stated by the loop's phi nodes and dependences.
use cgraomp.Prelude.{
  ℕ, ◌/◌, ◌≡◌, ◌<◌, inl, inr, refl, Bool, true, false, not, ◌&&◌, ◌||◌, Option, none, some, List,
  [], ◌∷◌, arith, any, All, eqb, Bool-cases, Option-cases, if◌then◌else◌,
}
use cgraomp.Prelude.Int.{ℤ, pos, to_int}
use cgraomp.Errors.{ok}
use cgraomp.Ir.{Ir}
use cgraomp.LoopDependency.{
  LoopDependencyInfo, Dependence, LoopFacts, add_induction, add_mem_dep, get_num_dep,
  get_num_mem_dep, leb_ℤ, word_size, access_of, quotient, get_distance, add_dependence,
  add_dependences, memory_loop_dependency, run,
}
use cgraomp.LoopDependency.Phis.{
  indvars_of, is_free, add_induction-is_free, add_mem_dep-is_free, IsSimplified, is_carried,
  add_phis-is_free,
}

module _ (I : Ir) where
  open I use {operand_0, operand_1, is_load, is_store, is_instruction}

  -- The two ends move words of one size.
  abbrev pub IsSized : Dependence → Type 0
  IsSized dep =
      is_load dep.source ≡ true
      → is_store dep.destination ≡ true
      → (word_size I (operand_0 dep.destination) ≡ word_size I dep.source)
        × (0 < word_size I dep.source)

  -- The distance of a load and a store of one size, if the difference is constant.
  unfoldable pub distance_of : (ℕ → ℕ → Option ℕ) → Dependence → Option ℤ
  distance_of minus dep = elim (minus (operand_1 dep.destination) (operand_0 dep.source)) [
    | none ↦ none
    | some raw ↦ some (to_int (pos (raw / word_size I (operand_0 dep.destination))))
  ]

  -- A load that reads, at most `threshold` iterations later, what a store has written.
  unfoldable pub is_hazard : ℤ → (ℕ → ℕ → Option ℕ) → Dependence → Bool
  is_hazard threshold minus dep =
      let near : Bool = elim (distance_of minus dep) [
        | none ↦ false
        | some d ↦ leb_ℤ d threshold
      ] in
      dep.is_backward && is_load dep.source && is_store dep.destination && near

  access_of-load : (v : ℕ) → is_load v ≡ true → access_of I v ≡ some (operand_0 v, word_size I v)
  unfolding access_of
  access_of-load v h = rw h refl

  access_of-store :
      (v : ℕ) → is_store v ≡ true → access_of I v ≡ some (operand_1 v, word_size I (operand_0 v))
  unfolding access_of
  access_of-store v h = rw (I.is_store-is_load v h, h) refl

  get_distance-distance_of :
      (minus : ℕ → ℕ → Option ℕ) (dep : Dependence)
      → is_load dep.source ≡ true
      → is_store dep.destination ≡ true
      → IsSized dep
      → get_distance I minus dep.destination dep.source ≡ ok (distance_of minus dep)
  unfolding get_distance quotient distance_of
  get_distance-distance_of minus dep l st h =
      let (same, some_bits) = h l st in
      let sizes : eqb (word_size I (operand_0 dep.destination)) (word_size I dep.source) ≡ true =
        ground arith in
      let divides : eqb (word_size I (operand_0 dep.destination)) 0 ≡ false = ground arith in
      rw (get_distance, access_of-store dep.destination st, access_of-load dep.source l, sizes)
        (elim (Option-cases (minus (operand_1 dep.destination) (operand_0 dep.source))) [
          | inl e ↦ rw (distance_of, e) refl
          | inr (raw, e) ↦ rw (distance_of, e, divides) refl
        ])

  add_dependence-is_free :
      (threshold : ℤ) (minus : ℕ → ℕ → Option ℕ) (dep : Dependence) (r : LoopDependencyInfo)
      → IsSized dep
      → (r' : LoopDependencyInfo) × (add_dependence I threshold minus dep r ≡ ok r')
        × (is_free r' ≡ (if is_hazard threshold minus dep then false else is_free r))
  unfolding add_dependence is_hazard distance_of get_num_dep
  add_dependence-is_free threshold minus dep r h =
      elim (Bool-cases (dep.is_backward && is_load dep.source && is_store dep.destination)) [
        | inr other ↦ (r, rw (add_dependence, other) refl, ground arith)
        | inl raw ↦
            let l : is_load dep.source ≡ true = ground arith in
            let st : is_store dep.destination ≡ true = ground arith in
            let b : dep.is_backward ≡ true = ground arith in
            rw (add_dependence, is_hazard, b, l, st, get_distance-distance_of minus dep l st h)
              (elim (Option-cases (distance_of minus dep)) [
                | inl e ↦ rw e (r, refl, refl)
                | inr (d, e) ↦ rw e (elim (Bool-cases (leb_ℤ d threshold)) [
                  | inl near ↦ rw near (
                    add_mem_dep (memory_loop_dependency I dep.destination dep.source d) r,
                    refl,
                    add_mem_dep-is_free _ r,
                  )
                  | inr far ↦ rw far (r, refl, refl)
                ])
              ])
      ]

  add_dependences-is_free :
      (threshold : ℤ) (minus : ℕ → ℕ → Option ℕ) (deps : List Dependence) (r : LoopDependencyInfo)
      → All IsSized deps
      → (r' : LoopDependencyInfo) × (add_dependences I threshold minus deps r ≡ ok r')
        × (is_free r' ≡ (if any (is_hazard threshold minus) deps then false else is_free r))
  unfolding add_dependences any
  add_dependences-is_free threshold minus [] r h = (r, refl, refl)
  add_dependences-is_free threshold minus (dep ∷ deps) r h =
      let (r', e, f) = add_dependence-is_free threshold minus dep r h.0 in
      let (r'', e', f') = add_dependences-is_free threshold minus deps r' h.1 in
      (r'', rw (e, add_dependences) e', ground (arith, f, f'))

  -- Take a loop whose dependences LLVM has determined, in which each phi node has one edge from
  -- outside and one from inside or edges from inside only, and in which a load and a store that
  -- depend on each other move words of one size above 0. The analysis returns, and it counts no
  -- dependency between iterations exactly if no phi node, other than an induction variable, gets
  -- an instruction of the loop from inside and has an edge from outside, and no load reads what a
  -- store has written at a known distance of at most the threshold.
  pub run-is_free :
      (threshold : ℤ) (l : LoopFacts) (deps : List Dependence)
      → l.dependences ≡ some deps
      → All (IsSimplified I l.blocks) l.phis
      → All IsSized deps
      → (r : LoopDependencyInfo) × (run I threshold l ≡ ok r)
        × (is_free r
            ≡ not (
                any (is_carried I (indvars_of l.nests) l.blocks) l.phis
                || any (is_hazard threshold l.minus) deps))
  unfolding run get_num_dep get_num_mem_dep
  run-is_free threshold l deps e h k =
      let empty : LoopDependencyInfo = record {
        indvar_dep_list = [];
        mem_dep_list = [];
        lc_dep_list = [];
      } in
      let start = add_induction l.nests ([], empty) in
      let (r1, e1, f1) = add_phis-is_free I start.0 l.blocks l.phis start.1 h in
      let (r2, e2, f2) = add_dependences-is_free threshold l.minus deps r1 k in
      let f0 : is_free start.1 ≡ true = add_induction-is_free l.nests ([], empty) in
      (r2, rw (run, e1, e) e2, ground (arith, f0, f1, f2))
