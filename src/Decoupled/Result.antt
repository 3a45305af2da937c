-- ===== src/Decoupled/Result.antt =====
-- The result of the analysis, stated by the flow of data from loads.
use cgraomp.Prelude.{
  ℕ, ◌+◌, ◌≤◌, ◌≡◌, ◌≢◌, ◌↔◌, inl, inr, refl, subst, ◌∙◌, Bool, true, false, not, ◌&&◌, some, List,
  [], ◌∷◌, arith, length, length-keep, All, keep-All, has, has-keep, All-has, has-All, missing,
  subtract, intersect, IsDistinct, keep-IsDistinct, length-le_of_subset, subset_full, if◌then◌else◌,
  some_inj, ltb,
}
use cgraomp.Ir.{Ir}
use cgraomp.Decoupled.{
  DecoupledAnalysis, succeeds, no_result, Outcome, done, dependent_load, out_of_fuel, search,
  loads_of, stores_of, conclude, set_error, run,
}
use cgraomp.Decoupled.Search.{search_total}
use cgraomp.Decoupled.Reach.{Flows, IsSearching, Ends, search-Ends}

missing-le : (xs set : List ℕ) → missing xs set ≤ length xs
unfolding missing
missing-le [] set = omega arith
missing-le (x ∷ xs) set = ground (arith, missing-le xs set)

module _ (I : Ir) where
  open I use {users, is_load}

  -- A node that is met in one step more.
  pub reached :
      (loads stores t : List ℕ) (v : ℕ)
      → IsSearching I loads stores [] t
      → Flows I loads stores v
      → (has v t ≡ true) × (is_load v ≡ false)
  unfolding has
  reached loads stores t v s (Flows.of_load l u start open_end h) = elim (s.closed l (inl start)) [
    | inl queued ↦ cc
    | inr (inl store) ↦ cc
    | inr (inr all) ↦ All-has (λ w. (has w t ≡ true) × (is_load w ≡ false)) u (users l) all h
  ]
  reached loads stores t v s (Flows.onward w u f open_end h) =
      let earlier = (reached loads stores t w s f).0 in
      elim (s.closed w (inr earlier)) [
        | inl queued ↦ cc
        | inr (inl store) ↦ cc
        | inr (inr all) ↦ All-has (λ x. (has x t ≡ true) × (is_load x ≡ false)) u (users w) all h
      ]

  module _ (in_schedule : ℕ → Bool) (insts : List ℕ) where
    abbrev pub loads : List ℕ
    loads = loads_of I in_schedule insts

    abbrev pub stores : List ℕ
    stores = stores_of I insts

    start : IsSearching I loads stores loads []
    unfolding has
    start = record {
      sound = λ v h. cc;
      queue_sound = λ v h. inl h;
      closed = λ v h. elim h [ inl l ↦ inl l | inr m ↦ cc ];
      distinct = tt;
    }

    -- If the users of all values stand in a list, the analysis returns with fuel for the
    -- instructions of the loop and the length of that list.
    pub run_total :
        (all : List ℕ) (fuel : ℕ)
        → ((v : ℕ) → All (λ u. has u all ≡ true) (users v))
        → length insts + length all ≤ fuel
        → (r : DecoupledAnalysis) × (run I fuel in_schedule insts ≡ some r)
    unfolding run loads_of
    run_total all fuel closed enough =
        let total =
          search_total I all stores fuel loads [] closed
            (omega (arith, missing-le all [], length-keep {0} _ insts)) in
        by_outcome (search I fuel stores (loads, [])) refl total
      where
        by_outcome :
            (o : Outcome)
            → search I fuel stores (loads, []) ≡ o
            → o ≢ out_of_fuel
            → (r : DecoupledAnalysis) × (run I fuel in_schedule insts ≡ some r)
        by_outcome (done t) e h = (conclude I insts loads stores t, rw (e, run) refl)
        by_outcome dependent_load e h =
            (set_error "Loop dependent mem loads are included" no_result, rw (e, run) refl)
        by_outcome out_of_fuel e h = absurd (h refl)

    -- Data of loads flows to every store, and to no load.
    pub record IsDecoupled : Type 0 where
      pub no_dependent_load : (u : ℕ) → Flows I loads stores u → is_load u ≡ false
      pub stores_reached : All (Flows I loads stores) stores

    -- The parts of a kernel that was split.
    pub record IsSplit (r : DecoupledAnalysis) : Type 0 where
      pub loads_kept : r.mem_load ≡ loads
      pub stores_kept : r.mem_store ≡ stores
      pub comp_iff :
          (v : ℕ) → (has v r.comp ≡ true) ↔ (Flows I loads stores v × (has v stores ≡ false))

    module _ (t : List ℕ) (s : IsSearching I loads stores [] t) where
      few_reached : Bool
      few_reached = ltb (length (intersect t stores)) (length stores)

      has-intersect :
          (v : ℕ) → has v (intersect t stores) ≡ (if has v stores then has v t else false)
      unfolding intersect
      has-intersect v = has-keep (λ x. has x stores) v t

      enough-IsDecoupled : few_reached ≡ false → IsDecoupled
      unfolding few_reached
      enough-IsDecoupled h = record {
        no_dependent_load = λ u f. (reached loads stores t u s f).1;
        stores_reached = has-All (Flows I loads stores) stores (λ v m.
            let full =
              subset_full (intersect t stores) stores
                (unfold intersect in keep-IsDistinct (λ x. has x stores) t s.distinct)
                (unfold intersect in keep-All (λ x. has x stores) t) (ground arith) v m in
            s.sound v (ground (arith, has-intersect v)));
      }

      IsDecoupled-enough : IsDistinct stores → IsDecoupled → few_reached ≡ false
      unfolding few_reached
      IsDecoupled-enough d h =
          let all : All (λ v. has v (intersect t stores) ≡ true) stores =
            has-All (λ v. has v (intersect t stores) ≡ true) stores
              (λ v m.
                let flows = All-has (Flows I loads stores) v stores h.stores_reached m in
                let met = (reached loads stores t v s flows).0 in
                ground (arith, has-intersect v)) in
          let le = length-le_of_subset stores (intersect t stores) d all in ground arith

      has-subtract : (v : ℕ) → has v (subtract t stores) ≡ (if has v stores then false else has v t)
      unfolding subtract
      has-subtract v = has-keep (λ x. not (has x stores)) v t ∙ ground arith

      conclude-succeeds : succeeds (conclude I insts loads stores t) ≡ not few_reached
      unfolding conclude few_reached set_error
      conclude-succeeds = ground arith

      conclude-IsSplit : few_reached ≡ false → IsSplit (conclude I insts loads stores t)
      unfolding conclude few_reached
      conclude-IsSplit h = rw h (record {
        loads_kept = refl;
        stores_kept = refl;
        comp_iff = λ v. (
          λ m. (s.sound v (ground (arith, has-subtract v)), ground (arith, has-subtract v)),
          λ p.
              let met = (reached loads stores t v s p.0).0 in
              let apart = p.1 in ground (arith, has-subtract v),
        );
      })

    -- The result is a success exactly if the kernel is decoupled, and then its parts are as said.
    by_end :
        (fuel : ℕ) (r : DecoupledAnalysis) (o : Outcome)
        → IsDistinct insts
        → search I fuel stores (loads, []) ≡ o
        → Ends I loads stores o
        → run I fuel in_schedule insts ≡ some r
        → ((succeeds r ≡ true) ↔ IsDecoupled) × (succeeds r ≡ true → IsSplit r)
    unfolding run stores_of
    by_end fuel r _ d e (Ends.all_met t s) h =
        let same : conclude I insts loads stores t ≡ r = some_inj (rw (e, run) at h) in
        let ds = keep-IsDistinct (λ i. not (is_load i) && I.is_store i) insts d in
        let won = conclude-succeeds t s in
        subst (λ r. ((succeeds r ≡ true) ↔ IsDecoupled) × (succeeds r ≡ true → IsSplit r)) same
          (
            (
              λ k. enough-IsDecoupled t s (ground arith),
              λ k. let enough = IsDecoupled-enough t s ds k in ground arith,
            ),
            λ k. conclude-IsSplit t s (ground arith),
          )
    by_end fuel r _ d e (Ends.meets_load u f load) h =
        let same = some_inj (rw (e, run) at h) in
        subst (λ r. ((succeeds r ≡ true) ↔ IsDecoupled) × (succeeds r ≡ true → IsSplit r)) same
          ((λ k. cc, λ k. let no = k.no_dependent_load u f in cc), λ k. cc)
    by_end fuel r _ d e Ends.no_fuel h = cc (rw (e, run) at h)

    -- When the analysis of distinct instructions returns, it reports success exactly if data of
    -- the loads flows to no load and to every store, where data flows from a value to its users
    -- but not on from a store; on success the loads and stores are those of the loop, and the
    -- computation is what data of a load flows to, without the stores.
    pub run-IsDecoupled_iff :
        (fuel : ℕ) (r : DecoupledAnalysis)
        → IsDistinct insts
        → run I fuel in_schedule insts ≡ some r
        → ((succeeds r ≡ true) ↔ IsDecoupled) × (succeeds r ≡ true → IsSplit r)
    unfolding stores_of
    run-IsDecoupled_iff fuel r d h =
        by_end fuel r (search I fuel stores (loads, [])) d refl
          (search-Ends I loads stores fuel loads [] start) h
