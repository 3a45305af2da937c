-- ===== src/BalanceTree/Weights.antt =====
-- The weights that initWeight computes.
use cgraomp.Prelude.{
  IsDistinct, ℕ, ◌+◌, ◌^◌, ◌<◌, ltb, ap, Bool-cases, inl, inr, if◌then◌else◌, ◌≡◌, refl, sym, subst,
  ◌∙◌, true, false, List, [], ◌∷◌, ◌++◌, arith, eqb, All, All-map,
}
use cgraomp.Errors.{ok}
use cgraomp.Directed.{DirectedGraph, DfgEdge}
use cgraomp.DataFlowGraph.{CgraDfg, find_incoming_edges_to_node}
use cgraomp.BalanceTree.{
  NodeInfo, add_weight, set_weight, total, weight_of, is_weighed, node_weight, weigh, weigh_all,
  init_weight,
}

-- The sum of weights as a natural number, without a bound.
abbrev pub exact_total : (ℕ → ℕ) → List (ℕ × List DfgEdge) → ℕ
exact_total weight [] = 0
exact_total weight (p ∷ ps) = weight p.0 + exact_total weight ps

-- The weight of a node with these incoming edges.
abbrev pub exact_weight_of : (ℕ → ℕ) → List (ℕ × List DfgEdge) → ℕ
exact_weight_of weight [] = 1
exact_weight_of weight (p ∷ ps) = exact_total weight (p ∷ ps)

module _ (D : DirectedGraph) (I : NodeInfo) where
  -- The sum of the weights of the sources of a node, or 1 if it has none.
  unfoldable pub exact_node_weight : CgraDfg D → ℕ → (ℕ → ℕ) → ℕ
  exact_node_weight d n weight = exact_weight_of weight (find_incoming_edges_to_node D n true d)

  unfoldable pub exact_weigh : CgraDfg D → ℕ → (ℕ → ℕ) → ℕ → ℕ
  unfolding exact_node_weight
  exact_weigh d n weight =
      if is_weighed D I d n then set_weight n (exact_node_weight d n weight) weight else weight

  unfoldable pub exact_weigh_all : CgraDfg D → List ℕ → (ℕ → ℕ) → ℕ → ℕ
  unfolding exact_weigh
  exact_weigh_all d [] weight = weight
  exact_weigh_all d (n ∷ ns) weight = exact_weigh_all d ns (exact_weigh d n weight)

  -- A node that is not in the list keeps its weight.
  exact_weigh_all_other :
      (d : CgraDfg D) (ns : List ℕ) (weight : ℕ → ℕ) (a : ℕ)
      → All (λ n. eqb n a ≡ false) ns
      → exact_weigh_all d ns weight a ≡ weight a
  unfolding exact_weigh_all exact_weigh
  exact_weigh_all_other d [] weight a h = refl
  exact_weigh_all_other d (n ∷ ns) weight a h =
      exact_weigh_all_other d ns (exact_weigh d n weight) a h.1 ∙ ground (arith, h.0)

  exact_total-same :
      (v w : ℕ → ℕ) (ps : List (ℕ × List DfgEdge))
      → All (λ p. v p.0 ≡ w p.0) ps
      → exact_total v ps ≡ exact_total w ps
  exact_total-same v w [] h = refl
  exact_total-same v w (p ∷ ps) h = cc (h.0, exact_total-same v w ps h.1)

  exact_weight_of-same :
      (v w : ℕ → ℕ) (ps : List (ℕ × List DfgEdge))
      → All (λ p. v p.0 ≡ w p.0) ps
      → exact_weight_of v ps ≡ exact_weight_of w ps
  exact_weight_of-same v w [] h = refl
  exact_weight_of-same v w (p ∷ ps) h = exact_total-same v w (p ∷ ps) h

  exact_node_weight-same :
      (d : CgraDfg D) (n : ℕ) (v w : ℕ → ℕ)
      → All (λ p. v p.0 ≡ w p.0) (find_incoming_edges_to_node D n true d)
      → exact_node_weight d n v ≡ exact_node_weight d n w
  unfolding exact_node_weight
  exact_node_weight-same d n v w h =
      exact_weight_of-same v w (find_incoming_edges_to_node D n true d) h

  exact_weigh_all-at :
      (d : CgraDfg D) (before after : List ℕ) (n : ℕ) (weight : ℕ → ℕ)
      → is_weighed D I d n ≡ true
      → All (λ m. eqb m n ≡ false) after
      → All (λ p. All (λ m. eqb m p.0 ≡ false) (n ∷ after)) (find_incoming_edges_to_node D n true d)
      → let final = exact_weigh_all d (before ++ n ∷ after) weight in
        final n ≡ exact_node_weight d n final
  unfolding exact_weigh_all exact_weigh
  exact_weigh_all-at d [] after n weight weighed once first =
      let now = exact_weigh d n weight in
      exact_weigh_all_other d after now n once
      ∙ weighed_now
      ∙ exact_node_weight-same d n weight (exact_weigh_all d after now) (
          All-map (λ p. All (λ m. eqb m p.0 ≡ false) (n ∷ after))
            (λ p. weight p.0 ≡ exact_weigh_all d after now p.0)
            (find_incoming_edges_to_node D n true d)
            (λ p h. sym (exact_weigh_all_other d (n ∷ after) weight p.0 h)) first)
    where
      weighed_now : exact_weigh d n weight n ≡ exact_node_weight d n weight
      weighed_now = rw weighed (ground arith)
  exact_weigh_all-at d (b ∷ before) after n weight weighed once first =
      exact_weigh_all-at d before after n (exact_weigh d b weight) weighed once first

  behind-distinct :
      (before after : List ℕ) (n : ℕ)
      → IsDistinct (before ++ n ∷ after)
      → All (λ m. eqb m n ≡ false) after
  behind-distinct [] after n h =
      All-map (λ m. eqb n m ≡ false) (λ m. eqb m n ≡ false) after (λ m k. ground arith) h.0
  behind-distinct (b ∷ before) after n h = behind-distinct before after n h.1

  total-exact :
      (weight : ℕ → ℕ) (sum : ℕ) (ps : List (ℕ × List DfgEdge))
      → sum + exact_total weight ps < 2 ^ 31
      → total weight sum ps ≡ ok (sum + exact_total weight ps)
  unfolding total add_weight
  total-exact weight sum [] h = ap ok (omega arith)
  total-exact weight sum (p ∷ ps) h =
      let small : sum + weight p.0 < 2 ^ 31 = omega arith in
      let fits : ltb (sum + weight p.0) (2 ^ 31) ≡ true = ground arith in
      rw (total, fits)
        (total-exact weight (sum + weight p.0) ps (omega arith) ∙ ap ok (omega arith))

  -- The sum for every node that is visited is an `int`.
  abbrev pub InRange : CgraDfg D → List ℕ → (ℕ → ℕ) → Type 0
  InRange d [] weight = Unit {0}
  InRange d (n ∷ ns) weight =
      (exact_node_weight d n weight < 2 ^ 31) × InRange d ns (exact_weigh d n weight)

  node_weight-exact :
      (d : CgraDfg D) (n : ℕ) (weight : ℕ → ℕ)
      → exact_node_weight d n weight < 2 ^ 31
      → node_weight D I d n weight ≡ ok (exact_node_weight d n weight)
  unfolding node_weight exact_node_weight weight_of
  node_weight-exact d n weight = by_edges (find_incoming_edges_to_node D n true d)
    where
      by_edges :
          (ps : List (ℕ × List DfgEdge))
          → exact_weight_of weight ps < 2 ^ 31
          → weight_of weight ps ≡ ok (exact_weight_of weight ps)
      by_edges [] h = refl
      by_edges (p ∷ ps) h = total-exact weight 0 (p ∷ ps) (omega arith) ∙ ap ok (omega arith)

  weigh-exact :
      (d : CgraDfg D) (n : ℕ) (weight : ℕ → ℕ)
      → exact_node_weight d n weight < 2 ^ 31
      → weigh D I d n weight ≡ ok (exact_weigh d n weight)
  unfolding weigh exact_weigh
  weigh-exact d n weight h = elim (Bool-cases (is_weighed D I d n)) [
    | inl weighed ↦ rw (weighed, node_weight-exact d n weight h) refl
    | inr skipped ↦ rw skipped refl
  ]

  weigh_all-exact :
      (d : CgraDfg D) (ns : List ℕ) (weight : ℕ → ℕ)
      → InRange d ns weight
      → weigh_all D I d ns weight ≡ ok (exact_weigh_all d ns weight)
  unfolding weigh_all exact_weigh_all
  weigh_all-exact d [] weight h = refl
  weigh_all-exact d (n ∷ ns) weight h =
      rw (weigh-exact d n weight h.0) (weigh_all-exact d ns (exact_weigh d n weight) h.1)

  -- Let the sums that initWeight takes, one for each node that it visits, be below 2 ^ 31. Then it
  -- returns, without an overflow. When its breadth-first visit meets a node, which is neither the
  -- virtual root nor a constant, and neither that node nor a later one is a source of its incoming
  -- edges, the weight that the node gets is the sum of the final weights of these sources, or 1 if
  -- it has none.
  pub init_weight-at :
      (d : CgraDfg D) (before after : List ℕ) (n : ℕ)
      → InRange d (D.breadth_first d.virtual_root d.graph) (λ a. 0)
      → D.breadth_first d.virtual_root d.graph ≡ before ++ n ∷ after
      → is_weighed D I d n ≡ true
      → All (λ p. All (λ m. eqb m p.0 ≡ false) (n ∷ after)) (find_incoming_edges_to_node D n true d)
      → (weight : ℕ → ℕ) × (init_weight D I d ≡ ok weight)
        × (weight n ≡ exact_node_weight d n weight)
  unfolding init_weight
  init_weight-at d before after n range order weighed first =
      let ns = D.breadth_first d.virtual_root d.graph in
      let once =
        behind-distinct before after n
          (subst IsDistinct order (D.breadth_first-IsDistinct d.virtual_root d.graph)) in
      (
        exact_weigh_all d ns (λ a. 0),
        weigh_all-exact d ns (λ a. 0) range,
        rw order (exact_weigh_all-at d before after n (λ a. 0) weighed once first),
      )
