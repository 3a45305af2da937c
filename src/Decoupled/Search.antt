-- ===== src/Decoupled/Search.antt =====
-- The search ends: each node that is queued is taken off the nodes that are missing.
use cgraomp.Prelude.{
  ℕ, zero, suc, ◌+◌, ◌≤◌, ◌≡◌, ◌≢◌, inl, inr, true, some, List, [], ◌∷◌, arith, length,
  length-concat, All, has, missing, missing-concat, Bool-cases, Option-cases, some_inj,
}
use cgraomp.Ir.{Ir}
use cgraomp.Decoupled.{out_of_fuel, offer, scan, search}

module _ (I : Ir) where
  open I use {users, is_load}

  -- The nodes in the queue, and those of a list that were not met.
  abbrev pub work : List ℕ → List ℕ × List ℕ → ℕ
  work all s = length s.0 + missing all s.1

  offer-work :
      (all : List ℕ) (a : ℕ) (s : List ℕ × List ℕ)
      → has a all ≡ true
      → work all (offer I a s) ≤ work all s
  unfolding offer
  offer-work all a (q, t) h = ground (arith, length-concat q a, missing-concat a all t)

  pub scan-work :
      (all : List ℕ) (us : List ℕ) (s s' : List ℕ × List ℕ)
      → All (λ u. has u all ≡ true) us
      → scan I us s ≡ some s'
      → work all s' ≤ work all s
  unfolding scan
  scan-work all [] s s' h e = rw (← some_inj e) (omega arith)
  scan-work all (u ∷ us) s s' h e = elim (Bool-cases (is_load u)) [
    | inl load ↦ absurd (ground arith)
    | inr other ↦
        let later = scan-work all us (offer I u s) s' h.1 (rw (other, scan) at e) in
        omega (arith, offer-work all u s h.0)
  ]

  -- With fuel for all the work the search does not run out of it, if all users of nodes are listed.
  pub search_total :
      (all stores : List ℕ) (fuel : ℕ) (q t : List ℕ)
      → ((v : ℕ) → All (λ u. has u all ≡ true) (users v))
      → work all (q, t) ≤ fuel
      → search I fuel stores (q, t) ≢ out_of_fuel
  unfolding search
  search_total all stores fuel [] t closed enough = λ e. cc
  search_total all stores zero (v ∷ q) t closed enough = absurd (omega arith)
  search_total all stores (suc fuel) (v ∷ q) t closed enough = elim (Bool-cases (has v stores)) [
    | inl store ↦ rw (store, search) (search_total all stores fuel q t closed (omega arith))
    | inr other ↦ elim (Option-cases (scan I (users v) (q, t))) [
      | inl dependent ↦ rw (other, dependent, search) (λ e. cc)
      | inr ((q', t'), e) ↦
          let less = scan-work all (users v) (q, t) (q', t') (closed v) e in
          rw (other, e, search) (search_total all stores fuel q' t' closed (omega arith))
    ]
  ]
