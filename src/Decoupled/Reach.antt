-- ===== src/Decoupled/Reach.antt =====
-- The search meets exactly the nodes that data flows to from a load, without passing a store.
use cgraomp.Prelude.{
  ℕ, zero, suc, ◌≡◌, ◌⊎◌, inl, inr, subst, true, false, none, some, List, [], ◌∷◌, arith, All,
  All-map, has, has-concat, IsDistinct, concat-IsDistinct, Bool-cases, Option-cases, if◌then◌else◌,
  eqb, some_inj,
}
use cgraomp.Ir.{Ir}
use cgraomp.Decoupled.{Outcome, done, dependent_load, out_of_fuel, offer, scan, search}

module _ (I : Ir) where
  open I use {users, is_load}

  -- What one node's users make of the queue and the nodes that were met.
  record Scanned (us : List ℕ) (s s' : List ℕ × List ℕ) : Type 0 where
    met : All (λ u. (has u s'.1 ≡ true) × (is_load u ≡ false)) us
    keeps_met : (w : ℕ) → has w s.1 ≡ true → has w s'.1 ≡ true
    keeps_queue : (w : ℕ) → has w s.0 ≡ true → has w s'.0 ≡ true
    queued : (w : ℕ) → has w s'.1 ≡ true → (has w s.1 ≡ true) ⊎ (has w s'.0 ≡ true)
    met_from : (w : ℕ) → has w s'.1 ≡ true → (has w s.1 ≡ true) ⊎ (has w us ≡ true)
    queue_from : (w : ℕ) → has w s'.0 ≡ true → (has w s.0 ≡ true) ⊎ (has w us ≡ true)
    distinct : IsDistinct s.1 → IsDistinct s'.1

  offer-met :
      (u w : ℕ) (s : List ℕ × List ℕ)
      → has w (offer I u s).1 ≡ (if eqb w u then true else has w s.1)
  unfolding offer
  offer-met u w (q, t) = elim (Bool-cases (eqb w u)) [
    | inl same ↦ let at : w ≡ u = ground arith in rw at (ground (arith, has-concat u t u))
    | inr other ↦ ground (arith, has-concat w t u)
  ]

  offer-queue :
      (u w : ℕ) (s : List ℕ × List ℕ)
      → has w (offer I u s).0
        ≡ (if has u s.1 then has w s.0 else if eqb w u then true else has w s.0)
  unfolding offer
  offer-queue u w (q, t) = ground (arith, has-concat w q u)

  offer-IsDistinct : (u : ℕ) (s : List ℕ × List ℕ) → IsDistinct s.1 → IsDistinct (offer I u s).1
  unfolding offer
  offer-IsDistinct u (q, t) h = elim (Bool-cases (has u t)) [
    | inl old ↦ rw old h
    | inr new ↦ rw new (concat-IsDistinct t u h new)
  ]

  scan-Scanned : (us : List ℕ) (s s' : List ℕ × List ℕ) → scan I us s ≡ some s' → Scanned us s s'
  unfolding scan has
  scan-Scanned [] s s' e = subst (Scanned [] s) (some_inj e) (record {
    met = tt;
    keeps_met = λ w h. h;
    keeps_queue = λ w h. h;
    queued = λ w h. inl h;
    met_from = λ w h. inl h;
    queue_from = λ w h. inl h;
    distinct = λ h. h;
  })
  scan-Scanned (u ∷ us) s s' e = elim (Bool-cases (is_load u)) [
    | inl load ↦ absurd (ground arith)
    | inr other ↦
        let r = scan-Scanned us (offer I u s) s' (rw (other, scan) at e) in
        record {
          met = ((r.keeps_met u (ground (arith, offer-met u u s)), other), r.met);
          keeps_met = λ w h. r.keeps_met w (ground (arith, offer-met u w s));
          keeps_queue = λ w h. r.keeps_queue w (ground (arith, offer-queue u w s));
          queued = λ w h. elim (r.queued w h) [
            | inr q ↦ inr q
            | inl m ↦ elim (Bool-cases (has w s.1)) [
              | inl old ↦ inl old
              | inr new ↦
                  let same : w ≡ u = ground (arith, offer-met u w s) in
                  inr (r.keeps_queue w (rw same (ground (arith, offer-queue u u s, new, same))))
            ]
          ];
          met_from = λ w h. ground (arith, r.met_from w h, offer-met u w s);
          queue_from = λ w h. ground (arith, r.queue_from w h, offer-queue u w s);
          distinct = λ h. r.distinct (offer-IsDistinct u s h);
        }
  ]

  module _ (loads stores : List ℕ) where
    -- Data of a load flows to a node, along users, and not past a store.
    pub data Flows : ℕ → Type 0 where
      of_load :
          (l u : ℕ) → has l loads ≡ true → has l stores ≡ false → has u (users l) ≡ true → Flows u
      onward : (v u : ℕ) → Flows v → has v stores ≡ false → has u (users v) ≡ true → Flows u

    abbrev pub IsSource : ℕ → Type 0
    IsSource v = (has v loads ≡ true) ⊎ Flows v

    abbrev pub IsExpanded : List ℕ → ℕ → Type 0
    IsExpanded t v =
        (has v stores ≡ true) ⊎ All (λ u. (has u t ≡ true) × (is_load u ≡ false)) (users v)

    pub record IsSearching (q t : List ℕ) : Type 0 where
      pub sound : (v : ℕ) → has v t ≡ true → Flows v
      pub queue_sound : (v : ℕ) → has v q ≡ true → IsSource v
      pub closed :
          (v : ℕ) → (has v loads ≡ true) ⊎ (has v t ≡ true) → (has v q ≡ true) ⊎ IsExpanded t v
      pub distinct : IsDistinct t

    step_on : (v u : ℕ) → IsSource v → has v stores ≡ false → has u (users v) ≡ true → Flows u
    step_on v u (inl l) open_end h = of_load v u l open_end h
    step_on v u (inr f) open_end h = onward v u f open_end h

    IsExpanded-grows :
        (t t' : List ℕ) (v : ℕ)
        → ((w : ℕ) → has w t ≡ true → has w t' ≡ true)
        → IsExpanded t v
        → IsExpanded t' v
    IsExpanded-grows t t' v keep (inl store) = inl store
    IsExpanded-grows t t' v keep (inr h) = inr (
        All-map (λ u. (has u t ≡ true) × (is_load u ≡ false))
          (λ u. (has u t' ≡ true) × (is_load u ≡ false)) (users v) (λ u k. (keep u k.0, k.1)) h)

    pop-store :
        (v : ℕ) (q t : List ℕ) → IsSearching (v ∷ q) t → has v stores ≡ true → IsSearching q t
    unfolding has
    pop-store v q t s store = record {
      sound = s.sound;
      queue_sound = λ w h. s.queue_sound w (ground arith);
      closed = λ w h. elim (s.closed w h) [
        | inr e ↦ inr e
        | inl queued ↦ elim (Bool-cases (eqb w v)) [
          | inl same ↦ let at : w ≡ v = ground arith in rw at (inr (inl store))
          | inr other ↦ inl (ground arith)
        ]
      ];
      distinct = s.distinct;
    }

    pop-scan :
        (v : ℕ) (q t q' t' : List ℕ)
        → IsSearching (v ∷ q) t
        → has v stores ≡ false
        → Scanned (users v) (q, t) (q', t')
        → IsSearching q' t'
    unfolding has
    pop-scan v q t q' t' s other r =
        let source = s.queue_sound v (ground arith) in
        record {
          sound = λ w h. elim (r.met_from w h) [
            | inl old ↦ s.sound w old
            | inr user ↦ step_on v w source other user
          ];
          queue_sound = λ w h. elim (r.queue_from w h) [
            | inl old ↦ s.queue_sound w (ground arith)
            | inr user ↦ inr (step_on v w source other user)
          ];
          closed = λ w h. elim (Bool-cases (has w q')) [
            | inl queued ↦ inl queued
            | inr taken ↦ inr (closed_at w taken h)
          ];
          distinct = r.distinct s.distinct;
        }
      where
        old_at :
            (w : ℕ) → has w q' ≡ false → (has w loads ≡ true) ⊎ (has w t ≡ true) → IsExpanded t' w
        old_at w taken h = elim (s.closed w h) [
          | inr e ↦ IsExpanded-grows t t' w r.keeps_met e
          | inl queued ↦ elim (Bool-cases (eqb w v)) [
            | inl same ↦ let at : w ≡ v = ground arith in rw at (inr r.met)
            | inr apart ↦ let still = r.keeps_queue w (ground arith) in absurd (ground arith)
          ]
        ]

        closed_at :
            (w : ℕ) → has w q' ≡ false → (has w loads ≡ true) ⊎ (has w t' ≡ true) → IsExpanded t' w
        closed_at w taken (inl load) = old_at w taken (inl load)
        closed_at w taken (inr met) = elim (r.queued w met) [
          | inl old ↦ old_at w taken (inr old)
          | inr queued ↦ absurd (ground arith)
        ]

    scan-dependent :
        (us : List ℕ) (s : List ℕ × List ℕ)
        → scan I us s ≡ none
        → (u : ℕ) × (has u us ≡ true) × (is_load u ≡ true)
    unfolding scan has
    scan-dependent [] s h = cc
    scan-dependent (u ∷ us) s h = elim (Bool-cases (is_load u)) [
      | inl load ↦ (u, ground arith, load)
      | inr other ↦
          let (w, there, load) = scan-dependent us (offer I u s) (rw (other, scan) at h) in
          (w, ground arith, load)
    ]

    -- How a search that has fuel ends.
    pub data Ends : Outcome → Type 0 where
      all_met : (t : List ℕ) → IsSearching [] t → Ends (done t)
      meets_load : (u : ℕ) → Flows u → is_load u ≡ true → Ends dependent_load
      no_fuel : Ends out_of_fuel

    pub search-Ends :
        (fuel : ℕ) (q t : List ℕ) → IsSearching q t → Ends (search I fuel stores (q, t))
    unfolding search has
    search-Ends fuel [] t s = all_met t s
    search-Ends zero (v ∷ q) t s = no_fuel
    search-Ends (suc fuel) (v ∷ q) t s = elim (Bool-cases (has v stores)) [
      | inl store ↦ rw (store, search) (search-Ends fuel q t (pop-store v q t s store))
      | inr other ↦ elim (Option-cases (scan I (users v) (q, t))) [
        | inl dependent ↦
            let (u, there, load) = scan-dependent (users v) (q, t) dependent in
            rw (other, dependent, search)
              (meets_load u (step_on v u (s.queue_sound v (ground arith)) other there) load)
        | inr ((q', t'), e) ↦
            rw (other, e, search)
              (search-Ends fuel q' t'
                (pop-scan v q t q' t' s other (scan-Scanned (users v) (q, t) (q', t') e)))
      ]
    ]
