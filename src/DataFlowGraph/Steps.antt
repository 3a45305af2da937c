-- ===== src/DataFlowGraph/Steps.antt =====
-- The equality of nodes by IDs, and the edges of the virtual root.
use cgraomp.Prelude.{
  ℕ, ◌<◌, ◌≡◌, refl, Bool, true, false, not, List, [], ◌∷◌, arith, any, keep, first, none, All,
  Bool-cases, inl, inr, keep_comm, any_mono,
}
use cgraomp.Prelude.Int.{ℤ, pos, negsuc, eqb_ℤ}
use cgraomp.Directed.{DirectedGraph, DfgEdge, same_edge}
use cgraomp.DataFlowGraph.{CgraDfg, is_equal_to}

eqb_ℤ_refl : (a : ℤ) → eqb_ℤ a a ≡ true
eqb_ℤ_refl (pos a) = ground arith
eqb_ℤ_refl (negsuc a) = ground arith

-- Two numbers that equal a third one are equal.
eqb_ℤ_trans : (a b c : ℤ) → eqb_ℤ a b ≡ true → eqb_ℤ a c ≡ true → eqb_ℤ b c ≡ true
eqb_ℤ_trans (pos a) (pos b) (pos c) h k = ground arith
eqb_ℤ_trans (negsuc a) (negsuc b) (negsuc c) h k = ground arith
eqb_ℤ_trans (pos a) (negsuc b) c h k = cc
eqb_ℤ_trans (negsuc a) (pos b) c h k = cc
eqb_ℤ_trans (pos a) b (negsuc c) h k = cc
eqb_ℤ_trans (negsuc a) b (pos c) h k = cc

eqb_ℤ_sym : (a b : ℤ) → eqb_ℤ a b ≡ true → eqb_ℤ b a ≡ true
eqb_ℤ_sym a b h = eqb_ℤ_trans a b a h (eqb_ℤ_refl a)

module _ (D : DirectedGraph) where
  pub equal_refl : (d : CgraDfg D) (a : ℕ) → is_equal_to D d a a ≡ true
  unfolding is_equal_to
  equal_refl d a = eqb_ℤ_refl (d.ids a)

  pub equal_sym :
      (d : CgraDfg D) (a b : ℕ) → is_equal_to D d a b ≡ true → is_equal_to D d b a ≡ true
  unfolding is_equal_to
  equal_sym d a b h = eqb_ℤ_sym (d.ids a) (d.ids b) h

  pub equal_trans :
      (d : CgraDfg D) (a b c : ℕ)
      → is_equal_to D d a b ≡ true
      → is_equal_to D d b c ≡ true
      → is_equal_to D d a c ≡ true
  unfolding is_equal_to
  equal_trans d a b c h k =
      eqb_ℤ_trans (d.ids b) (d.ids a) (d.ids c) (eqb_ℤ_sym (d.ids a) (d.ids b) h) k

pub first-none-any {ℓ} :
    {A : Type ℓ} (p : A → Bool) (xs : List A) → first p xs ≡ none → any p xs ≡ false
unfolding first any
first-none-any p [] h = refl
first-none-any p (x ∷ xs) h = ground (arith, first-none-any p xs)

-- No edge leads to a node that is new, if edges lead to nodes that are there.
pub no_edge_to_new :
    (D : DirectedGraph) (d : CgraDfg D) (ns : List ℕ) (n t : ℕ) (es : List DfgEdge)
    → any (is_equal_to D d n) ns ≡ false
    → is_equal_to D d n t ≡ true
    → All (λ e. any (is_equal_to D d e.target) ns ≡ true) es
    → any (λ e. is_equal_to D d e.target t) es ≡ false
unfolding any
no_edge_to_new D d ns n t [] new same h = refl
no_edge_to_new D d ns n t (e ∷ es) new same h = elim (Bool-cases (is_equal_to D d e.target t)) [
  | inl hit ↦
      let found =
        any_mono (is_equal_to D d e.target) (is_equal_to D d n) ns
          (λ x k.
            equal_trans D d n t x same
              (equal_trans D d t e.target x (equal_sym D d e.target t hit) k))
          h.0 in
      absurd (ground arith)
  | inr missed ↦ rw missed (no_edge_to_new D d ns n t es new same h.1)
]

-- An edge is not new among edges with smaller addresses.
pub fresh_edge :
    (e : DfgEdge) (k : ℕ) (es : List DfgEdge)
    → e.address ≡ k
    → All (λ x. x.address < k) es
    → any (same_edge e) es ≡ false
unfolding any
fresh_edge e k [] at h = refl
fresh_edge e k (x ∷ es) at h = ground (arith, fresh_edge e k es at h.1)

-- Removing the one edge that passes a test leaves none that does.
pub keep-removed :
    (p : DfgEdge → Bool) (v : DfgEdge) (es : List DfgEdge)
    → keep p es ≡ v ∷ []
    → keep p (keep (λ x. not (same_edge x v)) es) ≡ []
unfolding keep
keep-removed p v es h = rw (keep_comm p (λ x. not (same_edge x v)) es, h) (ground arith)
