-- ===== src/TmDfg/Indices.antt =====
-- The address of a GEP instruction: a chain of additions, one for each index that varies.
use cgraomp.Prelude.{
  ℕ, suc, ◌≡◌, refl, sym, ap, subst, ◌∙◌, inl, inr, Bool, true, false, ◌&&◌, Option, none, some,
  List, [], ◌∷◌, eqb, Bool-cases, some_inj,
}
use cgraomp.Prelude.Int.{ℤ}
use cgraomp.Errors.{ok}
use cgraomp.Ir.{Ir}
use cgraomp.Directed.{DirectedGraph}
use cgraomp.DataFlowGraph.{has_node}
use cgraomp.DfgPass.{node_at}
use cgraomp.DfgPass.Nodes.{IsBuilding, HasNode}
use cgraomp.TmDfg.{TmBuilding, KernelIr}
use cgraomp.TmDfg.Geps.{stride_at, add_indices}
use cgraomp.TmDfg.Grown.{IsOther, IsSolid, IsGrown}
use cgraomp.TmDfg.Remaining.{IsLinking, IsLinking-refl, IsLinking-trans}
use cgraomp.TmDfg.Addresses.{IsAdded, kept-HasEdge, add_index_lem}

module _ (D : DirectedGraph) (root : ℕ) (ids : ℕ → ℤ) (gep_node : ℕ → ℕ)
    (other_gep : (k : ℕ) → IsOther D root ids (gep_node k)) where
  abbrev Added : TmBuilding D → ℕ → ℕ → ℕ → ℤ → Type 0
  Added = IsAdded D root ids gep_node other_gep

  kept-Added :
      (t t' : TmBuilding D) (indice address add : ℕ) (stride : ℤ)
      → IsLinking D root ids t t'
      → eqb indice root ≡ false
      → eqb address root ≡ false
      → Added t indice address add stride
      → Added t' indice address add stride
  kept-Added t t' indice address add stride step other away a = record {
    from_address = kept-HasEdge D root ids t t' address add step away a.from_address;
    scaled = λ large.
        let (mult, factor, m, f, e1, e2, e3) = a.scaled large in
        (
          mult,
          factor,
          m,
          f,
          kept-HasEdge D root ids t t' indice mult step other e1,
          kept-HasEdge D root ids t t' factor mult step f e2,
          kept-HasEdge D root ids t t' mult add step m e3,
        );
    unscaled = λ small. kept-HasEdge D root ids t t' indice add step other (a.unscaled small);
  }

  module _ (I : Ir) (K : KernelIr) where
    -- An instruction of the loop.
    abbrev pub varies : ℕ → Bool
    varies idx = I.is_instruction idx && K.is_inside idx

    -- The indices that vary have strides and nodes.
    abbrev pub IndicesReady : TmBuilding D → List ℤ → ℕ → List ℕ → Type 0
    IndicesReady t inc i [] = Unit {0}
    IndicesReady t inc i (idx ∷ rest) =
        (varies idx ≡ true → ((s : ℤ) × (stride_at i inc ≡ ok s)) × HasNode D root ids t.base idx)
        × IndicesReady t inc (suc i) rest

    pub kept-IndicesReady :
        (t t' : TmBuilding D) (inc : List ℤ) (i : ℕ) (indices : List ℕ)
        → IsGrown D root ids t.base t'.base
        → IndicesReady t inc i indices
        → IndicesReady t' inc i indices
    kept-IndicesReady t t' inc i [] g all = tt
    kept-IndicesReady t t' inc i (idx ∷ rest) g all = (
      λ v. ((all.0 v).0, g.extends idx (all.0 v).1),
      kept-IndicesReady t t' inc (suc i) rest g all.1,
    )

    -- One addition for each index that varies, from the address so far to the last one.
    pub data Chain (t : TmBuilding D) (inc : List ℤ)
        : ℕ → Option ℕ → List ℕ → Option ℕ → Type 0 where
      ended : {i : ℕ} {at : Option ℕ} → Chain t inc i at [] at
      fixed :
          {i idx : ℕ} {at last : Option ℕ} {rest : List ℕ}
          → varies idx ≡ false
          → Chain t inc (suc i) at rest last
          → Chain t inc i at (idx ∷ rest) last
      added :
          {i idx indice address add : ℕ} {stride : ℤ} {last : Option ℕ} {rest : List ℕ}
          → varies idx ≡ true
          → stride_at i inc ≡ ok stride
          → node_at idx t.base.value_to_node ≡ some indice
          → eqb address root ≡ false
          → Added t indice address add stride
          → Chain t inc (suc i) (some add) rest last
          → Chain t inc i (some address) (idx ∷ rest) last

    kept-Chain :
        (t t' : TmBuilding D) (inc : List ℤ)
        → IsBuilding D root ids t.base
        → IsLinking D root ids t t'
        → {i : ℕ} {at last : Option ℕ} {indices : List ℕ} → Chain t inc i at indices last
        → Chain t' inc i at indices last
    kept-Chain t t' inc h step ended = ended
    kept-Chain t t' inc h step (fixed same chain) = fixed same (kept-Chain t t' inc h step chain)
    kept-Chain t t' inc h step
          (added {idx = idx} {indice = n} {address = a} {add = add} {stride = s} v e at away one
            chain) =
        added v e (ap (node_at idx) step.same ∙ at) away
          (kept-Added t t' n a add s step (h.apart idx n at) away one)
          (kept-Chain t t' inc h step chain)

    -- The node of the address so far.
    abbrev pub current : Option ℕ → Option ℕ → Option ℕ
    current base none = base
    current base (some l) = some l

    -- A node that is not the virtual root.
    abbrev pub IsApart : Option ℕ → Type 0
    IsApart o = (n : ℕ) → o ≡ some n → eqb n root ≡ false

    -- A node of the graph.
    abbrev pub IsPresent : TmBuilding D → Option ℕ → Type 0
    IsPresent t o = (n : ℕ) → o ≡ some n → has_node D t.base.dfg n ≡ true

    pub add_indices_lem :
        (node_of : ℕ → ℕ) (inc : List ℤ) (base i : ℕ) (last : Option ℕ) (indices : List ℕ)
        (t : TmBuilding D)
        → IsBuilding D root ids t.base
        → IsSolid D root ids t.base
        → eqb base root ≡ false
        → has_node D t.base.dfg base ≡ true
        → IsApart last
        → IsPresent t last
        → IndicesReady t inc i indices
        → (last' : Option ℕ) × (t' : TmBuilding D) × (add_indices D gep_node I K node_of inc
              (some base)
              i
              last
              indices
              t
            ≡ ok (last', t'))
          × IsLinking D root ids t t'
          × IsApart last'
          × IsPresent t' last'
          × Chain t' inc i (current (some base) last) indices (current (some base) last')
    unfolding add_indices
    add_indices_lem node_of inc base i last [] t h solid away has_base apart present ready =
        (last, t, refl, IsLinking-refl D root ids t h solid, apart, present, ended)
    add_indices_lem node_of inc base i last (idx ∷ rest) t h solid away has_base apart present
          ready =
        elim (Bool-cases (varies idx)) [
          | inr same ↦
              let (last', t', f, step, apart', present', chain) =
                add_indices_lem node_of inc base (suc i) last rest t h solid away has_base apart
                  present ready.1 in
              (last', t', rw (add_indices, same) f, step, apart', present', fixed same chain)
          | inl v ↦
              let ((s, e), (n, at)) = ready.0 v in
              let (a, here, far, has_a) = address_of last apart present in
              let (add, t1, f1, s1, away1, add1, one) =
                add_index_lem D root ids gep_node other_gep n a s t h solid (h.apart idx n at)
                  (h.present idx n at) far has_a in
              let g1 = s1.more.grown in
              let (last', t2, f2, s2, apart', present', chain) =
                add_indices_lem node_of inc base (suc i) (some add) rest t1 g1.building g1.solid
                  away (g1.nodes_kept base has_base)
                  (λ k same. subst (λ m. eqb m root ≡ false) (some_inj same) away1)
                  (λ k same. subst (λ m. has_node D t1.base.dfg m ≡ true) (some_inj same) add1)
                  (kept-IndicesReady t t1 inc (suc i) rest g1 ready.1) in
              let at1 = ap (node_at idx) s1.same ∙ at in
              let one2 = kept-Added t1 t2 n a add s s2 (h.apart idx n at) far one in
              (
                last',
                t2,
                rw (add_indices, v, e, at, here, f1) f2,
                IsLinking-trans D root ids t t1 t2 s1 s2,
                apart',
                present',
                subst (λ o. Chain t2 inc i o (idx ∷ rest) (current (some base) last')) (sym here)
                    (added v e (ap (node_at idx) s2.same ∙ at1) far one2 chain),
              )
        ]
      where
        address_of :
            (l : Option ℕ)
            → IsApart l
            → IsPresent t l
            → (a : ℕ) × (current (some base) l ≡ some a)
              × (eqb a root ≡ false)
              × (has_node D t.base.dfg a ≡ true)
        address_of none k l = (base, refl, away, has_base)
        address_of (some m) k l = (m, refl, k m refl, l m refl)
