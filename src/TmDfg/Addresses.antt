-- ===== src/TmDfg/Addresses.antt =====
-- The nodes that compute the addresses of GEP instructions.
use cgraomp.Prelude.{ℕ, suc, ◌≡◌, refl, inl, inr, true, false, eqb, Bool-cases}
use cgraomp.Prelude.Int.{ℤ}
use cgraomp.Errors.{ok}
use cgraomp.Directed.{DirectedGraph, normal}
use cgraomp.DataFlowGraph.{has_node, add_node}
use cgraomp.DfgPass.Nodes.{IsBuilding}
use cgraomp.TmDfg.{TmBuilding}
use cgraomp.TmDfg.Geps.{exceeds_one, add_gep_node, add_scaled, add_index}
use cgraomp.TmDfg.Grown.{IsOther, IsSolid, add_node-IsGrown}
use cgraomp.TmDfg.Linked.{HasEdge, is_edge_to}
use cgraomp.TmDfg.Remaining.{IsLinking, IsLinking-trans, link-Connects}

module _ (D : DirectedGraph) (root : ℕ) (ids : ℕ → ℤ) where
  -- An edge is kept.
  pub kept-HasEdge :
      (t t' : TmBuilding D) (src target : ℕ)
      → IsLinking D root ids t t'
      → eqb src root ≡ false
      → HasEdge D root ids t.base src target 0 normal
      → HasEdge D root ids t'.base src target 0 normal
  kept-HasEdge t t' src target step other =
      step.more.grown.edges_kept (is_edge_to D root ids target 0 normal) src other

  -- The index is multiplied by a stride, and the product is added.
  abbrev pub Scaled : TmBuilding D → ℕ → ℕ → Type 0
  Scaled t indice add =
      (mult : ℕ) × (stride : ℕ) × (eqb mult root ≡ false)
      × (eqb stride root ≡ false)
      × HasEdge D root ids t.base indice mult 0 normal
      × HasEdge D root ids t.base stride mult 0 normal
      × HasEdge D root ids t.base mult add 0 normal

  module _ (gep_node : ℕ → ℕ) (other_gep : (k : ℕ) → IsOther D root ids (gep_node k)) where
    add_gep_node_lem :
        (t : TmBuilding D)
        → IsBuilding D root ids t.base
        → IsSolid D root ids t.base
        → (n : ℕ) × (t' : TmBuilding D) × (add_gep_node D gep_node t ≡ ok (n, t'))
          × IsLinking D root ids t t'
          × (eqb n root ≡ false)
          × (has_node D t'.base.dfg n ≡ true)
    unfolding add_gep_node
    add_gep_node_lem t h solid =
        let (n, found, away, same_id, own, there, g) =
          add_node-IsGrown D root ids (gep_node t.made_ids) t.base h solid (other_gep t.made_ids) in
        (
          n,
          record t {
            base = record t.base { dfg = (add_node D (gep_node t.made_ids) t.base.dfg).1 };
            made_ids = suc t.made_ids;
          },
          rw (add_gep_node, found) refl,
          record { more = record { grown = g; same_kernel = refl; same_geps = refl }; same = refl },
          away,
          there,
        )

    add_scaled_lem :
        (indice add : ℕ) (t : TmBuilding D)
        → IsBuilding D root ids t.base
        → IsSolid D root ids t.base
        → eqb indice root ≡ false
        → has_node D t.base.dfg indice ≡ true
        → has_node D t.base.dfg add ≡ true
        → (t' : TmBuilding D) × (add_scaled D gep_node indice add t ≡ ok t')
          × IsLinking D root ids t t'
          × Scaled t' indice add
    unfolding add_scaled
    add_scaled_lem indice add t h solid other has_indice has_add =
        let (mult, t1, f1, s1, away1, mult1) = add_gep_node_lem t h solid in
        let g1 = s1.more.grown in
        let (stride, t2, f2, s2, away2, stride2) = add_gep_node_lem t1 g1.building g1.solid in
        let g2 = s2.more.grown in
        let (t3, f3, s3, e3) =
          link-Connects D root ids mult 0 normal indice t2 g2.building g2.solid other
            (g2.nodes_kept indice (g1.nodes_kept indice has_indice)) (g2.nodes_kept mult mult1) in
        let g3 = s3.more.grown in
        let (t4, f4, s4, e4) =
          link-Connects D root ids mult 0 normal stride t3 g3.building g3.solid away2
            (g3.nodes_kept stride stride2) (g3.nodes_kept mult (g2.nodes_kept mult mult1)) in
        let g4 = s4.more.grown in
        let (t5, f5, s5, e5) =
          link-Connects D root ids add 0 normal mult t4 g4.building g4.solid away1
            (g4.nodes_kept mult (g3.nodes_kept mult (g2.nodes_kept mult mult1)))
            (g4.nodes_kept add
              (g3.nodes_kept add (g2.nodes_kept add (g1.nodes_kept add has_add)))) in
        let s35 = IsLinking-trans D root ids t3 t4 t5 s4 s5 in
        let s25 = IsLinking-trans D root ids t2 t3 t5 s3 s35 in
        let s15 = IsLinking-trans D root ids t1 t2 t5 s2 s25 in
        (
          t5,
          rw (add_scaled, f1, f2, f3, f4) f5,
          IsLinking-trans D root ids t t1 t5 s1 s15,
          (
            mult,
            stride,
            away1,
            away2,
            kept-HasEdge t3 t5 indice mult s35 other e3,
            kept-HasEdge t4 t5 stride mult s5 away2 e4,
            e5,
          ),
        )

    -- An index, with its stride if that is above 1, is added to an address.
    pub record IsAdded (t : TmBuilding D) (indice address add : ℕ) (stride : ℤ) : Type 0 where
      pub from_address : HasEdge D root ids t.base address add 0 normal
      pub scaled : exceeds_one stride ≡ true → Scaled t indice add
      pub unscaled : exceeds_one stride ≡ false → HasEdge D root ids t.base indice add 0 normal

    pub add_index_lem :
        (indice address : ℕ) (stride : ℤ) (t : TmBuilding D)
        → IsBuilding D root ids t.base
        → IsSolid D root ids t.base
        → eqb indice root ≡ false
        → has_node D t.base.dfg indice ≡ true
        → eqb address root ≡ false
        → has_node D t.base.dfg address ≡ true
        → (add : ℕ) × (t' : TmBuilding D) × (add_index D gep_node indice stride address t
            ≡ ok (add, t'))
          × IsLinking D root ids t t'
          × (eqb add root ≡ false)
          × (has_node D t'.base.dfg add ≡ true)
          × IsAdded t' indice address add stride
    unfolding add_index
    add_index_lem indice address stride t h solid other has_indice away has_address =
        let (add, t1, f1, s1, away1, add1) = add_gep_node_lem t h solid in
        let g1 = s1.more.grown in
        elim (Bool-cases (exceeds_one stride)) [
          | inl large ↦
              let (t2, f2, s2, (mult, factor, m, f, e1, e2, e3)) =
                add_scaled_lem indice add t1 g1.building g1.solid other
                  (g1.nodes_kept indice has_indice) add1 in
              let g2 = s2.more.grown in
              let (t3, f3, s3, e) =
                link-Connects D root ids add 0 normal address t2 g2.building g2.solid away
                  (g2.nodes_kept address (g1.nodes_kept address has_address))
                  (g2.nodes_kept add add1) in
              let s13 = IsLinking-trans D root ids t1 t2 t3 s2 s3 in
              (
                add,
                t3,
                rw (add_index, f1, large, f2, f3) refl,
                IsLinking-trans D root ids t t1 t3 s1 s13,
                away1,
                s13.more.grown.nodes_kept add add1,
                record {
                  from_address = e;
                  scaled = λ l. (
                    mult,
                    factor,
                    m,
                    f,
                    kept-HasEdge t2 t3 indice mult s3 other e1,
                    kept-HasEdge t2 t3 factor mult s3 f e2,
                    kept-HasEdge t2 t3 mult add s3 m e3,
                  );
                  unscaled = λ l. cc;
                },
              )
          | inr small ↦
              let (t2, f2, s2, e1) =
                link-Connects D root ids add 0 normal indice t1 g1.building g1.solid other
                  (g1.nodes_kept indice has_indice) add1 in
              let g2 = s2.more.grown in
              let (t3, f3, s3, e) =
                link-Connects D root ids add 0 normal address t2 g2.building g2.solid away
                  (g2.nodes_kept address (g1.nodes_kept address has_address))
                  (g2.nodes_kept add add1) in
              let s13 = IsLinking-trans D root ids t1 t2 t3 s2 s3 in
              (
                add,
                t3,
                rw (add_index, f1, small, f2, f3) refl,
                IsLinking-trans D root ids t t1 t3 s1 s13,
                away1,
                s13.more.grown.nodes_kept add add1,
                record {
                  from_address = e;
                  scaled = λ l. cc;
                  unscaled = λ l. kept-HasEdge t2 t3 indice add s3 other e1;
                },
              )
        ]
