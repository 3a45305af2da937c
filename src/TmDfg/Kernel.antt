-- ===== src/TmDfg/Kernel.antt =====
-- The nodes of the instructions of a kernel, and of the data from outside of it.
use cgraomp.Prelude.{
  ℕ, ◌≡◌, refl, ap, ◌∙◌, Bool, true, false, Option, List, [], ◌∷◌, arith, has, insert_new, All,
  All-map, insert_new-All_iff, has-insert_new, if◌then◌else◌,
}
use cgraomp.Prelude.Int.{ℤ}
use cgraomp.Errors.{ok}
use cgraomp.Llvm.{Llvm}
use cgraomp.Ir.{Ir}
use cgraomp.Annotation.{Table}
use cgraomp.Model.{CgraModel}
use cgraomp.Directed.{DirectedGraph}
use cgraomp.DfgPass.{Building, node_at, add_value, is_custom}
use cgraomp.DfgPass.Nodes.{IsBuilding, HasNode, IsComputed, flagged_IsBuilding, flagged_same}
use cgraomp.TmDfg.{TmBuilding, KernelIr, add_kernel_op, is_source, add_operand_sources, add_sources}
use cgraomp.TmDfg.Grown.{IsOther, IsSolid, IsGrown, IsGrown-refl, IsGrown-trans, add_value-IsGrown}

module _ (D : DirectedGraph) (root : ℕ) (ids : ℕ → ℤ) (node_of : ℕ → ℕ)
    (other_node : (v : ℕ) → IsOther D root ids (node_of v)) where
  module _ (I : Ir) (K : KernelIr) where
    source_added :
        (c : Bool) (v : ℕ) (b : Building D)
        → IsBuilding D root ids b
        → IsSolid D root ids b
        → let b' = if c then (add_value D node_of v b).1 else b in
          IsGrown D root ids b b' × (c ≡ true → HasNode D root ids b' v)
    source_added false v b h solid = (IsGrown-refl D root ids b h solid, (λ s. cc))
    source_added true v b h solid =
        let (n, found, g, at) = add_value-IsGrown D root ids node_of v b h solid (other_node v) in
        (g, (λ s. (n, at)))

    add_operand_sources_lem :
        (operands : List ℕ) (b : Building D)
        → IsBuilding D root ids b
        → IsSolid D root ids b
        → let b' = add_operand_sources D I K node_of operands b in
          IsGrown D root ids b b'
          × All (λ o. is_source I K o ≡ true → HasNode D root ids b' o) operands
    unfolding add_operand_sources
    add_operand_sources_lem [] b h solid = (IsGrown-refl D root ids b h solid, tt)
    add_operand_sources_lem (v ∷ vs) b h solid =
        let (g1, here) = source_added (is_source I K v) v b h solid in
        let b1 = if is_source I K v then (add_value D node_of v b).1 else b in
        let (g2, rest) = add_operand_sources_lem vs b1 g1.building g1.solid in
        (
          IsGrown-trans D root ids b b1 (add_operand_sources D I K node_of vs b1) g1 g2,
          ((λ s. g2.extends v (here s)), rest),
        )

    pub add_sources_lem :
        (sinks : List ℕ) (b : Building D)
        → IsBuilding D root ids b
        → IsSolid D root ids b
        → let b' = add_sources D I K node_of sinks b in
          IsGrown D root ids b b'
          × All
              (λ sink.
                All (λ o. is_source I K o ≡ true → HasNode D root ids b' o) (I.operands sink))
              sinks
    unfolding add_sources
    add_sources_lem [] b h solid = (IsGrown-refl D root ids b h solid, tt)
    add_sources_lem (sink ∷ sinks) b h solid =
        let (g1, here) = add_operand_sources_lem (I.operands sink) b h solid in
        let b1 = add_operand_sources D I K node_of (I.operands sink) b in
        let (g2, rest) = add_sources_lem sinks b1 g1.building g1.solid in
        let b2 = add_sources D I K node_of sinks b1 in
        (
          IsGrown-trans D root ids b b1 b2 g1 g2,
          (
            All-map (λ o. is_source I K o ≡ true → HasNode D root ids b1 o)
                (λ o. is_source I K o ≡ true → HasNode D root ids b2 o) (I.operands sink)
                (λ o f s. g2.extends o (f s)) here,
            rest,
          ),
        )

  module _ (L : Llvm) (as_instruction : ℕ → Option L.Instruction) (cached : Option (Table L))
      (model : CgraModel L) where
    -- What holds of the locals while nodes are made: every remaining instruction has a node.
    pub record IsNoded (t : TmBuilding D) : Type 0 where
      pub building : IsBuilding D root ids t.base
      pub solid : IsSolid D root ids t.base
      pub noded : All (HasNode D root ids t.base) t.kernel_inst

    -- Nodes are made, and none is lost.
    pub record IsNoding (P : ℕ → Type 0) (t t' : TmBuilding D) : Type 0 where
      pub noded : IsNoded t'
      pub extends : (v : ℕ) → HasNode D root ids t.base v → HasNode D root ids t'.base v
      pub remains : (v : ℕ) → has v t.kernel_inst ≡ true → has v t'.kernel_inst ≡ true
      pub geps : All P t.gep_set → All P t'.gep_set

    custom-IsSolid :
        (c : Bool) (vs : List ℕ) (b : Building D)
        → IsSolid D root ids b
        → IsSolid D root ids (if c then record b { custom_ops = vs } else b)
    custom-IsSolid false vs b solid = solid
    custom-IsSolid true vs b solid = solid

    pub add_kernel_op_lem :
        (P : ℕ → Type 0) (v : ℕ) (t : TmBuilding D)
        → IsNoded t
        → IsComputed L as_instruction cached model v
        → (t' : TmBuilding D) × (add_kernel_op D L as_instruction cached model node_of v t ≡ ok t')
          × IsNoding P t t'
          × (has v t'.kernel_inst ≡ true)
    unfolding add_kernel_op
    add_kernel_op_lem P v t h (i, p, is_inst, found) =
        let (n, made, g, at) =
          add_value-IsGrown D root ids node_of v t.base h.building h.solid (other_node v) in
        let b1 = (add_value D node_of v t.base).1 in
        let c = is_custom p.derived in
        let customs = insert_new v b1.custom_ops in
        let b2 = if c then record b1 { custom_ops = customs } else b1 in
        let same : b2.value_to_node ≡ b1.value_to_node = flagged_same D root ids c customs b1 in
        let to2 : (w : ℕ) → HasNode D root ids b1 w → HasNode D root ids b2 w =
          λ w k. (k.0, ap (node_at w) same ∙ k.1) in
        (
          record t { base = b2; kernel_inst = insert_new v t.kernel_inst },
          rw (add_kernel_op, is_inst, found) refl,
          record {
            noded = record {
              building = flagged_IsBuilding D root ids c customs b1 g.building;
              solid = custom-IsSolid c customs b1 g.solid;
              noded = (insert_new-All_iff (HasNode D root ids b2) v t.kernel_inst).1 (
                to2 v (n, at),
                All-map (HasNode D root ids t.base) (HasNode D root ids b2) t.kernel_inst
                    (λ w k. to2 w (g.extends w k)) h.noded,
              );
            };
            extends = λ w k. to2 w (g.extends w k);
            remains = λ w there. rw (has-insert_new w v t.kernel_inst, there) (ground arith);
            geps = λ all. all;
          },
          rw (has-insert_new v v t.kernel_inst) (ground arith),
        )
