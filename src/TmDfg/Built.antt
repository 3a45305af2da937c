-- ===== src/TmDfg/Built.antt =====
-- The data-flow graph of a kernel for a time-multiplexed CGRA: it is built without a fault.
use cgraomp.Prelude.{ℕ, ◌≡◌, false, Option, List}
use cgraomp.Prelude.Int.{ℤ}
use cgraomp.Llvm.{Llvm}
use cgraomp.Ir.{Ir}
use cgraomp.Annotation.{Table}
use cgraomp.Model.{CgraModel}
use cgraomp.LoopDependency.{LoopDependency, LoopDependencyInfo}
use cgraomp.Directed.{DirectedGraph}
use cgraomp.DataFlowGraph.Invariant.{IsRooted}
use cgraomp.DfgPass.Nodes.{HasNode, AllPresent}
use cgraomp.TmDfg.{TmBuilding, KernelIr, LoopControl, HashOrder}
use cgraomp.TmDfg.Grown.{IsOther}
use cgraomp.TmDfg.Carried.{defines}
use cgraomp.TmDfg.Connected.{InstLinked}
use cgraomp.TmDfg.Given.{idv_phis, lc_dep_phis, IsGiven}
use cgraomp.TmDfg.Prepared.{IsPrepared, IsCarried}

module _ (D : DirectedGraph) (root : ℕ) (ids : ℕ → ℤ) (node_of gep_node : ℕ → ℕ)
    (other_node : (v : ℕ) → IsOther D root ids (node_of v))
    (other_gep : (k : ℕ) → IsOther D root ids (gep_node k)) (I : Ir) (K : KernelIr)
    (control : LoopControl) (ld : LoopDependencyInfo) (order : HashOrder) (L : Llvm)
    (as_instruction : ℕ → Option L.Instruction) (cached : Option (Table L))
    (model : CgraModel L) where
  abbrev Carried : TmBuilding D → TmBuilding D → Type 0
  Carried =
      IsCarried D root ids node_of gep_node other_node other_gep I K control ld order L
        as_instruction cached model

  abbrev Prepared : TmBuilding D → Type 0
  Prepared =
      IsPrepared D root ids node_of gep_node other_node other_gep I K control ld order L
        as_instruction cached model

  -- The operations have nodes, and the operands of those that no dependency defines are linked.
  record IsComplete (memdeps : List (ℕ × LoopDependency)) (t : TmBuilding D) : Type 0 where
    rooted : IsRooted D t.base.dfg
    present : AllPresent D root ids t.base
    noded : (v : ℕ) → IsGiven I K control ld v → HasNode D root ids t.base v
    linked :
        (v : ℕ)
        → IsGiven I K control ld v
        → defines v (idv_phis I K control ld) ≡ false
        → defines v (lc_dep_phis I K control ld) ≡ false
        → InstLinked D root ids memdeps I t v
