-- ===== src/DfgPass/Built.antt =====
-- The data-flow graph of a kernel: it is built without a fault.
use cgraomp.Prelude.{ℕ, ◌-◌, List, take, length, has, All, if◌then◌else◌}
use cgraomp.Prelude.Int.{ℤ}
use cgraomp.Llvm.{Llvm}
use cgraomp.Ir.{Ir}
use cgraomp.Directed.{DirectedGraph}
use cgraomp.DfgPass.{Building}
use cgraomp.DfgPass.Nodes.{HasNode}
use cgraomp.DfgPass.Edges.{Leads}

module _ (I : Ir) where
  -- The operands that are connected to a node of the computation.
  abbrev pub data_operands : List ℕ → ℕ → List ℕ
  data_operands customs v =
      take (if has v customs then length (I.operands v) - 1 else length (I.operands v))
        (I.operands v)

module _ (D : DirectedGraph) (root : ℕ) (ids : ℕ → ℤ) where
  module _ (I : Ir) where
    -- All operands that have nodes lead to the user.
    abbrev pub AllLead : Building D → ℕ → List ℕ → Type 0
    AllLead b v operands = All (λ o. HasNode D root ids b o → Leads D root ids b v o) operands
