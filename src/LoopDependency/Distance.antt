-- ===== src/LoopDependency/Distance.antt =====
-- The distance of a dependence by memory.
use cgraomp.Prelude.{ℕ, ◌-◌, ◌*◌, ◌^◌, ◌<◌, ◌≡◌, arith}
use cgraomp.Prelude.Int.{pos, negsuc}
use cgraomp.Errors.{ok}
use cgraomp.Ir.{Ir}
use cgraomp.LoopDependency.{quotient}

module _ (I : Ir) where
  -- For words of 4 bytes a distance of k words, with k above 0 and below 2 ^ 31, gives k, and a
  -- distance of k words in the other direction gives -k.
  pub quotient_signs :
      (k : ℕ)
      → 0 < k
      → k < 2 ^ 31
      → (quotient I (4 * k) 4 ≡ ok (pos k)) × (quotient I (2 ^ 64 - 4 * k) 4 ≡ ok (negsuc (k - 1)))
  unfolding quotient
  quotient_signs k p h = (ground arith, ground arith)
