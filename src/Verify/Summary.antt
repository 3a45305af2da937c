-- ===== src/Verify/Summary.antt =====
-- The summary of the results of a loop.
use cgraomp.Prelude.{ℕ, ◌≡◌, false, some, [], ◌∷◌, arith}
use cgraomp.Verify.{
  kind_number, VerifyResultBase, as_bool, LoopVerifyResult, assign_result, set_result, find_result,
  get_result, no_violation,
}

get_result-assign :
    (k : ℕ) (r : VerifyResultBase) (rs : LoopVerifyResult)
    → find_result k (assign_result k r rs) ≡ some r
unfolding find_result assign_result
get_result-assign k r [] = ground arith
get_result-assign k r ((j, q) ∷ rs) = ground (arith, get_result-assign k r rs)

assign-violation :
    (k : ℕ) (r : VerifyResultBase) (rs : LoopVerifyResult)
    → as_bool r ≡ false
    → no_violation (assign_result k r rs) ≡ false
unfolding no_violation assign_result
assign-violation k r [] h = ground arith
assign-violation k r ((j, q) ∷ rs) h = ground (arith, assign-violation k r rs h)

-- When the result of a violated rule is registered for a loop, whatever was registered before, the
-- summary of the loop is a violation, and the result is what a lookup of its kind returns.
pub set_result-violation :
    (r : VerifyResultBase) (rs : LoopVerifyResult)
    → as_bool r ≡ false
    → (no_violation (set_result r rs) ≡ false) × (get_result r.kind (set_result r rs) ≡ some r)
unfolding set_result get_result
set_result-violation r rs h =
    (assign-violation (kind_number r.kind) r rs h, get_result-assign (kind_number r.kind) r rs)
