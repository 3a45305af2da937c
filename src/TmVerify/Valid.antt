-- ===== src/TmVerify/Valid.antt =====
-- When a kernel passes the verification for a time-multiplexed CGRA.
use cgraomp.Prelude.{
  ℕ, ◌≡◌, ◌↔◌, inl, inr, refl, Bool, true, false, not, Option, none, some, List, [], ◌∷◌, eqb, has,
  has-insert_new, insert_new, keep, length, subtract, All, arith, Option-cases, if◌then◌else◌,
}
use cgraomp.Prelude.Int.{ℤ}
use cgraomp.Errors.{ok}
use cgraomp.Llvm.{Llvm}
use cgraomp.Ir.{Ir}
use cgraomp.ScalarEvolution.{ScalarEvolution}
use cgraomp.Annotation.{Table}
use cgraomp.Model.{CgraModel}
use cgraomp.LoopDependency
use cgraomp.LoopDependency.{LoopDependency, LoopDependencyInfo}
use cgraomp.Verify.{LoopVerifyResult, inst_availability, set_result, no_violation}
use cgraomp.DecoupledVerify.{insert_phis, insert_unsupported, check_unsupported_inst}
use cgraomp.DecoupledVerify.Valid.{IsAccepted, none_unavailable_iff}
use cgraomp.TmVerify.{
  Branch, TmKernel, find_back_branch, get_all_gep, except_back, except_insts, verify_loop,
}

-- The summary of one result.
summary_of_one :
    (b : Bool)
    → (no_violation (set_result (record { kind = inst_availability; is_violate = b }) []) ≡ true)
      ↔ (b ≡ false)
unfolding no_violation set_result
summary_of_one b = (λ h. ground arith, λ h. ground arith)

-- What is inserted.
has-insert_unsupported :
    (a : ℕ) (vs us : List ℕ)
    → has a (insert_unsupported vs us) ≡ (if has a vs then true else has a us)
unfolding insert_unsupported has
has-insert_unsupported a [] us = refl
has-insert_unsupported a (v ∷ vs) us =
    ground (arith, has-insert_unsupported a vs (insert_new v us), has-insert_new a v us)

-- A phi node of a list of dependencies.
abbrev pub is_phi_of : ℕ → List LoopDependency → Bool
is_phi_of a [] = false
is_phi_of a (d ∷ ds) =
    let rest = is_phi_of a ds in
    elim d.phi [ none ↦ rest | some p ↦ if eqb a p then true else rest ]

has-insert_phis :
    (a : ℕ) (ds : List LoopDependency) (us : List ℕ)
    → has a (insert_phis ds us) ≡ (if is_phi_of a ds then true else has a us)
unfolding insert_phis
has-insert_phis a [] us = refl
has-insert_phis a (d ∷ ds) us = elim (Option-cases d.phi) [
  | inl e ↦ rw (insert_phis, e) (has-insert_phis a ds us)
  | inr (p, e) ↦
      rw (insert_phis, e)
        (ground (arith, has-insert_phis a ds (insert_new p us), has-insert_new a p us))
]

-- The instructions that control the loop: the branch of the latch, if it is conditional, and its
-- condition.
abbrev pub is_control : Option Branch → ℕ → Bool
is_control none a = false
is_control (some b) a = elim b.condition [
  | none ↦ false
  | some c ↦ if eqb a c then true else eqb a b.address
]

-- An instruction that the model need not support.
unfoldable pub is_excepted : TmKernel → LoopDependencyInfo → ℕ → Bool
unfolding find_back_branch has keep
is_excepted k ld a =
    if has a (get_all_gep k)
    then true
    else if is_control (find_back_branch k.latch) a
    then true
    else if is_phi_of a ld.lc_dep_list
    then true
    else is_phi_of a ld.indvar_dep_list

except_back_lem :
    (back : Option Branch) (except : List ℕ)
    → ((b : Branch) → back ≡ some b → (c : ℕ) × (b.condition ≡ some c))
    → (except' : List ℕ) × (except_back back except ≡ ok except')
      × ((a : ℕ) → has a except' ≡ (if is_control back a then true else has a except))
unfolding except_back
except_back_lem none except h = (except, refl, λ a. refl)
except_back_lem (some b) except h =
    let (c, e) = h b refl in
    rw e (
      insert_new c (insert_new b.address except),
      refl,
      λ a. ground (
        arith,
        has-insert_new a c (insert_new b.address except),
        has-insert_new a b.address except,
      ),
    )

except_insts_lem :
    (k : TmKernel) (ld : LoopDependencyInfo)
    → ((b : Branch) → find_back_branch k.latch ≡ some b → (c : ℕ) × (b.condition ≡ some c))
    → (except : List ℕ) × (except_insts k ld ≡ ok except)
      × ((a : ℕ) → has a except ≡ is_excepted k ld a)
unfolding except_insts is_excepted has
except_insts_lem k ld h =
    let phis = insert_phis ld.lc_dep_list (insert_phis ld.indvar_dep_list []) in
    let (except, e, inside) = except_back_lem (find_back_branch k.latch) phis h in
    (
      insert_unsupported (get_all_gep k) except,
      rw (except_insts, e) refl,
      λ a. ground (
        arith,
        has-insert_unsupported a (get_all_gep k) except,
        inside a,
        has-insert_phis a ld.lc_dep_list (insert_phis ld.indvar_dep_list []),
        has-insert_phis a ld.indvar_dep_list [],
      ),
    )

module _ (I : Ir) (E : ScalarEvolution) (L : Llvm) (as_instruction : ℕ → Option L.Instruction)
    (cached : Option (Table L)) (model : CgraModel L) where
  -- Take a loop kernel for which the dependency analysis and the tests of its instructions return,
  -- and whose latch, if it ends with a conditional branch, branches on a comparison. The
  -- verification of the kernel for a time-multiplexed CGRA returns, and it finds no violation
  -- exactly if every instruction is supported by the model or excepted; the excepted ones are the
  -- address computations of the loop, the branch with its comparison, and the phi nodes of
  -- induction variables and of counted dependencies by registers.
  pub verify_loop_excepted_iff :
      (threshold : ℤ) (k : TmKernel) (ld : LoopDependencyInfo) (us : List ℕ)
      → LoopDependency.run I threshold k.facts ≡ ok ld
      → check_unsupported_inst I E L as_instruction cached model k.insts ≡ ok us
      → ((b : Branch) → find_back_branch k.latch ≡ some b → (c : ℕ) × (b.condition ≡ some c))
      → (lvr : LoopVerifyResult) × (except : List ℕ) × (verify_loop I E L as_instruction cached
            model threshold k
          ≡ ok lvr)
        × ((a : ℕ) → has a except ≡ is_excepted k ld a)
        × ((no_violation lvr ≡ true)
            ↔ All (IsAccepted I E L as_instruction cached model except) k.insts)
  unfolding verify_loop
  verify_loop_excepted_iff threshold k ld us independent checked compared =
      let (except, e, inside) = except_insts_lem k ld compared in
      let unsupported = subtract (insert_unsupported us []) except in
      let available =
        none_unavailable_iff I E L as_instruction cached model except k.insts us checked in
      let summary = summary_of_one (not (eqb (length unsupported) 0)) in
      (
        _,
        except,
        rw (verify_loop, independent, e, checked) refl,
        inside,
        (λ h. available.0 (summary.0 h), λ h. summary.1 (available.1 h)),
      )
