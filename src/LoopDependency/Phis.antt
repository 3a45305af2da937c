-- ===== src/LoopDependency/Phis.antt =====
-- The phi nodes of a loop: which of them the analysis counts as dependencies.
use cgraomp.Prelude.{
  ℕ, ◌+◌, ◌≡◌, ◌<◌, inl, inr, refl, Bool, true, false, not, ◌&&◌, Option, none, some, List, [], ◌∷◌,
  ◌++◌, arith, length, any, All, eqb, has, Bool-cases, Option-cases, if◌then◌else◌,
}
use cgraomp.Errors.{ok}
use cgraomp.Ir.{Ir}
use cgraomp.LoopDependency.{
  LoopDependency, LoopDependencyInfo, InductionDescriptor, PhiNode, add_induction, add_dep,
  add_mem_dep, add_idv_dep, induction_variable_dependency, insert_pointer, get_num_dep,
  get_num_mem_dep, scan_incoming, add_phi, add_phis, simple_loop_dependency,
}

-- The induction variables of a nest.
abbrev pub indvars_of : List (Option InductionDescriptor) → List ℕ
indvars_of nests =
    (add_induction nests
      ([], record { indvar_dep_list = []; mem_dep_list = []; lc_dep_list = [] })).0

-- No dependency is counted.
abbrev pub is_free : LoopDependencyInfo → Bool
is_free r = eqb (get_num_dep r + get_num_mem_dep r) 0

-- Induction variables are not counted.
pub add_induction-is_free :
    (nests : List (Option InductionDescriptor)) (s : List ℕ × LoopDependencyInfo)
    → is_free (add_induction nests s).1 ≡ is_free s.1
unfolding add_induction get_num_dep get_num_mem_dep add_idv_dep
add_induction-is_free [] s = refl
add_induction-is_free (none ∷ nests) s = add_induction-is_free nests s
add_induction-is_free (some d ∷ nests) (set, r) = elim (Option-cases d.const_step) [
  | inl h ↦ rw h (add_induction-is_free nests (set, r))
  | inr (step, h) ↦ rw h (
      add_induction-is_free nests (
        insert_pointer d.indvar set,
        add_idv_dep (induction_variable_dependency d.indvar d.bin_op d.start) r,
      ))
]

length-concat_pos : (ds : List LoopDependency) (d : LoopDependency) → 0 < length (ds ++ d ∷ [])
length-concat_pos [] d = omega arith
length-concat_pos (e ∷ ds) d = omega (arith, length-concat_pos ds d)

add_dep-is_free : (d : LoopDependency) (r : LoopDependencyInfo) → is_free (add_dep d r) ≡ false
unfolding get_num_dep add_dep
add_dep-is_free d r = ground (arith, length-concat_pos r.lc_dep_list d)

pub add_mem_dep-is_free :
    (d : LoopDependency) (r : LoopDependencyInfo) → is_free (add_mem_dep d r) ≡ false
unfolding get_num_mem_dep add_mem_dep
add_mem_dep-is_free d r = ground (arith, length-concat_pos r.mem_dep_list d)

module _ (I : Ir) where
  open I use {operand_0, operand_1, is_load, is_store, is_instruction}

  -- A phi node of a loop in simplified form: one edge from outside and one from inside, or, inside
  -- the body, edges from inside only.
  pub data IsSimplified (blocks : List ℕ) (phi : PhiNode) : Type 0 where
    inner : All (λ e. has e.1 blocks ≡ true) phi.incoming → IsSimplified blocks phi
    entered :
        (a b : ℕ × ℕ)
        → phi.incoming ≡ a ∷ b ∷ []
        → has a.1 blocks ≡ not (has b.1 blocks)
        → IsSimplified blocks phi

  -- A value of the loop comes back in the next iteration, and it is no induction variable.
  unfoldable pub is_carried : List ℕ → List ℕ → PhiNode → Bool
  unfolding has
  is_carried indvars blocks phi =
      not (has phi.address indvars)
      && any (λ e. not (has e.1 blocks)) phi.incoming
      && any (λ e. has e.1 blocks && is_instruction e.0) phi.incoming

  -- What the scan of a simplified phi node's edges finds.
  scan_incoming-inner :
      (blocks : List ℕ) (edges : List (ℕ × ℕ)) (c : Option ℕ)
      → All (λ e. has e.1 blocks ≡ true) edges
      → (c' : Option ℕ) × (scan_incoming I blocks edges none c ≡ ok (none, c'))
  unfolding scan_incoming
  scan_incoming-inner blocks [] c h = (c, refl)
  scan_incoming-inner blocks (e ∷ edges) none h =
      rw (h.0, scan_incoming)
        (scan_incoming-inner blocks edges (if is_instruction e.0 then some e.0 else none) h.1)
  scan_incoming-inner blocks (e ∷ edges) (some c) h = rw (h.0, scan_incoming) (some c, refl)

  any-outside :
      (blocks : List ℕ) (edges : List (ℕ × ℕ))
      → All (λ e. has e.1 blocks ≡ true) edges
      → any (λ e. not (has e.1 blocks)) edges ≡ false
  unfolding any
  any-outside blocks [] h = refl
  any-outside blocks (e ∷ edges) h = ground (arith, any-outside blocks edges h.1)

  -- The value that comes from outside, and the one of the loop, if it is an instruction.
  scan_incoming-pair :
      (blocks : List ℕ) (a b : ℕ × ℕ)
      → has a.1 blocks ≡ not (has b.1 blocks)
      → (init inner : ℕ) × (scan_incoming I blocks (a ∷ b ∷ []) none none
          ≡ ok (some init, if is_instruction inner then some inner else none))
        × (any (λ e. not (has e.1 blocks)) (a ∷ b ∷ []) ≡ true)
        × (any (λ e. has e.1 blocks && is_instruction e.0) (a ∷ b ∷ []) ≡ is_instruction inner)
  unfolding scan_incoming any
  scan_incoming-pair blocks a b h = elim (Bool-cases (has b.1 blocks)) [
    | inl inside ↦
        (a.0, b.0, rw (h, inside, scan_incoming) (rw inside refl), ground arith, ground arith)
    | inr outside ↦
        (b.0, a.0, rw (h, outside, scan_incoming) (rw outside refl), ground arith, ground arith)
  ]

  -- A phi node counts exactly if it is carried.
  add_phi-is_free :
      (indvars blocks : List ℕ) (phi : PhiNode) (r : LoopDependencyInfo)
      → IsSimplified blocks phi
      → (r' : LoopDependencyInfo) × (add_phi I indvars blocks phi r ≡ ok r')
        × (is_free r' ≡ (if is_carried indvars blocks phi then false else is_free r))
  unfolding add_phi is_carried
  add_phi-is_free indvars blocks phi r (IsSimplified.inner h) =
      elim (Bool-cases (has phi.address indvars)) [
        | inl indvar ↦ rw indvar (r, refl, refl)
        | inr other ↦
            let (c, e) = scan_incoming-inner blocks phi.incoming none h in
            rw (other, e, any-outside blocks phi.incoming h) (r, refl, refl)
      ]
  add_phi-is_free indvars blocks phi r (IsSimplified.entered a b e h) =
      elim (Bool-cases (has phi.address indvars)) [
        | inl indvar ↦ rw indvar (r, refl, refl)
        | inr other ↦
            let (init, value, found, from_outside, from_inside) = scan_incoming-pair blocks a b h in
            rw (other, e, found, from_outside, from_inside)
              (elim (Bool-cases (is_instruction value)) [
                | inl carried ↦ rw carried (
                  add_dep (simple_loop_dependency value init phi.address) r,
                  refl,
                  add_dep-is_free _ r,
                )
                | inr other ↦ rw other (r, refl, refl)
              ])
      ]

  pub add_phis-is_free :
      (indvars blocks : List ℕ) (phis : List PhiNode) (r : LoopDependencyInfo)
      → All (IsSimplified blocks) phis
      → (r' : LoopDependencyInfo) × (add_phis I indvars blocks phis r ≡ ok r')
        × (is_free r' ≡ (if any (is_carried indvars blocks) phis then false else is_free r))
  unfolding add_phis any
  add_phis-is_free indvars blocks [] r h = (r, refl, refl)
  add_phis-is_free indvars blocks (phi ∷ phis) r h =
      let (r', e, f) = add_phi-is_free indvars blocks phi r h.0 in
      let (r'', e', f') = add_phis-is_free indvars blocks phis r' h.1 in
      (r'', rw (e, add_phis) e', ground (arith, f, f'))
