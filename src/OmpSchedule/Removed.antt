-- ===== src/OmpSchedule/Removed.antt =====
-- The calls that set up schedules: each is erased once.
use cgraomp.Prelude.{
  ℕ, ◌≡◌, ◌↔◌, refl, sym, ap, subst, ◌∙◌, ◌⊎◌, inl, inr, Bool, true, false, String, Option, none,
  some, List, [], ◌∷◌, ◌++◌, arith, eqb, has, insert_new, IsDistinct, has-concat, All, All-map,
  All-map₂, Bool-cases, if◌then◌else◌,
}
use cgraomp.Errors.{Result, ok, fault, ◌>>=◌, ok_inj, >>=-eq-ok, use_after_free}
use cgraomp.Llvm.{Llvm}
use cgraomp.OmpKernels.{CallBase}
use cgraomp.OmpSchedule.{
  OmpScheduleInfo, new_schedule_info, invalid_schedule_info, find_init_call, schedule_of,
  run_analysis, erase, remove_schedules,
}
use mathlib.Core.List.{append-nil, append_assoc}

-- The call of a valid schedule.
abbrev pub call_of : OmpScheduleInfo → List ℕ
call_of r = if r.valid then (elim r.caller [ none ↦ [] | some call ↦ call ∷ [] ]) else []

has_nil : (c : ℕ) → has c [] ≡ false
unfolding has
has_nil c = refl

-- A valid schedule has its caller.
abbrev HasCaller : OmpScheduleInfo → Type 0
HasCaller r = r.valid ≡ true → (c : ℕ) × (r.caller ≡ some c)

schedule_of-HasCaller : (caller : ℕ) (operands : List ℕ) → HasCaller (schedule_of caller operands)
unfolding schedule_of new_schedule_info invalid_schedule_info
schedule_of-HasCaller caller [] k = cc
schedule_of-HasCaller caller (a ∷ []) k = cc
schedule_of-HasCaller caller (a ∷ b ∷ []) k = cc
schedule_of-HasCaller caller (a ∷ b ∷ c ∷ []) k = cc
schedule_of-HasCaller caller (a ∷ b ∷ c ∷ d ∷ []) k = cc
schedule_of-HasCaller caller (a ∷ b ∷ c ∷ d ∷ e ∷ []) k = cc
schedule_of-HasCaller caller (a ∷ b ∷ c ∷ d ∷ e ∷ f ∷ []) k = cc
schedule_of-HasCaller caller (a ∷ b ∷ c ∷ d ∷ e ∷ f ∷ g ∷ []) k = cc
schedule_of-HasCaller caller (a ∷ b ∷ c ∷ d ∷ e ∷ f ∷ g ∷ h ∷ []) k = cc
schedule_of-HasCaller caller (a ∷ b ∷ c ∷ d ∷ e ∷ f ∷ g ∷ h ∷ i ∷ rest) k = (caller, refl)

module _ (L : Llvm) (starts_with : String → String → Bool) where
  run_analysis-HasCaller :
      (calls : List (CallBase L)) (r : OmpScheduleInfo)
      → run_analysis L starts_with calls ≡ ok r
      → HasCaller r
  unfolding run_analysis invalid_schedule_info
  run_analysis-HasCaller calls r h =
      let (found, e, made) =
        >>=-eq-ok (find_init_call L starts_with calls)
          (λ o. elim o [
            | none ↦ ok invalid_schedule_info
            | some call ↦ ok (schedule_of call.address call.operands)
          ])
          h in
      by_found found made
    where
      by_found :
          (o : Option (CallBase L))
          → elim o as (λ x. Result OmpScheduleInfo) [
            | none ↦ ok invalid_schedule_info
            | some call ↦ ok (schedule_of call.address call.operands)
          ]
            ≡ ok r
          → HasCaller r
      by_found none k = subst HasCaller (ok_inj k) (λ v. cc)
      by_found (some call) k =
          subst HasCaller (ok_inj k) (schedule_of-HasCaller call.address call.operands)

module _ (L : Llvm) (starts_with : String → String → Bool) (body : L.Function → List (CallBase L))
    (info : L.Function → OmpScheduleInfo)
    (found : (f : L.Function) → run_analysis L starts_with (body f) ≡ ok (info f)) where
  -- The calls of the schedules of these functions.
  abbrev pub calls_of : List L.Function → List ℕ
  calls_of [] = []
  calls_of (f ∷ fs) = call_of (info f) ++ calls_of fs

  -- None of these calls is erased already.
  abbrev IsNew : List ℕ → List ℕ → Type 0
  IsNew erased calls = IsDistinct calls × All (λ c. has c erased ≡ false) calls

  unerased :
      (erased calls : List ℕ) (call : ℕ)
      → IsNew (erased ++ call ∷ []) calls
      → has call erased ≡ false
      → IsNew erased (call ∷ calls)
  unerased erased calls call (d, new) fresh = (
    (
      All-map (λ c. has c (erased ++ call ∷ []) ≡ false) (λ c. eqb call c ≡ false) calls
          (λ c h. apart c (sym (has-concat c erased call) ∙ h)) new,
      d,
    ),
    (
      fresh,
      All-map (λ c. has c (erased ++ call ∷ []) ≡ false) (λ c. has c erased ≡ false) calls
          (λ c h. older c (sym (has-concat c erased call) ∙ h)) new,
    ),
  )
    where
      apart : (c : ℕ) → (if eqb c call then true else has c erased) ≡ false → eqb call c ≡ false
      apart c h = ground arith

      older : (c : ℕ) → (if eqb c call then true else has c erased) ≡ false → has c erased ≡ false
      older c h = ground arith

  next-IsNew :
      (erased calls : List ℕ) (call : ℕ)
      → IsNew erased (call ∷ calls)
      → IsNew (erased ++ call ∷ []) calls
  next-IsNew erased calls call ((away, d), (fresh, new)) = (
    d,
    All-map₂ (λ c. eqb call c ≡ false) (λ c. has c erased ≡ false)
        (λ c. has c (erased ++ call ∷ []) ≡ false) calls
        (λ c h k. has-concat c erased call ∙ ground arith) away new,
  )

  erase_new :
      (call : ℕ) (erased : List ℕ)
      → has call erased ≡ false
      → erase L starts_with call erased ≡ ok (erased ++ call ∷ [])
  unfolding erase insert_new
  erase_new call erased h = rw h refl

  erased_twice :
      (call : ℕ) (erased : List ℕ)
      → has call erased ≡ true
      → erase L starts_with call erased ≡ fault use_after_free
  unfolding erase
  erased_twice call erased h = rw h refl

  -- What a function whose schedule is valid, or is not, erases.
  remove_one :
      (f : L.Function) (fs : List L.Function) (erased : List ℕ)
      → ((info f).valid ≡ true → (c : ℕ) × ((info f).caller ≡ some c))
      → ((calls_of (f ∷ fs) ≡ calls_of fs)
          × (remove_schedules L starts_with body (f ∷ fs) erased
              ≡ remove_schedules L starts_with body fs erased))
        ⊎ ((c : ℕ) × (calls_of (f ∷ fs) ≡ c ∷ calls_of fs)
            × (remove_schedules L starts_with body (f ∷ fs) erased ≡ (
                erase L starts_with c erased >>= λ erased'.
                remove_schedules L starts_with body fs erased')))
  unfolding remove_schedules
  remove_one f fs erased caller = elim (Bool-cases (info f).valid) [
    | inr invalid ↦ inl (rw invalid refl, rw (found f, invalid) refl)
    | inl v ↦ let (c, e) = caller v in inr (c, rw (v, e) refl, rw (found f, v, e) refl)
  ]

  -- All are erased if they are distinct and new.
  removed :
      (fs : List L.Function) (erased : List ℕ)
      → IsNew erased (calls_of fs)
      → remove_schedules L starts_with body fs erased ≡ ok (erased ++ calls_of fs)
  unfolding remove_schedules
  removed [] erased new = ap ok (sym (append-nil erased))
  removed (f ∷ fs) erased new =
      elim (remove_one f fs erased
        (run_analysis-HasCaller L starts_with (body f) (info f) (found f))) [
          | inl (same, e) ↦
              e
              ∙ removed fs erased (subst (IsNew erased) same new)
              ∙ ap (λ cs. ok (erased ++ cs)) (sym same)
          | inr (c, calls, e) ↦
              let new' = subst (IsNew erased) calls new in
              let rest = removed fs (erased ++ c ∷ []) (next-IsNew erased (calls_of fs) c new') in
              e
              ∙ rw (erase_new c erased new'.1.0) rest
              ∙ ap ok (append_assoc erased (c ∷ []) (calls_of fs))
              ∙ ap (λ cs. ok (erased ++ cs)) (sym calls)
        ]

  -- A run that returns has erased distinct and new calls.
  was-IsNew :
      (fs : List L.Function) (erased es : List ℕ)
      → remove_schedules L starts_with body fs erased ≡ ok es
      → IsNew erased (calls_of fs)
  was-IsNew [] erased es h = (tt, tt)
  was-IsNew (f ∷ fs) erased es h =
      elim (remove_one f fs erased
        (run_analysis-HasCaller L starts_with (body f) (info f) (found f))) [
          | inl (same, e) ↦ subst (IsNew erased) (sym same) (was-IsNew fs erased es (sym e ∙ h))
          | inr (c, calls, e) ↦ subst (IsNew erased) (sym calls) (elim (Bool-cases (has c erased)) [
            | inl there ↦ absurd (twice c there (sym e ∙ h))
            | inr fresh ↦
                unerased erased (calls_of fs) c
                  (was-IsNew fs (erased ++ c ∷ []) es (
                    sym (
                      ap (λ r. r >>= λ k. remove_schedules L starts_with body fs k)
                        (erase_new c erased fresh))
                    ∙ sym e
                    ∙ h))
                  fresh
          ])
        ]
    where
      twice :
          (c : ℕ)
          → has c erased ≡ true
          → (erase L starts_with c erased >>= λ k. remove_schedules L starts_with body fs k) ≡ ok es
          → ⊥
      twice c there k = let gone = rw (erased_twice c erased there) at k in cc

  -- Let the analysis of the schedule return for every function. The removal of the schedules of
  -- some kernels, where the analysis of a function that is met again is the cached one, erases
  -- exactly the calls of their valid schedules, in this order, if and only if these calls are
  -- distinct; so no call is erased twice then.
  pub remove_schedules_iff :
      (fs : List L.Function)
      → (remove_schedules L starts_with body fs [] ≡ ok (calls_of fs)) ↔ IsDistinct (calls_of fs)
  remove_schedules_iff fs = (
    (λ h. (was-IsNew fs [] (calls_of fs) h).0),
    (λ d. removed fs [] (d, none_erased (calls_of fs))),
  )
    where
      none_erased : (cs : List ℕ) → All (λ c. has c [] ≡ false) cs
      none_erased [] = tt
      none_erased (c ∷ cs) = (has_nil c, none_erased cs)
