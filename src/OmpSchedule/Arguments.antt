-- ===== src/OmpSchedule/Arguments.antt =====
-- The arguments of the call that sets up a schedule: what the set of them returns.
use cgraomp.Prelude.{
  ℕ, zero, suc, ◌+◌, ◌≤◌, ◌≡◌, ◌↔◌, refl, sym, subst, ◌∙◌, inl, inr, false, List, [], ◌∷◌, ◌++◌,
  arith, length, length-concat, has, insert_new, IsDistinct, concat-IsDistinct, has-concat, eqb,
  All, All-map₂, Bool-cases,
}
use cgraomp.Errors.{ok}
use mathlib.Core.List.{append-nil, append_assoc}
use cgraomp.OmpSchedule.{
  value_at, insert_all, new_schedule_info, info_at, get_schedule_type, get_last_iter_flag,
  get_lower_bound, get_upper_bound, get_stride, get_increment, get_chunk,
}

insert_new-IsDistinct : (v : ℕ) (set : List ℕ) → IsDistinct set → IsDistinct (insert_new v set)
unfolding insert_new
insert_new-IsDistinct v set d = elim (Bool-cases (has v set)) [
  | inl there ↦ rw there d
  | inr new ↦ rw new (concat-IsDistinct set v d new)
]

insert_all-IsDistinct : (set vs : List ℕ) → IsDistinct set → IsDistinct (insert_all set vs)
unfolding insert_all
insert_all-IsDistinct set [] d = d
insert_all-IsDistinct set (v ∷ vs) d =
    insert_all-IsDistinct (insert_new v set) vs (insert_new-IsDistinct v set d)

length-insert_new : (v : ℕ) (set : List ℕ) → length (insert_new v set) ≤ suc (length set)
unfolding insert_new
length-insert_new v set = elim (Bool-cases (has v set)) [
  | inl there ↦ rw there (omega arith)
  | inr new ↦ rw (new, length-concat set v) (omega arith)
]

length-insert_all : (set vs : List ℕ) → length (insert_all set vs) ≤ length set + length vs
unfolding insert_all
length-insert_all set [] = omega arith
length-insert_all set (v ∷ vs) =
    let inner = length-insert_all (insert_new v set) vs in
    let step = length-insert_new v set in omega arith

-- When all values are inserted, none was there before.
insert_all-full :
    (set vs : List ℕ)
    → length set + length vs ≤ length (insert_all set vs)
    → insert_all set vs ≡ set ++ vs
unfolding insert_all insert_new
insert_all-full set [] h = sym (append-nil set)
insert_all-full set (v ∷ vs) h = elim (Bool-cases (has v set)) [
  | inl there ↦ let le = length-insert_all set vs in absurd (let h' = rw there at h in omega arith)
  | inr new ↦
      let full : insert_all (set ++ v ∷ []) vs ≡ (set ++ v ∷ []) ++ vs =
        insert_all-full (set ++ v ∷ []) vs
          (let h' = rw new at h in let one = length-concat set v in omega arith) in
      rw new (full ∙ append_assoc set (v ∷ []) vs)
]

-- Values that are distinct are all inserted.
insert_all-distinct :
    (set vs : List ℕ)
    → IsDistinct vs
    → All (λ v. has v set ≡ false) vs
    → insert_all set vs ≡ set ++ vs
unfolding insert_all insert_new
insert_all-distinct set [] d h = sym (append-nil set)
insert_all-distinct set (v ∷ vs) d h = rw h.0 (
    insert_all-distinct (set ++ v ∷ []) vs d.1 (
      All-map₂ (λ w. eqb v w ≡ false) (λ w. has w set ≡ false) (λ w. has w (set ++ v ∷ []) ≡ false)
        vs (λ w apart old. has-concat w set v ∙ ground arith) d.0 h.1)
    ∙ append_assoc set (v ∷ []) vs)

-- An index that is in range.
in_range : (xs : List ℕ) (i v : ℕ) → value_at xs i ≡ ok v → suc i ≤ length xs
in_range [] i v h = cc
in_range (x ∷ xs) zero v h = omega arith
in_range (x ∷ xs) (suc i) v h = omega (arith, in_range xs i v h)

-- All seven getters of the information on a schedule, made from a caller and seven values, return
-- the values that they are named after if and only if the seven values are distinct.
pub schedule_getters_iff :
    (caller a b c d e f g : ℕ)
    → let r = new_schedule_info caller a b c d e f g in
      ((get_schedule_type r ≡ ok a)
        × (get_last_iter_flag r ≡ ok b)
        × (get_lower_bound r ≡ ok c)
        × (get_upper_bound r ≡ ok d)
        × (get_stride r ≡ ok e)
        × (get_increment r ≡ ok f)
        × (get_chunk r ≡ ok g))
      ↔ IsDistinct (a ∷ b ∷ c ∷ d ∷ e ∷ f ∷ g ∷ [])
unfolding new_schedule_info get_schedule_type get_last_iter_flag get_lower_bound get_upper_bound
    get_stride get_increment get_chunk info_at has
schedule_getters_iff caller a b c d e f g =
    let vs = a ∷ b ∷ c ∷ d ∷ e ∷ f ∷ g ∷ [] in
    let info = insert_all [] vs in
    let distinct = insert_all-IsDistinct [] vs tt in
    (
      λ h.
          let long = in_range info 6 g h.6 in
          subst IsDistinct (insert_all-full [] vs long) distinct,
      λ h.
          let same : info ≡ vs =
            insert_all-distinct [] vs h
              (refl, (refl, (refl, (refl, (refl, (refl, (refl, tt))))))) in
          rw same (refl, refl, refl, refl, refl, refl, refl),
    )
