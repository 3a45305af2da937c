-- ===== src/Prelude/Sets.antt =====
-- Sets of pointers, as lists of addresses: membership, insertion, intersection, difference.
use Prim.Native.Nat.{ℕ, suc, ◌≤◌, ◌<◌}
use mathlib.Core.Path.{◌≡◌, refl, ◌∙◌}
use mathlib.Core.Logic.{◌↔◌}
use mathlib.Core.Logic.{inl, inr}
use mathlib.Core.Bool.{Bool, true, false, not}
use mathlib.Core.List.{List, [], ◌∷◌, ◌++◌}
use native.Mathlib.Omega.{arith}
use cgraomp.Prelude.Tests.{eqb, Bool-cases, if◌then◌else◌}
use cgraomp.Prelude.Lists.{keep, length, All, All-keep, All-concat}

unfoldable pub has : ℕ → List ℕ → Bool
has a [] = false
has a (x ∷ xs) = let rest = has a xs in if eqb a x then true else rest

unfoldable pub insert_new : ℕ → List ℕ → List ℕ
insert_new a xs = if has a xs then xs else xs ++ a ∷ []

-- `set_subtract`
unfoldable pub subtract : List ℕ → List ℕ → List ℕ
subtract xs ys = keep (λ x. not (has x ys)) xs

-- `set_intersect`
unfoldable pub intersect : List ℕ → List ℕ → List ℕ
intersect xs ys = keep (λ x. has x ys) xs

pub has-concat :
    (a : ℕ) (xs : List ℕ) (y : ℕ) → has a (xs ++ y ∷ []) ≡ (if eqb a y then true else has a xs)
unfolding has
has-concat a [] y = refl
has-concat a (x ∷ xs) y = ground (arith, has-concat a xs y)

pub has-keep :
    (p : ℕ → Bool) (a : ℕ) (xs : List ℕ) → has a (keep p xs) ≡ (if p a then has a xs else false)
unfolding has keep
has-keep p a [] = ground arith
has-keep p a (x ∷ xs) = elim (Bool-cases (eqb a x)) [
  | inl same ↦ let at : a ≡ x = ground arith in rw at (ground (arith, has-keep p x xs))
  | inr other ↦ ground (arith, has-keep p a xs)
]

pub has-insert_new :
    (a b : ℕ) (xs : List ℕ) → has a (insert_new b xs) ≡ (if eqb a b then true else has a xs)
unfolding insert_new
has-insert_new a b xs = elim (Bool-cases (eqb a b)) [
  | inl same ↦ let at : a ≡ b = ground arith in rw at (ground (arith, has-concat b xs b))
  | inr other ↦ ground (arith, has-concat a xs b)
]

-- What holds of all elements holds of one that is found.
pub All-has {κ} : (P : ℕ → Type κ) (a : ℕ) (xs : List ℕ) → All P xs → has a xs ≡ true → P a
unfolding has
All-has P a [] h m = cc
All-has P a (x ∷ xs) h m = elim (Bool-cases (eqb a x)) [
  | inl same ↦ let at : a ≡ x = ground arith in rw at h.0
  | inr other ↦ All-has P a xs h.1 (ground arith)
]

pub has-All {κ} : (P : ℕ → Type κ) (xs : List ℕ) → ((a : ℕ) → has a xs ≡ true → P a) → All P xs
unfolding has
has-All P [] f = tt
has-All P (x ∷ xs) f = (f x (ground arith), has-All P xs (λ a h. f a (ground arith)))

pub insert_new-All_iff {κ} :
    (P : ℕ → Type κ) (a : ℕ) (xs : List ℕ) → All P (insert_new a xs) ↔ (P a × All P xs)
unfolding insert_new
insert_new-All_iff P a xs = elim (Bool-cases (has a xs)) [
  | inl there ↦ rw there (λ h. (All-has P a xs h there, h), λ h. h.1)
  | inr fresh ↦ rw fresh (λ h. split xs h, λ h. All-concat P xs a h.1 h.0)
]
  where
    split : (ys : List ℕ) → All P (ys ++ a ∷ []) → P a × All P ys
    split [] h = (h.0, tt)
    split (y ∷ ys) h = let (q, qs) = split ys h.1 in (q, (h.0, qs))

-- The elements of a list that are not in a set; each that is inserted makes them fewer.
unfoldable pub missing : List ℕ → List ℕ → ℕ
unfolding has
missing [] set = 0
missing (x ∷ xs) set = let rest = missing xs set in if has x set then rest else suc rest

missing-concat-le : (a : ℕ) (xs set : List ℕ) → missing xs (set ++ a ∷ []) ≤ missing xs set
unfolding missing
missing-concat-le a [] set = omega arith
missing-concat-le a (x ∷ xs) set = ground (arith, missing-concat-le a xs set, has-concat x set a)

pub missing-concat :
    (a : ℕ) (xs set : List ℕ)
    → has a xs ≡ true
    → has a set ≡ false
    → missing xs (set ++ a ∷ []) < missing xs set
unfolding missing has
missing-concat a [] set h k = cc
missing-concat a (x ∷ xs) set h k = elim (Bool-cases (eqb a x)) [
  | inl same ↦
      let at : a ≡ x = ground arith in
      let fewer = missing-concat-le a xs set in rw (← at) (ground (arith, has-concat a set a))
  | inr other ↦
      ground (arith, missing-concat a xs set, missing-concat-le a xs set, has-concat x set a)
]

-- No element stands twice.
abbrev pub IsDistinct : List ℕ → Type 0
IsDistinct [] = Unit {0}
IsDistinct (n ∷ ns) = All (λ m. eqb n m ≡ false) ns × IsDistinct ns

pub keep-IsDistinct : (p : ℕ → Bool) (ns : List ℕ) → IsDistinct ns → IsDistinct (keep p ns)
unfolding keep
keep-IsDistinct p [] h = tt
keep-IsDistinct p (n ∷ ns) h = elim (Bool-cases (p n)) [
  | inl kept ↦ rw kept (All-keep (λ m. eqb n m ≡ false) p ns h.0, keep-IsDistinct p ns h.1)
  | inr dropped ↦ rw dropped (keep-IsDistinct p ns h.1)
]

pub concat-IsDistinct :
    (ns : List ℕ) (n : ℕ) → IsDistinct ns → has n ns ≡ false → IsDistinct (ns ++ n ∷ [])
unfolding has
concat-IsDistinct [] n d h = (tt, tt)
concat-IsDistinct (m ∷ ns) n d h = (
  All-concat (λ k. eqb m k ≡ false) ns n d.0 (ground arith),
  concat-IsDistinct ns n d.1 (ground arith),
)

-- The list without the first place of an element.
remove_first : ℕ → List ℕ → List ℕ
remove_first a [] = []
remove_first a (x ∷ xs) = let rest = remove_first a xs in if eqb a x then xs else x ∷ rest

length-remove_first :
    (a : ℕ) (xs : List ℕ) → has a xs ≡ true → suc (length (remove_first a xs)) ≡ length xs
unfolding remove_first has
length-remove_first a [] h = cc
length-remove_first a (x ∷ xs) h = ground (arith, length-remove_first a xs)

has-remove_first : (a b : ℕ) (xs : List ℕ) → eqb a b ≡ false → has b (remove_first a xs) ≡ has b xs
unfolding remove_first has
has-remove_first a b [] h = refl
has-remove_first a b (x ∷ xs) h = ground (arith, has-remove_first a b xs h)

rest_subset :
    (x : ℕ) (xs ys : List ℕ)
    → All (λ m. eqb x m ≡ false) xs
    → All (λ a. has a ys ≡ true) xs
    → All (λ a. has a (remove_first x ys) ≡ true) xs
rest_subset x [] ys d h = tt
rest_subset x (a ∷ xs) ys d h = (has-remove_first x a ys d.0 ∙ h.0, rest_subset x xs ys d.1 h.1)

-- Distinct elements of a list are no more than its length.
pub length-le_of_subset :
    (xs ys : List ℕ) → IsDistinct xs → All (λ a. has a ys ≡ true) xs → length xs ≤ length ys
length-le_of_subset [] ys d h = omega arith
length-le_of_subset (x ∷ xs) ys d h = omega (
  arith,
  length-remove_first x ys h.0,
  length-le_of_subset xs (remove_first x ys) d.1 (rest_subset x xs ys d.0 h.1),
)

-- Distinct elements of a list that are as many as its length are all of its elements.
pub subset_full :
    (xs ys : List ℕ)
    → IsDistinct xs
    → All (λ a. has a ys ≡ true) xs
    → length ys ≤ length xs
    → (b : ℕ) → has b ys ≡ true
    → has b xs ≡ true
unfolding has
subset_full [] [] d h le b m = m
subset_full [] (y ∷ ys) d h le b m = absurd (omega arith)
subset_full (x ∷ xs) ys d h le b m = elim (Bool-cases (eqb b x)) [
  | inl same ↦ ground arith
  | inr other ↦
      let size = length-remove_first x ys h.0 in
      let rest =
        subset_full xs (remove_first x ys) d.1 (rest_subset x xs ys d.0 h.1) (omega arith) b
          (has-remove_first x b ys (ground arith) ∙ m) in
      ground arith
]
