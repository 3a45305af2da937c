-- ===== src/Prelude/Lists.antt =====
-- Lists measured by native numbers, predicates over them, and filtering by a Boolean test.
use Prim.Native.Nat.{ℕ, zero, suc}
use mathlib.Core.Path.{◌≡◌}
use mathlib.Core.Bool.{Bool, true}
use mathlib.Core.Option.{Option, none, some}
use mathlib.Core.List.{List, [], ◌∷◌, ◌++◌}
use native.Mathlib.Omega.{arith}
use mathlib.Core.Logic.{inl, inr}
use cgraomp.Prelude.Tests.{Bool-cases, if◌then◌else◌}

module _ {ℓ} {A : Type ℓ} where
  abbrev pub length : List A → ℕ
  length [] = 0
  length (x ∷ xs) = suc (length xs)

  abbrev pub get_elem? : List A → ℕ → Option A
  get_elem? [] i = none
  get_elem? (x ∷ xs) zero = some x
  get_elem? (x ∷ xs) (suc i) = get_elem? xs i

  abbrev pub take : ℕ → List A → List A
  take zero xs = []
  take (suc n) [] = []
  take (suc n) (x ∷ xs) = x ∷ take n xs

  -- What passes the test, in order.
  pub length-concat : (xs : List A) (x : A) → length (xs ++ x ∷ []) ≡ suc (length xs)
  length-concat [] x = omega arith
  length-concat (y ∷ xs) x = omega (arith, length-concat xs x)

  unfoldable pub keep : (A → Bool) → List A → List A
  keep p [] = []
  keep p (x ∷ xs) = let rest = keep p xs in if p x then x ∷ rest else rest

  -- The first that passes the test.
  unfoldable pub first : (A → Bool) → List A → Option A
  first p [] = none
  first p (x ∷ xs) = let rest = first p xs in if p x then some x else rest

  pub first-append_some :
      (p : A → Bool) (xs ys : List A) (a : A) → first p xs ≡ some a → first p (xs ++ ys) ≡ some a
  unfolding first
  first-append_some p [] ys a h = cc
  first-append_some p (x ∷ xs) ys a h = ground (arith, first-append_some p xs ys a)

module _ {ℓ κ} {A : Type ℓ} (P : A → Type κ) where
  abbrev pub All : List A → Type κ
  All [] = Unit {κ}
  All (x ∷ xs) = P x × All xs

module _ {ℓ κ} {A : Type ℓ} (P : A → Type κ) where
  pub All-concat : (xs : List A) (y : A) → All P xs → P y → All P (xs ++ y ∷ [])
  All-concat [] y h k = (k, tt)
  All-concat (x ∷ xs) y h k = (h.0, All-concat xs y h.1 k)

  pub All-keep : (p : A → Bool) (xs : List A) → All P xs → All P (keep p xs)
  unfolding keep
  All-keep p [] h = tt
  All-keep p (x ∷ xs) h = elim (Bool-cases (p x)) [
    | inl kept ↦ rw kept (h.0, All-keep p xs h.1)
    | inr dropped ↦ rw dropped (All-keep p xs h.1)
  ]

pub All-map {ℓ κ μ} :
    {A : Type ℓ} (P : A → Type κ) (Q : A → Type μ) (xs : List A)
    → ((x : A) → P x → Q x)
    → All P xs
    → All Q xs
All-map P Q [] f h = tt
All-map P Q (x ∷ xs) f h = (f x h.0, All-map P Q xs f h.1)

pub All-map₂ {ℓ κ μ ν} :
    {A : Type ℓ} (P : A → Type κ) (Q : A → Type μ) (R : A → Type ν) (xs : List A)
    → ((x : A) → P x → Q x → R x)
    → All P xs
    → All Q xs
    → All R xs
All-map₂ P Q R [] f h k = tt
All-map₂ P Q R (x ∷ xs) f h k = (f x h.0 k.0, All-map₂ P Q R xs f h.1 k.1)

pub keep-All {ℓ} : {A : Type ℓ} (p : A → Bool) (xs : List A) → All (λ x. p x ≡ true) (keep p xs)
unfolding keep
keep-All p [] = tt
keep-All p (x ∷ xs) = elim (Bool-cases (p x)) [
  | inl kept ↦ rw kept (kept, keep-All p xs)
  | inr dropped ↦ rw dropped (keep-All p xs)
]
