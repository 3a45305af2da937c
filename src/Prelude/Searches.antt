-- ===== src/Prelude/Searches.antt =====
-- A Boolean search of a list, and how it and filtering go together.
use Prim.Native.Nat.{◌≤◌}
use mathlib.Core.Path.{◌≡◌, refl}
use mathlib.Core.Logic.{inl, inr}
use mathlib.Core.Bool.{Bool, true, false}
use mathlib.Core.List.{List, [], ◌∷◌, ◌++◌}
use native.Mathlib.Omega.{arith}
use cgraomp.Prelude.Tests.{Bool-cases, if◌then◌else◌}
use cgraomp.Prelude.Lists.{keep, length}

module _ {ℓ} {A : Type ℓ} where
  unfoldable pub any : (A → Bool) → List A → Bool
  any p [] = false
  any p (x ∷ xs) = let rest = any p xs in if p x then true else rest

  pub any_head : (p : A → Bool) (x : A) (xs : List A) → any p (x ∷ xs) ≡ false → p x ≡ false
  unfolding any
  any_head p x xs h = ground arith

  pub any_tail : (p : A → Bool) (x : A) (xs : List A) → any p (x ∷ xs) ≡ false → any p xs ≡ false
  unfolding any
  any_tail p x xs h = ground arith

  pub any-append_left : (p : A → Bool) (xs ys : List A) → any p xs ≡ true → any p (xs ++ ys) ≡ true
  unfolding any
  any-append_left p [] ys h = cc
  any-append_left p (x ∷ xs) ys h = ground (arith, any-append_left p xs ys)

  pub any-concat : (p : A → Bool) (xs : List A) (y : A) → p y ≡ true → any p (xs ++ y ∷ []) ≡ true
  unfolding any
  any-concat p [] y h = ground arith
  any-concat p (x ∷ xs) y h = ground (arith, any-concat p xs y h)

  -- What implies another test implies it in a search.
  pub any_mono :
      (p q : A → Bool) (xs : List A)
      → ((x : A) → p x ≡ true → q x ≡ true)
      → any p xs ≡ true
      → any q xs ≡ true
  unfolding any
  any_mono p q [] f h = h
  any_mono p q (x ∷ xs) f h = ground (arith, any_mono p q xs f, f x)

  -- What is found and implies a filter is found behind the filter.
  pub any-keep :
      (p q : A → Bool) (xs : List A)
      → ((x : A) → p x ≡ true → q x ≡ true)
      → any p xs ≡ true
      → any p (keep q xs) ≡ true
  unfolding any keep
  any-keep p q [] f h = h
  any-keep p q (x ∷ xs) f h = ground (arith, any-keep p q xs f, f x)

  pub keep-concat :
      (p : A → Bool) (xs : List A) (y : A)
      → keep p (xs ++ y ∷ []) ≡ keep p xs ++ (if p y then y ∷ [] else [])
  unfolding keep
  keep-concat p [] y = refl
  keep-concat p (x ∷ xs) y = elim (Bool-cases (p x)) [
    | inl kept ↦ rw (kept, keep-concat p xs y)
    | inr dropped ↦ rw (dropped, keep-concat p xs y)
  ]

  pub keep_comm : (p q : A → Bool) (xs : List A) → keep p (keep q xs) ≡ keep q (keep p xs)
  unfolding keep
  keep_comm p q [] = refl
  keep_comm p q (x ∷ xs) = ground (arith, keep_comm p q xs)

  pub length-keep : (p : A → Bool) (xs : List A) → length (keep p xs) ≤ length xs
  unfolding keep
  length-keep p [] = omega arith
  length-keep p (x ∷ xs) = ground (arith, length-keep p xs)

  -- Nothing is kept that is not found.
  pub keep-empty : (p : A → Bool) (xs : List A) → any p xs ≡ false → keep p xs ≡ []
  unfolding any keep
  keep-empty p [] h = refl
  keep-empty p (x ∷ xs) h = ground (arith, keep-empty p xs)
