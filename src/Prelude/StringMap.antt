-- ===== src/Prelude/StringMap.antt =====
-- `llvm::StringMap` as an association list: `find`, `insert` (which keeps an old value), and
-- assignment through `operator[]`.
use cgraomp.Prelude.Tests.{◌==◌, if◌then◌else◌}
use Prim.Native.String.{String}
use mathlib.Core.Path.{◌≡◌, refl}
use mathlib.Core.Option.{Option, none, some}
use mathlib.Core.List.{List, [], ◌∷◌, ◌++◌}
use native.Mathlib.Omega.{arith}
use text.Mathlib.TextEquality.{eq_iff}

abbrev pub StringMap {ℓ} : Type ℓ → Type ℓ
StringMap V = List (String × V)

module _ {ℓ} {V : Type ℓ} where
  unfoldable pub find : String → StringMap V → Option V
  find k [] = none
  find k ((j, v) ∷ m) = let rest = find k m in if j == k then some v else rest

  unfoldable pub assign : String → V → StringMap V → StringMap V
  assign k v [] = (k, v) ∷ []
  assign k v ((j, w) ∷ m) = let rest = assign k v m in if j == k then (k, v) ∷ m else (j, w) ∷ rest

  unfoldable pub insert : String → V → StringMap V → StringMap V
  insert k v m = elim (find k m) [ none ↦ m ++ (k, v) ∷ [] | some _ ↦ m ]

  -- The constructor from an initializer list inserts from left to right.
  unfoldable pub of_list_onto : StringMap V → List (String × V) → StringMap V
  of_list_onto m [] = m
  of_list_onto m ((k, v) ∷ rest) = of_list_onto (insert k v m) rest

  unfoldable pub of_list : List (String × V) → StringMap V
  of_list l = of_list_onto [] l

  unfoldable pub keys : StringMap V → List String
  keys [] = []
  keys ((k, v) ∷ m) = k ∷ keys m

  -- Reading behind a write: the value that was written under its key, the old one elsewhere.
  pub find-assign :
      (k j : String) (v : V) (m : StringMap V)
      → find j (assign k v m) ≡ (if k == j then some v else find j m)
  unfolding find assign
  find-assign k j v ((i, w) ∷ m) =
      let rest = find-assign k j v m in ground (rest, eq_iff i j, eq_iff i k, eq_iff k j, arith)
  find-assign k j v [] = refl
