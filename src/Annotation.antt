-- ===== src/Annotation.antt =====
-- src/Passes/CGRAOmpAnnotationPass/CGRAOmpAnnotationPass.cpp and
-- include/CGRAOmpAnnotationPass.hpp: which annotations each function has. The analysis managers
-- are LLVM's: whether a result of the module pass is cached is an argument of the function pass.
pub mod Cache
use cgraomp.Prelude.{
  ℕ, String, Bool, true, false, Option, none, some, List, [], ◌∷◌, ◌++◌, ◌==◌, if◌then◌else◌,
}
use cgraomp.Errors.{Result, ok, fault, null_dereference, ◌>>=◌, deref}
use cgraomp.Llvm.{Llvm}

-- LLVM_ANNOT_NAME
abbrev pub llvm_annot_name : String
llvm_annot_name = "llvm.global.annotations"

-- `SetVector<StringRef>`
unfoldable pub contains : List String → String → Bool
contains [] s = false
contains (t ∷ ts) s = let rest = contains ts s in if t == s then true else rest

unfoldable pub insert_text : String → List String → List String
unfolding contains
insert_text s ts = if contains ts s then ts else ts ++ s ∷ []

module _ (L : Llvm) where
  open L use {
    Value, Function, Module, same_function, get_parent, get_global_variable, user_operand,
    as_constant_array, as_constant_struct, as_function, as_global_variable, initializer_c_string,
  }

  -- `DenseMap<Function *, SetVector<StringRef>>`
  abbrev pub Table : Type 0
  Table = List (Function × List String)

  -- `find` first makes an entry with `result[F]`, so that it never misses.
  unfoldable pub table_at : Function → Table → List String
  table_at f [] = []
  table_at f ((g, ts) ∷ m) = let rest = table_at f m in if same_function g f then ts else rest

  -- `result[f].insert(anno_str)`
  unfoldable pub annotate : Function → String → Table → Table
  annotate f s [] = (f, insert_text s []) ∷ []
  annotate f s ((g, ts) ∷ m) =
      let rest = annotate f s m in
      if same_function g f then (g, insert_text s ts) ∷ m else (g, ts) ∷ rest

  -- The function that a constant of the array annotates, with the struct that says so.
  unfoldable pub annotated : Value → Option (Value × Function)
  annotated u = elim (as_constant_struct u) [
    | none ↦ none
    | some cs ↦ elim (as_function (user_operand (user_operand cs 0) 0)) [
      | none ↦ none
      | some f ↦ some (cs, f)
    ]
  ]

  unfoldable pub annotation_text : Value → Result (Option String)
  annotation_text cs = elim (as_global_variable (user_operand (user_operand cs 1) 0)) [
    | none ↦ ok none
    | some anno_var ↦ deref (initializer_c_string anno_var) >>= λ s. ok (some s)
  ]

  -- The loop of ModuleAnnotationAnalysisPass::run.
  unfoldable pub module_loop : List Value → Table → Result Table
  module_loop [] result = ok result
  module_loop (u ∷ us) result = elim (annotated u) [
    | none ↦ module_loop us result
    | some (cs, f) ↦ elim (annotation_text cs) [
      | ok none ↦ module_loop us result
      | ok (some s) ↦ module_loop us (annotate f s result)
      | Result.err e ↦ Result.err e
      | fault x ↦ fault x
    ]
  ]

  -- The loop of AnnotationAnalysisPass::run.
  unfoldable pub function_loop : Function → List Value → List String → Result (List String)
  function_loop g [] result = ok result
  function_loop g (u ∷ us) result = elim (annotated u) [
    | none ↦ function_loop g us result
    | some (cs, f) ↦
        let rest = function_loop g us result in
        let here : Result (List String) = elim (annotation_text cs) [
          | ok none ↦ function_loop g us result
          | ok (some s) ↦ function_loop g us (insert_text s result)
          | Result.err e ↦ Result.err e
          | fault x ↦ fault x
        ] in
        if same_function f g then here else rest
  ]

  -- The annotations of a module, if it has any.
  unfoldable pub annotation_array : Module → Option (List Value)
  annotation_array m = elim (get_global_variable m llvm_annot_name) [
    | none ↦ none
    | some i ↦ as_constant_array (user_operand i 0)
  ]

  -- ModuleAnnotationAnalysisPass::run
  unfoldable pub run_module : Module → Result Table
  unfolding annotation_array
  run_module m = elim (annotation_array m) [ none ↦ ok [] | some us ↦ module_loop us [] ]

  -- AnnotationAnalysisPass::run, with the module pass's result if it is cached.
  unfoldable pub run : Option Table → Function → Result (List String)
  unfolding annotation_array
  run (some mod_result) g = ok (table_at g mod_result)
  run none g = elim (annotation_array (get_parent g)) [
    | none ↦ ok []
    | some us ↦ function_loop g us []
  ]
