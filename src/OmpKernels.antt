-- ===== src/OmpKernels.antt =====
-- include/CGRAOmpPass.hpp and src/Passes/CGRAOmpPass/CGRAOmpPass.cpp: the kernels that OpenMP has
-- outlined, with the lines of the source that they come from.
use cgraomp.Prelude.{
  ℕ, ◌≡◌, Bool, true, false, String, ◌<>◌, Option, none, some, List, [], ◌∷◌, ◌++◌, ◌==◌, get_elem?,
  first, length, ltb, if◌then◌else◌,
}
use cgraomp.Prelude.Int.{ℤ, negsuc, to_int}
use cgraomp.Errors.{
  Result, ok, err, fault, ◌>>=◌, deref, string_error, null_dereference, assertion_failed,
}
use cgraomp.Llvm.{Llvm}
pub mod Offload

-- OmpKernelInfo::OffloadMetadata_t
pub record OffloadMetadata : Type 0 where
  pub metadata_kind : ℤ
  pub file_dev_id : ℤ
  pub file_id : ℤ
  pub func_name : String
  pub line : ℤ
  pub order : ℤ

-- An operand of a metadata node: an integer constant, a string, or something else; and a node.
pub data Metadata : Type 0 where
  int_metadata : ℤ → Metadata
  string_metadata : String → Metadata
  other_metadata : Metadata

module _ (print : Metadata → String) (print_entry : List Metadata → String) where
  -- The lambdas `getMetadataInt`, which narrows to `int`, and `getMetadataStr`; an error exits.
  unfoldable pub get_metadata_int : Metadata → Result ℤ
  get_metadata_int (int_metadata n) = ok (to_int n)
  get_metadata_int m =
      err (string_error ("Fails to parse offload info. " <> print m <> " is not interger"))

  unfoldable pub get_metadata_str : Metadata → Result String
  get_metadata_str (string_metadata s) = ok s
  get_metadata_str m =
      err (string_error ("Fails to parse offload info. " <> print m <> " is not string"))

  unfoldable pub read_entry : List Metadata → Result OffloadMetadata
  unfolding get_metadata_int get_metadata_str
  read_entry (a ∷ b ∷ c ∷ d ∷ e ∷ f ∷ []) = do
    kind ← get_metadata_int a
    dev ← get_metadata_int b
    file ← get_metadata_int c
    name ← get_metadata_str d
    line ← get_metadata_int e
    order ← get_metadata_int f
    ok (record {
      metadata_kind = kind;
      file_dev_id = dev;
      file_id = file;
      func_name = name;
      line = line;
      order = order;
    })
  read_entry entry = err (string_error ("Invalid offload info entry " <> print_entry entry))

  unfoldable pub read_entries : List (List Metadata) → Result (List OffloadMetadata)
  unfolding read_entry
  read_entries [] = ok []
  read_entries (entry ∷ entries) =
      read_entry entry >>= λ m. read_entries entries >>= λ ms. ok (m ∷ ms)

  -- setOffloadMetadata, from the named metadata, if the module has it.
  unfoldable pub set_offload_metadata :
      Option (List (List Metadata)) → Result (List OffloadMetadata)
  unfolding read_entries
  set_offload_metadata none = err (string_error "omp_offload.info is not found")
  set_offload_metadata (some entries) = read_entries entries

-- A call: the function that is called, unless it is indirect, and the operands.
pub record CallBase (L : Llvm) : Type 0 where
  pub address : ℕ
  pub called_function : Option L.Function
  pub operands : List ℕ

-- A global variable: its name, and the function of its entry. A variable without an initializer has
-- no operand; an initializer of another form has no function.
pub record GlobalVariable (L : Llvm) : Type 0 where
  pub name : String
  pub kernel_func : Option (Option L.Function)

module _ (L : Llvm) where
  -- The data members of `OmpKernelInfo`.
  pub record OmpKernelInfo : Type 0 where
    pub md_list : List OffloadMetadata
    pub kernel_list : List L.Function
    pub offload_func_list : List L.Function

  unfoldable pub add_kernel : L.Function → L.Function → OmpKernelInfo → OmpKernelInfo
  add_kernel offload kernel r = record r {
    kernel_list = r.kernel_list ++ kernel ∷ [];
    offload_func_list = r.offload_func_list ++ offload ∷ [];
  }

  -- The two lists are walked side by side; the second one is dereferenced at the position found.
  unfoldable pub offload_of :
      L.Function → List L.Function → List L.Function → Result (Option L.Function)
  offload_of kernel [] offloads = ok none
  offload_of kernel (k ∷ ks) [] =
      if L.same_function kernel k then fault assertion_failed else offload_of kernel ks []
  offload_of kernel (k ∷ ks) (o ∷ os) =
      let rest = offload_of kernel ks os in if L.same_function kernel k then ok (some o) else rest

  unfoldable pub get_offload_function : L.Function → OmpKernelInfo → Result (Option L.Function)
  unfolding offload_of
  get_offload_function kernel r = offload_of kernel r.kernel_list r.offload_func_list

  -- `outlined` formats the name of a function from the two numbers of its file, its name and line.
  module _ (outlined : ℤ → ℤ → String → ℤ → String) where
    abbrev pub is_metadata_of : L.Function → OffloadMetadata → Bool
    is_metadata_of offload m =
        outlined m.file_dev_id m.file_id m.func_name m.line == L.get_name offload

    -- The function's name is read for each entry.
    unfoldable pub get_metadata :
        Option L.Function → List OffloadMetadata → Result (Option OffloadMetadata)
    get_metadata none [] = ok none
    get_metadata none (m ∷ ms) = fault null_dereference
    get_metadata (some offload) ms = ok (first (is_metadata_of offload) ms)

    unfoldable pub get_kernel_line : L.Function → OmpKernelInfo → Result ℤ
    unfolding get_offload_function get_metadata
    get_kernel_line kernel r = get_offload_function kernel r >>= λ offload.
        get_metadata offload r.md_list >>= λ found. elim found [
          | none ↦ ok (negsuc 0)
          | some m ↦ ok m.line
        ]

  -- OmpKernelAnalysisPass::run. `starts_with` is StringRef::startswith; `body` gives the
  -- instructions of a function, those that are calls; `as_bitcast` the function below a bit cast.
  module _ (starts_with : String → String → Bool) (body : L.Function → List (CallBase L))
      (as_bitcast : ℕ → Option (Option L.Function)) where
    unfoldable pub add_fork_call : L.Function → CallBase L → OmpKernelInfo → Result OmpKernelInfo
    unfolding add_kernel
    add_fork_call kernel_func ci r = deref ci.called_function >>= λ called.
        if L.get_name called == "__kmpc_fork_call"
        then elim (get_elem? ci.operands 2) [
          | none ↦ fault assertion_failed
          | some operand ↦ elim (as_bitcast operand) [
            | some (some micro_task) ↦ ok (add_kernel kernel_func micro_task r)
            | some none ↦ ok r
            | none ↦ ok r
          ]
        ]
        else ok r

    unfoldable pub add_fork_calls :
        L.Function → List (CallBase L) → OmpKernelInfo → Result OmpKernelInfo
    unfolding add_fork_call
    add_fork_calls kernel_func [] r = ok r
    add_fork_calls kernel_func (ci ∷ calls) r =
        add_fork_call kernel_func ci r >>= λ r'. add_fork_calls kernel_func calls r'

    unfoldable pub add_entries : List (GlobalVariable L) → OmpKernelInfo → Result OmpKernelInfo
    unfolding add_fork_calls
    add_entries [] r = ok r
    add_entries (g ∷ gs) r =
        if starts_with g.name ".omp_offloading.entry"
        then (elim g.kernel_func [
          | none ↦ fault assertion_failed
          | some none ↦ ok r
          | some (some kernel_func) ↦ add_fork_calls kernel_func (body kernel_func) r
        ]
            >>= λ r'. add_entries gs r')
        else add_entries gs r

    unfoldable pub run :
        (Metadata → String)
        → (List Metadata → String)
        → Option (List (List Metadata))
        → List (GlobalVariable L)
        → Result OmpKernelInfo
    unfolding set_offload_metadata add_entries
    run print print_entry named globals =
        set_offload_metadata print print_entry named >>= λ md_list.
        add_entries globals (record { md_list = md_list; kernel_list = []; offload_func_list = [] })
