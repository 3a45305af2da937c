-- ===== src/OmpKernels/Offload.antt =====
-- The offloading function of a kernel, and the line where the kernel starts.
use cgraomp.Prelude.{
  suc, ◌≡◌, refl, sym, ap, ◌∙◌, inl, inr, true, String, Option, none, some, List, [], ◌∷◌, ◌++◌,
  first, length, length-concat, arith, Bool-cases, if◌then◌else◌,
}
use cgraomp.Prelude.Int.{ℤ, negsuc}
use cgraomp.Errors.{Result, ok, ok_inj, Returns}
use cgraomp.Llvm.{Llvm}
use cgraomp.OmpKernels.{
  OffloadMetadata, OmpKernelInfo, add_kernel, offload_of, get_offload_function, is_metadata_of,
  get_metadata, get_kernel_line,
}

-- The line of an entry, or -1.
abbrev pub line_of : Option OffloadMetadata → ℤ
line_of none = negsuc 0
line_of (some m) = m.line

module _ (L : Llvm) where
  -- The lists of kernels and of offloading functions are equally long.
  abbrev pub IsPaired : OmpKernelInfo L → Type 0
  IsPaired r = length r.kernel_list ≡ length r.offload_func_list

  offload_of-add :
      (q o k : L.Function) (ks os : List L.Function) (found : Option L.Function)
      → length ks ≡ length os
      → offload_of L q ks os ≡ ok found
      → offload_of L q (ks ++ k ∷ []) (os ++ o ∷ [])
        ≡ ok (elim found [ some f ↦ some f | none ↦ if L.same_function q k then some o else none ])
  unfolding offload_of
  offload_of-add q o k [] [] (some f) paired h = cc
  offload_of-add q o k [] [] none paired h = ground arith
  offload_of-add q o k [] (y ∷ os) found paired h = absurd (omega arith)
  offload_of-add q o k (x ∷ ks) [] found paired h = absurd (omega arith)
  offload_of-add q o k (x ∷ ks) (y ∷ os) found paired h = elim (Bool-cases (L.same_function q x)) [
    | inl same ↦ rw same (
        ap
          (λ r.
            ok (elim r [ some f ↦ some f | none ↦ if L.same_function q k then some o else none ]))
          (ok_inj (rw same at h)))
    | inr other ↦ rw other (offload_of-add q o k ks os found (omega arith) (rw other at h))
  ]

  offload_of_total :
      (q : L.Function) (ks os : List L.Function)
      → length ks ≡ length os
      → Returns (offload_of L q ks os)
  unfolding offload_of
  offload_of_total q [] os paired = (none, refl)
  offload_of_total q (x ∷ ks) [] paired = absurd (omega arith)
  offload_of_total q (x ∷ ks) (y ∷ os) paired = elim (Bool-cases (L.same_function q x)) [
    | inl same ↦ (some y, rw same refl)
    | inr other ↦ let (found, e) = offload_of_total q ks os (omega arith) in (found, rw other e)
  ]

  -- Let the lists of kernels and of offloading functions be equally long. They still are when a
  -- kernel is added. Before and after that, a search for the offloading function of any function
  -- returns: what was found before is found again, and otherwise the new offloading function is
  -- found for the new kernel, and nothing for another function. If the kernel was not known
  -- before, its line is that of the first metadata entry whose formatted name is the name of its
  -- offloading function, or -1 if there is none.
  pub add_kernel-get_kernel_line :
      (outlined : ℤ → ℤ → String → ℤ → String) (offload kernel : L.Function) (r : OmpKernelInfo L)
      → IsPaired r
      → let r' = add_kernel L offload kernel r in
        IsPaired r'
        × ((q : L.Function)
            → (found : Option L.Function) × (get_offload_function L q r ≡ ok found)
              × (get_offload_function L q r'
                  ≡ ok (elim found [
                    | some f ↦ some f
                    | none ↦ if L.same_function q kernel then some offload else none
                  ])))
        × (get_offload_function L kernel r ≡ ok none
            → get_kernel_line L outlined kernel r'
              ≡ ok (line_of (first (is_metadata_of L outlined offload) r.md_list)))
  unfolding add_kernel get_offload_function get_kernel_line get_metadata
  add_kernel-get_kernel_line outlined offload kernel r paired = (
    length-concat r.kernel_list kernel
        ∙ ap suc paired
        ∙ sym (length-concat r.offload_func_list offload),
    (λ q.
        let (found, e) = offload_of_total q r.kernel_list r.offload_func_list paired in
        (
          found,
          e,
          offload_of-add q offload kernel r.kernel_list r.offload_func_list found paired e,
        )),
    λ new.
        let self : L.same_function kernel kernel ≡ true =
          (L.same_function_iff kernel kernel).1 refl in
        let found =
          offload_of-add kernel offload kernel r.kernel_list r.offload_func_list none paired new in
        rw (found, self) (by_entry (first (is_metadata_of L outlined offload) r.md_list)),
  )
    where
      by_entry :
          (found : Option OffloadMetadata)
          → elim found as (λ o. Result ℤ) [ none ↦ ok (negsuc 0) | some m ↦ ok m.line ]
            ≡ ok (line_of found)
      by_entry none = refl
      by_entry (some m) = refl
