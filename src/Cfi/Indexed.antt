-- ===== src/Cfi/Indexed.antt =====
-- The datatype that source/cfi_util.c builds for a section of a derived type, from the list of the
-- type's segments (MPIX_Type_iov).
use vapaa.Prelude.{
  ℕ, zero, suc, ◌-◌, ◌^◌, Option, none, some, List, [], ◌∷◌, ◌++◌, ℤ, pos, negsuc, eq_ℤ, ltb, ◌+ℤ◌,
  ◌-ℤ◌, ◌*ℤ◌, div_ℤ, to_int, first, length, get_elem?, replicate, if◌then◌else◌,
}
use vapaa.Errors.Names.{success, err_intern}
use vapaa.Handles.DatatypeNames.{datatype_null}
use vapaa.Run.{Run, done, fault, ◌>>=◌, ◌>>◌, pure, abort, vapaa_assert}
use vapaa.Mpi.{Mpi, Iov, ok}
use vapaa.Cfi.{Desc, Build, mpi_name, cfi_types}
use vapaa.Cfi.Loops.{rounds, sum_terms, extent_15, stride_15}

-- `VAPAA_CFI_GET_TOTAL_ELEMENTS`: the product over the dimensions i, i + 1, ….
unfoldable pub total_elements : Desc → (rounds i : ℕ) → ℤ → ℤ
total_elements desc zero i total = total
total_elements desc (suc n) i total = total_elements desc n (suc i) (total *ℤ (desc.dim i).extent)

-- A loop that appends what each round gives.
unfoldable pub for_collect : (rounds i : ℕ) → (ℕ → List ℤ) → List ℤ
for_collect zero i body = []
for_collect (suc n) i body = body i ++ for_collect n (suc i) body

-- The nest of `VAPAA_CFI_CREATE_ELEMENT_ADDRESSES`, k loops deep.
unfoldable pub address_nest : Desc → (k : ℕ) → List ℤ → List ℤ
unfolding for_collect sum_terms extent_15 stride_15
address_nest desc zero terms = (desc.base_addr +ℤ sum_terms terms) ∷ []
address_nest desc (suc k) terms =
    for_collect (rounds (extent_15 desc k)) 0
      (λ i. address_nest desc k ((stride_15 desc k *ℤ pos i) ∷ terms))

-- `input[offset] - input[0]`; `none` is a read outside the array.
unfoldable pub displacement_at : List ℤ → ℤ → Option ℤ
displacement_at [] offset = none
displacement_at (a ∷ input) (pos n) = elim (get_elem? (a ∷ input) n) [
  | none ↦ none
  | some b ↦ some (b -ℤ a)
]
displacement_at input (negsuc n) = none

abbrev pub append_read : Option (List ℤ) → Option (List ℤ) → Option (List ℤ)
append_read none ys = none
append_read (some xs) none = none
append_read (some xs) (some ys) = some (xs ++ ys)

abbrev pub one_read : Option ℤ → Option (List ℤ)
one_read none = none
one_read (some d) = some (d ∷ [])

-- The loop over k: the elements of one segment, from element `start` on.
unfoldable pub segment_displacements : List ℤ → ℤ → (rounds k : ℕ) → Option (List ℤ)
unfolding displacement_at
segment_displacements input start zero k = some []
segment_displacements input start (suc n) k =
    append_read (one_read (displacement_at input (pos k +ℤ start)))
      (segment_displacements input start n (suc k))

-- The loop over i: the segments of one copy of the type, moved by type_displacement.
unfoldable pub copy_displacements : List ℤ → (elem_len : ℤ) → ℤ → List Iov → Option (List ℤ)
unfolding segment_displacements
copy_displacements input elem_len shift [] = some []
copy_displacements input elem_len shift (iov ∷ iovs) =
    append_read
      (segment_displacements input (div_ℤ iov.iov_base elem_len +ℤ shift)
        (rounds (div_ℤ iov.iov_len elem_len)) 0)
      (copy_displacements input elem_len shift iovs)

-- The loop over j: the copies. `type_displacement = j * extent`.
unfoldable pub all_displacements :
    List ℤ → (elem_len extent : ℤ) → List Iov → (rounds j : ℕ) → Option (List ℤ)
unfolding copy_displacements
all_displacements input elem_len extent iovs zero j = some []
all_displacements input elem_len extent iovs (suc n) j =
    append_read (copy_displacements input elem_len (pos j *ℤ extent) iovs)
      (all_displacements input elem_len extent iovs n (suc j))

module _ {W : Type 0} (mpi : Mpi W) (build : Build) where
  open mpi use {
    errors, handles, malloc, type_create_hindexed, type_get_extent, type_iov_len, type_iov,
  }

  -- `VAPAA_CFI_TO_MPI_TYPE`.
  unfoldable pub cfi_to_mpi_type : ℤ → ℤ
  unfolding mpi_name cfi_types
  cfi_to_mpi_type ty = elim (first (λ c. eq_ℤ ty (build.cfi_code c)) cfi_types) [
    | some c ↦ handles.datatype (mpi_name c)
    | none ↦ handles.datatype datatype_null
  ]

  -- `VAPAA_CREATE_MPIX_IOV`, in a build that has MPIX_Iov: the segments and the bytes. A segment
  -- takes 16 bytes.
  unfoldable pub create_mpix_iov : ℤ → W → Run W (List Iov × ℤ)
  create_mpix_iov dt w =
      let (rc1, iov_len, bytes) = type_iov_len dt w in
      let (rc2, iovs) = type_iov dt iov_len w in
      (do
        vapaa_assert (ok mpi rc1)
        vapaa_assert (malloc iov_len 16 w)
        vapaa_assert (ok mpi rc2)
        pure (iovs, bytes))
        w

  -- The rest of `VAPAA_CFI_CREATE_INDEXED` behind the calls that describe the type.
  unfoldable pub make_indexed : Desc → (count : ℤ) → (extent : ℤ) → List Iov × ℤ → W → Run W (ℤ × ℤ)
  unfolding all_displacements address_nest total_elements cfi_to_mpi_type
  make_indexed desc count extent (iovs, bytes) w =
      let elem_len = to_int (pos desc.elem_len) in
      let entries = count *ℤ div_ℤ bytes elem_len in
      let input = address_nest desc 15 [] in
      (do
        vapaa_assert (malloc entries 4 w)
        vapaa_assert (malloc entries 8 w)
        vapaa_assert (malloc (total_elements desc desc.rank 0 (pos 1)) 8 w)
        elim (all_displacements input elem_len extent iovs (rounds count) 0) [
          | none ↦ λ _. fault
          | some disps ↦ λ _.
              let n = length disps in
              let m =
                type_create_hindexed (pos n) (replicate n (pos 1)) disps
                  (cfi_to_mpi_type desc.cfi_type) w in
              if ltb n (2 ^ 31 - 1)
              then (if ok mpi m.rc then done (errors.error success, m.handle) m.world else abort w)
              else abort w
        ])
        w

  -- `VAPAA_CFI_CREATE_INDEXED`: its return code and *array_datatype, which was `out`.
  unfoldable pub create_indexed : Desc → (count : ℤ) → (input_datatype out : ℤ) → W → Run W (ℤ × ℤ)
  unfolding create_mpix_iov make_indexed
  create_indexed desc count input_datatype out =
      if build.has_iov
      then (do
        segments ← create_mpix_iov input_datatype
        λ w.
            let (rc, extent) = type_get_extent input_datatype w in
            (do vapaa_assert (ok mpi rc); make_indexed desc count extent segments) w)
      else pure (errors.error err_intern, out)
