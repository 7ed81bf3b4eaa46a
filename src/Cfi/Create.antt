-- ===== src/Cfi/Create.antt =====
-- The datatypes that source/cfi_util.c builds for a section of a named type.
use vapaa.Prelude.{
  ◌-◌, ℕ, zero, suc, ◌^◌, Bool, not, ◌||◌, Option, none, some, ℤ, pos, eq_ℤ, ltb_ℤ, ltb, ◌==◌, ◌*ℤ◌,
  rem_ℤ, div_ℤ, to_int, pos_part, replicate, if◌then◌else◌,
}
use vapaa.Errors.Names.{success, err_count, err_arg, err_intern}
use vapaa.Run.{Run, done, ◌>>=◌, ◌>>◌, pure, abort, vapaa_assert}
use vapaa.Mpi.{Mpi, ok, made}
use vapaa.Cfi.{Desc, Build}
use vapaa.Cfi.Loops.{Filling, written, fill_2d, fill_3d, fill_15d}
use vapaa.Cfi.Indexed.{create_indexed, cfi_to_mpi_type}

abbrev pub int_max : ℤ
int_max = pos (2 ^ 31 - 1)

-- The loop of `VAPAA_CFI_CREATE_DATATYPE` that counts the elements; `none` is its return of
-- MPI_ERR_COUNT.
unfoldable pub count_elements : Desc → (rounds i : ℕ) → ℤ → Option ℤ
count_elements desc zero i total = some total
count_elements desc (suc n) i total =
    let extent = (desc.dim i).extent in
    let total' = total *ℤ extent in
    let rest = count_elements desc n (suc i) total' in
    if ltb_ℤ int_max extent || ltb_ℤ int_max total' then none else rest

module _ {W : Type 0} (mpi : Mpi W) (build : Build) where
  open mpi use {
    errors, handles, malloc, type_create_hvector, type_create_hindexed, type_free, type_size,
  }

  -- `VAPAA_MPI_DATATYPE_IS_BUILTIN`.
  unfoldable pub is_named : ℤ → W → Run W Bool
  is_named t w =
      let (rc, combiner) = mpi.type_get_envelope t w in
      if ok mpi rc then done (eq_ℤ combiner mpi.combiner_named) w else abort w

  -- `MPI_Type_create_hindexed` over single elements, as the loops have filled the array. The two
  -- arrays of `count` entries are allocated first.
  unfoldable pub create_single_elements : (count : ℤ) → Filling → ℤ → W → Run W ℤ
  create_single_elements count filling element_datatype w =
      (do
        vapaa_assert (malloc count 4 w)
        vapaa_assert (malloc count 8 w)
        made mpi (
            type_create_hindexed count (replicate (pos_part count) (pos 1)) (written filling)
              element_datatype))
        w

  -- `VAPAA_CFI_CREATE_DATATYPE_15D`, its return code and the new datatype.
  unfoldable pub create_datatype_15d : Desc → (count input_datatype out : ℤ) → W → Run W (ℤ × ℤ)
  unfolding is_named create_single_elements fill_15d cfi_to_mpi_type
  create_datatype_15d desc count input_datatype out = do
    named ← is_named input_datatype
    if named
        then (do
          t ←
              create_single_elements count (fill_15d count desc)
                (cfi_to_mpi_type mpi build desc.cfi_type)
          pure (errors.error success, t))
        else pure (errors.error err_arg, out)

  -- A vector of vectors: the inner type is freed once the outer one is made.
  unfoldable pub create_nested : (blocks extent0 stride0 stride1 element_datatype : ℤ) → W → Run W ℤ
  create_nested blocks extent0 stride0 stride1 element_datatype = do
    temp ← made mpi (type_create_hvector extent0 (pos 1) stride0 element_datatype)
    array ← made mpi (type_create_hvector blocks (pos 1) stride1 temp)
    _ ← made mpi (type_free temp)
    pure array

  -- The choice among the shapes; `none` is the return of MPI_ERR_ARG for an unsupported rank.
  unfoldable pub create_shape : Desc → (count input_datatype out : ℤ) → W → Run W (Option ℤ)
  unfolding create_single_elements create_datatype_15d create_nested fill_2d fill_3d cfi_to_mpi_type
  create_shape desc count input_datatype out =
      let element_datatype = cfi_to_mpi_type mpi build desc.cfi_type in
      let elem_len = to_int (pos desc.elem_len) in
      let extent0 = to_int (desc.dim 0).extent in
      let extent1 = to_int (desc.dim 1).extent in
      let stride0 = (desc.dim 0).sm in
      let stride1 = (desc.dim 1).sm in
      if (desc.rank == 1) || not (ltb_ℤ extent0 count)
      then (do
        t ← made mpi (type_create_hvector count (pos 1) stride0 element_datatype)
        pure (some t))
      else if (desc.rank == 2) || not (ltb_ℤ (extent0 *ℤ extent1) count)
      then (if eq_ℤ (rem_ℤ count extent0) (pos 0)
          then (if eq_ℤ stride0 elem_len
              then (do
                t ←
                    made mpi
                      (type_create_hvector (div_ℤ count extent0) extent0 stride1 element_datatype)
                pure (some t))
              else (do
                t ← create_nested (div_ℤ count extent0) extent0 stride0 stride1 element_datatype
                pure (some t)))
          else (do
            t ← create_single_elements count (fill_2d count desc extent0 extent1) element_datatype
            pure (some t)))
      else if desc.rank == 3
      then (do
        t ←
            create_single_elements count
              (fill_3d count desc extent0 extent1 (to_int (desc.dim 2).extent)) element_datatype
        pure (some t))
      else if ltb desc.rank 15
      then (do
        (rc, t) ← create_datatype_15d desc count input_datatype out
        vapaa_assert (ok mpi rc)
        pure (some t))
      else pure none

  -- The check of the size at the end.
  unfoldable pub check_size : Desc → (count t : ℤ) → W → Run W (ℤ × ℤ)
  check_size desc count t w =
      let (rc, size) = type_size t w in
      if eq_ℤ size (to_int (count *ℤ to_int (pos desc.elem_len)))
      then done (errors.error success, t) w
      else done (errors.error err_intern, t) w

  -- The first branch of `VAPAA_CFI_CREATE_DATATYPE`, for a named input type.
  unfoldable pub create_named : Desc → (count input_datatype out : ℤ) → W → Run W (ℤ × ℤ)
  unfolding count_elements create_shape check_size
  create_named desc count input_datatype out = elim (count_elements desc desc.rank 0 (pos 1)) [
    | none ↦ pure (errors.error err_count, out)
    | some total ↦ if ltb_ℤ total count then pure (errors.error err_arg, out) else (do
      shape ← create_shape desc count input_datatype out
      elim shape [ none ↦ pure (errors.error err_arg, out) | some t ↦ check_size desc count t ])
  ]

  -- `VAPAA_CFI_CREATE_DATATYPE`: its return code and *array_datatype, which was `out`.
  unfoldable pub create_datatype : Desc → (count input_datatype out : ℤ) → W → Run W (ℤ × ℤ)
  unfolding is_named create_named create_indexed
  create_datatype desc count input_datatype out = do
    named ← is_named input_datatype
    if named then create_named desc count input_datatype out else (do
      (rc, t) ← create_indexed mpi build desc count input_datatype out
      vapaa_assert (ok mpi rc)
      pure (errors.error success, t))
