-- ===== src/Objects/Infos.antt =====
-- Info objects: source/mpi_info.c. Keys and values are strings of the caller, given by their addresses.
use vapaa.Prelude.{Bool, true, false, ℤ, pos, ◌+ℤ◌, if◌then◌else◌}
use vapaa.Handles.{info_f2c}
use vapaa.Run.{Run}
use vapaa.Mpi.{Made, ok}
use vapaa.Cfi.{Desc}
use vapaa.Transfer.{Env}
use vapaa.Objects.{number_of, code_of, result_of}

pub record InfoLib (W : Type 0) : Type 0 where
  -- memset to zero: address and length.
  pub memset : ℤ → ℤ → W → W
  pub info_create : W → Made W
  -- Info and key.
  pub info_delete : ℤ → ℤ → W → ℤ × W
  pub info_dup : ℤ → W → Made W
  pub info_free : ℤ → W → Made W
  -- Info and the variable: return code and the variable.
  pub info_get_nkeys : ℤ → ℤ → W → (ℤ × ℤ) × W
  -- Info, position, key.
  pub info_get_nthkey : ℤ → ℤ → ℤ → W → ℤ × W
  -- Info, key, length, value, flag: return code, length and flag.
  pub info_get_string : ℤ → ℤ → ℤ → ℤ → ℤ → W → (ℤ × (ℤ × ℤ)) × W
  -- Info, key, length, value, flag: return code and flag.
  pub info_get : ℤ → ℤ → ℤ → ℤ → ℤ → W → (ℤ × ℤ) × W
  -- Info, key, length, flag: return code, length and flag.
  pub info_get_valuelen : ℤ → ℤ → ℤ → ℤ → W → (ℤ × (ℤ × ℤ)) × W
  -- Info, key, value.
  pub info_set : ℤ → ℤ → ℤ → W → ℤ × W

module _ {W : Type 0} (env : Env W) (infos : InfoLib W) where
  open env use {mpi, version4}
  open infos use {
    memset, info_create, info_delete, info_dup, info_free, info_get_nkeys, info_get_nthkey,
    info_get_string, info_get, info_get_valuelen, info_set,
  }

  -- `C_MPI_Info_create`.
  unfoldable pub c_info_create : W → Run W (ℤ × ℤ)
  unfolding number_of
  c_info_create w = number_of env mpi.handles.mpi_info_c2f (info_create w)

  -- `C_MPI_Info_delete`.
  unfoldable pub c_info_delete : (info_f key : ℤ) → W → Run W ℤ
  unfolding code_of
  c_info_delete info_f key w = code_of env (info_delete (info_f2c mpi.handles info_f) key w)

  -- `CFI_MPI_Info_delete`.
  unfoldable pub cfi_info_delete : (info_f : ℤ) (key : Desc) → W → Run W ℤ
  unfolding code_of
  cfi_info_delete info_f key w =
      code_of env (info_delete (info_f2c mpi.handles info_f) key.base_addr w)

  -- `C_MPI_Info_dup`.
  unfoldable pub c_info_dup : (info_f : ℤ) → W → Run W (ℤ × ℤ)
  unfolding number_of
  c_info_dup info_f w =
      number_of env mpi.handles.mpi_info_c2f (info_dup (info_f2c mpi.handles info_f) w)

  -- `C_MPI_Info_free`.
  unfoldable pub c_info_free : (info_f : ℤ) → W → Run W (ℤ × ℤ)
  unfolding number_of
  c_info_free info_f w =
      number_of env mpi.handles.mpi_info_c2f (info_free (info_f2c mpi.handles info_f) w)

  -- `C_MPI_Info_get_nkeys`.
  unfoldable pub c_info_get_nkeys : (info_f nkeys_f : ℤ) → W → Run W (ℤ × ℤ)
  unfolding result_of
  c_info_get_nkeys info_f nkeys_f w =
      result_of env (info_get_nkeys (info_f2c mpi.handles info_f) nkeys_f w)

  -- `C_MPI_Info_get_nthkey`.
  unfoldable pub c_info_get_nthkey : (info_f n key : ℤ) → W → Run W ℤ
  unfolding code_of
  c_info_get_nthkey info_f n key w =
      code_of env (info_get_nthkey (info_f2c mpi.handles info_f) n key w)

  -- `CFI_MPI_Info_get_nthkey`.
  unfoldable pub cfi_info_get_nthkey : (info_f : ℤ) (n : ℤ) (key : Desc) → W → Run W ℤ
  unfolding code_of
  cfi_info_get_nthkey info_f n key w =
      code_of env (info_get_nthkey (info_f2c mpi.handles info_f) n key.base_addr w)

  -- What MPI_Info_get_string of MPI-4 gives, or in its place MPI_Info_get and, if that succeeds,
  -- MPI_Info_get_valuelen, whose length does not count the end of the string.
  unfoldable pub get_string : Bool → (info key buflen val flag : ℤ) → W → (ℤ × (ℤ × ℤ)) × W
  get_string true info key buflen val flag w = info_get_string info key buflen val flag w
  get_string false info key buflen val flag w =
      let ((rc, flag1), w1) = info_get info key buflen val flag w in
      if ok mpi rc
      then (let ((rc2, (length, flag2)), w2) = info_get_valuelen info key buflen flag1 w1 in
          ((rc2, (length +ℤ pos 1, flag2)), w2))
      else ((rc, (buflen, flag1)), w1)

  -- `C_MPI_Info_get_string`: *ierror, *buflen and *flag.
  unfoldable pub c_info_get_string : (info_f key buflen val flag : ℤ) → W → Run W (ℤ × (ℤ × ℤ))
  unfolding result_of get_string
  c_info_get_string info_f key buflen val flag w =
      result_of env (
        get_string version4 (info_f2c mpi.handles info_f) key buflen val flag (memset val buflen w))

  -- `CFI_MPI_Info_get_string`.
  unfoldable pub cfi_info_get_string :
      (info_f : ℤ) (key : Desc) (buflen : ℤ) (val : Desc) (flag : ℤ) → W → Run W (ℤ × (ℤ × ℤ))
  unfolding result_of get_string
  cfi_info_get_string info_f key buflen val flag w = result_of env (
      get_string version4 (info_f2c mpi.handles info_f) key.base_addr buflen val.base_addr flag
        (memset val.base_addr buflen w))

  -- `C_MPI_Info_set`.
  unfoldable pub c_info_set : (info_f key val : ℤ) → W → Run W ℤ
  unfolding code_of
  c_info_set info_f key val w = code_of env (info_set (info_f2c mpi.handles info_f) key val w)

  -- `CFI_MPI_Info_set`.
  unfoldable pub cfi_info_set : (info_f : ℤ) (key : Desc) (val : Desc) → W → Run W ℤ
  unfolding code_of
  cfi_info_set info_f key val w =
      code_of env (info_set (info_f2c mpi.handles info_f) key.base_addr val.base_addr w)
