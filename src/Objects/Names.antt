-- ===== src/Objects/Names.antt =====
-- The names of objects: source/mpi_attr.c. Its macros C_MPI_HANDLE_GET_NAME and C_MPI_HANDLE_SET_NAME are
-- get_name and set_name, used for communicators, datatypes and windows.
use vapaa.Prelude.{ℤ}
use vapaa.Handles.{comm_f2c, type_f2c, win_f2c}
use vapaa.Run.{Run}
use vapaa.Cfi.{Desc}
use vapaa.Transfer.{Env}
use vapaa.Objects.{code_of, result_of}

-- The two calls for one kind of object.
pub record NameLib (W : Type 0) : Type 0 where
  -- Handle, name, and the variable of the length: return code and the variable.
  pub get_name : ℤ → ℤ → ℤ → W → (ℤ × ℤ) × W
  -- Handle and name.
  pub set_name : ℤ → ℤ → W → ℤ × W

module _ {W : Type 0} (env : Env W) where
  open env use {mpi, config}

  -- `C_MPI_HANDLE_GET_NAME`.
  unfoldable pub handle_get_name :
      NameLib W → (f2c : ℤ → ℤ) (handle_f name resultlen : ℤ) → W → Run W (ℤ × ℤ)
  unfolding result_of
  handle_get_name lib f2c handle_f name resultlen w =
      result_of env (lib.get_name (f2c handle_f) name resultlen w)

  -- `C_MPI_HANDLE_SET_NAME`.
  unfoldable pub handle_set_name : NameLib W → (f2c : ℤ → ℤ) (handle_f name : ℤ) → W → Run W ℤ
  unfolding code_of
  handle_set_name lib f2c handle_f name w = code_of env (lib.set_name (f2c handle_f) name w)

  -- `CFI_MPI_HANDLE_GET_NAME`.
  unfoldable pub cfi_handle_get_name :
      NameLib W → (f2c : ℤ → ℤ) (handle_f : ℤ) (name : Desc) (resultlen : ℤ) → W → Run W (ℤ × ℤ)
  unfolding result_of
  cfi_handle_get_name lib f2c handle_f name resultlen w =
      result_of env (lib.get_name (f2c handle_f) name.base_addr resultlen w)

  -- `CFI_MPI_HANDLE_SET_NAME`.
  unfoldable pub cfi_handle_set_name :
      NameLib W → (f2c : ℤ → ℤ) (handle_f : ℤ) (name : Desc) → W → Run W ℤ
  unfolding code_of
  cfi_handle_set_name lib f2c handle_f name w =
      code_of env (lib.set_name (f2c handle_f) name.base_addr w)

  -- `C_MPI_Comm_get_name` and so on.
  unfoldable pub c_comm_get_name : NameLib W → (handle_f name resultlen : ℤ) → W → Run W (ℤ × ℤ)
  unfolding handle_get_name
  c_comm_get_name lib = handle_get_name lib (comm_f2c mpi.handles)

  unfoldable pub c_comm_set_name : NameLib W → (handle_f name : ℤ) → W → Run W ℤ
  unfolding handle_set_name
  c_comm_set_name lib = handle_set_name lib (comm_f2c mpi.handles)

  unfoldable pub cfi_comm_get_name :
      NameLib W → (handle_f : ℤ) (name : Desc) (resultlen : ℤ) → W → Run W (ℤ × ℤ)
  unfolding cfi_handle_get_name
  cfi_comm_get_name lib = cfi_handle_get_name lib (comm_f2c mpi.handles)

  unfoldable pub cfi_comm_set_name : NameLib W → (handle_f : ℤ) (name : Desc) → W → Run W ℤ
  unfolding cfi_handle_set_name
  cfi_comm_set_name lib = cfi_handle_set_name lib (comm_f2c mpi.handles)

  -- `C_MPI_Type_get_name` and so on.
  unfoldable pub c_type_get_name : NameLib W → (handle_f name resultlen : ℤ) → W → Run W (ℤ × ℤ)
  unfolding handle_get_name
  c_type_get_name lib = handle_get_name lib (type_f2c mpi.handles config)

  unfoldable pub c_type_set_name : NameLib W → (handle_f name : ℤ) → W → Run W ℤ
  unfolding handle_set_name
  c_type_set_name lib = handle_set_name lib (type_f2c mpi.handles config)

  unfoldable pub cfi_type_get_name :
      NameLib W → (handle_f : ℤ) (name : Desc) (resultlen : ℤ) → W → Run W (ℤ × ℤ)
  unfolding cfi_handle_get_name
  cfi_type_get_name lib = cfi_handle_get_name lib (type_f2c mpi.handles config)

  unfoldable pub cfi_type_set_name : NameLib W → (handle_f : ℤ) (name : Desc) → W → Run W ℤ
  unfolding cfi_handle_set_name
  cfi_type_set_name lib = cfi_handle_set_name lib (type_f2c mpi.handles config)

  -- `C_MPI_Win_get_name` and so on.
  unfoldable pub c_win_get_name : NameLib W → (handle_f name resultlen : ℤ) → W → Run W (ℤ × ℤ)
  unfolding handle_get_name
  c_win_get_name lib = handle_get_name lib (win_f2c mpi.handles)

  unfoldable pub c_win_set_name : NameLib W → (handle_f name : ℤ) → W → Run W ℤ
  unfolding handle_set_name
  c_win_set_name lib = handle_set_name lib (win_f2c mpi.handles)

  unfoldable pub cfi_win_get_name :
      NameLib W → (handle_f : ℤ) (name : Desc) (resultlen : ℤ) → W → Run W (ℤ × ℤ)
  unfolding cfi_handle_get_name
  cfi_win_get_name lib = cfi_handle_get_name lib (win_f2c mpi.handles)

  unfoldable pub cfi_win_set_name : NameLib W → (handle_f : ℤ) (name : Desc) → W → Run W ℤ
  unfolding cfi_handle_set_name
  cfi_win_set_name lib = cfi_handle_set_name lib (win_f2c mpi.handles)
