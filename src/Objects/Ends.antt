-- ===== src/Objects/Ends.antt =====
-- Starting and ending, and what the library says of itself: source/mpi_core.c but for MPI_Init_thread and
-- MPI_Query_thread, which are in Queries.
use vapaa.Prelude.{ℤ, pos}
use vapaa.Handles.{comm_f2c}
use vapaa.Run.{Run, ◌>>=◌, pure}
use vapaa.Cfi.{Desc}
use vapaa.Transfer.{Env, call, fix_rc}
use vapaa.Objects.{code_of, result_of}

pub record CoreLib (W : Type 0) : Type 0 where
  pub init : W → ℤ × W
  -- MPI_Comm_set_errhandler to MPI_ERRORS_RETURN.
  pub errors_return : ℤ → W → ℤ × W
  pub finalize : W → ℤ × W
  -- The variable: return code and the variable.
  pub initialized : ℤ → W → (ℤ × ℤ) × W
  pub finalized : ℤ → W → (ℤ × ℤ) × W
  -- Communicator and code.
  pub mpi_abort : ℤ → ℤ → W → ℤ × W
  -- The two variables: return code and the variables.
  pub get_version : ℤ → ℤ → W → (ℤ × (ℤ × ℤ)) × W
  -- memset to zero: address and length.
  pub memset : ℤ → ℤ → W → W
  -- Address of the text, and the variable: return code and the variable.
  pub get_library_version : ℤ → ℤ → W → (ℤ × ℤ) × W

-- VAPAA_MPI_MAX_LIBRARY_VERSION_STRING.
abbrev pub max_library_version_string : ℤ
max_library_version_string = pos 8192

-- `C_MPI_Wtime`, `C_MPI_Wtick`: no code is returned, and what double holds is passed on.
unfoldable pub c_wtime : {W Time : Type 0} → (mpi_wtime : W → Time × W) → W → Run W Time
c_wtime mpi_wtime = call mpi_wtime

unfoldable pub c_wtick : {W Time : Type 0} → (mpi_wtick : W → Time × W) → W → Run W Time
c_wtick mpi_wtick = call mpi_wtick

module _ {W : Type 0} (env : Env W) (core : CoreLib W) where
  open env use {mpi}
  open core use {
    init, errors_return, finalize, initialized, finalized, mpi_abort, get_version, memset,
    get_library_version,
  }

  -- `C_MPI_Init`; both communicators return errors from then on, and the codes of these two calls are
  -- not looked at.
  unfoldable pub c_init : W → Run W ℤ
  unfolding fix_rc
  c_init = do
    rc ← call init
    ierror ← fix_rc env rc
    _ ← call (errors_return mpi.handles.comm_world)
    _ ← call (errors_return mpi.handles.comm_self)
    pure ierror

  -- `C_MPI_Finalize`.
  unfoldable pub c_finalize : W → Run W ℤ
  unfolding code_of
  c_finalize w = code_of env (finalize w)

  -- `C_MPI_Initialized`.
  unfoldable pub c_initialized : (flag : ℤ) → W → Run W (ℤ × ℤ)
  unfolding result_of
  c_initialized flag w = result_of env (initialized flag w)

  -- `C_MPI_Finalized`.
  unfoldable pub c_finalized : (flag : ℤ) → W → Run W (ℤ × ℤ)
  unfolding result_of
  c_finalized flag w = result_of env (finalized flag w)

  -- `C_MPI_Abort`, for a library whose MPI_Abort returns.
  unfoldable pub c_abort : (comm_f errorcode : ℤ) → W → Run W ℤ
  unfolding code_of
  c_abort comm_f errorcode w = code_of env (mpi_abort (comm_f2c mpi.handles comm_f) errorcode w)

  -- `C_MPI_Get_version`.
  unfoldable pub c_get_version : (version subversion : ℤ) → W → Run W (ℤ × (ℤ × ℤ))
  unfolding result_of
  c_get_version version subversion w = result_of env (get_version version subversion w)

  -- `C_MPI_Get_library_version`; the warning about the length of the buffer is left out.
  unfoldable pub c_get_library_version : (version resultlen : ℤ) → W → Run W (ℤ × ℤ)
  unfolding result_of
  c_get_library_version version resultlen w =
      result_of env
        (get_library_version version resultlen (memset version max_library_version_string w))

  -- `CFI_MPI_Get_library_version`.
  unfoldable pub cfi_get_library_version : (version : Desc) (resultlen : ℤ) → W → Run W (ℤ × ℤ)
  unfolding result_of
  cfi_get_library_version version resultlen w = result_of env (
      get_library_version version.base_addr resultlen
        (memset version.base_addr max_library_version_string w))
