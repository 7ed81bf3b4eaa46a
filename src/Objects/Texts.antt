-- ===== src/Objects/Texts.antt =====
-- The text of an error code: MPI_Error_string in source/mpi_error.c. The warning about the length of
-- Fortran's buffer is left out.
use vapaa.Prelude.{ℤ}
use vapaa.Errors.{error_code_f2c}
use vapaa.Run.{Run}
use vapaa.Cfi.{Desc}
use vapaa.Transfer.{Env}
use vapaa.Objects.{result_of}

pub record TextLib (W : Type 0) : Type 0 where
  -- MPI_MAX_ERROR_STRING of mpi.h.
  pub max_error_string : ℤ
  -- memset to zero: address and length.
  pub memset : ℤ → ℤ → W → W
  -- Error code, address of the text, and the variable of its length: return code and the variable.
  pub error_string : ℤ → ℤ → ℤ → W → (ℤ × ℤ) × W

module _ {W : Type 0} (env : Env W) (texts : TextLib W) where
  open env use {mpi, version4}
  open texts use {max_error_string, memset, error_string}

  -- `C_MPI_Error_string`.
  unfoldable pub c_error_string : (errorcode_f string resultlen : ℤ) → W → Run W (ℤ × ℤ)
  unfolding result_of
  c_error_string errorcode_f string resultlen w = result_of env (
      error_string (error_code_f2c mpi.errors version4 errorcode_f) string resultlen
        (memset string max_error_string w))

  -- `CFI_MPI_Error_string`.
  unfoldable pub cfi_error_string :
      (errorcode_f : ℤ) (string : Desc) (resultlen : ℤ) → W → Run W (ℤ × ℤ)
  unfolding result_of
  cfi_error_string errorcode_f string resultlen w = result_of env (
      error_string (error_code_f2c mpi.errors version4 errorcode_f) string.base_addr resultlen
        (memset string.base_addr max_error_string w))
