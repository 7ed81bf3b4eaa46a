-- ===== src/Errors.antt =====
-- Translating error codes: source/mpi_error.c and the macro C_MPI_RC_FIX of
-- source/convert_constants.h.
--
-- `error` holds the values that mpi.h gives the error classes, and `error_class` is
-- PMPI_Error_class, with its return code first: both belong to the MPI library.
pub mod Names
pub mod RoundTrip
mod Tests
use vapaa.Prelude.{◌≡◌, Bool, true, Option, none, some, ℤ, eq_ℤ, first, if◌then◌else◌}
use vapaa.Errors.Names.{ErrorClass, success, err_unknown, vapaa_error, error_ladder}

pub record ErrorLib : Type 0 where
  pub error : ErrorClass → ℤ
  pub error_class : ℤ → ℤ × ℤ

module _ (lib : ErrorLib) (version4 : Bool) where
  open lib use {error, error_class}

  -- The ladder of `C_MPI_ERROR_CODE_C2F`, at the class.
  unfoldable pub class_c2f : ℤ → ℤ
  class_c2f cls = elim (first (λ c. eq_ℤ cls (error c)) (error_ladder version4)) [
    | some c ↦ vapaa_error c
    | none ↦ vapaa_error err_unknown
  ]

  -- `C_MPI_ERROR_CODE_C2F`; `none` where its assertion fails and the program is aborted.
  unfoldable pub error_code_c2f : ℤ → Option ℤ
  unfolding class_c2f
  error_code_c2f e =
      let (rc, cls) = error_class e in
      if eq_ℤ rc (error success) then some (class_c2f cls) else none

  -- `C_MPI_ERROR_CODE_F2C`.
  unfoldable pub error_code_f2c : ℤ → ℤ
  error_code_f2c f = elim (first (λ c. eq_ℤ f (vapaa_error c)) (error_ladder version4)) [
    | some c ↦ error c
    | none ↦ error err_unknown
  ]

  -- `C_MPI_RC_FIX`, the new value of the return code.
  unfoldable pub rc_fix : ℤ → Option ℤ
  rc_fix rc = if eq_ℤ rc (error success) then some rc else error_code_c2f rc

  -- `C_MPI_Error_class`: what it stores in `errorclass`, and in `ierror`.
  unfoldable pub error_class_f08 : ℤ → ℤ × Option ℤ
  error_class_f08 errorcode_f =
      let (rc, cls) = error_class (error_code_f2c errorcode_f) in (cls, rc_fix rc)

-- What the MPI standard says of these: the classes have different values, MPI_SUCCESS is 0, and
-- MPI_Error_class maps each class to itself.
pub record ErrorLaws (lib : ErrorLib) : Type 0 where
  pub injective : (c d : ErrorClass) → lib.error c ≡ lib.error d → c ≡ d
  pub success_zero : lib.error success ≡ ℤ.pos 0
  pub class_of_class :
      (c : ErrorClass) → lib.error_class (lib.error c) ≡ (lib.error success, lib.error c)
