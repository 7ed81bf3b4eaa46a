-- ===== src/Errors/RoundTrip.antt =====
-- The two ladders of source/mpi_error.c are inverse to one another on the classes that they list,
-- and agree on the rest.
use vapaa.Prelude.{
  ◌≡◌, refl, sym, ap, ◌∙◌, ◌≢◌, ℕ, ◌≤◌, Bool, true, false, List, ◌∷◌, Option, some, ℤ, pos, eq_ℤ,
  eq_ℤ-refl, eq_ℤ→eq, first, listed, first_unique, first_unlisted, arith,
}
use vapaa.Errors.Names.{ErrorClass, success, err_unknown, vapaa_error, error_ladder}
use vapaa.Errors.{
  ErrorLib, ErrorLaws, class_c2f, error_code_c2f, error_code_f2c, rc_fix, error_class_f08,
}

-- Each number of source/vapaa_constants.h leads back to its class.
every_class : Bool → List ErrorClass
every_class b = ErrorClass.t_err_not_accessible ∷ error_ladder b

abbrev search : ℤ → Option ErrorClass
search v = first (λ d. eq_ℤ v (vapaa_error d)) (every_class true)

search_vapaa : (c : ErrorClass) → search (vapaa_error c) ≡ some c
unfolding vapaa_error error_ladder every_class
search_vapaa success = refl
search_vapaa _ = refl

pub vapaa_error_injective : (c d : ErrorClass) → vapaa_error c ≡ vapaa_error d → c ≡ d
vapaa_error_injective c d h = cc (search_vapaa c, search_vapaa d, ap search h)

-- Fortran's numbers lie between 0 and 79, and only that of MPI_SUCCESS is 0.
pub vapaa_error_range : (c : ErrorClass) → (n : ℕ) × (vapaa_error c ≡ pos n) × (n ≤ 79)
unfolding vapaa_error
vapaa_error_range success = (0, refl, omega arith)
vapaa_error_range _ = (_, refl, omega arith)

-- The ladders test for the class, and do not.
abbrev pub Listed : Bool → ErrorClass → Type 0
Listed version4 c = listed vapaa_error c (error_ladder version4) ≡ true

abbrev pub Unlisted : Bool → ErrorClass → Type 0
Unlisted version4 c = listed vapaa_error c (error_ladder version4) ≡ false

module _ {lib : ErrorLib} (laws : ErrorLaws lib) (version4 : Bool) (c : ErrorClass) where
  open lib use {error}

  only_error : (d : ErrorClass) → eq_ℤ (error c) (error d) ≡ true → d ≡ c
  only_error d h = sym (laws.injective c d (eq_ℤ→eq (error c) (error d) h))

  only_vapaa : (d : ErrorClass) → eq_ℤ (vapaa_error c) (vapaa_error d) ≡ true → d ≡ c
  only_vapaa d h = sym (vapaa_error_injective c d (eq_ℤ→eq (vapaa_error c) (vapaa_error d) h))

  pub class_c2f-Listed : Listed version4 c → class_c2f lib version4 (error c) ≡ vapaa_error c
  unfolding class_c2f
  class_c2f-Listed h = rw (
    first_unique (λ d. eq_ℤ (error c) (error d)) vapaa_error c (error_ladder version4)
        vapaa_error_injective only_error (eq_ℤ-refl (error c)) h,
    class_c2f,
  )

  pub class_c2f-Unlisted :
      Unlisted version4 c → class_c2f lib version4 (error c) ≡ vapaa_error err_unknown
  unfolding class_c2f
  class_c2f-Unlisted h = rw (
    first_unlisted (λ d. eq_ℤ (error c) (error d)) vapaa_error c (error_ladder version4) only_error
        h,
    class_c2f,
  )

  pub error_code_c2f_class :
      error_code_c2f lib version4 (error c) ≡ some (class_c2f lib version4 (error c))
  unfolding error_code_c2f
  error_code_c2f_class = rw (laws.class_of_class c, eq_ℤ-refl (error success))

  pub error_code_f2c-Listed :
      Listed version4 c → error_code_f2c lib version4 (vapaa_error c) ≡ error c
  unfolding error_code_f2c
  error_code_f2c-Listed h = rw (
    first_unique (λ d. eq_ℤ (vapaa_error c) (vapaa_error d)) vapaa_error c (error_ladder version4)
        vapaa_error_injective only_vapaa (eq_ℤ-refl (vapaa_error c)) h,
    error_code_f2c,
  )

  pub error_code_f2c-Unlisted :
      Unlisted version4 c → error_code_f2c lib version4 (vapaa_error c) ≡ error err_unknown
  unfolding error_code_f2c
  error_code_f2c-Unlisted h = rw (
    first_unlisted (λ d. eq_ℤ (vapaa_error c) (vapaa_error d)) vapaa_error c (error_ladder version4)
        only_vapaa h,
    error_code_f2c,
  )

  -- A class that the ladders list survives the way into the C library and back: Fortran's number
  -- goes to the class of mpi.h, and that goes to Fortran's number, with no abort.
  pub error_round_trip :
      Listed version4 c
      → (error_code_f2c lib version4 (vapaa_error c) ≡ error c)
        × (error_code_c2f lib version4 (error c) ≡ some (vapaa_error c))
  error_round_trip h =
      (error_code_f2c-Listed h, error_code_c2f_class ∙ ap some (class_c2f-Listed h))

  -- A class that they do not list becomes MPI_ERR_UNKNOWN both ways.
  pub error-Unlisted :
      Unlisted version4 c
      → (error_code_f2c lib version4 (vapaa_error c) ≡ error err_unknown)
        × (error_code_c2f lib version4 (error c) ≡ some (vapaa_error err_unknown))
  error-Unlisted h =
      (error_code_f2c-Unlisted h, error_code_c2f_class ∙ ap some (class_c2f-Unlisted h))

  -- MPI_Error_class hands back the C library's number of the class, not Fortran's; the return code
  -- of a listed class is MPI_SUCCESS.
  pub error_class_f08-Listed :
      Listed version4 c → error_class_f08 lib version4 (vapaa_error c) ≡ (error c, some (pos 0))
  unfolding error_class_f08 rc_fix
  error_class_f08-Listed h =
      rw (
        error_code_f2c-Listed h,
        laws.class_of_class c,
        eq_ℤ-refl (error success),
        laws.success_zero,
      )

-- With MPI 4 the ladders list every class but MPI_T_ERR_NOT_ACCESSIBLE.
pub Listed-version4 : (c : ErrorClass) → c ≢ ErrorClass.t_err_not_accessible → Listed true c
unfolding vapaa_error error_ladder
Listed-version4 ErrorClass.t_err_not_accessible h = absurd (h refl)
Listed-version4 _ h = refl
