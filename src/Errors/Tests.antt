-- ===== src/Errors/Tests.antt =====
-- The error codes of source/mpi_error.c on the sample library.
use vapaa.Prelude.{◌≡◌, refl, false, some, pos}
use vapaa.Errors.Names.{err_truncate, err_session, err_unknown, vapaa_error, error_ladder}
use vapaa.Errors.{error_code_c2f, error_code_f2c, error_class_f08}
use vapaa.Errors.RoundTrip.{
  Listed, Unlisted, error_round_trip, error-Unlisted, error_class_f08-Listed,
}
use vapaa.Mpi.Sample.{error_lib, error_laws}

truncate-Listed : Listed false err_truncate
unfolding vapaa_error error_ladder
truncate-Listed = refl

session-Unlisted : Unlisted false err_session
unfolding vapaa_error error_ladder
session-Unlisted = refl

error_round_trip_example :
    (error_code_f2c error_lib false (vapaa_error err_truncate) ≡ error_lib.error err_truncate)
    × (error_code_c2f error_lib false (error_lib.error err_truncate)
        ≡ some (vapaa_error err_truncate))
error_round_trip_example = error_round_trip error_laws false err_truncate truncate-Listed

error-Unlisted_example :
    (error_code_f2c error_lib false (vapaa_error err_session) ≡ error_lib.error err_unknown)
    × (error_code_c2f error_lib false (error_lib.error err_session)
        ≡ some (vapaa_error err_unknown))
error-Unlisted_example = error-Unlisted error_laws false err_session session-Unlisted

error_class_f08-Listed_example :
    error_class_f08 error_lib false (vapaa_error err_truncate)
    ≡ (error_lib.error err_truncate, some (pos 0))
error_class_f08-Listed_example =
    error_class_f08-Listed error_laws false err_truncate truncate-Listed
