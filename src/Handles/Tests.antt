-- ===== src/Handles/Tests.antt =====
-- The handles of source/convert_handles.h on the sample library.
use vapaa.Prelude.{◌≡◌, refl, true, false, pos, eq_ℤ}
use vapaa.Handles.DatatypeNames.{DatatypeName, datatype_null, Config, vapaa_datatype}
use vapaa.Handles.{type_f2c, type_c2f}
use vapaa.Handles.RoundTrip.{type_f2c-type_c2f}
use vapaa.Mpi.Sample.{handle_lib}

abbrev config : Config
config = record {
  integer16 = true;
  real2 = false;
  real16 = true;
  complex4 = false;
  complex32 = true;
}

free : (d : DatatypeName) → eq_ℤ (pos 50000) (vapaa_datatype d) ≡ false
unfolding vapaa_datatype
free datatype_null = refl
free _ = refl

type_f2c-type_c2f_example :
    type_f2c handle_lib config (type_c2f handle_lib config (pos 50000)) ≡ pos 50000
type_f2c-type_c2f_example = type_f2c-type_c2f handle_lib config (pos 50000) refl free
