-- ===== src/Handles/DatatypeNames.antt =====
-- The named datatypes of source/convert_handles.h: the numbers that Vapaa gives them in
-- source/vapaa_constants.h, the order of the ladders and switches over them, and the list of
-- those that source/detect_builtins.h calls built-in.
use vapaa.Prelude.{Bool, List, [], ◌∷◌, ℤ, neg, when}

-- The constants of mpi.h that Vapaa names, without their prefix MPI_.
pub data DatatypeName : Type 0 where
  datatype_null character logical integer real double_precision complex double_complex :
      DatatypeName
  integer1 integer2 integer4 integer8 integer16 real2 real4 real8 real16 complex4 complex8 :
      DatatypeName
  complex16 complex32 aint count offset byte char unsigned_char signed_char wchar short :
      DatatypeName
  unsigned_short int long unsigned unsigned_long long_long_int unsigned_long_long float :
      DatatypeName
  double long_double c_bool int8_t int16_t int32_t int64_t uint8_t uint16_t uint32_t : DatatypeName
  uint64_t c_complex c_float_complex c_double_complex c_long_double_complex float_int : DatatypeName
  double_int long_int two_int short_int long_double_int two_real two_double_precision : DatatypeName
  two_integer : DatatypeName

-- Which optional datatypes the build found (the HAVE_MPI_ macros).
pub record Config : Type 0 where
  pub integer16 : Bool
  pub real2 : Bool
  pub real16 : Bool
  pub complex4 : Bool
  pub complex32 : Bool

-- The constant VAPAA_MPI_X, which is what Fortran sees.
unfoldable pub vapaa_datatype : DatatypeName → ℤ
vapaa_datatype datatype_null = neg 11
vapaa_datatype character = neg 10000
vapaa_datatype logical = neg 10001
vapaa_datatype integer = neg 10002
vapaa_datatype real = neg 10003
vapaa_datatype double_precision = neg 10004
vapaa_datatype complex = neg 10005
vapaa_datatype double_complex = neg 10006
vapaa_datatype integer1 = neg 10007
vapaa_datatype integer2 = neg 10008
vapaa_datatype integer4 = neg 10009
vapaa_datatype integer8 = neg 10010
vapaa_datatype integer16 = neg 10011
vapaa_datatype real2 = neg 10012
vapaa_datatype real4 = neg 10013
vapaa_datatype real8 = neg 10014
vapaa_datatype real16 = neg 10015
vapaa_datatype complex4 = neg 10016
vapaa_datatype complex8 = neg 10017
vapaa_datatype complex16 = neg 10018
vapaa_datatype complex32 = neg 10019
vapaa_datatype aint = neg 20000
vapaa_datatype count = neg 20001
vapaa_datatype offset = neg 20002
vapaa_datatype byte = neg 30000
vapaa_datatype char = neg 30001
vapaa_datatype unsigned_char = neg 30002
vapaa_datatype signed_char = neg 30003
vapaa_datatype wchar = neg 30004
vapaa_datatype short = neg 30005
vapaa_datatype unsigned_short = neg 30006
vapaa_datatype int = neg 30007
vapaa_datatype long = neg 30008
vapaa_datatype unsigned = neg 30009
vapaa_datatype unsigned_long = neg 30010
vapaa_datatype long_long_int = neg 30011
vapaa_datatype unsigned_long_long = neg 30012
vapaa_datatype float = neg 30013
vapaa_datatype double = neg 30014
vapaa_datatype long_double = neg 30015
vapaa_datatype c_bool = neg 30016
vapaa_datatype int8_t = neg 30017
vapaa_datatype int16_t = neg 30018
vapaa_datatype int32_t = neg 30019
vapaa_datatype int64_t = neg 30020
vapaa_datatype uint8_t = neg 30021
vapaa_datatype uint16_t = neg 30022
vapaa_datatype uint32_t = neg 30023
vapaa_datatype uint64_t = neg 30024
vapaa_datatype c_complex = neg 30025
vapaa_datatype c_float_complex = neg 30026
vapaa_datatype c_double_complex = neg 30027
vapaa_datatype c_long_double_complex = neg 30028
vapaa_datatype float_int = neg 40000
vapaa_datatype double_int = neg 40001
vapaa_datatype long_int = neg 40002
vapaa_datatype two_int = neg 40003
vapaa_datatype short_int = neg 40004
vapaa_datatype long_double_int = neg 40005
vapaa_datatype two_real = neg 40006
vapaa_datatype two_double_precision = neg 40007
vapaa_datatype two_integer = neg 40008

-- The pair types, which close the ladders of the conversions.
unfoldable pub pair_names : List DatatypeName
pair_names =
    float_int ∷ double_int ∷ long_int ∷ two_int ∷ short_int ∷ long_double_int ∷ two_real
    ∷ two_double_precision ∷ two_integer ∷ []

module _ (cfg : Config) where
  -- The named types up to the complex ones, in the order of the ladders, before `rest`.
  unfoldable pub names_before : List DatatypeName → List DatatypeName
  names_before rest =
      character
      ∷ logical
      ∷ integer
      ∷ real
      ∷ double_precision
      ∷ complex
      ∷ double_complex
      ∷ integer1
      ∷ integer2
      ∷ integer4
      ∷ integer8
      ∷ when cfg.integer16 integer16 (
          when cfg.real2 real2 (
            real4
            ∷ real8
            ∷ when cfg.real16 real16 (
                when cfg.complex4 complex4 (
                  complex8
                  ∷ complex16
                  ∷ when cfg.complex32 complex32 (
                      aint ∷ count ∷ offset ∷ byte ∷ char ∷ unsigned_char ∷ signed_char ∷ wchar
                      ∷ short ∷ unsigned_short ∷ int ∷ long ∷ unsigned ∷ unsigned_long
                      ∷ long_long_int ∷ unsigned_long_long ∷ float ∷ double ∷ long_double ∷ c_bool
                      ∷ int8_t ∷ int16_t ∷ int32_t ∷ int64_t ∷ uint8_t ∷ uint16_t ∷ uint32_t
                      ∷ uint64_t ∷ c_complex ∷ c_float_complex ∷ c_double_complex
                      ∷ c_long_double_complex ∷ rest)))))

  -- The cases of `C_MPI_TYPE_F2C` and `C_MPI_TYPE_C2F`, in order.
  unfoldable pub datatype_names : List DatatypeName
  unfolding pair_names names_before
  datatype_names = datatype_null ∷ names_before pair_names

  -- The cases of `C_MPI_TYPE_IS_BUILTIN`, in order.
  unfoldable pub builtin_names : List DatatypeName
  unfolding names_before
  builtin_names = names_before []
