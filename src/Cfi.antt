-- ===== src/Cfi.antt =====
-- C descriptors of Fortran arrays and the datatypes made for them: source/cfi_util.c.
pub mod Loops
pub mod Indexed
pub mod Create
pub mod Shapes
pub mod Section
pub mod Nests
pub mod Addresses
pub mod Derived
pub mod DerivedType
pub mod Select
pub mod Choice
pub mod Datatype
pub mod Printing
pub mod Quiet
pub mod Refusal
pub mod Elements
pub mod Fill
pub mod Tests
use vapaa.Prelude.{ℕ, ℤ, Bool, List, [], ◌∷◌}
use vapaa.Handles.DatatypeNames
use vapaa.Handles.DatatypeNames.{DatatypeName}

-- CFI_dim_t.
pub record Dim : Type 0 where
  pub lower_bound : ℤ
  pub extent : ℤ
  pub sm : ℤ

-- CFI_cdesc_t. `dim i` is what the memory at dim[i] holds: the compiler sets it for i < rank, and
-- for any other i the value means nothing.
pub record Desc : Type 0 where
  pub base_addr : ℤ
  pub elem_len : ℕ
  pub rank : ℕ
  pub cfi_type : ℤ
  pub dim : ℕ → Dim

-- The codes CFI_type_X of ISO_Fortran_binding.h that `VAPAA_CFI_TO_MPI_TYPE` tests for.
pub data CfiType : Type 0 where
  signed_char char int8_t int16_t int32_t int64_t float double float_complex double_complex :
      CfiType

-- Its tests, in order.
unfoldable pub cfi_types : List CfiType
cfi_types =
    signed_char ∷ char ∷ int8_t ∷ int16_t ∷ int32_t ∷ int64_t ∷ float ∷ double ∷ float_complex
    ∷ double_complex ∷ []

-- The constant of mpi.h that it returns.
unfoldable pub mpi_name : CfiType → DatatypeName
mpi_name signed_char = DatatypeNames.char
mpi_name char = DatatypeNames.char
mpi_name int8_t = DatatypeNames.int8_t
mpi_name int16_t = DatatypeNames.int16_t
mpi_name int32_t = DatatypeNames.int32_t
mpi_name int64_t = DatatypeNames.int64_t
mpi_name float = DatatypeNames.float
mpi_name double = DatatypeNames.double
mpi_name float_complex = DatatypeNames.c_float_complex
mpi_name double_complex = DatatypeNames.c_double_complex

-- What the compiler and the MPI library of the build give: the codes of the types,
-- CFI_is_contiguous, and whether MPIX_Iov is there (MPICH after 4.2).
pub record Build : Type 0 where
  pub cfi_code : CfiType → ℤ
  pub is_contiguous : Desc → ℤ
  pub has_iov : Bool
