-- ===== src/Objects/Types.antt =====
-- Datatypes and operators that the caller makes: source/mpi_datatype.c and source/mpi_op.c. Arrays are
-- passed on by their addresses.
use vapaa.Prelude.{Option, none, some, ℤ, pos, eq_ℤ, if◌then◌else◌}
use vapaa.Handles.{type_f2c}
use vapaa.Run.{Run, aborted}
use vapaa.Mpi.{Made}
use vapaa.Transfer.{Env}
use vapaa.Objects.{number_of, result_of}

-- VAPAA_MPI_ORDER_C and VAPAA_MPI_ORDER_FORTRAN.
pub data Order : Type 0 where
  order_c order_fortran : Order

unfoldable pub vapaa_order : Order → ℤ
vapaa_order order_c = pos 321
vapaa_order order_fortran = pos 123

pub record TypeLib (W : Type 0) : Type 0 where
  pub order : Order → ℤ
  pub type_commit : ℤ → W → Made W
  -- Datatype and the variable: return code and the variable.
  pub type_size : ℤ → ℤ → W → (ℤ × ℤ) × W
  pub type_dup : ℤ → W → Made W
  pub type_free : ℤ → W → Made W
  -- Count and old type.
  pub type_contiguous : ℤ → ℤ → W → Made W
  -- Count, block length, stride, old type.
  pub type_vector : ℤ → ℤ → ℤ → ℤ → W → Made W
  -- Number of dimensions, sizes, subsizes, starts, order, old type.
  pub type_create_subarray : ℤ → ℤ → ℤ → ℤ → ℤ → ℤ → W → Made W
  -- Function and if it commutes.
  pub op_create : ℤ → ℤ → W → Made W
  pub op_free : ℤ → W → Made W

module _ {W : Type 0} (env : Env W) (types : TypeLib W) where
  open env use {mpi, config}
  open types use {
    order, type_commit, type_size, type_dup, type_free, type_contiguous, type_vector,
    type_create_subarray, op_create, op_free,
  }

  -- `C_MPI_TRANSLATE_MAJOR`; `none` where it calls MPI_Abort.
  unfoldable pub translate_major : ℤ → Option ℤ
  unfolding vapaa_order
  translate_major f =
      if eq_ℤ f (vapaa_order order_c)
      then some (order order_c)
      else if eq_ℤ f (vapaa_order order_fortran)
      then some (order order_fortran)
      else none

  -- `C_MPI_Type_commit`, which converts the handle by MPI_Type_f2c.
  unfoldable pub c_type_commit : (type_f : ℤ) → W → Run W (ℤ × ℤ)
  unfolding number_of
  c_type_commit type_f w =
      number_of env mpi.handles.mpi_type_c2f (type_commit (mpi.handles.mpi_type_f2c type_f) w)

  -- `C_MPI_Type_dup`, which converts the handle by MPI_Type_f2c.
  unfoldable pub c_type_dup : (type_f : ℤ) → W → Run W (ℤ × ℤ)
  unfolding number_of
  c_type_dup type_f w =
      number_of env mpi.handles.mpi_type_c2f (type_dup (mpi.handles.mpi_type_f2c type_f) w)

  -- `C_MPI_Type_free`, which converts the handle by MPI_Type_f2c.
  unfoldable pub c_type_free : (type_f : ℤ) → W → Run W (ℤ × ℤ)
  unfolding number_of
  c_type_free type_f w =
      number_of env mpi.handles.mpi_type_c2f (type_free (mpi.handles.mpi_type_f2c type_f) w)

  -- `C_MPI_Type_size`, which does so too.
  unfoldable pub c_type_size : (type_f : ℤ) → W → Run W (ℤ × ℤ)
  unfolding result_of
  c_type_size type_f w = result_of env (type_size (mpi.handles.mpi_type_f2c type_f) (pos 0) w)

  -- `C_MPI_Type_contiguous`.
  unfoldable pub c_type_contiguous : (count oldtype_f : ℤ) → W → Run W (ℤ × ℤ)
  unfolding number_of
  c_type_contiguous count oldtype_f w =
      number_of env mpi.handles.mpi_type_c2f
        (type_contiguous count (type_f2c mpi.handles config oldtype_f) w)

  -- `C_MPI_Type_vector`.
  unfoldable pub c_type_vector : (count blocklength stride oldtype_f : ℤ) → W → Run W (ℤ × ℤ)
  unfolding number_of
  c_type_vector count blocklength stride oldtype_f w =
      number_of env mpi.handles.mpi_type_c2f
        (type_vector count blocklength stride (type_f2c mpi.handles config oldtype_f) w)

  -- `C_MPI_Type_create_subarray`.
  unfoldable pub c_type_create_subarray :
      (ndims sizes subsizes starts order_f oldtype_f : ℤ) → W → Run W (ℤ × ℤ)
  unfolding number_of translate_major
  c_type_create_subarray ndims sizes subsizes starts order_f oldtype_f w =
      elim (translate_major order_f) [
        | none ↦ aborted
        | some o ↦ number_of env mpi.handles.mpi_type_c2f (
            type_create_subarray ndims sizes subsizes starts o
              (type_f2c mpi.handles config oldtype_f) w)
      ]

  -- `C_MPI_Op_create`.
  unfoldable pub c_op_create : (user_fn commute : ℤ) → W → Run W (ℤ × ℤ)
  unfolding number_of
  c_op_create user_fn commute w = number_of env mpi.handles.mpi_op_c2f (op_create user_fn commute w)

  -- `C_MPI_Op_free`, which converts the handle by MPI_Op_f2c.
  unfoldable pub c_op_free : (op_f : ℤ) → W → Run W (ℤ × ℤ)
  unfolding number_of
  c_op_free op_f w = number_of env mpi.handles.mpi_op_c2f (op_free (mpi.handles.mpi_op_f2c op_f) w)
