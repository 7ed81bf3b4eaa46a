-- ===== src/Objects/Comms.antt =====
-- Communicators: source/mpi_comm.c. Arrays are passed on by their addresses. A variable that the library
-- writes is given with what it holds before.
use vapaa.Prelude.{Option, none, some, ℤ, pos, eq_ℤ, ◌&&◌, if◌then◌else◌}
use vapaa.Handles.{comm_f2c, group_f2c, info_f2c}
use vapaa.Run.{Run, aborted, ◌>>=◌, pure}
use vapaa.Mpi.{Made}
use vapaa.Transfer.{Env, fix_rc}
use vapaa.Objects.{number_of, code_of, result_of}

-- VAPAA_MPI_COMM_TYPE_SHARED and so on.
pub data SplitType : Type 0 where
  shared hw_unguided hw_guided : SplitType

unfoldable pub vapaa_split_type : SplitType → ℤ
vapaa_split_type shared = pos 5300
vapaa_split_type hw_unguided = pos 5400
vapaa_split_type hw_guided = pos 5500

-- A communicator and the request of a call that starts making it.
pub record MadeLater (W : Type 0) : Type 0 where
  pub rc : ℤ
  pub handle : ℤ
  pub request : ℤ
  pub world : W

pub record CommLib (W : Type 0) : Type 0 where
  pub split_type : SplitType → ℤ
  -- Communicator and the variable: return code and the variable.
  pub comm_rank : ℤ → ℤ → W → (ℤ × ℤ) × W
  pub comm_size : ℤ → ℤ → W → (ℤ × ℤ) × W
  pub comm_dup : ℤ → W → Made W
  pub comm_dup_with_info : ℤ → ℤ → W → Made W
  pub comm_idup : ℤ → W → MadeLater W
  pub comm_idup_with_info : ℤ → ℤ → W → MadeLater W
  -- Communicator and group.
  pub comm_create : ℤ → ℤ → W → Made W
  -- Communicator, group, tag.
  pub comm_create_group : ℤ → ℤ → ℤ → W → Made W
  -- Communicator, colour, key.
  pub comm_split : ℤ → ℤ → ℤ → W → Made W
  -- Communicator, type, key, info.
  pub comm_split_type : ℤ → ℤ → ℤ → ℤ → W → Made W
  pub comm_free : ℤ → W → Made W
  -- Communicator, number of dimensions, dimensions, periods, reorder.
  pub cart_create : ℤ → ℤ → ℤ → ℤ → ℤ → W → Made W
  -- Nodes, number of dimensions, dimensions.
  pub dims_create : ℤ → ℤ → ℤ → W → ℤ × W
  -- Communicator, rank, number of dimensions, coordinates.
  pub cart_coords : ℤ → ℤ → ℤ → ℤ → W → ℤ × W

module _ {W : Type 0} (env : Env W) (comms : CommLib W) where
  open env use {mpi, version4}
  open comms use {
    split_type, comm_rank, comm_size, comm_dup, comm_dup_with_info, comm_idup, comm_idup_with_info,
    comm_create, comm_create_group, comm_split, comm_split_type, comm_free, cart_create,
    dims_create, cart_coords,
  }

  -- `C_MPI_TRANSLATE_SPLIT_TYPE`; `none` where it calls MPI_Abort.
  unfoldable pub translate_split_type : ℤ → Option ℤ
  unfolding vapaa_split_type
  translate_split_type f =
      if eq_ℤ f (vapaa_split_type shared)
      then some (split_type shared)
      else if version4 && eq_ℤ f (vapaa_split_type hw_unguided)
      then some (split_type hw_unguided)
      else if version4 && eq_ℤ f (vapaa_split_type hw_guided)
      then some (split_type hw_guided)
      else none

  -- `C_MPI_Comm_rank`.
  unfoldable pub c_comm_rank : (comm_f rank : ℤ) → W → Run W (ℤ × ℤ)
  unfolding result_of
  c_comm_rank comm_f rank w = result_of env (comm_rank (comm_f2c mpi.handles comm_f) rank w)

  -- `C_MPI_Comm_size`.
  unfoldable pub c_comm_size : (comm_f size : ℤ) → W → Run W (ℤ × ℤ)
  unfolding result_of
  c_comm_size comm_f size w = result_of env (comm_size (comm_f2c mpi.handles comm_f) size w)

  -- `C_MPI_Comm_dup`.
  unfoldable pub c_comm_dup : (comm_f : ℤ) → W → Run W (ℤ × ℤ)
  unfolding number_of
  c_comm_dup comm_f w =
      number_of env mpi.handles.mpi_comm_c2f (comm_dup (comm_f2c mpi.handles comm_f) w)

  -- `C_MPI_Comm_dup_with_info`.
  unfoldable pub c_comm_dup_with_info : (comm_f info_f : ℤ) → W → Run W (ℤ × ℤ)
  unfolding number_of
  c_comm_dup_with_info comm_f info_f w =
      number_of env mpi.handles.mpi_comm_c2f
        (comm_dup_with_info (comm_f2c mpi.handles comm_f) (info_f2c mpi.handles info_f) w)

  -- The end of the calls that start making a communicator: *ierror, *newcomm_f and *request_f.
  unfoldable pub numbers_of : MadeLater W → Run W (ℤ × ℤ × ℤ)
  unfolding fix_rc
  numbers_of m =
      (do
        ierror ← fix_rc env m.rc
        pure (ierror, mpi.handles.mpi_comm_c2f m.handle, mpi.handles.mpi_request_c2f m.request))
        m.world

  -- `C_MPI_Comm_idup`.
  unfoldable pub c_comm_idup : (comm_f : ℤ) → W → Run W (ℤ × ℤ × ℤ)
  unfolding numbers_of
  c_comm_idup comm_f w = numbers_of (comm_idup (comm_f2c mpi.handles comm_f) w)

  -- `C_MPI_Comm_idup_with_info`.
  unfoldable pub c_comm_idup_with_info : (comm_f info_f : ℤ) → W → Run W (ℤ × ℤ × ℤ)
  unfolding numbers_of
  c_comm_idup_with_info comm_f info_f w =
      numbers_of (comm_idup_with_info (comm_f2c mpi.handles comm_f) (info_f2c mpi.handles info_f) w)

  -- `C_MPI_Comm_create`.
  unfoldable pub c_comm_create : (comm_f group_f : ℤ) → W → Run W (ℤ × ℤ)
  unfolding number_of
  c_comm_create comm_f group_f w =
      number_of env mpi.handles.mpi_comm_c2f
        (comm_create (comm_f2c mpi.handles comm_f) (group_f2c mpi.handles group_f) w)

  -- `C_MPI_Comm_create_group`.
  unfoldable pub c_comm_create_group : (comm_f group_f tag : ℤ) → W → Run W (ℤ × ℤ)
  unfolding number_of
  c_comm_create_group comm_f group_f tag w =
      number_of env mpi.handles.mpi_comm_c2f
        (comm_create_group (comm_f2c mpi.handles comm_f) (group_f2c mpi.handles group_f) tag w)

  -- `C_MPI_Comm_split`.
  unfoldable pub c_comm_split : (comm_f color key : ℤ) → W → Run W (ℤ × ℤ)
  unfolding number_of
  c_comm_split comm_f color key w =
      number_of env mpi.handles.mpi_comm_c2f (comm_split (comm_f2c mpi.handles comm_f) color key w)

  -- `C_MPI_Comm_split_type`.
  unfoldable pub c_comm_split_type : (comm_f type_f key info_f : ℤ) → W → Run W (ℤ × ℤ)
  unfolding number_of translate_split_type
  c_comm_split_type comm_f type_f key info_f w = elim (translate_split_type type_f) [
    | none ↦ aborted
    | some t ↦
        number_of env mpi.handles.mpi_comm_c2f
          (comm_split_type (comm_f2c mpi.handles comm_f) t key (info_f2c mpi.handles info_f) w)
  ]

  -- `C_MPI_Comm_free`.
  unfoldable pub c_comm_free : (comm_f : ℤ) → W → Run W (ℤ × ℤ)
  unfolding number_of
  c_comm_free comm_f w =
      number_of env mpi.handles.mpi_comm_c2f (comm_free (comm_f2c mpi.handles comm_f) w)

  -- `C_MPI_Cart_create`.
  unfoldable pub c_cart_create : (comm_f ndims dims periods reorder : ℤ) → W → Run W (ℤ × ℤ)
  unfolding number_of
  c_cart_create comm_f ndims dims periods reorder w =
      number_of env mpi.handles.mpi_comm_c2f
        (cart_create (comm_f2c mpi.handles comm_f) ndims dims periods reorder w)

  -- `C_MPI_Dims_create`.
  unfoldable pub c_dims_create : (nnodes ndims dims : ℤ) → W → Run W ℤ
  unfolding code_of
  c_dims_create nnodes ndims dims w = code_of env (dims_create nnodes ndims dims w)

  -- `C_MPI_Cart_coords`.
  unfoldable pub c_cart_coords : (comm_f rank maxdims coords : ℤ) → W → Run W ℤ
  unfolding code_of
  c_cart_coords comm_f rank maxdims coords w =
      code_of env (cart_coords (comm_f2c mpi.handles comm_f) rank maxdims coords w)
