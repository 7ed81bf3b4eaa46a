-- ===== src/Handles.antt =====
-- Translating handles between Fortran's numbers and the C library: source/convert_handles.h and
-- source/detect_builtins.h.
--
-- A C handle is an int (MPICH) or a pointer (Open MPI); either way the code only passes it on and
-- compares it, and here it is a number. `HandleLib` holds what mpi.h gives: the values of the
-- predefined handles and the conversions MPI_X_f2c and MPI_X_c2f.
pub mod DatatypeNames
pub mod OpNames
pub mod RoundTrip
mod Tests
use vapaa.Prelude.{Bool, true, false, Option, none, some, ℤ, eq_ℤ, first, if◌then◌else◌}
use vapaa.Constants.{
  vapaa_comm_world, vapaa_comm_self, vapaa_comm_null, vapaa_file_null, vapaa_group_null,
  vapaa_info_null, vapaa_message_null, vapaa_message_no_proc, vapaa_request_null, vapaa_win_null,
}
use vapaa.Handles.DatatypeNames.{
  DatatypeName, datatype_null, Config, vapaa_datatype, datatype_names, builtin_names,
}
use vapaa.Handles.OpNames.{OpName, op_null, vapaa_op, op_names, builtin_ops}

pub record HandleLib : Type 0 where
  pub datatype : DatatypeName → ℤ
  pub op : OpName → ℤ
  pub comm_world : ℤ
  pub comm_self : ℤ
  pub comm_null : ℤ
  pub file_null : ℤ
  pub group_null : ℤ
  pub info_null : ℤ
  pub message_null : ℤ
  pub message_no_proc : ℤ
  pub request_null : ℤ
  pub win_null : ℤ
  pub mpi_comm_f2c : ℤ → ℤ
  pub mpi_comm_c2f : ℤ → ℤ
  pub mpi_type_f2c : ℤ → ℤ
  pub mpi_type_c2f : ℤ → ℤ
  pub mpi_file_f2c : ℤ → ℤ
  pub mpi_file_c2f : ℤ → ℤ
  pub mpi_group_f2c : ℤ → ℤ
  pub mpi_group_c2f : ℤ → ℤ
  pub mpi_info_f2c : ℤ → ℤ
  pub mpi_info_c2f : ℤ → ℤ
  pub mpi_message_f2c : ℤ → ℤ
  pub mpi_message_c2f : ℤ → ℤ
  pub mpi_op_f2c : ℤ → ℤ
  pub mpi_op_c2f : ℤ → ℤ
  pub mpi_request_f2c : ℤ → ℤ
  pub mpi_request_c2f : ℤ → ℤ
  pub mpi_win_f2c : ℤ → ℤ

-- An entry was found.
abbrev pub found {ℓ} : {A : Type ℓ} → Option A → Bool
found none = false
found (some _) = true

module _ (lib : HandleLib) where
  open lib use {
    datatype, op, comm_world, comm_self, comm_null, file_null, group_null, info_null, message_null,
    message_no_proc, request_null, win_null, mpi_comm_f2c, mpi_type_f2c, mpi_type_c2f, mpi_file_f2c,
    mpi_group_f2c, mpi_info_f2c, mpi_message_f2c, mpi_op_f2c, mpi_request_f2c, mpi_win_f2c,
  }

  -- `C_MPI_COMM_F2C`.
  unfoldable pub comm_f2c : ℤ → ℤ
  comm_f2c f =
      if eq_ℤ f vapaa_comm_world
      then comm_world
      else if eq_ℤ f vapaa_comm_self
      then comm_self
      else if eq_ℤ f vapaa_comm_null
      then comm_null
      else mpi_comm_f2c f

  -- `C_MPI_TYPE_F2C`. The labels of the switch differ, so at most one case applies.
  unfoldable pub type_f2c : Config → ℤ → ℤ
  type_f2c cfg f = elim (first (λ d. eq_ℤ f (vapaa_datatype d)) (datatype_names cfg)) [
    | some d ↦ datatype d
    | none ↦ mpi_type_f2c f
  ]

  -- `C_MPI_TYPE_C2F`.
  unfoldable pub type_c2f : Config → ℤ → ℤ
  type_c2f cfg t = elim (first (λ d. eq_ℤ t (datatype d)) (datatype_names cfg)) [
    | some d ↦ vapaa_datatype d
    | none ↦ mpi_type_c2f t
  ]

  -- `C_MPI_TYPE_IS_BUILTIN`.
  unfoldable pub type_is_builtin : Config → ℤ → Bool
  type_is_builtin cfg t =
      if eq_ℤ t (datatype datatype_null)
      then false
      else found (first (λ d. eq_ℤ t (datatype d)) (builtin_names cfg))

  -- `C_MPI_OP_F2C`.
  unfoldable pub op_f2c : ℤ → ℤ
  op_f2c f = elim (first (λ o. eq_ℤ f (vapaa_op o)) op_names) [
    | some o ↦ op o
    | none ↦ mpi_op_f2c f
  ]

  -- `C_MPI_OP_IS_BUILTIN`.
  unfoldable pub op_is_builtin : ℤ → Bool
  op_is_builtin o =
      if eq_ℤ o (op op_null) then false else found (first (λ b. eq_ℤ o (op b)) builtin_ops)

  -- `C_MPI_FILE_F2C`.
  unfoldable pub file_f2c : ℤ → ℤ
  file_f2c f = if eq_ℤ f vapaa_file_null then file_null else mpi_file_f2c f

  -- `C_MPI_GROUP_F2C`.
  unfoldable pub group_f2c : ℤ → ℤ
  group_f2c f = if eq_ℤ f vapaa_group_null then group_null else mpi_group_f2c f

  -- `C_MPI_INFO_F2C`.
  unfoldable pub info_f2c : ℤ → ℤ
  info_f2c f = if eq_ℤ f vapaa_info_null then info_null else mpi_info_f2c f

  -- `C_MPI_MESSAGE_F2C`.
  unfoldable pub message_f2c : ℤ → ℤ
  message_f2c f =
      if eq_ℤ f vapaa_message_null
      then message_null
      else if eq_ℤ f vapaa_message_no_proc
      then message_no_proc
      else mpi_message_f2c f

  -- `C_MPI_REQUEST_F2C`.
  unfoldable pub request_f2c : ℤ → ℤ
  request_f2c f = if eq_ℤ f vapaa_request_null then request_null else mpi_request_f2c f

  -- `C_MPI_WIN_F2C`.
  unfoldable pub win_f2c : ℤ → ℤ
  win_f2c f = if eq_ℤ f vapaa_win_null then win_null else mpi_win_f2c f
