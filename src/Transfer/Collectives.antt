-- ===== src/Transfer/Collectives.antt =====
-- The collectives of source/mpi_coll.c with two buffers: the gather family, and the reductions with
-- their guard against an operator of the user's on a built-in datatype.
pub mod Tests
use vapaa.Prelude.{Bool, not, ◌&&◌, ℤ, pos, if◌then◌else◌}
use vapaa.Errors.Names.{err_op}
use vapaa.Handles.{type_f2c, comm_f2c, op_f2c, type_is_builtin, op_is_builtin}
use vapaa.Run.{Run, ◌>>=◌, pure, abort}
use vapaa.Mpi.{made}
use vapaa.Cfi.{Desc}
use vapaa.Transfer.{Env, call, contiguous, fix_rc, commit_section, place}

module _ {W : Type 0} (env : Env W) where
  open env use {mpi, messages, config, version4, build, sentinels}

  -- One side of a collective: the count and the datatype to pass. A datatype is made for a section
  -- that is not contiguous; the variable held the type itself before.
  unfoldable pub offer : Desc → (count datatype : ℤ) → W → Run W (ℤ × ℤ)
  unfolding commit_section
  offer desc count datatype =
      if contiguous build desc
      then pure (count, datatype)
      else (do t ← commit_section env desc count datatype datatype; pure (pos 1, t))

  -- Freeing what was made for one side.
  unfoldable pub release : Desc → ℤ → W → Run W (Unit {0})
  release desc t =
      if contiguous build desc then pure tt else (do _ ← made mpi (mpi.type_free t); pure tt)

  -- The body that `CFI_MPI_Gather`, `CFI_MPI_Allgather`, `CFI_MPI_Scatter` and `CFI_MPI_Alltoall`
  -- share, around a call `f` of the library.
  unfoldable pub exchange :
      (f : (in_addr in_count in_type out_addr out_count out_type : ℤ) → W → ℤ × W) (input : Desc)
      (scount stype_f : ℤ) (output : Desc) (rcount rtype_f : ℤ)
      → W
      → Run W ℤ
  unfolding offer release fix_rc place
  exchange f input scount stype_f output rcount rtype_f = do
    (in_count, in_type) ← offer input scount (type_f2c mpi.handles config stype_f)
    (out_count, out_type) ← offer output rcount (type_f2c mpi.handles config rtype_f)
    rc ← call (
        f (place env input.base_addr) in_count in_type (place env output.base_addr) out_count
          out_type)
    ierror ← fix_rc env rc
    _ ← release input in_type
    _ ← release output out_type
    pure ierror

  -- `C_MPI_Gather`.
  unfoldable pub gather : (input scount stype_f output rcount rtype_f root comm_f : ℤ) → W → Run W ℤ
  unfolding fix_rc place
  gather input scount stype_f output rcount rtype_f root comm_f = do
    rc ← call (
        messages.gather (place env input) scount (type_f2c mpi.handles config stype_f)
          (place env output) rcount (type_f2c mpi.handles config rtype_f) root
          (comm_f2c mpi.handles comm_f))
    fix_rc env rc

  -- `CFI_MPI_Gather`.
  unfoldable pub cfi_gather :
      (input : Desc) (scount stype_f : ℤ) (output : Desc) (rcount rtype_f root comm_f : ℤ)
      → W
      → Run W ℤ
  unfolding exchange
  cfi_gather input scount stype_f output rcount rtype_f root comm_f =
      exchange (λ a n t b m u. messages.gather a n t b m u root (comm_f2c mpi.handles comm_f)) input
        scount stype_f output rcount rtype_f

  -- `C_MPI_Allgather`.
  unfoldable pub allgather : (input scount stype_f output rcount rtype_f comm_f : ℤ) → W → Run W ℤ
  unfolding fix_rc place
  allgather input scount stype_f output rcount rtype_f comm_f = do
    rc ← call (
        messages.allgather (place env input) scount (type_f2c mpi.handles config stype_f)
          (place env output) rcount (type_f2c mpi.handles config rtype_f)
          (comm_f2c mpi.handles comm_f))
    fix_rc env rc

  -- `CFI_MPI_Allgather`.
  unfoldable pub cfi_allgather :
      (input : Desc) (scount stype_f : ℤ) (output : Desc) (rcount rtype_f comm_f : ℤ) → W → Run W ℤ
  unfolding exchange
  cfi_allgather input scount stype_f output rcount rtype_f comm_f =
      exchange (λ a n t b m u. messages.allgather a n t b m u (comm_f2c mpi.handles comm_f)) input
        scount stype_f output rcount rtype_f

  -- `C_MPI_Scatter`.
  unfoldable pub scatter :
      (input scount stype_f output rcount rtype_f root comm_f : ℤ) → W → Run W ℤ
  unfolding fix_rc place
  scatter input scount stype_f output rcount rtype_f root comm_f = do
    rc ← call (
        messages.scatter (place env input) scount (type_f2c mpi.handles config stype_f)
          (place env output) rcount (type_f2c mpi.handles config rtype_f) root
          (comm_f2c mpi.handles comm_f))
    fix_rc env rc

  -- `CFI_MPI_Scatter`.
  unfoldable pub cfi_scatter :
      (input : Desc) (scount stype_f : ℤ) (output : Desc) (rcount rtype_f root comm_f : ℤ)
      → W
      → Run W ℤ
  unfolding exchange
  cfi_scatter input scount stype_f output rcount rtype_f root comm_f =
      exchange (λ a n t b m u. messages.scatter a n t b m u root (comm_f2c mpi.handles comm_f))
        input scount stype_f output rcount rtype_f

  -- `C_MPI_Alltoall`.
  unfoldable pub alltoall : (input scount stype_f output rcount rtype_f comm_f : ℤ) → W → Run W ℤ
  unfolding fix_rc place
  alltoall input scount stype_f output rcount rtype_f comm_f = do
    rc ← call (
        messages.alltoall (place env input) scount (type_f2c mpi.handles config stype_f)
          (place env output) rcount (type_f2c mpi.handles config rtype_f)
          (comm_f2c mpi.handles comm_f))
    fix_rc env rc

  -- `CFI_MPI_Alltoall`.
  unfoldable pub cfi_alltoall :
      (input : Desc) (scount stype_f : ℤ) (output : Desc) (rcount rtype_f comm_f : ℤ) → W → Run W ℤ
  unfolding exchange
  cfi_alltoall input scount stype_f output rcount rtype_f comm_f =
      exchange (λ a n t b m u. messages.alltoall a n t b m u (comm_f2c mpi.handles comm_f)) input
        scount stype_f output rcount rtype_f

  -- The guard of the reductions: an operator of the user's on a built-in datatype.
  unfoldable pub unsupported : (datatype op : ℤ) → Bool
  unsupported datatype op =
      not (op_is_builtin mpi.handles op) && type_is_builtin mpi.handles config datatype

  -- `C_MPI_Reduce`.
  unfoldable pub reduce : (input output count datatype_f op_f root comm_f : ℤ) → W → Run W ℤ
  unfolding unsupported fix_rc place
  reduce input output count datatype_f op_f root comm_f =
      let datatype = type_f2c mpi.handles config datatype_f in
      let op = op_f2c mpi.handles op_f in
      if unsupported datatype op then fix_rc env (mpi.errors.error err_op) else (do
        rc ← call (
            messages.reduce (place env input) (place env output) count datatype op root
              (comm_f2c mpi.handles comm_f))
        fix_rc env rc)

  -- `CFI_MPI_Reduce`.
  unfoldable pub cfi_reduce :
      (input output : Desc) (count datatype_f op_f root comm_f : ℤ) → W → Run W ℤ
  unfolding unsupported fix_rc place
  cfi_reduce input output count datatype_f op_f root comm_f =
      let datatype = type_f2c mpi.handles config datatype_f in
      let op = op_f2c mpi.handles op_f in
      if unsupported datatype op
      then fix_rc env (mpi.errors.error err_op)
      else if contiguous build input && contiguous build output
      then (do
        rc ← call (
            messages.reduce (place env input.base_addr) (place env output.base_addr) count datatype
              op root (comm_f2c mpi.handles comm_f))
        fix_rc env rc)
      else abort

  -- `C_MPI_Allreduce`.
  unfoldable pub allreduce : (input output count datatype_f op_f comm_f : ℤ) → W → Run W ℤ
  unfolding unsupported fix_rc place
  allreduce input output count datatype_f op_f comm_f =
      let datatype = type_f2c mpi.handles config datatype_f in
      let op = op_f2c mpi.handles op_f in
      if unsupported datatype op then fix_rc env (mpi.errors.error err_op) else (do
        rc ← call (
            messages.allreduce (place env input) (place env output) count datatype op
              (comm_f2c mpi.handles comm_f))
        fix_rc env rc)

  -- `CFI_MPI_Allreduce`.
  unfoldable pub cfi_allreduce :
      (input output : Desc) (count datatype_f op_f comm_f : ℤ) → W → Run W ℤ
  unfolding unsupported fix_rc place
  cfi_allreduce input output count datatype_f op_f comm_f =
      let datatype = type_f2c mpi.handles config datatype_f in
      let op = op_f2c mpi.handles op_f in
      if unsupported datatype op
      then fix_rc env (mpi.errors.error err_op)
      else if contiguous build input && contiguous build output
      then (do
        rc ← call (
            messages.allreduce (place env input.base_addr) (place env output.base_addr) count
              datatype op (comm_f2c mpi.handles comm_f))
        fix_rc env rc)
      else abort
