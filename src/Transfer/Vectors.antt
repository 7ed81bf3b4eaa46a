-- ===== src/Transfer/Vectors.antt =====
-- MPI_Barrier and the collectives with a count for each rank: source/mpi_coll.c. The arrays of counts
-- and displacements are passed on by their addresses. A section that is not contiguous ends in
-- MPI_Abort.
mod Tests
use vapaa.Prelude.{ℤ, ◌&&◌, if◌then◌else◌}
use vapaa.Handles.{type_f2c, comm_f2c}
use vapaa.Run.{Run, ◌>>=◌, abort}
use vapaa.Cfi.{Desc}
use vapaa.Transfer.{Env, call, contiguous, fix_rc, place}

pub record VectorMessages (W : Type 0) : Type 0 where
  pub barrier : ℤ → W → ℤ × W
  -- Input, its count and datatype, output, its counts, displacements and datatype, root, communicator.
  pub gatherv : ℤ → ℤ → ℤ → ℤ → ℤ → ℤ → ℤ → ℤ → ℤ → W → ℤ × W
  -- The same without a root.
  pub allgatherv : ℤ → ℤ → ℤ → ℤ → ℤ → ℤ → ℤ → ℤ → W → ℤ × W
  -- Input, its counts, displacements and datatype, output, its count and datatype, root, communicator.
  pub scatterv : ℤ → ℤ → ℤ → ℤ → ℤ → ℤ → ℤ → ℤ → ℤ → W → ℤ × W
  -- Input and output, each with counts, displacements and datatype, and the communicator.
  pub alltoallv : ℤ → ℤ → ℤ → ℤ → ℤ → ℤ → ℤ → ℤ → ℤ → W → ℤ × W

module _ {W : Type 0} (env : Env W) (vectors : VectorMessages W) where
  open env use {mpi, config, build}

  -- `C_MPI_Barrier`.
  unfoldable pub c_barrier : (comm_f : ℤ) → W → Run W ℤ
  unfolding fix_rc
  c_barrier comm_f = do rc ← call (vectors.barrier (comm_f2c mpi.handles comm_f)); fix_rc env rc

  -- `C_MPI_Gatherv`.
  unfoldable pub c_gatherv :
      (input scount stype_f output rcounts rdisps rtype_f root comm_f : ℤ) → W → Run W ℤ
  unfolding fix_rc place
  c_gatherv input scount stype_f output rcounts rdisps rtype_f root comm_f = do
    rc ← call (
        vectors.gatherv (place env input) scount (type_f2c mpi.handles config stype_f)
          (place env output) rcounts rdisps (type_f2c mpi.handles config rtype_f) root
          (comm_f2c mpi.handles comm_f))
    fix_rc env rc

  -- `CFI_MPI_Gatherv`.
  unfoldable pub cfi_gatherv :
      (input : Desc) (scount stype_f : ℤ) (output : Desc) (rcounts rdisps rtype_f root comm_f : ℤ)
      → W
      → Run W ℤ
  unfolding fix_rc place
  cfi_gatherv input scount stype_f output rcounts rdisps rtype_f root comm_f = do
    rc ←
        if contiguous build input && contiguous build output
        then call (
            vectors.gatherv (place env input.base_addr) scount (type_f2c mpi.handles config stype_f)
              (place env output.base_addr) rcounts rdisps (type_f2c mpi.handles config rtype_f) root
              (comm_f2c mpi.handles comm_f))
        else abort
    fix_rc env rc

  -- `C_MPI_Allgatherv`.
  unfoldable pub c_allgatherv :
      (input scount stype_f output rcounts rdisps rtype_f comm_f : ℤ) → W → Run W ℤ
  unfolding fix_rc place
  c_allgatherv input scount stype_f output rcounts rdisps rtype_f comm_f = do
    rc ← call (
        vectors.allgatherv (place env input) scount (type_f2c mpi.handles config stype_f)
          (place env output) rcounts rdisps (type_f2c mpi.handles config rtype_f)
          (comm_f2c mpi.handles comm_f))
    fix_rc env rc

  -- `CFI_MPI_Allgatherv`.
  unfoldable pub cfi_allgatherv :
      (input : Desc) (scount stype_f : ℤ) (output : Desc) (rcounts rdisps rtype_f comm_f : ℤ)
      → W
      → Run W ℤ
  unfolding fix_rc place
  cfi_allgatherv input scount stype_f output rcounts rdisps rtype_f comm_f = do
    rc ←
        if contiguous build input && contiguous build output
        then call (
            vectors.allgatherv (place env input.base_addr) scount
              (type_f2c mpi.handles config stype_f) (place env output.base_addr) rcounts rdisps
              (type_f2c mpi.handles config rtype_f) (comm_f2c mpi.handles comm_f))
        else abort
    fix_rc env rc

  -- `C_MPI_Scatterv`.
  unfoldable pub c_scatterv :
      (input scounts sdisps stype_f output rcount rtype_f root comm_f : ℤ) → W → Run W ℤ
  unfolding fix_rc place
  c_scatterv input scounts sdisps stype_f output rcount rtype_f root comm_f = do
    rc ← call (
        vectors.scatterv (place env input) scounts sdisps (type_f2c mpi.handles config stype_f)
          (place env output) rcount (type_f2c mpi.handles config rtype_f) root
          (comm_f2c mpi.handles comm_f))
    fix_rc env rc

  -- `CFI_MPI_Scatterv`.
  unfoldable pub cfi_scatterv :
      (input : Desc) (scounts sdisps stype_f : ℤ) (output : Desc) (rcount rtype_f root comm_f : ℤ)
      → W
      → Run W ℤ
  unfolding fix_rc place
  cfi_scatterv input scounts sdisps stype_f output rcount rtype_f root comm_f = do
    rc ←
        if contiguous build input && contiguous build output
        then call (
            vectors.scatterv (place env input.base_addr) scounts sdisps
              (type_f2c mpi.handles config stype_f) (place env output.base_addr) rcount
              (type_f2c mpi.handles config rtype_f) root (comm_f2c mpi.handles comm_f))
        else abort
    fix_rc env rc

  -- `C_MPI_Alltoallv`.
  unfoldable pub c_alltoallv :
      (input scounts sdisps stype_f output rcounts rdisps rtype_f comm_f : ℤ) → W → Run W ℤ
  unfolding fix_rc place
  c_alltoallv input scounts sdisps stype_f output rcounts rdisps rtype_f comm_f = do
    rc ← call (
        vectors.alltoallv (place env input) scounts sdisps (type_f2c mpi.handles config stype_f)
          (place env output) rcounts rdisps (type_f2c mpi.handles config rtype_f)
          (comm_f2c mpi.handles comm_f))
    fix_rc env rc

  -- `CFI_MPI_Alltoallv`.
  unfoldable pub cfi_alltoallv :
      (input : Desc) (scounts sdisps stype_f : ℤ) (output : Desc)
      (rcounts rdisps rtype_f comm_f : ℤ)
      → W
      → Run W ℤ
  unfolding fix_rc place
  cfi_alltoallv input scounts sdisps stype_f output rcounts rdisps rtype_f comm_f = do
    rc ←
        if contiguous build input && contiguous build output
        then call (
            vectors.alltoallv (place env input.base_addr) scounts sdisps
              (type_f2c mpi.handles config stype_f) (place env output.base_addr) rcounts rdisps
              (type_f2c mpi.handles config rtype_f) (comm_f2c mpi.handles comm_f))
        else abort
    fix_rc env rc
