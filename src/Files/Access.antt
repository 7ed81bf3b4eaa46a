-- ===== src/Files/Access.antt =====
-- Reading and writing: source/mpi_file.c. A section that is not contiguous ends in MPI_Abort.
use vapaa.Prelude.{ℕ, ℤ, if◌then◌else◌}
use vapaa.Handles.{file_f2c, type_f2c}
use vapaa.Run.{Run, ◌>>=◌, abort}
use vapaa.Cfi.{Desc}
use vapaa.Transfer.{Env, call, contiguous, fix_rc, status}
use vapaa.Files.{FileLib, to_offset}

module _ {W : Type 0} (env : Env W) (files : FileLib W) where
  open env use {mpi, config, build}
  open files use {
    file_read_at, file_read_at_all, file_write_at, file_write_at_all, file_read, file_read_all,
    file_write, file_write_all,
  }

  -- `C_MPI_File_read_at`.
  unfoldable pub c_file_read_at :
      (file_f : ℤ) (offset_f : ℕ) (buffer count datatype_f status_f : ℤ) → W → Run W ℤ
  unfolding fix_rc status to_offset
  c_file_read_at file_f offset_f buffer count datatype_f status_f = do
    rc ← call (
        file_read_at (file_f2c mpi.handles file_f) (to_offset offset_f) buffer count
          (type_f2c mpi.handles config datatype_f) (status env status_f))
    fix_rc env rc

  -- `CFI_MPI_File_read_at`.
  unfoldable pub cfi_file_read_at :
      (file_f : ℤ) (offset_f : ℕ) (desc : Desc) (count datatype_f status_f : ℤ) → W → Run W ℤ
  unfolding fix_rc status to_offset
  cfi_file_read_at file_f offset_f desc count datatype_f status_f = do
    rc ←
        if contiguous build desc
        then call (
            file_read_at (file_f2c mpi.handles file_f) (to_offset offset_f) desc.base_addr count
              (type_f2c mpi.handles config datatype_f) (status env status_f))
        else abort
    fix_rc env rc

  -- `C_MPI_File_read_at_all`.
  unfoldable pub c_file_read_at_all :
      (file_f : ℤ) (offset_f : ℕ) (buffer count datatype_f status_f : ℤ) → W → Run W ℤ
  unfolding fix_rc status to_offset
  c_file_read_at_all file_f offset_f buffer count datatype_f status_f = do
    rc ← call (
        file_read_at_all (file_f2c mpi.handles file_f) (to_offset offset_f) buffer count
          (type_f2c mpi.handles config datatype_f) (status env status_f))
    fix_rc env rc

  -- `CFI_MPI_File_read_at_all`.
  unfoldable pub cfi_file_read_at_all :
      (file_f : ℤ) (offset_f : ℕ) (desc : Desc) (count datatype_f status_f : ℤ) → W → Run W ℤ
  unfolding fix_rc status to_offset
  cfi_file_read_at_all file_f offset_f desc count datatype_f status_f = do
    rc ←
        if contiguous build desc
        then call (
            file_read_at_all (file_f2c mpi.handles file_f) (to_offset offset_f) desc.base_addr count
              (type_f2c mpi.handles config datatype_f) (status env status_f))
        else abort
    fix_rc env rc

  -- `C_MPI_File_write_at`.
  unfoldable pub c_file_write_at :
      (file_f : ℤ) (offset_f : ℕ) (buffer count datatype_f status_f : ℤ) → W → Run W ℤ
  unfolding fix_rc status to_offset
  c_file_write_at file_f offset_f buffer count datatype_f status_f = do
    rc ← call (
        file_write_at (file_f2c mpi.handles file_f) (to_offset offset_f) buffer count
          (type_f2c mpi.handles config datatype_f) (status env status_f))
    fix_rc env rc

  -- `CFI_MPI_File_write_at`.
  unfoldable pub cfi_file_write_at :
      (file_f : ℤ) (offset_f : ℕ) (desc : Desc) (count datatype_f status_f : ℤ) → W → Run W ℤ
  unfolding fix_rc status to_offset
  cfi_file_write_at file_f offset_f desc count datatype_f status_f = do
    rc ←
        if contiguous build desc
        then call (
            file_write_at (file_f2c mpi.handles file_f) (to_offset offset_f) desc.base_addr count
              (type_f2c mpi.handles config datatype_f) (status env status_f))
        else abort
    fix_rc env rc

  -- `C_MPI_File_write_at_all`.
  unfoldable pub c_file_write_at_all :
      (file_f : ℤ) (offset_f : ℕ) (buffer count datatype_f status_f : ℤ) → W → Run W ℤ
  unfolding fix_rc status to_offset
  c_file_write_at_all file_f offset_f buffer count datatype_f status_f = do
    rc ← call (
        file_write_at_all (file_f2c mpi.handles file_f) (to_offset offset_f) buffer count
          (type_f2c mpi.handles config datatype_f) (status env status_f))
    fix_rc env rc

  -- `CFI_MPI_File_write_at_all`.
  unfoldable pub cfi_file_write_at_all :
      (file_f : ℤ) (offset_f : ℕ) (desc : Desc) (count datatype_f status_f : ℤ) → W → Run W ℤ
  unfolding fix_rc status to_offset
  cfi_file_write_at_all file_f offset_f desc count datatype_f status_f = do
    rc ←
        if contiguous build desc
        then call (
            file_write_at_all (file_f2c mpi.handles file_f) (to_offset offset_f) desc.base_addr
              count (type_f2c mpi.handles config datatype_f) (status env status_f))
        else abort
    fix_rc env rc

  -- `C_MPI_File_read`.
  unfoldable pub c_file_read : (file_f buffer count datatype_f status_f : ℤ) → W → Run W ℤ
  unfolding fix_rc status
  c_file_read file_f buffer count datatype_f status_f = do
    rc ← call (
        file_read (file_f2c mpi.handles file_f) buffer count
          (type_f2c mpi.handles config datatype_f) (status env status_f))
    fix_rc env rc

  -- `CFI_MPI_File_read`.
  unfoldable pub cfi_file_read :
      (file_f : ℤ) (desc : Desc) (count datatype_f status_f : ℤ) → W → Run W ℤ
  unfolding fix_rc status
  cfi_file_read file_f desc count datatype_f status_f = do
    rc ←
        if contiguous build desc
        then call (
            file_read (file_f2c mpi.handles file_f) desc.base_addr count
              (type_f2c mpi.handles config datatype_f) (status env status_f))
        else abort
    fix_rc env rc

  -- `C_MPI_File_read_all`.
  unfoldable pub c_file_read_all : (file_f buffer count datatype_f status_f : ℤ) → W → Run W ℤ
  unfolding fix_rc status
  c_file_read_all file_f buffer count datatype_f status_f = do
    rc ← call (
        file_read_all (file_f2c mpi.handles file_f) buffer count
          (type_f2c mpi.handles config datatype_f) (status env status_f))
    fix_rc env rc

  -- `CFI_MPI_File_read_all`.
  unfoldable pub cfi_file_read_all :
      (file_f : ℤ) (desc : Desc) (count datatype_f status_f : ℤ) → W → Run W ℤ
  unfolding fix_rc status
  cfi_file_read_all file_f desc count datatype_f status_f = do
    rc ←
        if contiguous build desc
        then call (
            file_read_all (file_f2c mpi.handles file_f) desc.base_addr count
              (type_f2c mpi.handles config datatype_f) (status env status_f))
        else abort
    fix_rc env rc

  -- `C_MPI_File_write`.
  unfoldable pub c_file_write : (file_f buffer count datatype_f status_f : ℤ) → W → Run W ℤ
  unfolding fix_rc status
  c_file_write file_f buffer count datatype_f status_f = do
    rc ← call (
        file_write (file_f2c mpi.handles file_f) buffer count
          (type_f2c mpi.handles config datatype_f) (status env status_f))
    fix_rc env rc

  -- `CFI_MPI_File_write`.
  unfoldable pub cfi_file_write :
      (file_f : ℤ) (desc : Desc) (count datatype_f status_f : ℤ) → W → Run W ℤ
  unfolding fix_rc status
  cfi_file_write file_f desc count datatype_f status_f = do
    rc ←
        if contiguous build desc
        then call (
            file_write (file_f2c mpi.handles file_f) desc.base_addr count
              (type_f2c mpi.handles config datatype_f) (status env status_f))
        else abort
    fix_rc env rc

  -- `C_MPI_File_write_all`.
  unfoldable pub c_file_write_all : (file_f buffer count datatype_f status_f : ℤ) → W → Run W ℤ
  unfolding fix_rc status
  c_file_write_all file_f buffer count datatype_f status_f = do
    rc ← call (
        file_write_all (file_f2c mpi.handles file_f) buffer count
          (type_f2c mpi.handles config datatype_f) (status env status_f))
    fix_rc env rc

  -- `CFI_MPI_File_write_all`.
  unfoldable pub cfi_file_write_all :
      (file_f : ℤ) (desc : Desc) (count datatype_f status_f : ℤ) → W → Run W ℤ
  unfolding fix_rc status
  cfi_file_write_all file_f desc count datatype_f status_f = do
    rc ←
        if contiguous build desc
        then call (
            file_write_all (file_f2c mpi.handles file_f) desc.base_addr count
              (type_f2c mpi.handles config datatype_f) (status env status_f))
        else abort
    fix_rc env rc
