-- ===== src/Files.antt =====
-- Files: source/mpi_file.c. A size_t of the caller is its number; `size_t` and MPI_Offset have 64
-- bits.
pub mod Modes
pub mod Access
pub mod Flat
pub mod Sizes
mod Tests
use vapaa.Prelude.{
  ℕ, ◌-◌, ◌/◌, ◌%◌, ◌^◌, ◌==◌, ltb, ℤ, pos, negsuc, neg, List, [], ◌∷◌, if◌then◌else◌,
}
use Prim.Native.Nat.{bit_and, bit_or}
use vapaa.Handles.{comm_f2c, info_f2c, file_f2c, type_f2c}
use vapaa.Run.{Run, ◌>>=◌, pure}
use vapaa.Mpi.{Made}
use vapaa.Cfi.{Desc}
use vapaa.Transfer.{Env, call, fix_rc}

-- MPI_MODE_APPEND and so on.
pub data Mode : Type 0 where
  append create delete_on_close excl rdonly rdwr sequential unique_open wronly : Mode

-- The constants VAPAA_MPI_MODE_X.
unfoldable pub vapaa_mode : Mode → ℕ
vapaa_mode append = 1
vapaa_mode create = 2
vapaa_mode delete_on_close = 4
vapaa_mode excl = 8
vapaa_mode rdonly = 16
vapaa_mode rdwr = 32
vapaa_mode sequential = 64
vapaa_mode unique_open = 128
vapaa_mode wronly = 256

pub record FileLib (W : Type 0) : Type 0 where
  -- The values that mpi.h gives the modes.
  pub mode : Mode → ℕ
  -- Communicator, filename, mode, info, and what the variable of the file held.
  pub file_open : ℤ → ℤ → ℕ → ℤ → ℤ → W → Made W
  pub file_close : ℤ → W → Made W
  pub file_delete : ℤ → ℤ → W → ℤ × W
  pub file_set_size : ℤ → ℤ → W → ℤ × W
  pub file_preallocate : ℤ → ℤ → W → ℤ × W
  -- The file and what the variable of the size held: return code and what it holds then.
  pub file_get_size : ℤ → ℤ → W → ℤ × ℤ × W
  -- File, displacement, elementary type, file type, data representation, info.
  pub file_set_view : ℤ → ℤ → ℤ → ℤ → ℤ → ℤ → W → ℤ × W
  -- File, offset, buffer, count, datatype, status.
  pub file_read_at : ℤ → ℤ → ℤ → ℤ → ℤ → ℤ → W → ℤ × W
  pub file_read_at_all : ℤ → ℤ → ℤ → ℤ → ℤ → ℤ → W → ℤ × W
  pub file_write_at : ℤ → ℤ → ℤ → ℤ → ℤ → ℤ → W → ℤ × W
  pub file_write_at_all : ℤ → ℤ → ℤ → ℤ → ℤ → ℤ → W → ℤ × W
  -- The same without an offset.
  pub file_read : ℤ → ℤ → ℤ → ℤ → ℤ → W → ℤ × W
  pub file_read_all : ℤ → ℤ → ℤ → ℤ → ℤ → W → ℤ × W
  pub file_write : ℤ → ℤ → ℤ → ℤ → ℤ → W → ℤ × W
  pub file_write_all : ℤ → ℤ → ℤ → ℤ → ℤ → W → ℤ × W

-- The conversions between size_t and MPI_Offset.
unfoldable pub to_offset : ℕ → ℤ
to_offset n =
    if ltb (n % 2 ^ 64) (2 ^ 63) then pos (n % 2 ^ 64) else negsuc (2 ^ 64 - 1 - n % 2 ^ 64)

unfoldable pub of_offset : ℤ → ℕ
of_offset (pos n) = n % 2 ^ 64
of_offset (negsuc n) = 2 ^ 64 - 1 - n % 2 ^ 64

-- The 32 bits of an int.
unfoldable pub int_bits : ℤ → ℕ
int_bits (pos n) = n % 2 ^ 32
int_bits (negsuc n) = 2 ^ 32 - 1 - n % 2 ^ 32

-- The order in which C_MPI_TRANSLATE_AMODE tests the modes.
unfoldable pub modes : List Mode
modes =
    append ∷ create ∷ delete_on_close ∷ excl ∷ rdonly ∷ rdwr ∷ sequential ∷ unique_open ∷ wronly
    ∷ []

-- Its lines `if (f & VAPAA_MPI_MODE_X) c |= MPI_MODE_X;`, from a value c on.
unfoldable pub or_modes : (Mode → ℕ) → (f c : ℕ) → List Mode → ℕ
unfolding vapaa_mode
or_modes mode f c [] = c
or_modes mode f c (m ∷ ms) =
    or_modes mode f (if bit_and f (vapaa_mode m) == 0 then c else bit_or c (mode m)) ms

-- `C_MPI_TRANSLATE_AMODE`.
unfoldable pub translate_amode : (Mode → ℕ) → ℤ → ℕ
unfolding or_modes modes int_bits
translate_amode mode f = or_modes mode (int_bits f) 0 modes

module _ {W : Type 0} (env : Env W) (files : FileLib W) where
  open env use {mpi, config}
  open files use {
    mode, file_open, file_close, file_delete, file_set_size, file_preallocate, file_get_size,
    file_set_view,
  }

  -- After a call that makes or changes the file: *ierror and *file_f.
  unfoldable pub store_file : Made W → Run W (ℤ × ℤ)
  unfolding fix_rc
  store_file m =
      (do ierror ← fix_rc env m.rc; pure (ierror, mpi.handles.mpi_file_c2f m.handle)) m.world

  -- `C_MPI_File_open`.
  unfoldable pub c_file_open : (comm_f filename amode_f info_f : ℤ) → W → Run W (ℤ × ℤ)
  unfolding store_file translate_amode
  c_file_open comm_f filename amode_f info_f w = store_file (
      file_open (comm_f2c mpi.handles comm_f) filename (translate_amode mode amode_f)
        (info_f2c mpi.handles info_f) mpi.handles.file_null w)

  -- `CFI_MPI_File_open`.
  unfoldable pub cfi_file_open :
      (comm_f : ℤ) (filename : Desc) (amode_f info_f : ℤ) → W → Run W (ℤ × ℤ)
  unfolding store_file translate_amode
  cfi_file_open comm_f filename amode_f info_f w = store_file (
      file_open (comm_f2c mpi.handles comm_f) filename.base_addr (translate_amode mode amode_f)
        (info_f2c mpi.handles info_f) mpi.handles.file_null w)

  -- `C_MPI_File_close`.
  unfoldable pub c_file_close : (file_f : ℤ) → W → Run W (ℤ × ℤ)
  unfolding store_file
  c_file_close file_f w = store_file (file_close (file_f2c mpi.handles file_f) w)

  -- `C_MPI_File_delete`.
  unfoldable pub c_file_delete : (filename info_f : ℤ) → W → Run W ℤ
  unfolding fix_rc
  c_file_delete filename info_f = do
    rc ← call (file_delete filename (info_f2c mpi.handles info_f))
    fix_rc env rc

  -- `CFI_MPI_File_delete`.
  unfoldable pub cfi_file_delete : (filename : Desc) (info_f : ℤ) → W → Run W ℤ
  unfolding fix_rc
  cfi_file_delete filename info_f = do
    rc ← call (file_delete filename.base_addr (info_f2c mpi.handles info_f))
    fix_rc env rc

  -- `C_MPI_File_set_size`.
  unfoldable pub c_file_set_size : (file_f : ℤ) (size_f : ℕ) → W → Run W ℤ
  unfolding fix_rc to_offset
  c_file_set_size file_f size_f = do
    rc ← call (file_set_size (file_f2c mpi.handles file_f) (to_offset size_f))
    fix_rc env rc

  -- `C_MPI_File_preallocate`.
  unfoldable pub c_file_preallocate : (file_f : ℤ) (size_f : ℕ) → W → Run W ℤ
  unfolding fix_rc to_offset
  c_file_preallocate file_f size_f = do
    rc ← call (file_preallocate (file_f2c mpi.handles file_f) (to_offset size_f))
    fix_rc env rc

  -- What follows MPI_File_get_size: *ierror and *size_f.
  unfoldable pub store_size : ℤ × ℤ × W → Run W (ℤ × ℕ)
  unfolding fix_rc of_offset
  store_size (rc, size, w) = (do ierror ← fix_rc env rc; pure (ierror, of_offset size)) w

  -- `C_MPI_File_get_size`.
  unfoldable pub c_file_get_size : (file_f : ℤ) → W → Run W (ℤ × ℕ)
  unfolding store_size
  c_file_get_size file_f w = store_size (file_get_size (file_f2c mpi.handles file_f) (neg 1) w)

  -- `C_MPI_File_set_view`; `datarep` is the address in *pdatarep.
  unfoldable pub c_file_set_view :
      (file_f : ℤ) (disp_f : ℕ) (etype_f filetype_f datarep info_f : ℤ) → W → Run W ℤ
  unfolding fix_rc to_offset
  c_file_set_view file_f disp_f etype_f filetype_f datarep info_f = do
    rc ← call (
        file_set_view (file_f2c mpi.handles file_f) (to_offset disp_f)
          (type_f2c mpi.handles config etype_f) (type_f2c mpi.handles config filetype_f) datarep
          (info_f2c mpi.handles info_f))
    fix_rc env rc

  -- `CFI_MPI_File_set_view`.
  unfoldable pub cfi_file_set_view :
      (file_f : ℤ) (disp_f : ℕ) (etype_f filetype_f : ℤ) (datarep : Desc) (info_f : ℤ) → W → Run W ℤ
  unfolding fix_rc to_offset
  cfi_file_set_view file_f disp_f etype_f filetype_f datarep info_f = do
    rc ← call (
        file_set_view (file_f2c mpi.handles file_f) (to_offset disp_f)
          (type_f2c mpi.handles config etype_f) (type_f2c mpi.handles config filetype_f)
          datarep.base_addr (info_f2c mpi.handles info_f))
    fix_rc env rc
