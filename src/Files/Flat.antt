-- ===== src/Files/Flat.antt =====
-- The two entry points of each file operation agree: source/mpi_file.c.
use vapaa.Prelude.{◌≡◌, ℕ, ℤ, if◌then◌else◌}
use vapaa.Run.{aborted, refused_or}
use vapaa.Cfi.{Desc}
use vapaa.Transfer.{Env, contiguous}
use vapaa.Files.{FileLib}
use vapaa.Files.Access.{
  c_file_read_at, cfi_file_read_at, c_file_read_at_all, cfi_file_read_at_all, c_file_write_at,
  cfi_file_write_at, c_file_write_at_all, cfi_file_write_at_all, c_file_read, cfi_file_read,
  c_file_read_all, cfi_file_read_all, c_file_write, cfi_file_write, c_file_write_all,
  cfi_file_write_all,
}

module _ {W : Type 0} (env : Env W) (files : FileLib W) where
  open env use {build}

  -- Each of the eight calls that read or write does with a contiguous section what the call for an
  -- address does with its base address, and aborts on any other section.
  pub file_access-Flat :
      (file_f : ℤ) (offset_f : ℕ) (desc : Desc) (count datatype_f status_f : ℤ) (w : W)
      → (cfi_file_read_at env files file_f offset_f desc count datatype_f status_f w ≡ (
          if contiguous build desc
          then c_file_read_at env files file_f offset_f desc.base_addr count datatype_f status_f w
          else aborted))
        × (cfi_file_read_at_all env files file_f offset_f desc count datatype_f status_f w ≡ (
            if contiguous build desc
            then c_file_read_at_all env files file_f offset_f desc.base_addr count datatype_f
                status_f w
            else aborted))
        × (cfi_file_write_at env files file_f offset_f desc count datatype_f status_f w ≡ (
            if contiguous build desc
            then c_file_write_at env files file_f offset_f desc.base_addr count datatype_f status_f
                w
            else aborted))
        × (cfi_file_write_at_all env files file_f offset_f desc count datatype_f status_f w ≡ (
            if contiguous build desc
            then c_file_write_at_all env files file_f offset_f desc.base_addr count datatype_f
                status_f w
            else aborted))
        × (cfi_file_read env files file_f desc count datatype_f status_f w ≡ (
            if contiguous build desc
            then c_file_read env files file_f desc.base_addr count datatype_f status_f w
            else aborted))
        × (cfi_file_read_all env files file_f desc count datatype_f status_f w ≡ (
            if contiguous build desc
            then c_file_read_all env files file_f desc.base_addr count datatype_f status_f w
            else aborted))
        × (cfi_file_write env files file_f desc count datatype_f status_f w ≡ (
            if contiguous build desc
            then c_file_write env files file_f desc.base_addr count datatype_f status_f w
            else aborted))
        × (cfi_file_write_all env files file_f desc count datatype_f status_f w ≡ (
            if contiguous build desc
            then c_file_write_all env files file_f desc.base_addr count datatype_f status_f w
            else aborted))
  unfolding c_file_read_at cfi_file_read_at c_file_read_at_all cfi_file_read_at_all c_file_write_at
      cfi_file_write_at c_file_write_at_all cfi_file_write_at_all c_file_read cfi_file_read
      c_file_read_all cfi_file_read_all c_file_write cfi_file_write c_file_write_all
      cfi_file_write_all
  file_access-Flat file_f offset_f desc count datatype_f status_f w = (
    refused_or (contiguous build desc) _ _ w,
    refused_or (contiguous build desc) _ _ w,
    refused_or (contiguous build desc) _ _ w,
    refused_or (contiguous build desc) _ _ w,
    refused_or (contiguous build desc) _ _ w,
    refused_or (contiguous build desc) _ _ w,
    refused_or (contiguous build desc) _ _ w,
    refused_or (contiguous build desc) _ _ w,
  )
