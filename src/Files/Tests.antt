-- ===== src/Files/Tests.antt =====
-- Runs of source/mpi_file.c.
use vapaa.Prelude.{
  ◌≡◌, refl, sym, ap, ◌∙◌, ◌==◌, if◌then◌else◌, arith, ℕ, ℤ, pos, neg, pos_part, bit, mask,
}
use vapaa.Errors.Names.{success}
use vapaa.Run.{done, aborted, ◌>>=◌}
use vapaa.Mpi.Sample.{World, sample}
use vapaa.Cfi.Tests.{world, desc, build}
use vapaa.Transfer.Tests.{env}
use vapaa.Files.{
  FileLib, Mode, append, create, delete_on_close, excl, rdonly, rdwr, sequential, unique_open,
  wronly, translate_amode, int_bits, c_file_set_size, c_file_get_size,
}
use vapaa.Files.Access.{
  c_file_read_at, cfi_file_read_at, c_file_read_at_all, cfi_file_read_at_all, c_file_write_at,
  cfi_file_write_at, c_file_write_at_all, cfi_file_write_at_all, c_file_read, cfi_file_read,
  c_file_read_all, cfi_file_read_all, c_file_write, cfi_file_write, c_file_write_all,
  cfi_file_write_all,
}
use vapaa.Files.Flat.{file_access-Flat}
use vapaa.Transfer.{contiguous}
use vapaa.Files.Modes.{digit, translate_amode-bit}
use vapaa.Files.Sizes.{c_file_get_size-c_file_set_size}

-- The digits of the modes in a library that orders them otherwise.
abbrev at : Mode → ℕ
at create = 0
at rdonly = 1
at wronly = 2
at rdwr = 3
at delete_on_close = 4
at unique_open = 5
at excl = 6
at append = 7
at sequential = 8

mode_at : ℕ → Mode
mode_at n =
    if n == 0
    then create
    else if n == 1
    then rdonly
    else if n == 2
    then wronly
    else if n == 3
    then rdwr
    else if n == 4
    then delete_on_close
    else if n == 5
    then unique_open
    else if n == 6
    then excl
    else if n == 7
    then append
    else sequential

mode_at-at : (m : Mode) → mode_at (at m) ≡ m
unfolding mode_at
mode_at-at append = refl
mode_at-at _ = refl

at_differ : (m n : Mode) → at m ≡ at n → m ≡ n
at_differ m n e = sym (mode_at-at m) ∙ ap mode_at e ∙ mode_at-at n

abbrev files : FileLib World
files = record {
  mode = λ m. mask (at m);
  file_open = λ comm name mode info held w. record { rc = pos 0; handle = pos 5; world = w };
  file_close = λ file w. record { rc = pos 0; handle = pos 12; world = w };
  file_delete = λ name info w. (pos 0, w);
  file_set_size =
      λ file size w. (sample.errors.error success, record w { file_size = pos_part size });
  file_preallocate = λ file size w. (pos 0, w);
  file_get_size = λ file held w. (sample.errors.error success, pos w.file_size, w);
  file_set_view = λ file disp etype filetype datarep info w. (pos 0, w);
  file_read_at = λ file offset buffer count t s w. (pos 0, w);
  file_read_at_all = λ file offset buffer count t s w. (pos 0, w);
  file_write_at = λ file offset buffer count t s w. (pos 0, w);
  file_write_at_all = λ file offset buffer count t s w. (pos 0, w);
  file_read = λ file buffer count t s w. (pos 0, w);
  file_read_all = λ file buffer count t s w. (pos 0, w);
  file_write = λ file buffer count t s w. (pos 0, w);
  file_write_all = λ file buffer count t s w. (pos 0, w);
}

-- MPI_MODE_CREATE and MPI_MODE_WRONLY of Fortran.
translate_amode-bit_example :
    bit (translate_amode (λ m. mask (at m)) (pos 258)) (at wronly)
    ≡ bit (int_bits (pos 258)) (digit wronly)
translate_amode-bit_example =
    translate_amode-bit (λ m. mask (at m)) at (λ m. refl) at_differ (pos 258) wronly

sized :
    (file : ℤ) (n : ℕ) (v v' : World)
    → files.file_set_size file (pos n) v ≡ (sample.errors.error success, v')
    → (held : ℤ) → files.file_get_size file held v' ≡ (sample.errors.error success, pos n, v')
sized file n v v' h held =
    ap (λ (k : ℕ). (sample.errors.error success, pos k, v'))
      (sym (ap (λ (r : ℤ × World). r.1.file_size) h))

c_file_get_size-c_file_set_size_example :
    (c_file_set_size env files (pos 5) 4096 >>= λ _. c_file_get_size env files (pos 5)) world
    ≡ done (sample.errors.error success, 4096) (record world { file_size = 4096 })
c_file_get_size-c_file_set_size_example =
    c_file_get_size-c_file_set_size env files sized (pos 5) 4096 world
      (record world { file_size = 4096 }) (omega arith) refl

file_access-Flat_example :
    (cfi_file_read_at env files (pos 5) 64 desc (pos 5) (neg 30014) (pos 0) world ≡ (
      if contiguous build desc
      then c_file_read_at env files (pos 5) 64 (pos 4096) (pos 5) (neg 30014) (pos 0) world
      else aborted))
    × (cfi_file_read_at_all env files (pos 5) 64 desc (pos 5) (neg 30014) (pos 0) world ≡ (
        if contiguous build desc
        then c_file_read_at_all env files (pos 5) 64 (pos 4096) (pos 5) (neg 30014) (pos 0) world
        else aborted))
    × (cfi_file_write_at env files (pos 5) 64 desc (pos 5) (neg 30014) (pos 0) world ≡ (
        if contiguous build desc
        then c_file_write_at env files (pos 5) 64 (pos 4096) (pos 5) (neg 30014) (pos 0) world
        else aborted))
    × (cfi_file_write_at_all env files (pos 5) 64 desc (pos 5) (neg 30014) (pos 0) world ≡ (
        if contiguous build desc
        then c_file_write_at_all env files (pos 5) 64 (pos 4096) (pos 5) (neg 30014) (pos 0) world
        else aborted))
    × (cfi_file_read env files (pos 5) desc (pos 5) (neg 30014) (pos 0) world ≡ (
        if contiguous build desc
        then c_file_read env files (pos 5) (pos 4096) (pos 5) (neg 30014) (pos 0) world
        else aborted))
    × (cfi_file_read_all env files (pos 5) desc (pos 5) (neg 30014) (pos 0) world ≡ (
        if contiguous build desc
        then c_file_read_all env files (pos 5) (pos 4096) (pos 5) (neg 30014) (pos 0) world
        else aborted))
    × (cfi_file_write env files (pos 5) desc (pos 5) (neg 30014) (pos 0) world ≡ (
        if contiguous build desc
        then c_file_write env files (pos 5) (pos 4096) (pos 5) (neg 30014) (pos 0) world
        else aborted))
    × (cfi_file_write_all env files (pos 5) desc (pos 5) (neg 30014) (pos 0) world ≡ (
        if contiguous build desc
        then c_file_write_all env files (pos 5) (pos 4096) (pos 5) (neg 30014) (pos 0) world
        else aborted))
file_access-Flat_example =
    file_access-Flat env files (pos 5) 64 desc (pos 5) (neg 30014) (pos 0) world
