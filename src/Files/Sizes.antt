-- ===== src/Files/Sizes.antt =====
-- The size of a file: source/mpi_file.c.
use vapaa.Prelude.{
  ◌≡◌, ap, ◌∙◌, ℕ, ◌^◌, ◌<◌, ◌≤◌, arith, ℤ, pos, negsuc, neg, pos_part, neg_part, some, eq_ℤ-refl,
}
use vapaa.Errors.Names.{success}
use vapaa.Errors.{rc_fix}
use vapaa.Handles.{file_f2c}
use vapaa.Run.{done, ◌>>=◌, bind_done}
use vapaa.Transfer.{Env, fix_rc}
use vapaa.Files.{FileLib, to_offset, of_offset, c_file_set_size, c_file_get_size, store_size}

-- What the size_t stands for is what was stored, for an MPI_Offset of 64 bits.
pub to_offset-of_offset :
    (x : ℤ) → pos_part x < 2 ^ 63 → neg_part x ≤ 2 ^ 63 → to_offset (of_offset x) ≡ x
unfolding to_offset of_offset
to_offset-of_offset (pos n) p q = ground arith
to_offset-of_offset (negsuc n) p q = ground arith

to_offset_small : (n : ℕ) → n < 2 ^ 63 → to_offset n ≡ pos n
unfolding to_offset
to_offset_small n h = ground arith

of_offset_small : (n : ℕ) → n < 2 ^ 63 → of_offset (pos n) ≡ n
unfolding of_offset
of_offset_small n h = ground arith

module _ {W : Type 0} (env : Env W) (files : FileLib W) where
  open env use {mpi, version4}
  open files use {file_set_size, file_get_size}

  abbrev fine : ℤ
  fine = mpi.errors.error success

  pub fix_success : (w : W) → fix_rc env fine w ≡ done fine w
  unfolding fix_rc rc_fix
  fix_success w =
      let e : rc_fix mpi.errors version4 fine ≡ some fine = rw (eq_ℤ-refl fine) in rw (e, fix_rc)

  set_done :
      (file_f : ℤ) (n : ℕ) (w w' : W)
      → file_set_size (file_f2c mpi.handles file_f) (to_offset n) w ≡ (fine, w')
      → c_file_set_size env files file_f n w ≡ done fine w'
  unfolding c_file_set_size
  set_done file_f n w w' h = ap (λ (r : ℤ × W). fix_rc env r.0 r.1) h ∙ fix_success w'

  get_done :
      (r : ℤ × ℤ × W) (w' : W) (n : ℕ)
      → n < 2 ^ 63
      → r ≡ (fine, pos n, w')
      → store_size env files r ≡ done (fine, n) w'
  unfolding store_size
  get_done r w' n small h =
      ap (store_size env files) h ∙ rw (fix_success w', of_offset_small n small, ◌>>=◌, store_size)

  -- The size that C_MPI_File_set_size sets is what C_MPI_File_get_size then gives, with success. The
  -- size is below 2^63, the library sets it and gives back what it has set.
  pub c_file_get_size-c_file_set_size :
      ((file : ℤ) (n : ℕ) (v v' : W)
        → file_set_size file (pos n) v ≡ (fine, v')
        → (held : ℤ) → file_get_size file held v' ≡ (fine, pos n, v'))
      → (file_f : ℤ) (n : ℕ) (w w' : W) → n < 2 ^ 63
      → file_set_size (file_f2c mpi.handles file_f) (pos n) w ≡ (fine, w')
      → (c_file_set_size env files file_f n >>= λ _. c_file_get_size env files file_f) w
        ≡ done (fine, n) w'
  unfolding c_file_get_size
  c_file_get_size-c_file_set_size gives file_f n w w' small h =
      let file = file_f2c mpi.handles file_f in
      let set = ap (λ (z : ℤ). file_set_size file z w) (to_offset_small n small) ∙ h in
      bind_done (c_file_set_size env files file_f n) (λ _. c_file_get_size env files file_f)
        (set_done file_f n w w' set)
      ∙ get_done (file_get_size file (neg 1) w') w' n small (gives file n w w' h (neg 1))
