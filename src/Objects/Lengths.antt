-- ===== src/Objects/Lengths.antt =====
-- What MPI_Info_get_string of source/mpi_info.c tells Fortran, in a build with MPI-4 and in one without.
mod Tests
use vapaa.Prelude.{
  ◌≡◌, refl, sym, ap, ◌∙◌, ℕ, suc, Bool, true, false, Option, none, some, ℤ, pos, ◌+ℤ◌,
  if◌then◌else◌, eq_ℤ-refl, arith,
}
use vapaa.Errors.Names.{success}
use vapaa.Errors.{rc_fix}
use vapaa.Handles.{info_f2c}
use vapaa.Run.{Run, done, Returns, ◌>>=◌, pure}
use vapaa.Mpi.{Mpi, ok}
use vapaa.Cfi.{Desc}
use vapaa.Transfer.{Env, fix_rc}
use vapaa.Objects.{result_of}
use vapaa.Objects.Numbers.{result_of-done}
use vapaa.Objects.Infos.{InfoLib, get_string, c_info_get_string, cfi_info_get_string}

-- What MPI says of reading an info object: `held` is the length of the value that it has under the key at
-- that address, if it has one; it is none where there is no such info object or no key, of which
-- nothing is said. The calls write to the buffer, which changes nothing of that if the key is not in it.
pub record InfoLaws {W : Type 0} (fine : ℤ) (infos : InfoLib W) : Type 0 where
  pub held : W → ℤ → ℤ → Option (Option ℕ)
  -- The key lies apart from a buffer: key, buffer and its length.
  pub is_apart : ℤ → ℤ → ℤ → Bool
  pub memset_keeps :
      (info key val n : ℤ) (w : W)
      → is_apart key val n ≡ true
      → held (infos.memset val n w) info key ≡ held w info key
  pub get_keeps :
      (info key n val flag : ℤ) (w : W)
      → is_apart key val n ≡ true
      → held (infos.info_get info key n val flag w).1 info key ≡ held w info key
  pub get_code :
      (info key n val flag : ℤ) (w : W) {h : Option ℕ}
      → held w info key ≡ some h
      → (infos.info_get info key n val flag w).0.0 ≡ fine
  -- The flag tells whether there is a value, and the length stays if there is none.
  pub valuelen :
      (info key n flag : ℤ) (w : W) {h : Option ℕ}
      → held w info key ≡ some h
      → (infos.info_get_valuelen info key n flag w).0
        ≡ elim h [ none ↦ (fine, (n, pos 0)) | some l ↦ (fine, (pos l, pos 1)) ]
  pub string :
      (info key n val flag : ℤ) (w : W) {h : Option ℕ}
      → held w info key ≡ some h
      → (infos.info_get_string info key n val flag w).0
        ≡ elim h [ none ↦ (fine, (n, pos 0)) | some l ↦ (fine, (pos (suc l), pos 1)) ]

-- The length and the flag that Fortran is told of a value, if there is one, with MPI-4 or without.
unfoldable pub told : (version4 : Bool) → Option ℕ → ℤ → ℤ × ℤ
told version4 (some l) buflen = (pos (suc l), pos 1)
told true none buflen = (buflen, pos 0)
told false none buflen = (buflen +ℤ pos 1, pos 0)

module _ {W : Type 0} (env : Env W) (infos : InfoLib W)
    (laws : InfoLaws (env.mpi.errors.error success) infos) where
  open env use {mpi, version4}
  open infos use {info_get}
  open laws use {held, is_apart, memset_keeps, get_keeps, get_code, valuelen, string}

  abbrev fine : ℤ
  fine = mpi.errors.error success

  abbrev measured : Option ℕ → ℤ → ℤ × (ℤ × ℤ)
  measured h n = elim h [ none ↦ (fine, (n, pos 0)) | some l ↦ (fine, (pos l, pos 1)) ]

  abbrev then_length : ℤ × (ℤ × ℤ) → ℤ × (ℤ × ℤ)
  then_length (rc, (length, flag)) = (rc, (length +ℤ pos 1, flag))

  abbrev then_flag : ℤ → ℤ × (ℤ × ℤ)
  then_flag m = (fine, (m, pos 1))

  abbrev as_string : Option ℕ → ℤ → ℤ × (ℤ × ℤ)
  as_string h n = elim h [ none ↦ (fine, (n, pos 0)) | some l ↦ (fine, (pos (suc l), pos 1)) ]

  add_one : (l : ℕ) → pos l +ℤ pos 1 ≡ pos (suc l)
  unfolding ◌+ℤ◌
  add_one l = ground arith

  then_length-told : (h : Option ℕ) (n : ℤ) → then_length (measured h n) ≡ (fine, told false h n)
  unfolding told
  then_length-told none n = refl
  then_length-told (some l) n = ap (λ (m : ℤ). then_flag m) (add_one l)

  told_with_string : (h : Option ℕ) (n : ℤ) → as_string h n ≡ (fine, told true h n)
  unfolding told
  told_with_string none n = refl
  told_with_string (some l) n = refl

  get_string-told :
      (b : Bool) (info key n val flag : ℤ) (w : W) {h : Option ℕ}
      → is_apart key val n ≡ true
      → held w info key ≡ some h
      → (get_string env infos b info key n val flag w).0 ≡ (fine, told b h n)
  unfolding get_string told
  get_string-told true info key n val flag w {h} apart has =
      string info key n val flag w has ∙ told_with_string h n
  get_string-told false info key n val flag w {h} apart has =
      rw (get_code info key n val flag w has, eq_ℤ-refl fine)
        (ap then_length (
            valuelen info key n (info_get info key n val flag w).0.1
              (info_get info key n val flag w).1 (get_keeps info key n val flag w apart ∙ has))
          ∙ then_length-told h n)

  told_Fortran :
      (r : (ℤ × (ℤ × ℤ)) × W) (answer : ℤ × ℤ)
      → r.0 ≡ (fine, answer)
      → Returns (λ result w'. result ≡ (fine, answer)) (result_of env r)
  told_Fortran r answer e =
      let q : r ≡ ((fine, answer), r.1) = ap (λ (x : ℤ × (ℤ × ℤ)). (x, r.1)) e in
      let d : result_of env r ≡ done (fine, answer) r.1 = result_of-done env r answer r.1 q in
      rw d refl

  -- MPI_Info_get_string of Fortran returns MPI_SUCCESS and tells the same whether the build has MPI-4 or
  -- makes do with MPI_Info_get and MPI_Info_get_valuelen, if there is a value: the length of the value
  -- and its end, and a flag that is true. If there is none the flag is false, and the length that was
  -- given comes back, but one longer without MPI-4. So it is at both entry points. There are such an
  -- info object and such keys (held), which do not lie in the buffers for the values, and info
  -- objects are what MPI says (InfoLaws).
  pub get_string-Tells :
      (info_f key buflen val flag : ℤ) (key_d val_d : Desc) (w : W) (h h_d : Option ℕ)
      → held w (info_f2c mpi.handles info_f) key ≡ some h
      → held w (info_f2c mpi.handles info_f) key_d.base_addr ≡ some h_d
      → is_apart key val buflen ≡ true
      → is_apart key_d.base_addr val_d.base_addr buflen ≡ true
      → Returns
          (λ result w'. result ≡ (fine, told version4 h buflen))
          (c_info_get_string env infos info_f key buflen val flag w)
        × Returns
            (λ result w'. result ≡ (fine, told version4 h_d buflen))
            (cfi_info_get_string env infos info_f key_d buflen val_d flag w)
  unfolding c_info_get_string cfi_info_get_string
  get_string-Tells info_f key buflen val flag key_d val_d w h h_d has has_d apart apart_d =
      let info = info_f2c mpi.handles info_f in
      let key' = key_d.base_addr in
      let val' = val_d.base_addr in
      (
        told_Fortran _ _ (
            get_string-told version4 info key buflen val flag _ apart
              (memset_keeps info key val buflen w apart ∙ has)),
        told_Fortran _ _ (
            get_string-told version4 info key' buflen val' flag _ apart_d
              (memset_keeps info key' val' buflen w apart_d ∙ has_d)),
      )
