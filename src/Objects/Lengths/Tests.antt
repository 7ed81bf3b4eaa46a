-- ===== src/Objects/Lengths/Tests.antt =====
-- Info objects of a library before MPI-4, in which an info has a value of five characters under the
-- key at address 70, and nothing under any other.
use vapaa.Handles.{info_f2c}
use vapaa.Prelude.{
  ◌||◌, ap, inl, inr, Bool-cases, ◌≡◌, refl, ℕ, suc, true, false, Option, none, some, ℤ, pos, eq_ℤ,
  if◌then◌else◌,
}
use vapaa.Errors.Names.{success}
use vapaa.Run.{Returns}
use vapaa.Mpi.{Made}
use vapaa.Mpi.Sample.{World, sample}
use vapaa.Cfi.{Desc}
use vapaa.Cfi.Tests.{world, desc}
use vapaa.Transfer.{Env}
use vapaa.Transfer.Tests.{env}
use vapaa.Objects.Infos.{InfoLib, c_info_get_string, cfi_info_get_string}
use vapaa.Objects.Lengths.{InfoLaws, told, get_string-Tells}

abbrev fine : ℤ
fine = sample.errors.error success

abbrev older : Env World
older = record env { version4 = false }

abbrev length_at : ℤ → Option ℕ
length_at key = if eq_ℤ key (pos 70) then some 5 else none

abbrev null_info : World → Made World
null_info w = record { rc = fine; handle = pos 14; world = w }

abbrev measured : Option ℕ → ℤ → ℤ × (ℤ × ℤ)
measured l n = elim l [ none ↦ (fine, (n, pos 0)) | some k ↦ (fine, (pos k, pos 1)) ]

abbrev as_string : Option ℕ → ℤ → ℤ × (ℤ × ℤ)
as_string l n = elim l [ none ↦ (fine, (n, pos 0)) | some k ↦ (fine, (pos (suc k), pos 1)) ]

abbrev infos : InfoLib World
infos = record {
  memset = λ a n w. w;
  info_create = null_info;
  info_delete = λ info key w. (fine, w);
  info_dup = λ info. null_info;
  info_free = λ info. null_info;
  info_get_nkeys = λ info n w. ((fine, pos 1), w);
  info_get_nthkey = λ info n key w. (fine, w);
  info_get_string = λ info key n val flag w. (as_string (length_at key) n, w);
  info_get =
      λ info key n val flag w. ((fine, elim (length_at key) [ none ↦ pos 0 | some l ↦ pos 1 ]), w);
  info_get_valuelen = λ info key n flag w. (measured (length_at key) n, w);
  info_set = λ info key val w. (fine, w);
}

-- Two info objects are there, 20 and 21, and any key.
abbrev held_at : ℤ → ℤ → Option (Option ℕ)
held_at info key = if eq_ℤ info (pos 20) || eq_ℤ info (pos 21) then some (length_at key) else none

some_injective : (x y : Option ℕ) → some x ≡ some y → x ≡ y
some_injective x y e = cc e

length_held : (info key : ℤ) {h : Option ℕ} → held_at info key ≡ some h → length_at key ≡ h
length_held info key {h} e = elim (Bool-cases (eq_ℤ info (pos 20) || eq_ℤ info (pos 21))) [
  | inl there ↦ some_injective (length_at key) h (rw there at e)
  | inr gone ↦ let bad : none ≡ some h = rw gone at e in cc bad
]

info_laws : InfoLaws fine infos
info_laws = record {
  held = λ w info key. held_at info key;
  is_apart = λ key val n. true;
  memset_keeps = λ info key val n w apart. refl;
  get_keeps = λ info key n val flag w apart. refl;
  get_code = λ info key n val flag w has. refl;
  valuelen =
      λ info key n flag w has. ap (λ (l : Option ℕ). measured l n) (length_held info key has);
  string =
      λ info key n val flag w has. ap (λ (l : Option ℕ). as_string l n) (length_held info key has);
}

-- A buffer for the value.
abbrev value : Desc
value = record desc { base_addr = pos 9000 }

-- The key of the first call has a value; the one of the second has none.
get_string-Tells_example :
    Returns
      (λ result w'. result ≡ (fine, told false (some 5) (pos 9)))
      (c_info_get_string older infos (pos 20) (pos 70) (pos 9) (pos 900) (pos 3) world)
    × Returns
        (λ result w'. result ≡ (fine, told false none (pos 9)))
        (cfi_info_get_string older infos (pos 20) desc (pos 9) value (pos 3) world)
unfolding info_laws info_f2c
get_string-Tells_example =
    get_string-Tells older infos info_laws (pos 20) (pos 70) (pos 9) (pos 900) (pos 3) desc value
      world (some 5) none refl refl refl refl
