-- ===== src/Cfi/Datatype.antt =====
-- The contract of `VAPAA_CFI_CREATE_DATATYPE` (source/cfi_util.c) on a named input type.
use vapaa.Prelude.{
  ◌≡◌, refl, ℕ, ◌*◌, ◌^◌, ◌≤◌, ◌<◌, true, false, Option, none, some, ℤ, pos, eq_ℤ-refl, ltb_ℤ,
  *ℤ_pos, to_int_pos, if◌then◌else◌, arith,
}
use vapaa.Errors.Names.{success, err_arg}
use vapaa.Run.{Run, Returns, ◌>>=◌, bind-Returns, Returns-bind, pure, ◌>>◌, vapaa_assert}
use vapaa.Mpi.{Mpi, ok}
use vapaa.Mpi.Laws.{TypeLaws}
use vapaa.Cfi.{Desc, Build}
use vapaa.Cfi.Elements.{extents_product}
use vapaa.Cfi.Indexed.{create_indexed, cfi_to_mpi_type}
use vapaa.Cfi.Create.{create_shape, check_size, create_named, create_datatype, is_named}
use vapaa.Cfi.Shapes.{basic}
use vapaa.Cfi.Section.{sizes, IsSection, count_elements-product}
use vapaa.Cfi.Select.{Picks}
use vapaa.Cfi.Choice.{SomePicked, CodePicked, shape-Picks, is_named-input}

module _ {W : Type 0} {mpi : Mpi W} (build : Build) (laws : TypeLaws mpi)
    (memory : (n : ℤ) (b : ℕ) (w : W) → mpi.malloc n b w ≡ true) {desc : Desc} (is : IsSection desc)
    (c : ℕ) (w : W) (input : ℤ)
    (element : laws.view w (cfi_to_mpi_type mpi build desc.cfi_type) ≡ some (basic desc.elem_len))
    (named : laws.view w input ≡ some (basic desc.elem_len))
    (enough : c ≤ extents_product (sizes desc) 0 desc.rank) (element_small : desc.elem_len < 2 ^ 31)
    (total_small : c * desc.elem_len < 2 ^ 31) where
  open laws use {view}

  abbrev Picked : ℤ → W → Type 0
  Picked t w' = Picks view desc c w t w'

  abbrev Some : Option ℤ → W → Type 0
  Some = SomePicked build laws memory is c w input element named enough element_small total_small

  abbrev Code : ℤ × ℤ → W → Type 0
  Code = CodePicked build laws memory is c w input element named enough element_small total_small

  check_size-Picks :
      (t : ℤ) (w' : W) → Picked t w' → Returns Code (check_size mpi build desc (pos c) t w')
  unfolding check_size
  check_size-Picks t w' p =
      rw
        (
          laws.size_law t w' p.now total_small,
          to_int_pos desc.elem_len element_small,
          *ℤ_pos c desc.elem_len,
          to_int_pos (c * desc.elem_len) total_small,
          eq_ℤ-refl (pos (c * desc.elem_len)),
        )
        (refl, p)

  -- What follows the choice of the shape.
  abbrev ending : ℤ → Option ℤ → W → Run W (ℤ × ℤ)
  ending out none = pure (mpi.errors.error err_arg, out)
  ending out (some t) = check_size mpi build desc (pos c) t

  ending-Picks :
      (out : ℤ) (shape : Option ℤ) (w' : W) → Some shape w' → Returns Code (ending out shape w')
  ending-Picks out none w' p = elim p [ ]
  ending-Picks out (some t) w' p = check_size-Picks t w' p

  create_named-Picks : (out : ℤ) → Returns Code (create_named mpi build desc (pos c) input out w)
  unfolding create_named
  create_named-Picks out =
      let fits : ltb_ℤ (pos (extents_product (sizes desc) 0 desc.rank)) (pos c) ≡ false =
        ground arith in
      rw (count_elements-product is, fits, create_named)
        (Returns-bind Some Code (create_shape mpi build desc (pos c) input out) (ending out) w
          (shape-Picks build laws memory is c w input element named enough element_small total_small
            out)
          (ending-Picks out))

  -- For the first `c` elements of a section (IsSection), with an input type that MPI names and whose elements
  -- are as long as the section's, `VAPAA_CFI_CREATE_DATATYPE` returns MPI_SUCCESS and a new datatype
  -- whose elements are exactly the first `c` elements of the section in array element order, and
  -- no other datatype is made, changed or left behind. The section has at least `c` elements, these
  -- take fewer than 2^31 bytes, and memory can be had.
  pub create_datatype-Picks :
      (out : ℤ)
      → Returns
          (λ r w'. (r.0 ≡ mpi.errors.error success) × Picks view desc c w r.1 w')
          (create_datatype mpi build desc (pos c) input out w)
  unfolding create_datatype
  create_datatype-Picks out =
      bind-Returns Code (is_named mpi build input)
        (λ n.
          if n
          then create_named mpi build desc (pos c) input out
          else (create_indexed mpi build desc (pos c) input out >>= λ r.
              vapaa_assert (ok mpi r.0) >> pure (mpi.errors.error success, r.1)))
        (is_named-input build laws memory is c w input element named enough element_small
          total_small)
        (create_named-Picks out)
