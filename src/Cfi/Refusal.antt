-- ===== src/Cfi/Refusal.antt =====
-- The counts that `VAPAA_CFI_CREATE_DATATYPE` (source/cfi_util.c) refuses.
use vapaa.Prelude.{
  Bool, ◌≡◌, refl, ◌∙◌, ℕ, zero, suc, ◌+◌, ◌*◌, ◌^◌, ◌≤◌, ◌<◌, true, false, ◌||◌, Option, none,
  some, ℤ, pos, eq_ℤ-refl, ltb_ℤ, *ℤ_pos, if◌then◌else◌, arith,
}
use native.Mathlib.Decide.{dec_lt}
use vapaa.Errors.Names.{success, err_arg, err_count}
use vapaa.Run.{done, bind_done, ◌>>=◌, ◌>>◌, pure, vapaa_assert}
use vapaa.Mpi.{Mpi, ok}
use vapaa.Mpi.Laws.{TypeLaws}
use vapaa.Cfi.{Desc, Build}
use vapaa.Cfi.Elements.{extents_product, extents_product_top}
use vapaa.Cfi.Create.{count_elements, int_max, is_named, create_named, create_datatype}
use vapaa.Cfi.Indexed.{create_indexed}
use vapaa.Cfi.Shapes.{basic}
use vapaa.Cfi.Section.{sizes, IsSection, count_elements-product}

passes_on : (b : Bool) (o : Option ℤ) → o ≡ none → (if b then none else o) ≡ none
passes_on true o h = refl
passes_on false o h = h

gives_up : (b c : Bool) (o : Option ℤ) → c ≡ true → (if b || c then none else o) ≡ none
gives_up true c o h = refl
gives_up false c o h = rw h

too_large : (p : ℕ) → 2 ^ 31 ≤ p → ltb_ℤ int_max (pos p) ≡ true
too_large p h = ground arith

module _ (desc : Desc)
    (extents : (i : ℕ) → i < desc.rank → (desc.dim i).extent ≡ pos (sizes desc i)) where
  -- The count is given up once a product passes INT_MAX.
  count_elements-none :
      (n i k : ℕ)
      → i + n ≡ desc.rank
      → i < k
      → k ≤ desc.rank
      → 2 ^ 31 ≤ extents_product (sizes desc) 0 k
      → count_elements desc n i (pos (extents_product (sizes desc) 0 i)) ≡ none
  unfolding count_elements
  count_elements-none zero i k e h r large = absurd (omega arith)
  count_elements-none (suc n) i k e h r large =
      let z : 0 + i ≡ i = omega arith in
      let here = extents i (omega arith) in
      let product : extents_product (sizes desc) 0 i * sizes desc i
          ≡ extents_product (sizes desc) 0 (suc i) =
        omega (arith, rw z at (extents_product_top (sizes desc) 0 i)) in
      rw (here, *ℤ_pos (extents_product (sizes desc) 0 i) (sizes desc i), product)
        (elim (dec_lt (suc i) k) [
          | yes later ↦
              passes_on
                (ltb_ℤ int_max (pos (sizes desc i))
                  || ltb_ℤ int_max (pos (extents_product (sizes desc) 0 (suc i))))
                (count_elements desc n (suc i) (pos (extents_product (sizes desc) 0 (suc i))))
                (count_elements-none n (suc i) k (omega arith) later r large)
          | no now ↦
              let same : suc i ≡ k = omega arith in
              gives_up (ltb_ℤ int_max (pos (sizes desc i)))
                (ltb_ℤ int_max (pos (extents_product (sizes desc) 0 (suc i))))
                (count_elements desc n (suc i) (pos (extents_product (sizes desc) 0 (suc i))))
                (too_large (extents_product (sizes desc) 0 (suc i)) (rw same large))
        ])

module _ {W : Type 0} {mpi : Mpi W} (build : Build) (laws : TypeLaws mpi) (desc : Desc) (c : ℤ)
    (w : W) (input out : ℤ) (size : ℕ) (named : laws.view w input ≡ some (basic size)) where
  is_named-input : is_named mpi build input w ≡ done true w
  unfolding is_named
  is_named-input = rw (
    laws.envelope_succeeds input w named,
    eq_ℤ-refl (mpi.errors.error success),
    laws.envelope_named input w named,
  )

  starts : create_datatype mpi build desc c input out w ≡ create_named mpi build desc c input out w
  unfolding create_datatype
  starts =
      bind_done (is_named mpi build input)
        (λ n.
          if n
          then create_named mpi build desc c input out
          else (create_indexed mpi build desc c input out >>= λ r.
              vapaa_assert (ok mpi r.0) >> pure (mpi.errors.error success, r.1)))
        is_named-input

  -- A section of a named type with a product of its first extents above INT_MAX is refused with
  -- MPI_ERR_COUNT, whatever the count: no datatype is made, and *array_datatype is left alone. The
  -- extents are not negative.
  pub create_datatype-large :
      ((i : ℕ) → i < desc.rank → (desc.dim i).extent ≡ pos (sizes desc i))
      → (k : ℕ) → 0 < k
      → k ≤ desc.rank
      → 2 ^ 31 ≤ extents_product (sizes desc) 0 k
      → create_datatype mpi build desc c input out w ≡ done (mpi.errors.error err_count, out) w
  unfolding create_named extents_product
  create_datatype-large extents k some_dims r large =
      starts
      ∙ rw (
        count_elements-none desc extents desc.rank 0 k (omega arith) some_dims r large,
        create_named,
      )

  -- More elements than a section (IsSection) of a named type has are refused with MPI_ERR_ARG: no datatype is
  -- made, and *array_datatype is left alone.
  pub create_datatype-too_many :
      IsSection desc
      → ltb_ℤ (pos (extents_product (sizes desc) 0 desc.rank)) c ≡ true
      → create_datatype mpi build desc c input out w ≡ done (mpi.errors.error err_arg, out) w
  unfolding create_named
  create_datatype-too_many is more = starts ∙ rw (count_elements-product is, more, create_named)
