-- ===== src/Cfi/Choice.antt =====
-- The choice among the shapes in `VAPAA_CFI_CREATE_DATATYPE` (source/cfi_util.c), branch by branch.
use vapaa.Prelude.{
  ◌≡◌, refl, inl, inr, ℕ, ◌*◌, ◌/◌, ◌%◌, ◌^◌, ◌≤◌, ◌<◌, Bool, true, false, not, ◌||◌, ◌==◌, Option,
  none, some, ℤ, pos, eq_ℤ, eq_ℤ-refl, eq_ℤ→eq, ltb_ℤ, ◌*ℤ◌, *ℤ_pos, rem_ℤ, rem_ℤ_pos, div_ℤ_pos,
  to_int, to_int_pos, Bool-cases, ==→eq, lt→ltb, if◌then◌else◌, arith,
}
use native.Mathlib.Decide.{ℕ_discrete}
use vapaa.Errors.Names.{success, err_arg}
use vapaa.Run.{Run, done, Returns, ◌>>=◌, bind-Returns, Returns-bind, pure, ◌>>◌, vapaa_assert}
use vapaa.Mpi.{Mpi, made, ok}
use vapaa.Mpi.Laws.{TypeLaws}
use vapaa.Cfi.{Desc, Build}
use vapaa.Cfi.Loops.{fill_2d, fill_3d, fill_15d}
use vapaa.Cfi.Elements.{extents_product}
use vapaa.Cfi.Indexed.{cfi_to_mpi_type}
use vapaa.Cfi.Create.{
  create_single_elements, create_nested, create_datatype_15d, create_shape, is_named,
}
use vapaa.Cfi.Shapes.{basic}
use vapaa.Cfi.Section.{sizes, strides, IsSection, extent_int}
use vapaa.Cfi.Nests.{fill_2d-offsets, fill_3d-offsets, fill_15d-offsets}
use vapaa.Cfi.Select.{Picks, single-Picks, column-Picks, blocks-Picks, nested-Picks}

module _ {W : Type 0} {mpi : Mpi W} (build : Build) (laws : TypeLaws mpi)
    (memory : (n : ℤ) (b : ℕ) (w : W) → mpi.malloc n b w ≡ true) {desc : Desc} (is : IsSection desc)
    (c : ℕ) (w : W) (input : ℤ)
    (element : laws.view w (cfi_to_mpi_type mpi build desc.cfi_type) ≡ some (basic desc.elem_len))
    (named : laws.view w input ≡ some (basic desc.elem_len))
    (enough : c ≤ extents_product (sizes desc) 0 desc.rank) (element_small : desc.elem_len < 2 ^ 31)
    (total_small : c * desc.elem_len < 2 ^ 31) where
  open laws use {view}

  abbrev Picked : ℤ → W → Type 0
  Picked t w' = Picks view desc c w t w'

  -- The shapes' common ending.
  abbrev pub SomePicked : Option ℤ → W → Type 0
  SomePicked none w' = ⊥
  SomePicked (some t) w' = Picked t w'

  with_some :
      (m : W → Run W ℤ) → Returns Picked (m w) → Returns SomePicked ((m >>= λ t. pure (some t)) w)
  with_some m h = Returns-bind Picked SomePicked m (λ t. pure (some t)) w h (λ t w' p. p)

  pub is_named-input : is_named mpi build input w ≡ done true w
  unfolding is_named
  is_named-input = rw (
    laws.envelope_succeeds input w named,
    eq_ℤ-refl (mpi.errors.error success),
    laws.envelope_named input w named,
  )

  abbrev element_type : ℤ
  element_type = cfi_to_mpi_type mpi build desc.cfi_type

  abbrev out_of_plane : Bool
  out_of_plane = ltb_ℤ (to_int (desc.dim 0).extent *ℤ to_int (desc.dim 1).extent) (pos c)

  abbrev out_of_column : Bool
  out_of_column = ltb_ℤ (to_int (desc.dim 0).extent) (pos c)

  extent0 : to_int (desc.dim 0).extent ≡ pos (sizes desc 0)
  extent0 = extent_int is 0 is.rank_pos

  count_small : c < 2 ^ 31
  count_small = let below = is.bounded desc.rank (omega arith) in omega arith

  columns_small : 0 < sizes desc 0 → c / sizes desc 0 < 2 ^ 31
  columns_small h = let b = count_small in grind arith

  one_dimension : desc.rank ≡ 1 → c ≤ sizes desc 0
  unfolding extents_product
  one_dimension r = omega (arith, rw r at enough)

  in_column : ((desc.rank == 1) || not out_of_column) ≡ true → c ≤ sizes desc 0
  in_column h = elim (ℕ_discrete desc.rank 1) [
    | yes r ↦ one_dimension r
    | no r ↦
        let h' : ((desc.rank == 1) || not (ltb_ℤ (pos (sizes desc 0)) (pos c))) ≡ true =
          rw extent0 at h in
        ground arith
  ]

  beyond_column :
      ((desc.rank == 1) || not out_of_column) ≡ false → (2 ≤ desc.rank) × (sizes desc 0 < c)
  beyond_column h =
      let r = is.rank_pos in
      let h' : ((desc.rank == 1) || not (ltb_ℤ (pos (sizes desc 0)) (pos c))) ≡ false =
        rw extent0 at h in
      ground arith

  shape-column :
      (out : ℤ)
      → ((desc.rank == 1) || not out_of_column) ≡ true
      → Returns SomePicked (create_shape mpi build desc (pos c) input out w)
  unfolding create_shape
  shape-column out h = rw h (
      with_some (made mpi (mpi.type_create_hvector (pos c) (pos 1) (strides desc 0) element_type)) (
        column-Picks build laws memory is c w element count_small
          (λ n p. let b = in_column h in omega arith)))

  abbrev plane_rest : Bool
  plane_rest = eq_ℤ (rem_ℤ (pos c) (pos (sizes desc 0))) (pos 0)

  one_plane : desc.rank ≡ 2 → c ≤ sizes desc 0 * sizes desc 1
  unfolding extents_product
  one_plane r = omega (arith, rw r at enough)

  module _ (beyond : (2 ≤ desc.rank) × (sizes desc 0 < c)) where
    extent1 : to_int (desc.dim 1).extent ≡ pos (sizes desc 1)
    extent1 = let r = beyond.0 in extent_int is 1 (omega arith)

    plane_size :
        to_int (desc.dim 0).extent *ℤ to_int (desc.dim 1).extent ≡ pos (sizes desc 0 * sizes desc 1)
    plane_size = rw (extent0, extent1) (*ℤ_pos (sizes desc 0) (sizes desc 1))

    in_plane : ((desc.rank == 2) || not out_of_plane) ≡ true → c ≤ sizes desc 0 * sizes desc 1
    in_plane h = elim (ℕ_discrete desc.rank 2) [
      | yes r ↦ one_plane r
      | no r ↦
          let h' : ((desc.rank == 2) || not (ltb_ℤ (pos (sizes desc 0 * sizes desc 1)) (pos c)))
              ≡ true =
            rw plane_size at h in
          ground arith
    ]

    beyond_plane : ((desc.rank == 2) || not out_of_plane) ≡ false → 3 ≤ desc.rank
    beyond_plane h = let r = beyond.0 in ground arith

    some_element : 0 < c
    some_element = let b = beyond.1 in omega arith

    some_column : c ≤ sizes desc 0 * sizes desc 1 → 0 < sizes desc 0
    some_column h = grind arith

    whole_columns :
        plane_rest ≡ true → c ≤ sizes desc 0 * sizes desc 1 → c ≡ c / sizes desc 0 * sizes desc 0
    whole_columns h le =
        let e = some_column le in
        let h' : eq_ℤ (pos (c % sizes desc 0)) (pos 0) ≡ true =
          rw (rem_ℤ_pos c (sizes desc 0)) at h in
        let z : c % sizes desc 0 ≡ 0 = ground arith in grind arith

  shape-plane :
      (out : ℤ)
      → ((desc.rank == 1) || not out_of_column) ≡ false
      → ((desc.rank == 2) || not out_of_plane) ≡ true
      → Returns SomePicked (create_shape mpi build desc (pos c) input out w)
  unfolding create_shape
  shape-plane out h1 h2 =
      let beyond = beyond_column h1 in
      let le = in_plane beyond h2 in
      rw
        (
          h1,
          h2,
          extent0,
          extent1 beyond,
          to_int_pos desc.elem_len element_small,
          div_ℤ_pos c (sizes desc 0),
        )
        (elim (Bool-cases plane_rest) [
          | inl whole ↦
              let q = whole_columns beyond whole le in
              elim (Bool-cases (eq_ℤ (strides desc 0) (pos desc.elem_len))) [
                | inl together ↦
                    rw (whole, together)
                      (with_some
                        (made mpi (
                          mpi.type_create_hvector (pos (c / sizes desc 0)) (pos (sizes desc 0))
                            (strides desc 1) element_type))
                        (blocks-Picks build laws memory is c w element count_small
                          (c / sizes desc 0) (columns_small (some_column beyond le)) beyond.0 q le
                          (eq_ℤ→eq (strides desc 0) (pos desc.elem_len) together)))
                | inr apart ↦
                    rw (whole, apart)
                      (with_some
                        (create_nested mpi build (pos (c / sizes desc 0)) (pos (sizes desc 0))
                          (strides desc 0) (strides desc 1) element_type)
                        (nested-Picks build laws memory is c w element count_small
                          (c / sizes desc 0) (columns_small (some_column beyond le)) beyond.0 q le))
              ]
          | inr ragged ↦ rw ragged (
              with_some
                (create_single_elements mpi build (pos c)
                  (fill_2d (pos c) desc (pos (sizes desc 0)) (pos (sizes desc 1))) element_type)
                (single-Picks build laws memory is c w element count_small
                  (fill_2d (pos c) desc (pos (sizes desc 0)) (pos (sizes desc 1)))
                  (fill_2d-offsets is c (some_element beyond) beyond.0 le)))
        ])

  -- A return code of success, and a type that picks the elements.
  abbrev pub CodePicked : ℤ × ℤ → W → Type 0
  CodePicked r w' = (r.0 ≡ mpi.errors.error success) × Picked r.1 w'

  fifteen :
      (out : ℤ)
      → 0 < c
      → Returns CodePicked (create_datatype_15d mpi build desc (pos c) input out w)
  unfolding create_datatype_15d
  fifteen out h =
      bind-Returns CodePicked (is_named mpi build input)
        (λ n.
          if n
          then (create_single_elements mpi build (pos c) (fill_15d (pos c) desc) element_type
              >>= λ t. pure (mpi.errors.error success, t))
          else pure (mpi.errors.error err_arg, out))
        is_named-input
        (Returns-bind Picked CodePicked
          (create_single_elements mpi build (pos c) (fill_15d (pos c) desc) element_type)
          (λ t. pure (mpi.errors.error success, t)) w
          (single-Picks build laws memory is c w element count_small (fill_15d (pos c) desc)
            (fill_15d-offsets is c h enough))
          (λ t w' p. (refl, p)))

  shape-deep :
      (out : ℤ)
      → ((desc.rank == 1) || not out_of_column) ≡ false
      → ((desc.rank == 2) || not out_of_plane) ≡ false
      → Returns SomePicked (create_shape mpi build desc (pos c) input out w)
  unfolding create_shape
  shape-deep out h1 h2 =
      let beyond = beyond_column h1 in
      let r = beyond_plane beyond h2 in
      elim (Bool-cases (desc.rank == 3)) [
        | inl three ↦
            let e2 : to_int (desc.dim 2).extent ≡ pos (sizes desc 2) =
              extent_int is 2 (omega arith) in
            rw (h1, h2, extent0, extent1 beyond, three, e2)
              (with_some
                (create_single_elements mpi build (pos c)
                  (fill_3d (pos c) desc (pos (sizes desc 0)) (pos (sizes desc 1))
                    (pos (sizes desc 2)))
                  element_type)
                (single-Picks build laws memory is c w element count_small
                  (fill_3d (pos c) desc (pos (sizes desc 0)) (pos (sizes desc 1))
                    (pos (sizes desc 2)))
                  (fill_3d-offsets is c (some_element beyond) (==→eq desc.rank 3 three) enough)))
        | inr more ↦
            rw (h1, h2, more, lt→ltb desc.rank 15 is.rank_small)
              (Returns-bind CodePicked SomePicked
                (create_datatype_15d mpi build desc (pos c) input out)
                (λ r. vapaa_assert (ok mpi r.0) >> pure (some r.1)) w
                (fifteen out (some_element beyond))
                (λ r w' p. rw (p.0, eq_ℤ-refl (mpi.errors.error success)) p.1))
      ]

  pub shape-Picks : (out : ℤ) → Returns SomePicked (create_shape mpi build desc (pos c) input out w)
  shape-Picks out = elim (Bool-cases ((desc.rank == 1) || not out_of_column)) [
    | inl column ↦ shape-column out column
    | inr beyond ↦ elim (Bool-cases ((desc.rank == 2) || not out_of_plane)) [
      | inl plane ↦ shape-plane out beyond plane
      | inr deep ↦ shape-deep out beyond deep
    ]
  ]
