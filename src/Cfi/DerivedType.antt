-- ===== src/Cfi/DerivedType.antt =====
-- The datatype that VAPAA_CFI_CREATE_INDEXED of source/cfi_util.c makes of a section of a derived type.
use vapaa.Prelude.{
  ◌≡◌, ◌≢◌, refl, ap, ap₂, ◌∙◌, ℕ, ◌-◌, ◌*◌, ◌^◌, ◌<◌, arith, Bool, true, false, [], Option, none,
  some, List, map, ℤ, pos, eq_ℤ-refl, length, length-map, lt→ltb, to_int, to_int_pos, if◌then◌else◌,
}
use vapaa.Errors.Names.{success}
use vapaa.Run.{pure, vapaa_assert, Run, done, Returns, Returns-bind, bind-Returns, ◌>>=◌, ◌>>◌}
use vapaa.Mpi.{Mpi, Iov, ok}
use vapaa.Mpi.Laws.{TypeInfo, TypeLaws}
use vapaa.Cfi.{Desc, Build}
use vapaa.Cfi.Loops.{rounds}
use vapaa.Cfi.Elements.{extents_product}
use vapaa.Cfi.Shapes.{basic, single_disps}
use vapaa.Cfi.Section.{sizes, offset_of, IsSection}
use vapaa.Cfi.Indexed.{
  cfi_to_mpi_type, all_displacements, address_nest, total_elements, make_indexed, create_mpix_iov,
  create_indexed,
}
use vapaa.Cfi.Create.{is_named, create_datatype}
use vapaa.Cfi.Derived.{all_elements, Below, all_displacements-offsets}

if_true :
    {W A : Type 0} (P : A → W → Type 0) (b : Bool) (x y : W → Run W A) (w : W)
    → b ≡ true
    → Returns P (x w)
    → Returns P ((if b then x else y) w)
if_true P true x y w e h = h
if_true P false x y w e h = absurd (cc e)

asserted :
    {W A : Type 0} {b c d : Bool} (x : A) (w : W)
    → b ≡ true
    → c ≡ true
    → d ≡ true
    → (vapaa_assert b >> (vapaa_assert c >> (vapaa_assert d >> pure x))) w ≡ done x w
asserted x w p q r = rw (p, q, r)

-- A new datatype whose elements are those of the section numbered qs, and no other is touched.
pub record Collects {W : Type 0} (view : W → ℤ → Option TypeInfo) (desc : Desc) (qs : List ℕ)
    (w : W) (t : ℤ) (w' : W) : Type 0 where
  pub fresh : view w t ≡ none
  pub extent : ℤ
  pub now :
      view w' t
      ≡ some (record {
        disps = map (offset_of desc) qs;
        size = length qs * desc.elem_len;
        extent = extent;
        named = false;
      })
  pub others : (u : ℤ) → u ≢ t → view w' u ≡ view w u

module _ {W : Type 0} {mpi : Mpi W} (build : Build) (laws : TypeLaws mpi)
    (memory : (n : ℤ) (b : ℕ) (w : W) → mpi.malloc n b w ≡ true) {desc : Desc} (is : IsSection desc)
    (count : ℕ) (w : W) (datatype : ℤ)
    (element : laws.view w (cfi_to_mpi_type mpi build desc.cfi_type) ≡ some (basic desc.elem_len))
    (element_small : desc.elem_len < 2 ^ 31) where
  open laws use {view}

  abbrev fine : ℤ
  fine = mpi.errors.error success

  -- The segments and the extent of the input type, as the library gives them.
  abbrev pub segments : List Iov
  segments = (mpi.type_iov datatype (mpi.type_iov_len datatype w).1 w).1

  abbrev pub extent_of : ℤ
  extent_of = (mpi.type_get_extent datatype w).1

  abbrev Collected : List ℕ → ℤ × ℤ → W → Type 0
  Collected qs r w' = (r.0 ≡ fine) × Collects view desc qs w r.1 w'

  create_mpix_iov-done :
      (mpi.type_iov_len datatype w).0 ≡ fine
      → (mpi.type_iov datatype (mpi.type_iov_len datatype w).1 w).0 ≡ fine
      → create_mpix_iov mpi build datatype w ≡ done (segments, (mpi.type_iov_len datatype w).2) w
  unfolding create_mpix_iov
  create_mpix_iov-done lens segs =
      asserted (segments, (mpi.type_iov_len datatype w).2) w (ap (ok mpi) lens ∙ eq_ℤ-refl fine)
        (memory (mpi.type_iov_len datatype w).1 16 w) (ap (ok mpi) segs ∙ eq_ℤ-refl fine)

  is_named-derived :
      {i : TypeInfo}
      → view w datatype ≡ some i
      → i.named ≡ false
      → is_named mpi build datatype w ≡ done false w
  unfolding is_named
  is_named-derived known derived = rw (
    laws.envelope_succeeds datatype w known,
    eq_ℤ-refl fine,
    laws.envelope_named datatype w known,
    derived,
  )

  module _ (qs : List ℕ)
      (elements : all_elements (pos desc.elem_len) extent_of segments count 0 ≡ map pos qs)
      (inside : Below (extents_product (sizes desc) 0 desc.rank) qs)
      (few : length qs < 2 ^ 31 - 1) where
    make_indexed-Collects :
        (bytes : ℤ)
        → Returns
            (Collected qs)
            (make_indexed mpi build desc (pos count) extent_of (segments, bytes) w)
    unfolding make_indexed
    make_indexed-Collects bytes =
        let ds = map (offset_of desc) qs in
        let t = cfi_to_mpi_type mpi build desc.cfi_type in
        let read : all_displacements (address_nest desc 15 []) (to_int (pos desc.elem_len))
              extent_of segments (rounds (pos count)) 0
            ≡ some ds =
          ap (λ (l : ℤ). all_displacements (address_nest desc 15 []) l extent_of segments count 0)
            (to_int_pos desc.elem_len element_small)
          ∙ all_displacements-offsets is (pos desc.elem_len) extent_of segments count qs elements
              inside in
        let n = length ds in
        let small : n < 2 ^ 31 - 1 = omega (arith, length-map (offset_of desc) qs) in
        let m = laws.hindexed n ds t w (omega arith) refl element in
        rw
          (
            memory _ 4 w,
            memory _ 8 w,
            memory (total_elements desc desc.rank 0 (pos 1)) 8 w,
            read,
            lt→ltb n (2 ^ 31 - 1) small,
            m.succeeds,
            eq_ℤ-refl fine,
            ◌>>=◌,
            ◌>>◌,
          )
          (
            refl,
            record {
              fresh = m.fresh;
              extent = m.extent;
              now =
                  m.now
                  ∙ ap₂
                      (λ (l : List ℤ) (k : ℕ).
                        some (record { disps = l; size = k; extent = m.extent; named = false }))
                      (single_disps ds desc.elem_len)
                      (ap (λ (k : ℕ). k * desc.elem_len) (length-map (offset_of desc) qs));
              others = m.others;
            },
          )

    -- `VAPAA_CFI_CREATE_INDEXED` returns MPI_SUCCESS and a new datatype, of exactly the elements that its
    -- loops come to, in their order, and changes no other datatype. The loops come to the elements of
    -- the section (IsSection) that qs numbers, fewer than INT_MAX; the section's own type is a basic
    -- datatype of elem_len bytes, below 2^31; the library describes the input type by its segments and
    -- extent with success, in a build that has MPIX_Iov; memory can be had.
    pub create_indexed-Collects :
        (out : ℤ)
        → build.has_iov ≡ true
        → (mpi.type_iov_len datatype w).0 ≡ mpi.errors.error success
        → (mpi.type_iov datatype (mpi.type_iov_len datatype w).1 w).0 ≡ mpi.errors.error success
        → (mpi.type_get_extent datatype w).0 ≡ mpi.errors.error success
        → Returns
            (λ r w'. (r.0 ≡ mpi.errors.error success) × Collects view desc qs w r.1 w')
            (create_indexed mpi build desc (pos count) datatype out w)
    unfolding create_indexed
    create_indexed-Collects out has lens segs ext = if_true (Collected qs) build.has_iov _ _ w has (
        bind-Returns (Collected qs) (create_mpix_iov mpi build datatype) _
          (create_mpix_iov-done lens segs)
          (rw (ext, eq_ℤ-refl fine, ◌>>=◌, ◌>>◌)
            (make_indexed-Collects (mpi.type_iov_len datatype w).2)))

    -- `VAPAA_CFI_CREATE_DATATYPE` on a derived input type returns MPI_SUCCESS and a new datatype, of
    -- exactly the elements that the loops of `VAPAA_CFI_CREATE_INDEXED` come to, in their order, and
    -- changes no other datatype. The loops come to the elements of the section (IsSection) that qs
    -- numbers, fewer than INT_MAX; the section's own type is a basic datatype of elem_len bytes, below
    -- 2^31; the library knows the input type as a derived one and describes it by its segments and
    -- extent with success, in a build that has MPIX_Iov; memory can be had.
    pub create_datatype-Collects :
        (out : ℤ) {i : TypeInfo}
        → view w datatype ≡ some i
        → i.named ≡ false
        → build.has_iov ≡ true
        → (mpi.type_iov_len datatype w).0 ≡ mpi.errors.error success
        → (mpi.type_iov datatype (mpi.type_iov_len datatype w).1 w).0 ≡ mpi.errors.error success
        → (mpi.type_get_extent datatype w).0 ≡ mpi.errors.error success
        → Returns
            (λ r w'. (r.0 ≡ mpi.errors.error success) × Collects view desc qs w r.1 w')
            (create_datatype mpi build desc (pos count) datatype out w)
    unfolding create_datatype
    create_datatype-Collects out known derived has lens segs ext =
        rw (is_named-derived known derived, create_datatype)
          (Returns-bind (Collected qs) (Collected qs)
            (create_indexed mpi build desc (pos count) datatype out)
            (λ r. vapaa_assert (ok mpi r.0) >> pure (mpi.errors.error success, r.1)) w
            (create_indexed-Collects out has lens segs ext)
            (λ r w' p. rw (p.0, eq_ℤ-refl fine) (refl, p.1)))
