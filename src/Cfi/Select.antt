-- ===== src/Cfi/Select.antt =====
-- The datatype that source/cfi_util.c makes for a section of a named type.
use vapaa.Prelude.{
  ◌^◌, ◌≡◌, ◌≢◌, refl, sym, ap, ◌∙◌, inl, inr, ℕ, ◌*◌, ◌/◌, ◌%◌, ◌≤◌, ◌<◌, true, false, Option,
  none, some, List, ℤ, pos, eq_ℤ, eq_ℤ-refl, eq_ℤ-false, eq_ℤ→eq, ◌+ℤ◌, ◌*ℤ◌, +ℤ_comm, tabulate,
  tabulate_ext, tabulate_from_eq, length, length-tabulate_from, Bool-cases, if◌then◌else◌, arith,
}
use vapaa.Errors.Names.{success}
use vapaa.Run.{done, Returns, ◌>>=◌}
use vapaa.Mpi.{Mpi, Made, made}
use vapaa.Mpi.Laws.{TypeInfo, Makes, TypeLaws, hvector_disps}
use vapaa.Cfi.{Desc, Build}
use vapaa.Cfi.Loops.{Filling, written}
use vapaa.Cfi.Indexed.{cfi_to_mpi_type}
use vapaa.Cfi.Create.{create_single_elements, create_nested}
use vapaa.Cfi.Shapes.{basic, blocks_disps, copies_disps, column_disps, single_disps}
use vapaa.Cfi.Section.{sizes, strides, offset_of, IsSection, offset_in_1, offset_in_2}

-- In the state w', the handle t is a datatype that was not there in w: its elements are the first c
-- of the section, and no other datatype has changed.
pub record Picks {W : Type 0} (view : W → ℤ → Option TypeInfo) (desc : Desc) (c : ℕ) (w : W) (t : ℤ)
    (w' : W) : Type 0 where
  pub fresh : view w t ≡ none
  pub extent : ℤ
  pub now :
      view w' t
      ≡ some (record {
        disps = tabulate c (offset_of desc);
        size = c * desc.elem_len;
        extent = extent;
        named = false;
      })
  pub others : (u : ℤ) → u ≢ t → view w' u ≡ view w u

nested_size : (q e c l : ℕ) → c ≡ q * e → q * 1 * (e * 1 * l) ≡ c * l
nested_size q e c l h = omega (arith, ap (λ (t : ℕ). t * l) h)

module _ {W : Type 0} {mpi : Mpi W} (build : Build) (laws : TypeLaws mpi)
    (memory : (n : ℤ) (b : ℕ) (w : W) → mpi.malloc n b w ≡ true) where
  open laws use {view}

  -- The three calls of the nested vectors, when they succeed.
  module _ (blocks extent0 stride0 stride1 elt : ℤ) (w : W) where
    abbrev inner_made : Made W
    inner_made = mpi.type_create_hvector extent0 (pos 1) stride0 elt w

    abbrev outer_made : Made W
    outer_made = mpi.type_create_hvector blocks (pos 1) stride1 inner_made.handle inner_made.world

    abbrev inner_freed : Made W
    inner_freed = mpi.type_free inner_made.handle outer_made.world

    create_nested_done :
        inner_made.rc ≡ mpi.errors.error success
        → outer_made.rc ≡ mpi.errors.error success
        → inner_freed.rc ≡ mpi.errors.error success
        → create_nested mpi build blocks extent0 stride0 stride1 elt w
          ≡ done outer_made.handle inner_freed.world
    unfolding create_nested
    create_nested_done h1 h2 h3 =
        let pass : eq_ℤ (mpi.errors.error success) (mpi.errors.error success) ≡ true =
          eq_ℤ-refl (mpi.errors.error success) in
        rw (h1, pass, h2, pass, h3, pass, create_nested, ◌>>=◌)

  -- A new type with the right elements picks them.
  Makes-Picks :
      {desc : Desc} {c : ℕ} {w : W} {m : Made W} {ds : List ℤ} {size : ℕ}
      → ds ≡ tabulate c (offset_of desc)
      → size ≡ c * desc.elem_len
      → Makes mpi view w m ds size
      → Picks view desc c w m.handle m.world
  Makes-Picks e s m = record {
    fresh = m.fresh;
    extent = m.extent;
    now = rw (← e, ← s) m.now;
    others = m.others;
  }

  -- A type made of a derived one that is then freed: only the new one is left.
  module _ {w : W} {m n : Made W} {ds es : List ℤ} {k l : ℕ} (inner : Makes mpi view w m ds k)
      (outer : Makes mpi view m.world n es l) where
    apart : m.handle ≢ n.handle
    apart e = cc (inner.now, outer.fresh, ap (view m.world) e)

    still : view n.world m.handle ≡ view m.world m.handle
    still = outer.others m.handle apart

    freed_succeeds : (mpi.type_free m.handle n.world).rc ≡ mpi.errors.error success
    freed_succeeds = laws.free_succeeds m.handle n.world (still ∙ inner.now) refl

    freed_view :
        (u : ℤ)
        → view (mpi.type_free m.handle n.world).world u
          ≡ (if eq_ℤ u m.handle then none else view n.world u)
    freed_view = laws.free_view m.handle n.world (still ∙ inner.now) refl

    freed_others : (u : ℤ) → u ≢ n.handle → view (mpi.type_free m.handle n.world).world u ≡ view w u
    freed_others u h = freed_view u ∙ elim (Bool-cases (eq_ℤ u m.handle)) [
      | inl same ↦ rw same (sym (ap (view w) (eq_ℤ→eq u m.handle same) ∙ inner.fresh))
      | inr other ↦ rw other (
          outer.others u h
          ∙ inner.others u (λ e. cc (other, ap (λ (v : ℤ). eq_ℤ v m.handle) e, eq_ℤ-refl m.handle)))
    ]

    freed-Picks :
        {desc : Desc} {c : ℕ}
        → es ≡ tabulate c (offset_of desc)
        → l ≡ c * desc.elem_len
        → Picks view desc c w n.handle (mpi.type_free m.handle n.world).world
    freed-Picks e s =
        let kept : eq_ℤ n.handle m.handle ≡ false =
          eq_ℤ-false n.handle m.handle (λ q. apart (sym q)) in
        record {
          fresh = sym (inner.others n.handle (λ q. apart (sym q))) ∙ outer.fresh;
          extent = outer.extent;
          now = freed_view n.handle ∙ rw kept (rw (← e, ← s) outer.now);
          others = freed_others;
        }

  module _ {desc : Desc} (is : IsSection desc) (c : ℕ) (w : W)
      (element : view w (cfi_to_mpi_type mpi build desc.cfi_type) ≡ some (basic desc.elem_len))
      (count_small : c < 2 ^ 31) where
    abbrev element_type : ℤ
    element_type = cfi_to_mpi_type mpi build desc.cfi_type

    abbrev Picked : ℤ → W → Type 0
    Picked t w' = Picks view desc c w t w'

    pub single-Picks :
        (filling : Filling)
        → written filling ≡ tabulate c (offset_of desc)
        → Returns Picked (create_single_elements mpi build (pos c) filling element_type w)
    unfolding create_single_elements
    single-Picks filling e =
        let sized : length (written filling) ≡ c =
          ap length e ∙ length-tabulate_from 0 c (offset_of desc) in
        let m = laws.hindexed c (written filling) element_type w count_small sized element in
        rw
          (memory (pos c) 4 w, memory (pos c) 8 w, m.succeeds, eq_ℤ-refl (mpi.errors.error success))
          (Makes-Picks (single_disps (written filling) desc.elem_len ∙ e) refl m)

    column_small : sizes desc 0 < 2 ^ 31
    column_small = is.each_bounded 0 is.rank_pos

    pub column-Picks :
        ((n : ℕ) → n < c → n < sizes desc 0)
        → Returns Picked
            (made mpi (mpi.type_create_hvector (pos c) (pos 1) (strides desc 0) element_type) w)
    column-Picks h =
        let m =
          laws.hvector c 1 (strides desc 0) element_type w count_small (omega arith) element in
        rw (m.succeeds, eq_ℤ-refl (mpi.errors.error success))
          (Makes-Picks
            (column_disps c desc.elem_len (strides desc 0)
              ∙ tabulate_ext c (λ n. strides desc 0 *ℤ pos n) (offset_of desc)
                  (λ n p. sym (offset_in_1 is n (h n p))))
            (omega arith) m)

    -- Columns side by side are the elements of the plane.
    plane :
        (g : ℕ → ℤ) (q : ℕ)
        → 2 ≤ desc.rank
        → c ≡ q * sizes desc 0
        → c ≤ sizes desc 0 * sizes desc 1
        → ((k : ℕ) → g k ≡ strides desc 0 *ℤ pos k)
        → tabulate
            (q * sizes desc 0)
            (λ n. strides desc 1 *ℤ pos (n / sizes desc 0) +ℤ g (n % sizes desc 0))
          ≡ tabulate c (offset_of desc)
    plane g q r e h gs =
        tabulate_from_eq in_plane refl (sym e)
        ∙ tabulate_ext c in_plane (offset_of desc) (λ n p.
          ap (λ (d : ℤ). strides desc 1 *ℤ pos (n / sizes desc 0) +ℤ d) (gs (n % sizes desc 0))
          ∙ +ℤ_comm (strides desc 1 *ℤ pos (n / sizes desc 0))
              (strides desc 0 *ℤ pos (n % sizes desc 0))
          ∙ sym (offset_in_2 is n r (omega arith)))
      where
        in_plane : ℕ → ℤ
        in_plane n = strides desc 1 *ℤ pos (n / sizes desc 0) +ℤ g (n % sizes desc 0)

    pub blocks-Picks :
        (q : ℕ)
        → q < 2 ^ 31
        → 2 ≤ desc.rank
        → c ≡ q * sizes desc 0
        → c ≤ sizes desc 0 * sizes desc 1
        → strides desc 0 ≡ pos desc.elem_len
        → Returns Picked (
            made mpi
              (mpi.type_create_hvector (pos q) (pos (sizes desc 0)) (strides desc 1) element_type)
              w)
    blocks-Picks q q_small r e h s =
        let m =
          laws.hvector q (sizes desc 0) (strides desc 1) element_type w q_small column_small
            element in
        rw (m.succeeds, eq_ℤ-refl (mpi.errors.error success))
          (Makes-Picks
            (blocks_disps q (sizes desc 0) desc.elem_len (strides desc 1)
              ∙ plane (λ k. pos desc.elem_len *ℤ pos k) q r e h
                  (λ k. ap (λ (t : ℤ). t *ℤ pos k) (sym s)))
            (rw (← e)) m)

    pub nested-Picks :
        (q : ℕ)
        → q < 2 ^ 31
        → 2 ≤ desc.rank
        → c ≡ q * sizes desc 0
        → c ≤ sizes desc 0 * sizes desc 1
        → Returns Picked (
            create_nested mpi build
              (pos q)
              (pos (sizes desc 0))
              (strides desc 0)
              (strides desc 1)
              element_type
              w)
    unfolding create_nested
    nested-Picks q q_small r e h =
        let inner =
          laws.hvector (sizes desc 0) 1 (strides desc 0) element_type w column_small (omega arith)
            element in
        let m =
          inner_made (pos q) (pos (sizes desc 0)) (strides desc 0) (strides desc 1) element_type
            w in
        let temp : TypeInfo = record {
          disps = hvector_disps (sizes desc 0) 1 (strides desc 0) (basic desc.elem_len);
          size = sizes desc 0 * 1 * desc.elem_len;
          extent = inner.extent;
          named = false;
        } in
        let outer =
          laws.hvector q 1 (strides desc 1) m.handle m.world q_small (omega arith) inner.now in
        rw
          (create_nested_done (pos q) (pos (sizes desc 0)) (strides desc 0) (strides desc 1)
            element_type w inner.succeeds outer.succeeds (freed_succeeds inner outer))
          (freed-Picks inner outer {desc = desc} {c = c}
            (copies_disps q (sizes desc 0) (strides desc 1) (λ n. strides desc 0 *ℤ pos n) temp
                (column_disps (sizes desc 0) desc.elem_len (strides desc 0))
              ∙ plane (λ k. strides desc 0 *ℤ pos k) q r e h (λ k. refl))
            (nested_size q (sizes desc 0) c desc.elem_len e))
