-- ===== src/Transfer/Mail/Places.antt =====
-- The bytes that a datatype of a section picks, or a contiguous buffer, are the bytes of the section:
-- about the datatypes of source/cfi_util.c.
use mathlib.Core.List.{append-nil}
use mathlib.Core.Path.{fun_ext}
use vapaa.Prelude.{
  ◌≡◌, refl, sym, ap, ◌∙◌, ℕ, zero, suc, ◌*◌, ◌<◌, true, false, Option, List, [], ◌++◌, map, ℤ, pos,
  ◌+ℤ◌, ◌*ℤ◌, *ℤ_pos, *ℤ_zero, +ℤ_zero, zero_+ℤ, length, length-append, tabulate, tabulate_ext,
  tabulate_from, map-tabulate_from, length-tabulate_from, concat, arith,
}
use vapaa.Mpi.Laws.{TypeInfo}
use vapaa.Cfi.{Desc, Build}
use vapaa.Cfi.Elements.{extents_product}
use vapaa.Cfi.Shapes.{basic}
use vapaa.Cfi.Section.{sizes, offset_of, IsSection}
use vapaa.Transfer.{Env, contiguous}
use vapaa.Transfer.Exchange.{IsSide}
use vapaa.Transfer.Mail.{bytes_at, entry_bytes, section_bytes}

-- What CFI_is_contiguous tells of a section: its elements lie one after the other.
abbrev pub Adjacent : Build → Type 0
Adjacent build =
    (desc : Desc)
    → IsSection desc
    → contiguous build desc ≡ true
    → (k : ℕ) → k < extents_product (sizes desc) 0 desc.rank
    → offset_of desc k ≡ pos (desc.elem_len * k)

module _ (desc : Desc) (c : ℕ) where
  -- One element of a datatype whose elements are those of the section.
  scattered-bytes :
      (i : TypeInfo)
      → i.disps ≡ tabulate c (offset_of desc)
      → entry_bytes desc.base_addr 1 desc.elem_len i ≡ section_bytes desc c
  scattered-bytes i h = append-nil _ ∙ ap concat (picked)
    where
      first : (d : ℤ) → i.extent *ℤ pos 0 +ℤ d ≡ d
      first d = rw (*ℤ_zero i.extent) (zero_+ℤ d)

      each :
          map (λ d. bytes_at desc.elem_len (desc.base_addr +ℤ d)) (tabulate c (offset_of desc))
          ≡ tabulate c (λ k. bytes_at desc.elem_len (desc.base_addr +ℤ offset_of desc k))
      each =
          map-tabulate_from 0 c (λ d. bytes_at desc.elem_len (desc.base_addr +ℤ d)) (offset_of desc)

      picked :
          map (λ d. bytes_at desc.elem_len (desc.base_addr +ℤ (i.extent *ℤ pos 0 +ℤ d))) i.disps
          ≡ tabulate c (λ k. bytes_at desc.elem_len (desc.base_addr +ℤ offset_of desc k))
      picked =
          ap (λ (g : ℤ → ℤ). map (λ d. bytes_at desc.elem_len (desc.base_addr +ℤ g d)) i.disps)
            (fun_ext first)
          ∙ rw h each

  -- c elements of a basic datatype, one after the other.
  flat-bytes :
      ((k : ℕ) → k < c → offset_of desc k ≡ pos (desc.elem_len * k))
      → entry_bytes desc.base_addr c desc.elem_len (basic desc.elem_len) ≡ section_bytes desc c
  flat-bytes flat = ap concat (
      tabulate_ext c
        (λ m.
          bytes_at desc.elem_len (desc.base_addr +ℤ (pos desc.elem_len *ℤ pos m +ℤ pos 0)) ++ [])
        (λ k. bytes_at desc.elem_len (desc.base_addr +ℤ offset_of desc k))
        (λ k h.
          append-nil _
          ∙ ap (λ (d : ℤ). bytes_at desc.elem_len (desc.base_addr +ℤ d))
              (+ℤ_zero (pos desc.elem_len *ℤ pos k) ∙ *ℤ_pos desc.elem_len k ∙ sym (flat k h))))

  -- The datatype that picks the section's elements.
  pub picked-bytes :
      (extent : ℤ)
      → entry_bytes desc.base_addr 1 desc.elem_len (record {
        disps = tabulate c (offset_of desc);
        size = c * desc.elem_len;
        extent = extent;
        named = false;
      })
        ≡ section_bytes desc c
  picked-bytes extent =
      scattered-bytes
        (record {
          disps = tabulate c (offset_of desc);
          size = c * desc.elem_len;
          extent = extent;
          named = false;
        })
        refl

  pub picked_size : c * desc.elem_len ≡ length (tabulate c (offset_of desc)) * desc.elem_len
  picked_size = ap (λ (n : ℕ). n * desc.elem_len) (sym (length-tabulate_from 0 c (offset_of desc)))

module _ {W : Type 0} (env : Env W) (view : W → ℤ → Option TypeInfo)
    (adjacent : Adjacent env.build) where
  pub contiguous-bytes :
      (desc : Desc) (c : ℕ) (datatype : ℤ) (w : W)
      → IsSide env view desc c datatype w
      → contiguous env.build desc ≡ true
      → entry_bytes desc.base_addr c desc.elem_len (basic desc.elem_len) ≡ section_bytes desc c
  contiguous-bytes desc c datatype w side one =
      let enough = side.enough in
      flat-bytes desc c (λ k h. adjacent desc side.section one k (omega arith))

length-rows :
    (i c e : ℕ) (f : ℕ → List ℤ)
    → ((k : ℕ) → length (f k) ≡ e)
    → length (concat (tabulate_from i c f)) ≡ c * e
length-rows i zero e f h = omega arith
length-rows i (suc c) e f h =
    length-append (f i) (concat (tabulate_from (suc i) c f))
    ∙ omega (arith, h i, length-rows (suc i) c e f h)

pub length-section_bytes : (desc : Desc) (c : ℕ) → length (section_bytes desc c) ≡ c * desc.elem_len
length-section_bytes desc c =
    length-rows 0 c desc.elem_len (λ k. bytes_at desc.elem_len (desc.base_addr +ℤ offset_of desc k))
      (λ k. length-tabulate_from 0 desc.elem_len (λ j. desc.base_addr +ℤ offset_of desc k +ℤ pos j))

pub length-entry_bytes : (a : ℤ) (n e : ℕ) → length (entry_bytes a n e (basic e)) ≡ n * e
length-entry_bytes a n e =
    length-rows 0 n e (λ m. bytes_at e (a +ℤ (pos e *ℤ pos m +ℤ pos 0)) ++ [])
      (λ m.
        length-append (bytes_at e (a +ℤ (pos e *ℤ pos m +ℤ pos 0))) []
        ∙ omega (arith, length-tabulate_from 0 e (λ j. a +ℤ (pos e *ℤ pos m +ℤ pos 0) +ℤ pos j)))
