-- ===== src/Cfi/Addresses.antt =====
-- The addresses of a section's elements, and the displacements that source/cfi_util.c reads from them for
-- a derived input type.
use vapaa.Prelude.{
  ◌≡◌, refl, sym, ap, ◌∙◌, ℕ, zero, suc, ◌+◌, ◌*◌, ◌/◌, ◌%◌, arith, List, [], ◌∷◌, ◌++◌, ℤ, pos,
  ◌+ℤ◌, ◌*ℤ◌, +ℤ_zero, zero_+ℤ, tabulate, tabulate_from, tabulate_from_eq, tabulate_ext, concat,
  concat-rows,
}
use vapaa.Cfi.{Desc}
use vapaa.Cfi.Loops.{rounds, sum_terms, extent_15, stride_15}
use vapaa.Cfi.Elements.{extents_product, extents_product_top, element_offset}
use vapaa.Cfi.Section.{sizes, offset_of, IsSection}
use vapaa.Cfi.Fill.{nest_entry, nest_rows}
use vapaa.Cfi.Nests.{product_15, offset_15, rounds_15}
use vapaa.Cfi.Indexed.{for_collect, address_nest}

for_collect-concat :
    (n i : ℕ) (body : ℕ → List ℤ) → for_collect n i body ≡ concat (tabulate_from i n body)
unfolding for_collect
for_collect-concat zero i body = refl
for_collect-concat (suc n) i body =
    ap (λ (t : List ℤ). body i ++ t) (for_collect-concat n (suc i) body)

module _ (desc : Desc) where
  abbrev entry : (k : ℕ) (terms : List ℤ) → ℕ → ℤ
  entry k terms n = desc.base_addr +ℤ nest_entry (pos 0) (extent_15 desc) (stride_15 desc) k terms n

  abbrev product : ℕ → ℕ
  product k = extents_product (λ j. rounds (extent_15 desc j)) 0 k

  address_nest-entries :
      (k : ℕ) (terms : List ℤ) → address_nest desc k terms ≡ tabulate (product k) (entry k terms)
  unfolding address_nest extents_product element_offset
  address_nest-entries zero terms =
      ap (λ (d : ℤ). (desc.base_addr +ℤ d) ∷ []) (sym (zero_+ℤ (sum_terms terms)))
  address_nest-entries (suc k) terms =
      for_collect-concat (rounds (extent_15 desc k)) 0
        (λ i. address_nest desc k ((stride_15 desc k *ℤ pos i) ∷ terms))
      ∙ ap concat (
          tabulate_ext (rounds (extent_15 desc k))
            (λ i. address_nest desc k ((stride_15 desc k *ℤ pos i) ∷ terms))
            (λ i. tabulate P (λ n. row n i))
            (λ i p. address_nest-entries k ((stride_15 desc k *ℤ pos i) ∷ terms)))
      ∙ concat-rows P row (rounds (extent_15 desc k))
      ∙ tabulate_ext (rounds (extent_15 desc k) * P) (λ n. row (n % P) (n / P))
          (entry (suc k) terms)
          (λ n h.
            ap (λ (d : ℤ). desc.base_addr +ℤ d)
              (nest_rows (pos 0) (extent_15 desc) (stride_15 desc) k terms n h))
      ∙ tabulate_from_eq (entry (suc k) terms) refl more
    where
      i : 0 + k ≡ k
      i = omega arith

      P : ℕ
      P = product k

      more : rounds (extent_15 desc k) * P ≡ product (suc k)
      more = sym (rw i at (extents_product_top (λ j. rounds (extent_15 desc j)) 0 k))

      row : ℕ → ℕ → ℤ
      row n i = entry k ((stride_15 desc k *ℤ pos i) ∷ terms) n

-- `VAPAA_CFI_CREATE_ELEMENT_ADDRESSES` lists the addresses of all elements of a section (IsSection), in
-- array element order.
pub address_nest-addresses :
    {desc : Desc}
    → IsSection desc
    → address_nest desc 15 []
      ≡ tabulate
          (extents_product (sizes desc) 0 desc.rank)
          (λ n. desc.base_addr +ℤ offset_of desc n)
unfolding sum_terms
address_nest-addresses {desc} is =
    address_nest-entries desc 15 []
    ∙ tabulate_from_eq (entry desc 15 []) refl (product_15 is 1 (omega arith))
    ∙ tabulate_ext (extents_product (sizes desc) 0 desc.rank) (entry desc 15 [])
        (λ n. desc.base_addr +ℤ offset_of desc n)
        (λ n h.
          ap (λ (d : ℤ). desc.base_addr +ℤ d)
            (+ℤ_zero (element_offset (rounds_15 is 1 (omega arith)) (stride_15 desc) 0 15 n)
              ∙ offset_15 is 1 (omega arith) n h))
