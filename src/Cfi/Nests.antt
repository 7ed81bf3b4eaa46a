-- ===== src/Cfi/Nests.antt =====
-- The three loop nests of source/cfi_util.c write the offsets of the section's first elements.
use vapaa.Prelude.{
  ◌≡◌, sym, ap, ◌∙◌, ℕ, ◌+◌, ◌-◌, ◌*◌, ◌≤◌, ◌<◌, [], ℤ, pos, +ℤ_zero, +ℤ_assoc, lt→ltb, le→ltb,
  tabulate, tabulate_ext, arith,
}
use vapaa.Cfi.{Desc}
use vapaa.Cfi.Loops.{
  running, written, rounds, nest, extent_15, stride_15, fill_15d, fill_2d, fill_3d,
}
use vapaa.Cfi.Elements.{
  extents_product, element_offset, element_offset_prefix, element_offset_ext, extents_product_ext,
  extents_product_ones,
}
use vapaa.Cfi.Fill.{nest-elements}
use vapaa.Cfi.Section.{sizes, strides, offset_of, IsSection, extent_int, in_prefix}

module _ {desc : Desc} (is : IsSection desc) (c : ℕ) (some_element : 0 < c) where
  abbrev sides : ℕ → ℤ
  sides k = pos (sizes desc k)

  -- A nest over the first m dimensions.
  nest-offsets :
      (m : ℕ)
      → m ≤ desc.rank
      → c ≤ extents_product (sizes desc) 0 m
      → written (nest (pos c) sides (strides desc) m [] (running 0 []))
        ≡ tabulate c (offset_of desc)
  nest-offsets m r h =
      nest-elements c sides (strides desc) m some_element h
      ∙ tabulate_ext c (element_offset (sizes desc) (strides desc) 0 m) (offset_of desc)
          (λ n p. sym (in_prefix is m n r (omega arith)))

  fill_2d-nest :
      fill_2d (pos c) desc (sides 0) (sides 1)
      ≡ nest (pos c) sides (strides desc) 2 [] (running 0 [])
  unfolding fill_2d nest
  fill_2d-nest = simp +ℤ_zero

  fill_3d-nest :
      fill_3d (pos c) desc (sides 0) (sides 1) (sides 2)
      ≡ nest (pos c) sides (strides desc) 3 [] (running 0 [])
  unfolding fill_3d nest
  fill_3d-nest = simp (+ℤ_zero, +ℤ_assoc)

  extent_15_below : (k : ℕ) → k < desc.rank → extent_15 desc k ≡ sides k
  unfolding extent_15
  extent_15_below k h = rw (lt→ltb k desc.rank h) (extent_int is k h)

  extent_15_above : (k : ℕ) → desc.rank ≤ k → extent_15 desc k ≡ pos 1
  unfolding extent_15
  extent_15_above k h = rw (le→ltb desc.rank k h)

  stride_15_below : (k : ℕ) → k < desc.rank → stride_15 desc k ≡ strides desc k
  unfolding stride_15
  stride_15_below k h = rw (lt→ltb k desc.rank h)

  abbrev pub rounds_15 : ℕ → ℕ
  rounds_15 k = rounds (extent_15 desc k)

  pub product_15 : extents_product rounds_15 0 15 ≡ extents_product (sizes desc) 0 desc.rank
  product_15 =
      let below = is.rank_small in
      let e : 15 ≡ desc.rank + (15 - desc.rank) = omega arith in
      ap (extents_product rounds_15 0) e
      ∙ extents_product_ones rounds_15 desc.rank (15 - desc.rank)
          (λ i p. ap rounds (extent_15_above i p))
      ∙ extents_product_ext rounds_15 (sizes desc) 0 desc.rank
          (λ i p q. ap rounds (extent_15_below i (omega arith)))

  pub fill_2d-offsets :
      2 ≤ desc.rank
      → c ≤ sizes desc 0 * sizes desc 1
      → written (fill_2d (pos c) desc (sides 0) (sides 1)) ≡ tabulate c (offset_of desc)
  unfolding extents_product
  fill_2d-offsets r h = ap written fill_2d-nest ∙ nest-offsets 2 r (omega arith)

  pub fill_3d-offsets :
      desc.rank ≡ 3
      → c ≤ extents_product (sizes desc) 0 desc.rank
      → written (fill_3d (pos c) desc (sides 0) (sides 1) (sides 2)) ≡ tabulate c (offset_of desc)
  fill_3d-offsets r h = ap written fill_3d-nest ∙ nest-offsets 3 (omega arith) (rw r at h)

  -- Element n of the fifteen loops is element n of the section.
  pub offset_15 :
      (n : ℕ)
      → n < extents_product (sizes desc) 0 desc.rank
      → element_offset rounds_15 (stride_15 desc) 0 15 n ≡ offset_of desc n
  offset_15 n h =
      let below = is.rank_small in
      let e : 15 ≡ desc.rank + (15 - desc.rank) = omega arith in
      let same =
        extents_product_ext rounds_15 (sizes desc) 0 desc.rank
          (λ i p q. ap rounds (extent_15_below i (omega arith))) in
      ap (λ (k : ℕ). element_offset rounds_15 (stride_15 desc) 0 k n) e
      ∙ element_offset_prefix rounds_15 (stride_15 desc) 0 desc.rank (15 - desc.rank) n (rw same h)
      ∙ element_offset_ext rounds_15 (sizes desc) (stride_15 desc) (strides desc) 0 desc.rank n
          (λ i p q. ap rounds (extent_15_below i (omega arith)))
          (λ i p q. stride_15_below i (omega arith))

  -- For a section (IsSection) of at most fourteen dimensions the fifteen loops write the offsets of its first c
  -- elements, c positive and at most their number.
  pub fill_15d-offsets :
      c ≤ extents_product (sizes desc) 0 desc.rank
      → written (fill_15d (pos c) desc) ≡ tabulate c (offset_of desc)
  unfolding fill_15d
  fill_15d-offsets h =
      nest-elements c (extent_15 desc) (stride_15 desc) 15 some_element (omega (arith, product_15))
      ∙ tabulate_ext c (element_offset rounds_15 (stride_15 desc) 0 15) (offset_of desc)
          (λ n p. offset_15 n (omega arith))
