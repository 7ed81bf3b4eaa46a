-- ===== src/Cfi/Section.antt =====
-- Array sections that source/cfi_util.c is meant for, and where their elements lie.
use vapaa.Prelude.{
  ◌≡◌, ap, ◌∙◌, ℕ, zero, suc, ◌+◌, ◌-◌, ◌*◌, ◌/◌, ◌%◌, ◌^◌, ◌≤◌, ◌<◌, false, some, ℤ, pos, pos_part,
  to_int, to_int_pos, ltb_ℤ, ◌+ℤ◌, ◌*ℤ◌, *ℤ_pos, +ℤ_zero, arith,
}
use vapaa.Cfi.{Desc}
use vapaa.Cfi.Create.{int_max, count_elements}
use vapaa.Cfi.Elements.{extents_product, extents_product_top, element_offset, element_offset_prefix}

abbrev pub sizes : Desc → ℕ → ℕ
sizes desc i = pos_part (desc.dim i).extent

abbrev pub strides : Desc → ℕ → ℤ
strides desc i = (desc.dim i).sm

-- Where element n of the section lies, in bytes from its first element.
abbrev pub offset_of : Desc → ℕ → ℤ
offset_of desc n = element_offset (sizes desc) (strides desc) 0 desc.rank n

-- A descriptor of one to fourteen dimensions whose extents, and the products of the first of them,
-- are numbers that an int holds.
pub record IsSection (desc : Desc) : Type 0 where
  pub rank_pos : 0 < desc.rank
  pub rank_small : desc.rank < 15
  pub extents : (i : ℕ) → i < desc.rank → (desc.dim i).extent ≡ pos (sizes desc i)
  pub each_bounded : (i : ℕ) → i < desc.rank → sizes desc i < 2 ^ 31
  pub bounded : (k : ℕ) → k ≤ desc.rank → extents_product (sizes desc) 0 k < 2 ^ 31

count_step :
    (desc : Desc) (n i t e : ℕ)
    → (desc.dim i).extent ≡ pos e
    → e < 2 ^ 31
    → t * e < 2 ^ 31
    → count_elements desc (suc n) i (pos t) ≡ count_elements desc n (suc i) (pos (t * e))
unfolding count_elements
count_step desc n i t e he h1 h2 =
    let small : ltb_ℤ int_max (pos e) ≡ false = ground arith in
    let small' : ltb_ℤ int_max (pos (t * e)) ≡ false = ground arith in
    rw (he, *ℤ_pos t e, small, small')

column_below : (e f n : ℕ) → n < e * f → n / e % f ≡ n / e
column_below e f n h = grind arith

module _ {desc : Desc} (is : IsSection desc) where
  pub extent_int : (i : ℕ) → i < desc.rank → to_int (desc.dim i).extent ≡ pos (sizes desc i)
  extent_int i h = ap to_int (is.extents i h) ∙ to_int_pos (sizes desc i) (is.each_bounded i h)

  -- The product of the first i + 1 extents.
  product_step :
      (i : ℕ)
      → extents_product (sizes desc) 0 i * sizes desc i ≡ extents_product (sizes desc) 0 (suc i)
  product_step i =
      let e : 0 + i ≡ i = omega arith in
      omega (arith, rw e at (extents_product_top (sizes desc) 0 i))

  -- The count of the elements goes through, and is the product of the extents.
  count_elements_from :
      (n i : ℕ)
      → i + n ≡ desc.rank
      → count_elements desc n i (pos (extents_product (sizes desc) 0 i))
        ≡ some (pos (extents_product (sizes desc) 0 desc.rank))
  unfolding count_elements
  count_elements_from zero i e =
      let r : i ≡ desc.rank = omega arith in
      ap (λ (k : ℕ). some (pos (extents_product (sizes desc) 0 k))) r
  count_elements_from (suc n) i e =
      let product = product_step i in
      let below = is.bounded (suc i) (omega arith) in
      count_step desc n i (extents_product (sizes desc) 0 i) (sizes desc i)
        (is.extents i (omega arith)) (is.each_bounded i (omega arith)) (omega arith)
      ∙ ap (λ (t : ℕ). count_elements desc n (suc i) (pos t)) product
      ∙ count_elements_from n (suc i) (omega arith)

  pub count_elements-product :
      count_elements desc desc.rank 0 (pos 1)
      ≡ some (pos (extents_product (sizes desc) 0 desc.rank))
  unfolding extents_product
  count_elements-product = count_elements_from desc.rank 0 (omega arith)

  pub in_prefix :
      (m n : ℕ)
      → m ≤ desc.rank
      → n < extents_product (sizes desc) 0 m
      → offset_of desc n ≡ element_offset (sizes desc) (strides desc) 0 m n
  in_prefix m n r h =
      let e : desc.rank ≡ m + (desc.rank - m) = omega arith in
      ap (λ (k : ℕ). element_offset (sizes desc) (strides desc) 0 k n) e
      ∙ element_offset_prefix (sizes desc) (strides desc) 0 m (desc.rank - m) n h

  -- The elements of the first column lie a stride apart.
  pub offset_in_1 : (n : ℕ) → n < sizes desc 0 → offset_of desc n ≡ strides desc 0 *ℤ pos n
  unfolding element_offset extents_product
  offset_in_1 n h =
      let first : n % sizes desc 0 ≡ n = grind arith in
      in_prefix 1 n is.rank_pos (omega arith) ∙ rw (first, +ℤ_zero (strides desc 0 *ℤ pos n))

  -- The elements of the first plane lie in columns.
  pub offset_in_2 :
      (n : ℕ)
      → 2 ≤ desc.rank
      → n < sizes desc 0 * sizes desc 1
      → offset_of desc n
        ≡ strides desc 0 *ℤ pos (n % sizes desc 0) +ℤ strides desc 1 *ℤ pos (n / sizes desc 0)
  unfolding element_offset extents_product
  offset_in_2 n r h =
      let column : n / sizes desc 0 % sizes desc 1 ≡ n / sizes desc 0 =
        column_below (sizes desc 0) (sizes desc 1) n h in
      in_prefix 2 n r (omega arith)
      ∙ rw (column, +ℤ_zero (strides desc 1 *ℤ pos (n / sizes desc 0)))
