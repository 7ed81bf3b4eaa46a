-- ===== src/Cfi/Elements.antt =====
-- The elements of an array section in Fortran's array element order, by their positions: the
-- description that the loops and datatypes of source/cfi_util.c are held against.
use vapaa.Prelude.{
  ◌≡◌, refl, row_remainder, row_quotient, ap, ◌∙◌, ℕ, zero, suc, ◌+◌, ◌*◌, ◌/◌, ◌%◌, ◌≤◌, ◌<◌, ℤ,
  pos, ◌+ℤ◌, ◌*ℤ◌, +ℤ_zero, zero_+ℤ, +ℤ_assoc, *ℤ_zero, zero_*ℤ, arith,
}

-- Division by a product, in two steps.
module _ (e p n : ℕ) (he : 0 < e) (hp : 0 < p) where
  abbrev inner : ℕ
  inner = n / e % p * e + n % e

  inner_lt : inner < e * p
  inner_lt = grind arith

  split_twice : n ≡ n / e / p * (e * p) + inner
  split_twice =
      let outer : n ≡ n / e * e + n % e = grind arith in
      let rest : n / e ≡ n / e / p * p + n / e % p = grind arith in
      omega (arith, outer, ap (λ (t : ℕ). t * e) rest)

  mod-mul : n % (e * p) ≡ inner
  mod-mul =
      ap (λ (t : ℕ). t % (e * p)) split_twice ∙ row_remainder (n / e / p) (e * p) inner inner_lt

  pub div-mul : n / (e * p) ≡ n / e / p
  div-mul =
      ap (λ (t : ℕ). t / (e * p)) split_twice ∙ row_quotient (n / e / p) (e * p) inner inner_lt

  pub mod-mul-mod : n % (e * p) % e ≡ n % e
  mod-mul-mod = ap (λ (t : ℕ). t % e) mod-mul ∙ row_remainder (n / e % p) e (n % e) (omega arith)

  pub mod-mul-div : n % (e * p) / e ≡ n / e % p
  mod-mul-div = ap (λ (t : ℕ). t / e) mod-mul ∙ row_quotient (n / e % p) e (n % e) (omega arith)

module _ (extent : ℕ → ℕ) where
  -- The product of k extents from the j-th on.
  unfoldable pub extents_product : (j k : ℕ) → ℕ
  extents_product j zero = 1
  extents_product j (suc k) = extent j * extents_product (suc j) k

  pub extents_product_top :
      (j k : ℕ) → extents_product j (suc k) ≡ extent (j + k) * extents_product j k
  unfolding extents_product
  extents_product_top j zero = let i : j + 0 ≡ j = omega arith in rw i
  extents_product_top j (suc k) =
      let i : j + suc k ≡ suc j + k = omega arith in
      rw i (omega (arith, ap (λ (t : ℕ). extent j * t) (extents_product_top (suc j) k)))

module _ (extent : ℕ → ℕ) (stride : ℕ → ℤ) where
  -- The distance in bytes of element n from the first one, over k dimensions from the j-th on. The
  -- first of them varies fastest.
  unfoldable pub element_offset : (j k n : ℕ) → ℤ
  element_offset j zero n = pos 0
  element_offset j (suc k) n =
      stride j *ℤ pos (n % extent j) +ℤ element_offset (suc j) k (n / extent j)

  pub element_offset_zero : (j k : ℕ) → element_offset j k 0 ≡ pos 0
  unfolding element_offset
  element_offset_zero j zero = refl
  element_offset_zero j (suc k) =
      let at_0 : 0 % extent j ≡ 0 = omega arith in
      let up : 0 / extent j ≡ 0 = omega arith in
      rw (at_0, up, *ℤ_zero (stride j), zero_+ℤ (element_offset (suc j) k 0))
        (element_offset_zero (suc j) k)

  -- Elements that fit in the first m dimensions do not move in the others.
  pub element_offset_prefix :
      (j m k n : ℕ)
      → n < extents_product extent j m
      → element_offset j (m + k) n ≡ element_offset j m n
  unfolding element_offset extents_product
  element_offset_prefix j zero k n h =
      let e : n ≡ 0 = omega arith in
      let s : zero + k ≡ k = omega arith in rw (e, s) (element_offset_zero j k)
  element_offset_prefix j (suc m) k n h =
      let s : suc m + k ≡ suc (m + k) = omega arith in
      rw (s, element_offset)
        (ap (λ (t : ℤ). stride j *ℤ pos (n % extent j) +ℤ t)
          (element_offset_prefix (suc j) m k (n / extent j) (grind arith)))

  -- Dimensions with stride 0 add nothing.
  pub element_offset_flat :
      (j k n : ℕ) → ((i : ℕ) → j ≤ i → stride i ≡ pos 0) → element_offset j k n ≡ pos 0
  unfolding element_offset
  element_offset_flat j zero n h = refl
  element_offset_flat j (suc k) n h =
      rw
        (
          h j (omega arith),
          zero_*ℤ (pos (n % extent j)),
          zero_+ℤ (element_offset (suc j) k (n / extent j)),
        )
        (element_offset_flat (suc j) k (n / extent j) (λ i p. h i (omega arith)))

  -- The last dimension can be taken off instead of the first.
  pub element_offset_top :
      (j k n : ℕ)
      → 0 < extents_product extent j k
      → element_offset j (suc k) n
        ≡ element_offset j k (n % extents_product extent j k)
          +ℤ stride (j + k) *ℤ pos (n / extents_product extent j k % extent (j + k))
  unfolding element_offset extents_product
  element_offset_top j zero n h =
      let i : j + 0 ≡ j = omega arith in
      let d : n / 1 ≡ n = omega arith in
      rw (i, d, +ℤ_zero (stride j *ℤ pos (n % extent j)), zero_+ℤ (stride j *ℤ pos (n % extent j)))
  element_offset_top j (suc k) n h =
      let he : 0 < extent j = grind arith in
      let hp : 0 < extents_product extent (suc j) k = grind arith in
      let i : j + suc k ≡ suc j + k = omega arith in
      rw
        (
          i,
          mod-mul-mod (extent j) (extents_product extent (suc j) k) n he hp,
          mod-mul-div (extent j) (extents_product extent (suc j) k) n he hp,
          div-mul (extent j) (extents_product extent (suc j) k) n he hp,
          +ℤ_assoc,
        )
        (ap (λ (t : ℤ). stride j *ℤ pos (n % extent j) +ℤ t)
          (element_offset_top (suc j) k (n / extent j) hp))

-- Only the dimensions in question count.
module _ (e e' : ℕ → ℕ) (s s' : ℕ → ℤ) where
  pub element_offset_ext :
      (j k n : ℕ)
      → ((i : ℕ) → j ≤ i → i < j + k → e i ≡ e' i)
      → ((i : ℕ) → j ≤ i → i < j + k → s i ≡ s' i)
      → element_offset e s j k n ≡ element_offset e' s' j k n
  unfolding element_offset
  element_offset_ext j zero n he hs = refl
  element_offset_ext j (suc k) n he hs =
      rw (he j (omega arith) (omega arith), hs j (omega arith) (omega arith))
        (ap (λ (t : ℤ). s' j *ℤ pos (n % e' j) +ℤ t)
          (element_offset_ext (suc j) k (n / e' j) (λ i p q. he i (omega arith) (omega arith))
            (λ i p q. hs i (omega arith) (omega arith))))

module _ (e e' : ℕ → ℕ) where
  pub extents_product_ext :
      (j k : ℕ)
      → ((i : ℕ) → j ≤ i → i < j + k → e i ≡ e' i)
      → extents_product e j k ≡ extents_product e' j k
  unfolding extents_product
  extents_product_ext j zero he = refl
  extents_product_ext j (suc k) he = rw (he j (omega arith) (omega arith)) (
      ap (λ (t : ℕ). e' j * t)
        (extents_product_ext (suc j) k (λ i p q. he i (omega arith) (omega arith))))

-- Extents of 1 above the m-th dimension change no product.
pub extents_product_ones :
    (e : ℕ → ℕ) (m k : ℕ)
    → ((i : ℕ) → m ≤ i → e i ≡ 1)
    → extents_product e 0 (m + k) ≡ extents_product e 0 m
extents_product_ones e m zero h = ap (extents_product e 0) (omega arith)
extents_product_ones e m (suc k) h =
    let r : m + suc k ≡ suc (m + k) = omega arith in
    let z : 0 + (m + k) ≡ m + k = omega arith in
    let one : e (m + k) ≡ 1 = h (m + k) (omega arith) in
    rw r (
      omega (arith, rw (z, one) at (extents_product_top e 0 (m + k)), extents_product_ones e m k h))
