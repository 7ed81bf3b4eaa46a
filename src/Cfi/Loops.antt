-- ===== src/Cfi/Loops.antt =====
-- The loop nests of source/cfi_util.c that write array_of_displacements, up to fifteen deep and
-- left by a goto once `count` entries are written.
use vapaa.Prelude.{
  ℕ, zero, suc, List, [], ◌∷◌, ◌++◌, ℤ, pos, eq_ℤ, pos_part, ltb, to_int, if◌then◌else◌, ◌+ℤ◌, ◌*ℤ◌,
}
use vapaa.Cfi.{Desc}

-- The loops' state: `offset` and the entries written so far, while they run and after the goto.
pub data Filling : Type 0 where
  running : ℕ → List ℤ → Filling
  jumped : List ℤ → Filling

-- What the array holds in the end.
abbrev pub written : Filling → List ℤ
written (running offset ds) = ds
written (jumped ds) = ds

-- `for (int i = 0; i < n; i++)` around a body that may jump out.
unfoldable pub for_loop : (rounds i : ℕ) → (ℕ → Filling → Filling) → Filling → Filling
for_loop zero i body s = s
for_loop (suc n) i body (jumped ds) = jumped ds
for_loop (suc n) i body (running offset ds) = for_loop n (suc i) body (body i (running offset ds))

-- `array_of_displacements[offset] = d; offset++; if (offset == count) goto done;`
unfoldable pub push : ℤ → ℤ → Filling → Filling
push count d (jumped ds) = jumped ds
push count d (running offset ds) =
    if eq_ℤ (pos (suc offset)) count
    then jumped (ds ++ d ∷ [])
    else running (suc offset) (ds ++ d ∷ [])

-- The bound of a loop `i < extent` that starts at 0.
abbrev pub rounds : ℤ → ℕ
rounds extent = pos_part extent

-- The sum of the products stride * index, the first dimension's first.
unfoldable pub sum_terms : List ℤ → ℤ
sum_terms [] = pos 0
sum_terms (t ∷ ts) = t +ℤ sum_terms ts

-- `const int extentK = (rank > K) ? desc->dim[K].extent : 1`.
unfoldable pub extent_15 : Desc → ℕ → ℤ
extent_15 desc k = if ltb k desc.rank then to_int (desc.dim k).extent else pos 1

-- `const MPI_Aint strideK = (rank > K) ? desc->dim[K].sm : 0`.
unfoldable pub stride_15 : Desc → ℕ → ℤ
stride_15 desc k = if ltb k desc.rank then (desc.dim k).sm else pos 0

module _ (count : ℤ) where
  -- The nest for k dimensions whose extents and strides are given by their numbers; `terms` are the
  -- products of the loops around it.
  unfoldable pub nest : (extent stride : ℕ → ℤ) (k : ℕ) → List ℤ → Filling → Filling
  unfolding for_loop push sum_terms
  nest extent stride zero terms = push count (sum_terms terms)
  nest extent stride (suc k) terms =
      for_loop (rounds (extent k)) 0 (λ i. nest extent stride k ((stride k *ℤ pos i) ∷ terms))

  -- The loops of `VAPAA_CFI_CREATE_DATATYPE_15D`.
  unfoldable pub fill_15d : Desc → Filling
  unfolding nest extent_15 stride_15
  fill_15d desc = nest (extent_15 desc) (stride_15 desc) 15 [] (running 0 [])

  -- The loops of `VAPAA_CFI_CREATE_DATATYPE` over two dimensions.
  unfoldable pub fill_2d : Desc → (extent0 extent1 : ℤ) → Filling
  unfolding for_loop push
  fill_2d desc extent0 extent1 =
      for_loop (rounds extent1) 0
        (λ i1.
          for_loop (rounds extent0) 0
            (λ i0. push count ((desc.dim 0).sm *ℤ pos i0 +ℤ (desc.dim 1).sm *ℤ pos i1)))
        (running 0 [])

  -- The loops of `VAPAA_CFI_CREATE_DATATYPE` over three dimensions.
  unfoldable pub fill_3d : Desc → (extent0 extent1 extent2 : ℤ) → Filling
  unfolding for_loop push
  fill_3d desc extent0 extent1 extent2 =
      for_loop (rounds extent2) 0
        (λ i2. for_loop (rounds extent1) 0 (λ i1. for_loop (rounds extent0) 0 (λ i0.
          push count
            ((desc.dim 0).sm *ℤ pos i0 +ℤ (desc.dim 1).sm *ℤ pos i1 +ℤ (desc.dim 2).sm *ℤ pos i2))))
        (running 0 [])
