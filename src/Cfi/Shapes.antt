-- ===== src/Cfi/Shapes.antt =====
-- The type maps of the vectors and vectors of vectors that source/cfi_util.c builds, as lists given
-- by the position of the element.
use vapaa.Prelude.{
  ◌≡◌, refl, ap, ap₂, ◌∙◌, ℕ, zero, suc, ◌*◌, ◌/◌, ◌%◌, ◌<◌, true, List, [], ◌∷◌, ◌++◌, map, ℤ, pos,
  ◌+ℤ◌, ◌*ℤ◌, +ℤ_zero, zero_+ℤ, *ℤ_zero, tabulate, tabulate_from, tabulate_from_eq, tabulate_ext,
  map-tabulate_from, concat, concat-rows, arith,
}
use mathlib.Core.List.{append-nil}
use vapaa.Mpi.Laws.{TypeInfo, hvector_disps, hindexed_disps}

-- A basic datatype of `size` bytes.
abbrev pub basic : ℕ → TypeInfo
basic size = record { disps = pos 0 ∷ []; size = size; extent = pos size; named = true }

module _ {ℓ} {A : Type ℓ} where
  concat-singletons :
      (i n : ℕ) (f : ℕ → A) → concat (tabulate_from i n (λ k. f k ∷ [])) ≡ tabulate_from i n f
  concat-singletons i zero f = refl
  concat-singletons i (suc n) f = ap (λ (xs : List A). f i ∷ xs) (concat-singletons (suc i) n f)

-- Blocks of adjacent elements.
pub blocks_disps :
    (q e size : ℕ) (stride : ℤ)
    → hvector_disps q e stride (basic size)
      ≡ tabulate (q * e) (λ n. stride *ℤ pos (n / e) +ℤ pos size *ℤ pos (n % e))
blocks_disps q e size stride =
    ap concat (
      tabulate_ext q (λ i. concat (tabulate e (λ j. entry i j ∷ [])))
        (λ i. tabulate e (λ j. stride *ℤ pos i +ℤ pos size *ℤ pos j)) one_block)
    ∙ concat-rows e (λ j i. stride *ℤ pos i +ℤ pos size *ℤ pos j) q
  where
    entry : ℕ → ℕ → ℤ
    entry i j = stride *ℤ pos i +ℤ (pos size *ℤ pos j +ℤ pos 0)

    one_block :
        (i : ℕ)
        → i < q
        → concat (tabulate e (λ j. entry i j ∷ []))
          ≡ tabulate e (λ j. stride *ℤ pos i +ℤ pos size *ℤ pos j)
    one_block i p =
        concat-singletons 0 e (entry i)
        ∙ tabulate_ext e (entry i) (λ j. stride *ℤ pos i +ℤ pos size *ℤ pos j)
            (λ j r. ap (λ (d : ℤ). stride *ℤ pos i +ℤ d) (+ℤ_zero (pos size *ℤ pos j)))

-- Copies of a type whose own elements are given by their position.
pub copies_disps :
    (q e : ℕ) (stride : ℤ) (g : ℕ → ℤ) (old : TypeInfo)
    → old.disps ≡ tabulate e g
    → hvector_disps q 1 stride old ≡ tabulate (q * e) (λ n. stride *ℤ pos (n / e) +ℤ g (n % e))
copies_disps q e stride g old h =
    ap concat (
      tabulate_ext q (λ i. map (shift i) old.disps ++ [])
        (λ i. tabulate e (λ j. stride *ℤ pos i +ℤ g j)) one_copy)
    ∙ concat-rows e (λ j i. stride *ℤ pos i +ℤ g j) q
  where
    shift : ℕ → ℤ → ℤ
    shift i d = stride *ℤ pos i +ℤ (old.extent *ℤ pos 0 +ℤ d)

    shift_lem : (i : ℕ) (d : ℤ) → shift i d ≡ stride *ℤ pos i +ℤ d
    shift_lem i d =
        ap (λ (t : ℤ). stride *ℤ pos i +ℤ t)
          (ap (λ (t : ℤ). t +ℤ d) (*ℤ_zero old.extent) ∙ zero_+ℤ d)

    one_copy :
        (i : ℕ) → i < q → map (shift i) old.disps ++ [] ≡ tabulate e (λ j. stride *ℤ pos i +ℤ g j)
    one_copy i p =
        append-nil (map (shift i) old.disps)
        ∙ ap (map (shift i)) h
        ∙ map-tabulate_from 0 e (shift i) g
        ∙ tabulate_ext e (λ j. shift i (g j)) (λ j. stride *ℤ pos i +ℤ g j)
            (λ j r. shift_lem i (g j))

-- Single elements, a stride apart.
pub column_disps :
    (c size : ℕ) (stride : ℤ)
    → hvector_disps c 1 stride (basic size) ≡ tabulate c (λ n. stride *ℤ pos n)
column_disps c size stride =
    blocks_disps c 1 size stride
    ∙ tabulate_from_eq (λ n. stride *ℤ pos (n / 1) +ℤ pos size *ℤ pos (n % 1)) refl (omega arith)
    ∙ tabulate_ext c (λ n. stride *ℤ pos (n / 1) +ℤ pos size *ℤ pos (n % 1)) (λ n. stride *ℤ pos n)
        (λ n p.
          let q : n / 1 ≡ n = omega arith in
          let r : n % 1 ≡ 0 = omega arith in
          rw (q, r, *ℤ_zero (pos size), +ℤ_zero (stride *ℤ pos n)))

-- Single elements where they are put.
pub single_disps : (ds : List ℤ) (size : ℕ) → hindexed_disps ds (basic size) ≡ ds
single_disps [] size = refl
single_disps (d ∷ ds) size = ap₂ ◌∷◌ (+ℤ_zero d) (single_disps ds size)
