-- ===== src/Cfi/Fill.antt =====
-- What the loop nests of source/cfi_util.c write: the offsets of the first `count` elements, in
-- array element order.
use vapaa.Prelude.{
  ◌≡◌, refl, sym, ap, ap₂, ◌∙◌, ltb, lt→ltb, le→ltb, if◌then◌else◌, ℕ, zero, suc, ◌+◌, ◌-◌, ◌*◌,
  ◌/◌, ◌%◌, ◌≤◌, ◌<◌, ◌==◌, List, [], ◌∷◌, ◌++◌, ℤ, pos, ◌+ℤ◌, ◌*ℤ◌, +ℤ_zero, zero_+ℤ, +ℤ_assoc,
  eq→==, tabulate, tabulate_from, tabulate_from_eq, tabulate_ext, concat, concat-rows, arith,
}
use mathlib.Core.Bool.{false}
use native.Mathlib.Decide.{dec_lt}
use mathlib.Core.List.{append_assoc, append-nil}
use vapaa.Cfi.Loops.{Filling, running, jumped, written, for_loop, push, rounds, sum_terms, nest}
use vapaa.Cfi.Elements.{extents_product, extents_product_top, element_offset, element_offset_top}

module _ (count : ℤ) where
  -- The writes of a list of displacements, one after the other.
  push_all : List ℤ → Filling → Filling
  push_all [] s = s
  push_all (d ∷ ds) s = push_all ds (push count d s)

  push_all_jumped : (xs ds : List ℤ) → push_all xs (jumped ds) ≡ jumped ds
  unfolding push_all push
  push_all_jumped [] ds = refl
  push_all_jumped (x ∷ xs) ds = push_all_jumped xs ds

  push_all_append :
      (xs ys : List ℤ) (s : Filling) → push_all (xs ++ ys) s ≡ push_all ys (push_all xs s)
  unfolding push_all
  push_all_append [] ys s = refl
  push_all_append (x ∷ xs) ys s = push_all_append xs ys (push count x s)

  -- A loop writes what its rounds write.
  for_loop-push_all :
      (n i : ℕ) (body : ℕ → Filling → Filling) (L : ℕ → List ℤ) (s : Filling)
      → ((k : ℕ) (t : Filling) → body k t ≡ push_all (L k) t)
      → for_loop n i body s ≡ push_all (concat (tabulate_from i n L)) s
  unfolding for_loop push_all
  for_loop-push_all zero i body L s h = refl
  for_loop-push_all (suc n) i body L (jumped ds) h =
      sym (push_all_jumped (L i ++ concat (tabulate_from (suc i) n L)) ds)
  for_loop-push_all (suc n) i body L (running o ds) h =
      ap (for_loop n (suc i) body) (h i (running o ds))
      ∙ for_loop-push_all n (suc i) body L (push_all (L i) (running o ds)) h
      ∙ sym (push_all_append (L i) (concat (tabulate_from (suc i) n L)) (running o ds))

  module _ (extent stride : ℕ → ℤ) where
    abbrev sizes : ℕ → ℕ
    sizes k = rounds (extent k)

    abbrev pub nest_entry : (k : ℕ) (terms : List ℤ) → ℕ → ℤ
    nest_entry k terms n = element_offset sizes stride 0 k n +ℤ sum_terms terms

    pub nest_rows :
        (k : ℕ) (terms : List ℤ) (n : ℕ)
        → n < sizes k * extents_product sizes 0 k
        → nest_entry k
            ((stride k *ℤ pos (n / extents_product sizes 0 k)) ∷ terms)
            (n % extents_product sizes 0 k)
          ≡ nest_entry (suc k) terms n
    unfolding sum_terms
    nest_rows k terms n h =
        let P = extents_product sizes 0 k in
        let some_rows : 0 < P = grind arith in
        let last : n / P % sizes k ≡ n / P = grind arith in
        let i : 0 + k ≡ k = omega arith in
        let peel = element_offset_top sizes stride 0 k n some_rows in
        sym (
          +ℤ_assoc (element_offset sizes stride 0 k (n % P)) (stride k *ℤ pos (n / P))
            (sum_terms terms))
        ∙ ap (λ (d : ℤ). d +ℤ sum_terms terms) (sym (rw (i, last) at peel))

    nest-push_all :
        (k : ℕ) (terms : List ℤ) (s : Filling)
        → nest count extent stride k terms s
          ≡ push_all (tabulate (extents_product sizes 0 k) (nest_entry k terms)) s
    unfolding nest push_all extents_product element_offset
    nest-push_all zero terms s = ap (λ (d : ℤ). push count d s) (sym (zero_+ℤ (sum_terms terms)))
    nest-push_all (suc k) terms s =
        for_loop-push_all (sizes k) 0
          (λ i. nest count extent stride k ((stride k *ℤ pos i) ∷ terms))
          (λ i. tabulate P (λ n. row n i)) s
          (λ i t. nest-push_all k ((stride k *ℤ pos i) ∷ terms) t)
        ∙ ap (λ (xs : List ℤ). push_all xs s)
            (concat-rows P row (sizes k)
              ∙ tabulate_ext (sizes k * P) (λ n. row (n % P) (n / P)) (nest_entry (suc k) terms)
                  (nest_rows k terms)
              ∙ tabulate_from_eq (nest_entry (suc k) terms) refl more)
      where
        i : 0 + k ≡ k
        i = omega arith

        more : sizes k * extents_product sizes 0 k ≡ extents_product sizes 0 (suc k)
        more = sym (rw i at (extents_product_top sizes 0 k))

        P : ℕ
        P = extents_product sizes 0 k

        row : ℕ → ℕ → ℤ
        row n i = nest_entry k ((stride k *ℤ pos i) ∷ terms) n

push_last :
    (c o : ℕ) (d : ℤ) (ds : List ℤ)
    → suc o ≡ c
    → push (pos c) d (running o ds) ≡ jumped (ds ++ d ∷ [])
unfolding push
push_last c o d ds h = rw (eq→== (suc o) c h)

push_more :
    (c o : ℕ) (d : ℤ) (ds : List ℤ)
    → suc o < c
    → push (pos c) d (running o ds) ≡ running (suc o) (ds ++ d ∷ [])
unfolding push
push_more c o d ds h = let e : (suc o == c) ≡ false = ground arith in rw e

-- While there are enough of them, exactly `count` are written.
push_all_tabulate :
    (c i n o : ℕ) (f : ℕ → ℤ) (ds : List ℤ)
    → o < c
    → c ≤ o + n
    → push_all (pos c) (tabulate_from i n f) (running o ds)
      ≡ jumped (ds ++ tabulate_from i (c - o) f)
unfolding push_all
push_all_tabulate c i zero o f ds h1 h2 = absurd (omega arith)
push_all_tabulate c i (suc n) o f ds h1 h2 = elim (dec_lt (suc o) c) [
  | no last ↦
      let one : c - o ≡ 1 = omega arith in
      ap (push_all (pos c) (tabulate_from (suc i) n f)) (push_last c o (f i) ds (omega arith))
      ∙ rw one (push_all_jumped (pos c) (tabulate_from (suc i) n f) (ds ++ f i ∷ []))
  | yes more ↦
      let rest : c - o ≡ suc (c - suc o) = omega arith in
      ap (push_all (pos c) (tabulate_from (suc i) n f)) (push_more c o (f i) ds more)
      ∙ rw rest (
          push_all_tabulate c (suc i) n (suc o) f (ds ++ f i ∷ []) more (omega arith)
          ∙ ap jumped (append_assoc ds (f i ∷ []) (tabulate_from (suc i) (c - suc o) f)))
]

-- Fewer are all written, and no round jumps.
push_all_short :
    (c i n o : ℕ) (f : ℕ → ℤ) (ds : List ℤ)
    → o + n < c
    → push_all (pos c) (tabulate_from i n f) (running o ds)
      ≡ running (o + n) (ds ++ tabulate_from i n f)
unfolding push_all
push_all_short c i zero o f ds h = ap₂ running (omega arith) (sym (append-nil ds))
push_all_short c i (suc n) o f ds h =
    let next : suc o + n ≡ o + suc n = omega arith in
    ap (push_all (pos c) (tabulate_from (suc i) n f)) (push_more c o (f i) ds (omega arith))
    ∙ push_all_short c (suc i) n (suc o) f (ds ++ f i ∷ []) (omega arith)
    ∙ ap₂ running next (append_assoc ds (f i ∷ []) (tabulate_from (suc i) n f))

-- A nest of k loops with at least c rounds, c positive, leaves by its goto with exactly the offsets
-- of the first c elements written, in array element order.
pub nest-elements :
    (c : ℕ) (extent stride : ℕ → ℤ) (k : ℕ)
    → 0 < c
    → c ≤ extents_product (λ j. rounds (extent j)) 0 k
    → written (nest (pos c) extent stride k [] (running 0 []))
      ≡ tabulate c (element_offset (λ j. rounds (extent j)) stride 0 k)
unfolding sum_terms
nest-elements c extent stride k h1 h2 =
    ap written (
      nest-push_all (pos c) extent stride k [] (running 0 [])
      ∙ push_all_tabulate c 0 (extents_product (λ j. rounds (extent j)) 0 k) 0
          (nest_entry (pos c) extent stride k []) [] h1 (omega arith))
    ∙ tabulate_from_eq (nest_entry (pos c) extent stride k []) refl (omega arith)
    ∙ tabulate_ext c (nest_entry (pos c) extent stride k [])
        (element_offset (λ j. rounds (extent j)) stride 0 k)
        (λ n p. +ℤ_zero (element_offset (λ j. rounds (extent j)) stride 0 k n))

-- A nest of k loops ends, whatever its extents and however deep it is: by its goto once c entries are
-- written, c positive, if its rounds are as many, else after all its rounds. Each round writes one
-- entry, the offset of the next element in array element order.
pub nest-ends :
    (c : ℕ) (extent stride : ℕ → ℤ) (k : ℕ)
    → 0 < c
    → nest (pos c) extent stride k [] (running 0 []) ≡ (
        if ltb (extents_product (λ j. rounds (extent j)) 0 k) c
        then running (extents_product (λ j. rounds (extent j)) 0 k) (
            tabulate
              (extents_product (λ j. rounds (extent j)) 0 k)
              (element_offset (λ j. rounds (extent j)) stride 0 k))
        else jumped (tabulate c (element_offset (λ j. rounds (extent j)) stride 0 k)))
unfolding sum_terms
nest-ends c extent stride k h =
    let total = extents_product (λ j. rounds (extent j)) 0 k in
    let entry = nest_entry (pos c) extent stride k [] in
    let entries : (n : ℕ)
        → tabulate n entry ≡ tabulate n (element_offset (λ j. rounds (extent j)) stride 0 k) =
      λ n.
        tabulate_ext n entry (element_offset (λ j. rounds (extent j)) stride 0 k)
          (λ m p. +ℤ_zero _) in
    nest-push_all (pos c) extent stride k [] (running 0 []) ∙ (elim (dec_lt total c) [
      | yes short ↦ rw (lt→ltb total c short) (
          push_all_short c 0 total 0 entry [] (omega arith)
          ∙ ap₂ running (omega arith) (entries total))
      | no enough ↦ rw (le→ltb c total (omega arith)) (
          push_all_tabulate c 0 total 0 entry [] h (omega arith)
          ∙ ap jumped (tabulate_from_eq entry refl (omega arith) ∙ entries c))
    ])
