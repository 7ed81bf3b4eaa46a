-- ===== src/Cfi/Derived.antt =====
-- What source/cfi_util.c makes of a section of a derived input type: the displacements that
-- VAPAA_CFI_CREATE_INDEXED reads off the list of addresses.
use vapaa.Prelude.{
  ◌≡◌, refl, sym, ap, ap₂, ◌∙◌, ℕ, zero, suc, ◌+◌, ◌<◌, arith, Option, none, some, List, [], ◌∷◌,
  ◌++◌, map, ℤ, pos, ◌+ℤ◌, ◌-ℤ◌, ◌*ℤ◌, div_ℤ, get_elem?, tabulate, tabulate_from,
}
use mathlib.Core.List.{append_assoc}
use vapaa.Mpi.{Iov}
use vapaa.Cfi.{Desc}
use vapaa.Cfi.Loops.{rounds}
use vapaa.Cfi.Elements.{extents_product, element_offset_zero}
use vapaa.Cfi.Section.{sizes, strides, offset_of, IsSection}
use vapaa.Cfi.Addresses.{address_nest-addresses}
use vapaa.Cfi.Indexed.{
  address_nest, displacement_at, segment_displacements, copy_displacements, all_displacements,
  append_read, one_read,
}

-- The elements that the loops over copies, segments and entries come to, by their numbers, in the loops'
-- order: entry k of a segment that begins at byte b, in copy j, is element k + b / elem_len + j * extent.
abbrev pub segment_elements : (start : ℤ) (rounds k : ℕ) → List ℤ
segment_elements start zero k = []
segment_elements start (suc n) k = (pos k +ℤ start) ∷ segment_elements start n (suc k)

abbrev pub copy_elements : (elem_len shift : ℤ) → List Iov → List ℤ
copy_elements elem_len shift [] = []
copy_elements elem_len shift (iov ∷ iovs) =
    segment_elements (div_ℤ iov.iov_base elem_len +ℤ shift) (rounds (div_ℤ iov.iov_len elem_len)) 0
    ++ copy_elements elem_len shift iovs

abbrev pub all_elements : (elem_len extent : ℤ) → List Iov → (rounds j : ℕ) → List ℤ
all_elements elem_len extent iovs zero j = []
all_elements elem_len extent iovs (suc n) j =
    copy_elements elem_len (pos j *ℤ extent) iovs ++ all_elements elem_len extent iovs n (suc j)

-- All numbers of the list are below n.
abbrev pub Below : ℕ → List ℕ → Type 0
Below n [] = Unit {0}
Below n (q ∷ qs) = (q < n) × Below n qs

-- Reading at each number of a list.
abbrev reads : List ℤ → List ℤ → Option (List ℤ)
reads input [] = some []
reads input (p ∷ ps) = append_read (one_read (displacement_at input p)) (reads input ps)

append_read_assoc :
    (xs ys zs : Option (List ℤ))
    → append_read (append_read xs ys) zs ≡ append_read xs (append_read ys zs)
append_read_assoc none ys zs = refl
append_read_assoc (some xs) none zs = refl
append_read_assoc (some xs) (some ys) none = refl
append_read_assoc (some xs) (some ys) (some zs) = ap some (append_assoc xs ys zs)

append_read_empty : (xs : Option (List ℤ)) → append_read (some []) xs ≡ xs
append_read_empty none = refl
append_read_empty (some xs) = refl

reads-append :
    (input ps qs : List ℤ) → reads input (ps ++ qs) ≡ append_read (reads input ps) (reads input qs)
reads-append input [] qs = sym (append_read_empty (reads input qs))
reads-append input (p ∷ ps) qs =
    ap (append_read (one_read (displacement_at input p))) (reads-append input ps qs)
    ∙ sym (append_read_assoc (one_read (displacement_at input p)) (reads input ps) (reads input qs))

segment_displacements-reads :
    (input : List ℤ) (start : ℤ) (n k : ℕ)
    → segment_displacements input start n k ≡ reads input (segment_elements start n k)
unfolding segment_displacements
segment_displacements-reads input start zero k = refl
segment_displacements-reads input start (suc n) k =
    ap (append_read (one_read (displacement_at input (pos k +ℤ start))))
      (segment_displacements-reads input start n (suc k))

copy_displacements-reads :
    (input : List ℤ) (elem_len shift : ℤ) (iovs : List Iov)
    → copy_displacements input elem_len shift iovs ≡ reads input (copy_elements elem_len shift iovs)
unfolding copy_displacements
copy_displacements-reads input elem_len shift [] = refl
copy_displacements-reads input elem_len shift (iov ∷ iovs) =
    let start = div_ℤ iov.iov_base elem_len +ℤ shift in
    let n = rounds (div_ℤ iov.iov_len elem_len) in
    ap₂ append_read (segment_displacements-reads input start n 0)
      (copy_displacements-reads input elem_len shift iovs)
    ∙ sym (reads-append input (segment_elements start n 0) (copy_elements elem_len shift iovs))

all_displacements-reads :
    (input : List ℤ) (elem_len extent : ℤ) (iovs : List Iov) (n j : ℕ)
    → all_displacements input elem_len extent iovs n j
      ≡ reads input (all_elements elem_len extent iovs n j)
unfolding all_displacements
all_displacements-reads input elem_len extent iovs zero j = refl
all_displacements-reads input elem_len extent iovs (suc n) j =
    ap₂ append_read (copy_displacements-reads input elem_len (pos j *ℤ extent) iovs)
      (all_displacements-reads input elem_len extent iovs n (suc j))
    ∙ sym (
        reads-append input (copy_elements elem_len (pos j *ℤ extent) iovs)
          (all_elements elem_len extent iovs n (suc j)))

get_elem?-tabulate_from :
    (i n q : ℕ) (f : ℕ → ℤ) → q < n → get_elem? (tabulate_from i n f) q ≡ some (f (i + q))
get_elem?-tabulate_from i zero q f h = absurd (omega arith)
get_elem?-tabulate_from i (suc n) zero f h = ap (λ (k : ℕ). some (f k)) (omega arith)
get_elem?-tabulate_from i (suc n) (suc q) f h =
    get_elem?-tabulate_from (suc i) n q f (omega arith) ∙ ap (λ (k : ℕ). some (f k)) (omega arith)

-- Reading within the list.
displacement_at-tabulate :
    (n q : ℕ) (f : ℕ → ℤ) → q < n → displacement_at (tabulate n f) (pos q) ≡ some (f q -ℤ f 0)
unfolding displacement_at
displacement_at-tabulate zero q f h = absurd (omega arith)
displacement_at-tabulate (suc n) q f h =
    let here : get_elem? (tabulate (suc n) f) q ≡ some (f q) =
      get_elem?-tabulate_from 0 (suc n) q f h ∙ ap (λ (k : ℕ). some (f k)) (omega arith) in
    rw (here, displacement_at)

reads-tabulate :
    (n : ℕ) (f : ℕ → ℤ) (qs : List ℕ)
    → Below n qs
    → reads (tabulate n f) (map pos qs) ≡ some (map (λ q. f q -ℤ f 0) qs)
reads-tabulate n f [] h = refl
reads-tabulate n f (q ∷ qs) h = rw (displacement_at-tabulate n q f h.0, reads-tabulate n f qs h.1)

from_base : (base x : ℤ) → (base +ℤ x) -ℤ (base +ℤ pos 0) ≡ x
unfolding ◌+ℤ◌ ◌-ℤ◌
from_base base x = ground arith

map_ext : (f g : ℕ → ℤ) (qs : List ℕ) → ((q : ℕ) → f q ≡ g q) → map f qs ≡ map g qs
map_ext f g [] h = refl
map_ext f g (q ∷ qs) h = ap₂ ◌∷◌ (h q) (map_ext f g qs h)

-- `VAPAA_CFI_CREATE_INDEXED` reads no address outside its list, and the displacements are the offsets of
-- the elements that its loops come to, where these (qs) are all elements of the section (IsSection).
pub all_displacements-offsets :
    {desc : Desc}
    → IsSection desc
    → (elem_len extent : ℤ) (iovs : List Iov) (count : ℕ) (qs : List ℕ)
    → all_elements elem_len extent iovs count 0 ≡ map pos qs
    → Below (extents_product (sizes desc) 0 desc.rank) qs
    → all_displacements (address_nest desc 15 []) elem_len extent iovs count 0
      ≡ some (map (offset_of desc) qs)
all_displacements-offsets {desc} is elem_len extent iovs count qs e h =
    let total = extents_product (sizes desc) 0 desc.rank in
    let at : ℕ → ℤ = λ n. desc.base_addr +ℤ offset_of desc n in
    ap (λ (input : List ℤ). all_displacements input elem_len extent iovs count 0)
      (address_nest-addresses is)
    ∙ all_displacements-reads (tabulate total at) elem_len extent iovs count 0
    ∙ ap (reads (tabulate total at)) e
    ∙ reads-tabulate total at qs h
    ∙ ap some (
        map_ext (λ q. at q -ℤ at 0) (offset_of desc) qs
          (λ q.
            ap (λ (o : ℤ). at q -ℤ (desc.base_addr +ℤ o))
              (element_offset_zero (sizes desc) (strides desc) 0 desc.rank)
            ∙ from_base desc.base_addr (offset_of desc q)))
