-- ===== src/Prelude/Lists.antt =====
-- Lists over the native numbers, and lists given by a function of the position.
use Prim.Native.Nat.{ℕ, zero, suc, ◌+◌, ◌*◌, ◌/◌, ◌%◌, ◌≤◌, ◌<◌}
use mathlib.Core.Path.{◌≡◌, refl, sym, ap, ap₂, ◌∙◌}
use mathlib.Core.Option.{Option, none, some}
use mathlib.Core.List.{List, [], ◌∷◌, ◌++◌, map}
use native.Mathlib.Omega.{arith}

module _ {ℓ} {A : Type ℓ} where
  abbrev pub length : List A → ℕ
  length [] = 0
  length (x ∷ xs) = suc (length xs)

  pub length-append : (xs ys : List A) → length (xs ++ ys) ≡ length xs + length ys
  length-append [] ys = omega arith
  length-append (x ∷ xs) ys = omega (arith, length-append xs ys)

  abbrev pub get_elem? : List A → ℕ → Option A
  get_elem? [] i = none
  get_elem? (x ∷ xs) zero = some x
  get_elem? (x ∷ xs) (suc i) = get_elem? xs i

  abbrev pub get_or : List A → ℕ → A → A
  get_or [] i d = d
  get_or (x ∷ xs) zero d = x
  get_or (x ∷ xs) (suc i) d = get_or xs i d

  abbrev pub replicate : ℕ → A → List A
  replicate zero a = []
  replicate (suc n) a = a ∷ replicate n a

  -- `f i`, `f (i + 1)`, and so on, n of them.
  abbrev pub tabulate_from : (i n : ℕ) → (ℕ → A) → List A
  tabulate_from i zero f = []
  tabulate_from i (suc n) f = f i ∷ tabulate_from (suc i) n f

  abbrev pub tabulate : ℕ → (ℕ → A) → List A
  tabulate n f = tabulate_from 0 n f

  abbrev pub concat : List (List A) → List A
  concat [] = []
  concat (xs ∷ xss) = xs ++ concat xss

  pub tabulate_from_ext :
      (i n : ℕ) (f g : ℕ → A)
      → ((k : ℕ) → i ≤ k → k < i + n → f k ≡ g k)
      → tabulate_from i n f ≡ tabulate_from i n g
  tabulate_from_ext i zero f g h = refl
  tabulate_from_ext i (suc n) f g h =
      ap₂ ◌∷◌ (h i (omega arith) (omega arith))
        (tabulate_from_ext (suc i) n f g (λ k p q. h k (omega arith) (omega arith)))

  pub tabulate_ext :
      (n : ℕ) (f g : ℕ → A) → ((k : ℕ) → k < n → f k ≡ g k) → tabulate n f ≡ tabulate n g
  tabulate_ext n f g h = tabulate_from_ext 0 n f g (λ k p q. h k (omega arith))

  pub tabulate_from_shift :
      (i j n : ℕ) (f : ℕ → A) → tabulate_from (i + j) n f ≡ tabulate_from j n (λ k. f (i + k))
  tabulate_from_shift i j zero f = refl
  tabulate_from_shift i j (suc n) f =
      ap (λ (t : List A). f (i + j) ∷ t)
        (ap (λ (s : ℕ). tabulate_from s n f) (omega arith) ∙ tabulate_from_shift i (suc j) n f)

  pub tabulate_from_eq :
      {i j m n : ℕ} (f : ℕ → A) → i ≡ j → m ≡ n → tabulate_from i m f ≡ tabulate_from j n f
  tabulate_from_eq f p q = ap₂ (λ (s t : ℕ). tabulate_from s t f) p q

  pub tabulate_from_append :
      (i m n : ℕ) (f : ℕ → A)
      → tabulate_from i (m + n) f ≡ tabulate_from i m f ++ tabulate_from (i + m) n f
  tabulate_from_append i zero n f = tabulate_from_eq f (omega arith) (omega arith)
  tabulate_from_append i (suc m) n f =
      tabulate_from_eq {i = i} {j = i} {m = suc m + n} {n = suc (m + n)} f refl (omega arith)
      ∙ ap (λ (t : List A). f i ∷ t)
          (tabulate_from_append (suc i) m n f
            ∙ ap (λ (t : List A). tabulate_from (suc i) m f ++ t)
                (tabulate_from_eq f (omega arith) refl))

  pub length-tabulate_from : (i n : ℕ) (f : ℕ → A) → length (tabulate_from i n f) ≡ n
  length-tabulate_from i zero f = refl
  length-tabulate_from i (suc n) f = ap suc (length-tabulate_from (suc i) n f)

module _ {ℓ κ} {A : Type ℓ} {B : Type κ} where
  pub map-tabulate_from :
      (i n : ℕ) (g : A → B) (f : ℕ → A)
      → map g (tabulate_from i n f) ≡ tabulate_from i n (λ k. g (f k))
  map-tabulate_from i zero g f = refl
  map-tabulate_from i (suc n) g f =
      ap (λ (t : List B). g (f i) ∷ t) (map-tabulate_from (suc i) n g f)

  pub length-map : (g : A → B) (xs : List A) → length (map g xs) ≡ length xs
  length-map g [] = refl
  length-map g (x ∷ xs) = ap suc (length-map g xs)

pub row_remainder : (i e k : ℕ) → k < e → (i * e + k) % e ≡ k
row_remainder i e k h = grind arith

pub row_quotient : (i e k : ℕ) → k < e → (i * e + k) / e ≡ i
row_quotient i e k h = grind arith

module _ {ℓ} {A : Type ℓ} (e : ℕ) (f : ℕ → ℕ → A) where
  -- The k-th entry of all the rows.
  abbrev pub in_rows : ℕ → A
  in_rows k = f (k % e) (k / e)

  one_row : (i : ℕ) → tabulate e (λ k. f k i) ≡ tabulate_from (i * e) e in_rows
  one_row i =
      tabulate_ext e (λ k. f k i) (λ k. in_rows (i * e + k))
        (λ k p. sym (ap₂ f (row_remainder i e k p) (row_quotient i e k p)))
      ∙ sym (tabulate_from_shift (i * e) 0 e in_rows)
      ∙ tabulate_from_eq in_rows (omega arith) refl

  -- Rows of e entries, one after the other, are the entries by remainder and quotient.
  concat-rows_from :
      (i n : ℕ)
      → concat (tabulate_from i n (λ j. tabulate e (λ k. f k j)))
        ≡ tabulate_from (i * e) (n * e) in_rows
  concat-rows_from i zero = tabulate_from_eq {i = i * e} {m = 0} in_rows refl (omega arith)
  concat-rows_from i (suc n) =
      ap₂ ◌++◌ (one_row i)
        (concat-rows_from (suc i) n ∙ tabulate_from_eq in_rows (grind arith) refl)
      ∙ sym (tabulate_from_append (i * e) e (n * e) in_rows)
      ∙ tabulate_from_eq in_rows refl (grind arith)

  pub concat-rows :
      (n : ℕ) → concat (tabulate n (λ j. tabulate e (λ k. f k j))) ≡ tabulate (n * e) in_rows
  concat-rows n = concat-rows_from 0 n ∙ tabulate_from_eq in_rows (omega arith) refl
