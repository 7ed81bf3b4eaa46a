-- ===== src/Prelude/Table.antt =====
-- Searching a list for the first entry that passes a test: what an if-else ladder does, and a
-- switch whose labels differ.
use mathlib.Core.Path.{◌≡◌, refl, ap, ◌∙◌}
use mathlib.Core.Logic.{inl, inr}
use mathlib.Core.Bool.{Bool, true, false, ◌||◌}
use mathlib.Core.Option.{Option, none, some}
use mathlib.Core.List.{List, [], ◌∷◌}
use native.Mathlib.Omega.{arith}
use vapaa.Prelude.Tests.{if◌then◌else◌, Bool-cases}
use vapaa.Prelude.Int.{ℤ, eq_ℤ, eq_ℤ→eq, eq_ℤ-refl}

module _ {ℓ} {A : Type ℓ} where
  abbrev pub first : (A → Bool) → List A → Option A
  first p [] = none
  first p (x ∷ xs) = if p x then some x else first p xs

  -- Entries under `#if` are there only if the flag is set.
  abbrev pub when : Bool → A → List A → List A
  when flag x xs = if flag then x ∷ xs else xs

  -- An entry is listed, told by its number.
  abbrev pub listed : (A → ℤ) → A → List A → Bool
  listed number a [] = false
  listed number a (x ∷ xs) = eq_ℤ (number x) (number a) || listed number a xs

  pub first_passes : (p : A → Bool) (xs : List A) {a : A} → first p xs ≡ some a → p a ≡ true
  first_passes p [] h = cc
  first_passes p (x ∷ xs) h = elim (Bool-cases (p x)) [
    | inl t ↦ ground arith
    | inr f ↦ first_passes p xs (rw f at h)
  ]

  pub first-listed :
      (p : A → Bool) (number : A → ℤ) (xs : List A) {a : A}
      → first p xs ≡ some a
      → listed number a xs ≡ true
  first-listed p number [] h = cc
  first-listed p number (x ∷ xs) {a} h = elim (Bool-cases (p x)) [
    | inl t ↦
        let e : x ≡ a = ground arith in
        let same : eq_ℤ (number x) (number a) ≡ true =
          ap (λ (y : A). eq_ℤ (number y) (number a)) e ∙ eq_ℤ-refl (number a) in
        rw same
    | inr f ↦
        let later : listed number a xs ≡ true = first-listed p number xs (rw f at h) in ground arith
  ]

  -- The search finds the only entry that passes.
  pub first_unique :
      (p : A → Bool) (number : A → ℤ) (a : A) (xs : List A)
      → ((x y : A) → number x ≡ number y → x ≡ y)
      → ((x : A) → p x ≡ true → x ≡ a)
      → p a ≡ true
      → listed number a xs ≡ true
      → first p xs ≡ some a
  first_unique p number a [] inj only pass h = cc
  first_unique p number a (x ∷ xs) inj only pass h = elim (Bool-cases (p x)) [
    | inl t ↦ rw t (ap some (only x t))
    | inr f ↦ rw f (elim (Bool-cases (eq_ℤ (number x) (number a))) [
      | inl same ↦ elim (false_of x f (inj x a (eq_ℤ→eq _ _ same))) [ ]
      | inr other ↦ first_unique p number a xs inj only pass (rw other at h)
    ])
  ]
    where
      false_of : (y : A) → p y ≡ false → y ≡ a → ⊥
      false_of y no_pass e = cc (ap p e)

  -- It finds nothing where the only entry that would pass is not listed.
  pub first_unlisted :
      (p : A → Bool) (number : A → ℤ) (a : A) (xs : List A)
      → ((x : A) → p x ≡ true → x ≡ a)
      → listed number a xs ≡ false
      → first p xs ≡ none
  first_unlisted p number a [] only h = refl
  first_unlisted p number a (x ∷ xs) only h = elim (Bool-cases (p x)) [
    | inl t ↦ absurd (unlisted (only x t))
    | inr f ↦ rw f (
        first_unlisted p number a xs only
          (or_right (eq_ℤ (number x) (number a)) (listed number a xs) h))
  ]
    where
      or_left : (b c : Bool) → (b || c) ≡ false → b ≡ false
      or_left b c e = ground arith

      or_right : (b c : Bool) → (b || c) ≡ false → c ≡ false
      or_right b c e = ground arith

      unlisted : x ≡ a → ⊥
      unlisted e =
          let same : Bool = eq_ℤ (number x) (number a) in
          cc (
            or_left same (listed number a xs) h,
            ap (λ (y : A). eq_ℤ (number y) (number a)) e,
            eq_ℤ-refl (number a),
          )

  -- The search finds nothing where no entry passes.
  pub first-none : (p : A → Bool) (xs : List A) → ((x : A) → p x ≡ false) → first p xs ≡ none
  first-none p [] h = refl
  first-none p (x ∷ xs) h = rw (h x) (first-none p xs h)
