-- ===== src/Prelude/Bits.antt =====
-- Binary digits of the native numbers: `bit a k` is digit k of a, `mask k` the number whose only digit
-- 1 is that one.
use Prim.Native.Nat.{
  ℕ, zero, suc, ◌+◌, ◌*◌, ◌/◌, ◌%◌, ◌≤◌, ◌<◌, max, min, bit_and, bit_or, digits, bit_and-bitwise,
  bit_or-bitwise,
}
use mathlib.Core.Path.{◌≡◌, refl, sym, ap, ◌∙◌}
use mathlib.Core.Bool.{Bool, true, false, not, ◌&&◌, ◌||◌}
use native.Mathlib.Omega.{arith}
use vapaa.Prelude.Tests.{◌==◌}

abbrev pub bit : ℕ → ℕ → Bool
bit a zero = a % 2 == 1
bit a (suc k) = bit (a / 2) k

pub bit_zero : (k : ℕ) → bit 0 k ≡ false
bit_zero zero = refl
bit_zero (suc k) = bit_zero k

or_digit :
    (x y r h : ℕ) → x < 2 → y < 2 → r ≡ h * 2 + max x y → (r % 2 == 1) ≡ ((x == 1) || (y == 1))
or_digit x y r h p q e = ground arith

half : (x y r h : ℕ) → x < 2 → y < 2 → r ≡ h * 2 + max x y → r / 2 ≡ h
half x y r h p q e = ground arith

-- The digits of `bit_or`, at any count of digits that covers the first number.
joined : (n a b k : ℕ) → a ≤ n → bit (digits (λ y. y) max n a b) k ≡ (bit a k || bit b k)
joined zero zero b k h = ap (λ (t : Bool). t || bit b k) (sym (bit_zero k))
joined zero (suc a) b k h = absurd (omega arith)
joined (suc n) zero b k h = ap (λ (t : Bool). t || bit b k) (sym (bit_zero k))
joined (suc n) (suc a) b zero h =
    or_digit (suc a % 2) (b % 2) (digits (λ y. y) max (suc n) (suc a) b)
      (digits (λ y. y) max n (suc a / 2) (b / 2)) (omega arith) (omega arith) refl
joined (suc n) (suc a) b (suc k) h =
    ap (λ (r : ℕ). bit r k)
      (half (suc a % 2) (b % 2) (digits (λ y. y) max (suc n) (suc a) b)
        (digits (λ y. y) max n (suc a / 2) (b / 2)) (omega arith) (omega arith) refl)
    ∙ joined n (suc a / 2) (b / 2) k (omega arith)

pub bit-bit_or : (a b k : ℕ) → bit (bit_or a b) k ≡ (bit a k || bit b k)
bit-bit_or a b k = ap (λ (r : ℕ). bit r k) (bit_or-bitwise a b) ∙ joined a a b k (omega arith)

abbrev pub mask : ℕ → ℕ
mask zero = 1
mask (suc k) = 2 * mask k

low_digit : (x r h : ℕ) → x < 2 → h ≡ 0 → r ≡ h * 2 + min x 1 → not (r == 0) ≡ (x == 1)
low_digit x r h p q e = ground arith

high_digits : (x p r h : ℕ) → x < 2 → r ≡ h * 2 + min x (2 * p % 2) → (r == 0) ≡ (h == 0)
high_digits x p r h q e = let even : 2 * p % 2 ≡ 0 = omega arith in ground arith

-- Nothing is common with 0.
masked_out : (n a : ℕ) → digits (λ y. 0) min n a 0 ≡ 0
masked_out zero a = refl
masked_out (suc n) zero = refl
masked_out (suc n) (suc a) =
    let rest = masked_out n (suc a / 2) in
    let low : min (suc a % 2) 0 ≡ 0 = ground arith in rw (rest, low) refl

-- A mask picks its digit.
picked : (n a k : ℕ) → a ≤ n → not (digits (λ y. 0) min n a (mask k) == 0) ≡ bit a k
picked zero zero k h = sym (bit_zero k)
picked zero (suc a) k h = absurd (omega arith)
picked (suc n) zero k h = sym (bit_zero k)
picked (suc n) (suc a) zero h =
    low_digit (suc a % 2) (digits (λ y. 0) min (suc n) (suc a) 1)
      (digits (λ y. 0) min n (suc a / 2) 0) (omega arith) (masked_out n (suc a / 2)) refl
picked (suc n) (suc a) (suc k) h =
    let shift : 2 * mask k / 2 ≡ mask k = omega arith in
    ap not (
      high_digits (suc a % 2) (mask k) (digits (λ y. 0) min (suc n) (suc a) (2 * mask k))
        (digits (λ y. 0) min n (suc a / 2) (2 * mask k / 2)) (omega arith) refl
      ∙ ap (λ (m : ℕ). digits (λ y. 0) min n (suc a / 2) m == 0) shift)
    ∙ picked n (suc a / 2) k (omega arith)

-- Testing with a mask.
pub bit_and-mask : (a k : ℕ) → not (bit_and a (mask k) == 0) ≡ bit a k
bit_and-mask a k =
    ap (λ (r : ℕ). not (r == 0)) (bit_and-bitwise a (mask k)) ∙ picked a a k (omega arith)

pub and_false : (b : Bool) → (b && false) ≡ false
and_false true = refl
and_false false = refl

pub and_true : (b : Bool) → (b && true) ≡ b
and_true true = refl
and_true false = refl

pub absorb_true : (a r : Bool) → ((a && true) || (a && r)) ≡ (a && (true || r))
absorb_true true r = refl
absorb_true false r = refl

pub absorb_false : (a r : Bool) → ((a && false) || r) ≡ r
absorb_false true r = refl
absorb_false false r = refl

pub ==_false : (a b : ℕ) → (a ≡ b → ⊥) → (a == b) ≡ false
==_false a b h = ground arith

pub bit-mask : (j k : ℕ) → bit (mask j) k ≡ (j == k)
bit-mask zero zero = refl
bit-mask zero (suc k) = bit_zero k ∙ ground arith
bit-mask (suc j) zero = ground arith
bit-mask (suc j) (suc k) =
    let h : 2 * mask j / 2 ≡ mask j = omega arith in
    ap (λ (n : ℕ). bit n k) h ∙ bit-mask j k ∙ ground arith
