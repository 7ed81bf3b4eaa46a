-- ===== src/Files/Modes.antt =====
-- The translation of access modes: source/mpi_file.c.
use vapaa.Prelude.{
  ◌≡◌, refl, ap, sym, ◌∙◌, ℕ, ◌==◌, Bool, true, false, not, ◌&&◌, ◌||◌, List, [], ◌∷◌, ℤ,
  if◌then◌else◌, inl, inr, Bool-cases, eq→==, ==→eq, bit, mask, bit-bit_or, bit_and-mask, bit_zero,
  bit-mask, and_false, and_true, absorb_true, absorb_false, ==_false,
}
use Prim.Native.Nat.{bit_and, bit_or}
use vapaa.Files.{
  Mode, append, create, delete_on_close, excl, rdonly, rdwr, sequential, unique_open, wronly,
  vapaa_mode, modes, or_modes, translate_amode, int_bits,
}

-- The digit of a mode in Fortran's constants.
abbrev pub digit : Mode → ℕ
digit append = 0
digit create = 1
digit delete_on_close = 2
digit excl = 3
digit rdonly = 4
digit rdwr = 5
digit sequential = 6
digit unique_open = 7
digit wronly = 8

vapaa_mode-mask : (m : Mode) → vapaa_mode m ≡ mask (digit m)
unfolding vapaa_mode
vapaa_mode-mask append = refl
vapaa_mode-mask _ = refl

-- Some mode of the list is asked for in f and has the digit k in mpi.h.
abbrev pub any_mode : (Mode → ℕ) → (f k : ℕ) → List Mode → Bool
any_mode mode f k [] = false
any_mode mode f k (m ∷ ms) = bit f (digit m) && bit (mode m) k || any_mode mode f k ms

or_false : (b : Bool) → b ≡ (b || false)
or_false true = refl
or_false false = refl

choose_or :
    (mode : Mode → ℕ) (f c k : ℕ) (m : Mode)
    → bit (if bit_and f (vapaa_mode m) == 0 then c else bit_or c (mode m)) k
      ≡ (bit c k || (bit f (digit m) && bit (mode m) k))
choose_or mode f c k m =
    let e : not (bit_and f (vapaa_mode m) == 0) ≡ bit f (digit m) =
      ap (λ (p : ℕ). not (bit_and f p == 0)) (vapaa_mode-mask m) ∙ bit_and-mask f (digit m) in
    go (bit_and f (vapaa_mode m) == 0) (bit f (digit m)) e
  where
    go :
        (b d : Bool)
        → not b ≡ d
        → bit (if b then c else bit_or c (mode m)) k ≡ (bit c k || (d && bit (mode m) k))
    go true d h = rw (sym h) (or_false (bit c k))
    go false d h = rw (sym h) (bit-bit_or c (mode m) k)

or_assoc : (a b c : Bool) → ((a || b) || c) ≡ (a || (b || c))
or_assoc true b c = refl
or_assoc false b c = refl

or_modes-any :
    (mode : Mode → ℕ) (f c k : ℕ) (ms : List Mode)
    → bit (or_modes mode f c ms) k ≡ (bit c k || any_mode mode f k ms)
unfolding or_modes
or_modes-any mode f c k [] = or_false (bit c k)
or_modes-any mode f c k (m ∷ ms) =
    or_modes-any mode f (if bit_and f (vapaa_mode m) == 0 then c else bit_or c (mode m)) k ms
    ∙ ap (λ (b : Bool). b || any_mode mode f k ms) (choose_or mode f c k m)
    ∙ or_assoc (bit c k) (bit f (digit m) && bit (mode m) k) (any_mode mode f k ms)

mode_at : ℕ → Mode
mode_at n =
    if n == 0
    then append
    else if n == 1
    then create
    else if n == 2
    then delete_on_close
    else if n == 3
    then excl
    else if n == 4
    then rdonly
    else if n == 5
    then rdwr
    else if n == 6
    then sequential
    else if n == 7
    then unique_open
    else wronly

mode_at-digit : (m : Mode) → mode_at (digit m) ≡ m
unfolding mode_at
mode_at-digit append = refl
mode_at-digit _ = refl

-- A list of modes has the mode.
abbrev has_mode : Mode → List Mode → Bool
has_mode m [] = false
has_mode m (x ∷ xs) = (digit x == digit m) || has_mode m xs

has_mode-modes : (m : Mode) → has_mode m modes ≡ true
unfolding modes
has_mode-modes append = refl
has_mode-modes _ = refl

module _ (mode : Mode → ℕ) (at : Mode → ℕ) (power : (m : Mode) → mode m ≡ mask (at m))
    (differ : (m n : Mode) → at m ≡ at n → m ≡ n) where
  same_mode : (x m : Mode) → (at x == at m) ≡ (digit x == digit m)
  same_mode x m = elim (Bool-cases (at x == at m)) [
    | inl same ↦
        same ∙ sym (eq→== (digit x) (digit m) (ap digit (differ x m (==→eq (at x) (at m) same))))
    | inr other ↦
        other
        ∙ sym (
            ==_false (digit x) (digit m) (λ e. cc (
              other,
              eq→== (at x) (at m) (ap at (sym (mode_at-digit x) ∙ ap mode_at e ∙ mode_at-digit m)),
            )))
  ]

  bit-mode : (x m : Mode) → bit (mode x) (at m) ≡ (digit x == digit m)
  bit-mode x m = ap (λ (n : ℕ). bit n (at m)) (power x) ∙ bit-mask (at x) (at m) ∙ same_mode x m

  absorb :
      (f : ℕ) (x m : Mode) (rest : Bool)
      → ((bit f (digit x) && (digit x == digit m)) || (bit f (digit m) && rest))
        ≡ (bit f (digit m) && ((digit x == digit m) || rest))
  absorb f x m rest = elim (Bool-cases (digit x == digit m)) [
    | inl same ↦
        rw (same, ap (bit f) (==→eq (digit x) (digit m) same)) (absorb_true (bit f (digit m)) rest)
    | inr other ↦ rw other (absorb_false (bit f (digit x)) (bit f (digit m) && rest))
  ]

  any_mode-has :
      (f : ℕ) (m : Mode) (ms : List Mode)
      → any_mode mode f (at m) ms ≡ (bit f (digit m) && has_mode m ms)
  any_mode-has f m [] = sym (and_false (bit f (digit m)))
  any_mode-has f m (x ∷ xs) = rw (bit-mode x m, any_mode-has f m xs) (absorb f x m (has_mode m xs))

  -- `C_MPI_TRANSLATE_AMODE` sets the digit of a mode exactly if Fortran's mode has it. mpi.h gives
  -- the modes different powers of two.
  pub translate_amode-bit :
      (f : ℤ) (m : Mode) → bit (translate_amode mode f) (at m) ≡ bit (int_bits f) (digit m)
  unfolding translate_amode
  translate_amode-bit f m =
      or_modes-any mode (int_bits f) 0 (at m) modes
      ∙ ap (λ (b : Bool). b || any_mode mode (int_bits f) (at m) modes) (bit_zero (at m))
      ∙ any_mode-has (int_bits f) m modes
      ∙ ap (λ (b : Bool). bit (int_bits f) (digit m) && b) (has_mode-modes m)
      ∙ and_true (bit (int_bits f) (digit m))
