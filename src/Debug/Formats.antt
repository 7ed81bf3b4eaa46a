-- ===== src/Debug/Formats.antt =====
-- The texts of source/debug.c by the formats that fprintf is given there.
use vapaa.Prelude.{
  ◌≡◌, ap, ℕ, ◌&&◌, Bool, true, false, ◌==◌, leb, ℤ, pos, Option, none, some, List, [], ◌∷◌, ◌++◌,
  length,
}
use mathlib.Core.List.{append_assoc}
use vapaa.Debug.{Text, DebugLib, codes, tag, failure_text, frame_text, heading_text}

-- What printf makes of a format, given the texts of the arguments in their order: a conversion is what
-- stands from % to the first character that is not a digit, and after its % the flag is true.
unfoldable pub formatted : (conversion : Bool) → (format : Text) → (arguments : List Text) → Text
formatted b [] arguments = []
formatted false (c ∷ format) arguments = elim (c == 37) [
  | true ↦ formatted true format arguments
  | false ↦ c ∷ formatted false format arguments
]
formatted true (c ∷ format) [] = []
formatted true (c ∷ format) (a ∷ arguments) = elim (leb 48 c && leb c 57) [
  | true ↦ formatted true format (a ∷ arguments)
  | false ↦ a ++ formatted false format arguments
]

unfoldable pub printf : (format : Text) → (arguments : List Text) → Text
unfolding formatted
printf format arguments = formatted false format arguments

module _ {W Time : Type 0} (lib : DebugLib W Time) where
  open lib use {decimal, decimal2}

  -- The message of a failed assertion, by whether msg is NULL.
  unfoldable pub message_printed :
      (rank : ℤ) (expr : Text) (msg : Option Text) (file : Text) (line : ℤ) (func : Text) → Text
  unfolding printf
  message_printed rank expr none file line func =
      printf (codes "[%d] VAPAA assert fail in %s() [%s:%d]: \"%s\"\n")
        (decimal rank ∷ func ∷ file ∷ decimal line ∷ expr ∷ [])
  message_printed rank expr (some msg) file line func =
      printf (codes "[%d] VAPAA assert fail in %s() [%s:%d]: \"%s\"\n[%d] Message: \"%s\"\n")
        (decimal rank ∷ func ∷ file ∷ decimal line ∷ expr ∷ decimal rank ∷ msg ∷ [])

  -- The lines of the frames: each has its symbol and is numbered by how many follow it.
  unfoldable pub countdown : ℤ → List Text → Text
  unfolding printf
  countdown rank [] = []
  countdown rank (s ∷ rest) =
      printf (codes "[%d]  %2d - %s\n") (decimal rank ∷ decimal2 (pos (length rest)) ∷ s ∷ [])
      ++ countdown rank rest

  unfoldable pub frames_printed : ℤ → List Text → Text
  unfolding printf countdown
  frames_printed rank ss =
      printf (codes "[%d] Backtrace:\n") (decimal rank ∷ []) ++ countdown rank ss

  after_tag : (rank : ℤ) (rest : Text) → tag lib rank ++ rest ≡ 91 ∷ (decimal rank ++ (93 ∷ rest))
  unfolding tag
  after_tag rank rest = ap (λ (t : Text). 91 ∷ t) (append_assoc (decimal rank) (codes "]") rest)

  pub failure_text-printed :
      (rank : ℤ) (expr : Text) (msg : Option Text) (file : Text) (line : ℤ) (func : Text)
      → failure_text lib rank expr msg file line func ≡ message_printed rank expr msg file line func
  unfolding failure_text message_printed
  failure_text-printed rank expr none file line func = after_tag rank _
  failure_text-printed rank expr (some msg) file line func = simp append_assoc

  pub frame_text-printed :
      (rank : ℤ) (n : ℕ) (s : Text)
      → frame_text lib rank n s
        ≡ printf (codes "[%d]  %2d - %s\n") (decimal rank ∷ decimal2 (pos n) ∷ s ∷ [])
  unfolding frame_text printf
  frame_text-printed rank n s = after_tag rank _

  pub heading_text-printed :
      (rank : ℤ) → heading_text lib rank ≡ printf (codes "[%d] Backtrace:\n") (decimal rank ∷ [])
  unfolding heading_text printf
  heading_text-printed rank = after_tag rank _
