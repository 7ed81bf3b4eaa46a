-- ===== src/Debug.antt =====
-- Assertions and warnings: source/debug.c, and VAPAA_Assert of source/debug.h in a build without
-- NO_SEATBELTS. A text is the list of its bytes. The formats of fprintf are written out; how it prints
-- an int is given. fflush is left out: what is written is there. The wait before PMPI_Abort runs on
-- fuel, and is none where that does not suffice.
pub mod Formats
pub mod Prints
pub mod Stops
mod Tests
use Prim.Native.Char.{code}
use Prim.Native.String.{String}
use vapaa.Prelude.{
  ℕ, zero, suc, ◌-◌, ◌+◌, Bool, if◌then◌else◌, ℤ, pos, negsuc, Option, none, some, List, [], ◌∷◌,
  ◌++◌, length, get_elem?, ltb,
}
use vapaa.Run.{Run, done, aborted, fault, ◌>>=◌, ◌>>◌, pure}

abbrev pub Text : Type 0
Text = List ℕ

-- The bytes of a literal.
abbrev pub codes : String → Text
codes String.[] = []
codes (String.◌∷◌ c s) = code c ∷ codes s

-- The C library and the calls of the MPI library: `Time` is what double holds.
pub record DebugLib (W Time : Type 0) : Type 0 where
  pub comm_world : ℤ
  -- PMPI_Comm_rank's variable for a communicator.
  pub comm_rank : ℤ → W → ℤ × W
  pub wtime : W → Time × W
  -- Whether a time less another is below 1.
  pub within_second : Time → Time → Bool
  -- Communicator and code.
  pub pmpi_abort : ℤ → ℤ → W → Run W ℤ
  -- HAVE_EXECINFO_H.
  pub execinfo : Bool
  -- backtrace, for an array of so many frames.
  pub backtrace : ℕ → W → List ℤ × W
  -- backtrace_symbols: none is NULL.
  pub backtrace_symbols : List ℤ → W → Option (List Text) × W
  pub free_symbols : Option (List Text) → W → W
  -- What perror adds to the text that it is given.
  pub perror_text : W → Text
  -- The conversions %d and %2d.
  pub decimal : ℤ → Text
  pub decimal2 : ℤ → Text

-- The state, with what has been written to stderr.
pub record Process (W : Type 0) : Type 0 where
  pub world : W
  pub stderr : Text

unfoldable pub take : ℕ → Text → Text
take zero xs = []
take (suc n) [] = []
take (suc n) (x ∷ xs) = x ∷ take n xs

-- snprintf and vsnprintf into a buffer of that size: what it then holds before the null byte.
unfoldable pub snprintf : (size : ℕ) → Text → Text
unfolding take
snprintf size text = take (size - 1) text

module _ {W Time : Type 0} (lib : DebugLib W Time) where
  open lib use {
    comm_world, comm_rank, wtime, within_second, pmpi_abort, execinfo, backtrace, backtrace_symbols,
    free_symbols, perror_text, decimal, decimal2,
  }

  -- A call that writes nothing.
  unfoldable pub quietly : {A : Type 0} → (W → A × W) → Process W → Run (Process W) A
  quietly m p = let (a, w) = m p.world in done a (record { world = w; stderr = p.stderr })

  -- fprintf(stderr, ...), of the text that its format comes to.
  unfoldable pub write : Text → Process W → Run (Process W) (Unit {0})
  write text p = done tt (record { world = p.world; stderr = p.stderr ++ text })

  -- "[%d]" of the rank.
  unfoldable pub tag : ℤ → Text
  tag rank = codes "[" ++ (decimal rank ++ codes "]")

  -- The message of a failed assertion: the second line is there if msg is not NULL.
  unfoldable pub failure_text :
      (rank : ℤ) (expr : Text) (msg : Option Text) (file : Text) (line : ℤ) (func : Text) → Text
  unfolding tag
  failure_text rank expr none file line func =
      tag rank
      ++ (codes " VAPAA assert fail in "
          ++ (func
              ++ (codes "() ["
                  ++ (file
                      ++ (codes ":"
                          ++ (decimal line ++ (codes "]: \"" ++ (expr ++ codes "\"\n"))))))))
  failure_text rank expr (some msg) file line func =
      tag rank
      ++ (codes " VAPAA assert fail in "
          ++ (func
              ++ (codes "() ["
                  ++ (file
                      ++ (codes ":"
                          ++ (decimal line
                              ++ (codes "]: \""
                                  ++ (expr
                                      ++ (codes "\"\n"
                                          ++ (tag rank
                                              ++ (codes " Message: \""
                                                  ++ (msg ++ codes "\"\n"))))))))))))

  -- A frame's line: its number and its symbol.
  unfoldable pub frame_text : (rank : ℤ) (number : ℕ) (symbol : Text) → Text
  unfolding tag
  frame_text rank number symbol =
      tag rank ++ (codes "  " ++ (decimal2 (pos number) ++ (codes " - " ++ (symbol ++ codes "\n"))))

  -- The heading of the frames.
  unfoldable pub heading_text : ℤ → Text
  unfolding tag
  heading_text rank = tag rank ++ codes " Backtrace:\n"

  -- `symbols[j]`: a fault where symbols is NULL or too short.
  unfoldable pub symbol_at : Option (List Text) → ℕ → Process W → Run (Process W) Text
  symbol_at none j p = fault
  symbol_at (some symbols) j p = elim (get_elem? symbols j) [ none ↦ fault | some s ↦ done s p ]

  -- The loop over the frames, from j, with `left` rounds left.
  unfoldable pub print_frames :
      (rank : ℤ) (symbols : Option (List Text)) (nframes left j : ℕ)
      → Process W
      → Run (Process W) (Unit {0})
  unfolding symbol_at
  print_frames rank symbols nframes zero j = pure tt
  print_frames rank symbols nframes (suc left) j = do
    s ← symbol_at symbols j
    _ ← write (frame_text rank (nframes - j - 1) s)
    print_frames rank symbols nframes left (suc j)

  -- `if (symbols == NULL) perror("Backtrace failure")`.
  unfoldable pub complain : Option (List Text) → Process W → Run (Process W) (Unit {0})
  unfolding write
  complain none p = write (codes "Backtrace failure: " ++ perror_text p.world) p
  complain (some symbols) p = done tt p

  -- The block under HAVE_EXECINFO_H.
  unfoldable pub print_backtrace : (rank : ℤ) → Process W → Run (Process W) (Unit {0})
  unfolding complain write heading_text print_frames quietly
  print_backtrace rank = do
    frames ← quietly (backtrace 100)
    symbols ← quietly (backtrace_symbols frames)
    _ ← complain symbols
    _ ← write (heading_text rank)
    _ ← print_frames rank symbols (length frames) (length frames) 0
    quietly (λ w. (tt {0}, free_symbols symbols w))

  -- `VAPAA_Assert_fail` up to the wait.
  unfoldable pub report :
      (expr : Text) (msg : Option Text) (file : Text) (line : ℤ) (func : Text)
      → Process W
      → Run (Process W) (Unit {0})
  unfolding quietly write failure_text print_backtrace
  report expr msg file line func = do
    rank ← quietly (comm_rank comm_world)
    _ ← write (failure_text rank expr msg file line func)
    if execinfo then print_backtrace rank else pure tt

  -- `while (PMPI_Wtime() - stall < 1)`.
  unfoldable pub stall_loop : (fuel : ℕ) (stall : Time) → W → Option W
  stall_loop zero stall w = none
  stall_loop (suc fuel) stall w =
      let (now, w') = wtime w in
      let rest = stall_loop fuel stall w' in if within_second now stall then rest else some w'

  -- The wait and the end: PMPI_Abort with -1. If that returned, so would the function.
  unfoldable pub stall_and_abort : (fuel : ℕ) → Process W → Option (Run (Process W) (Unit {0}))
  unfolding stall_loop
  stall_and_abort fuel p =
      let (stall, w) = wtime p.world in
      elim (stall_loop fuel stall w) [
        | none ↦ none
        | some w' ↦ some (elim (pmpi_abort comm_world (negsuc 0) w') [
          | done rc w'' ↦ done tt (record { world = w''; stderr = p.stderr })
          | aborted ↦ aborted
          | fault ↦ fault
        ])
      ]

  -- `VAPAA_Assert_fail`.
  unfoldable pub assert_fail :
      (fuel : ℕ) (expr : Text) (msg : Option Text) (file : Text) (line : ℤ) (func : Text)
      → Process W
      → Option (Run (Process W) (Unit {0}))
  unfolding report stall_and_abort
  assert_fail fuel expr msg file line func p = elim (report expr msg file line func p) [
    | done u p' ↦ stall_and_abort fuel p'
    | aborted ↦ some aborted
    | fault ↦ some fault
  ]

  -- `VAPAA_Assert_msg`, and `VAPAA_Assert` with none for msg.
  unfoldable pub assert_msg :
      (fuel : ℕ) (test : Bool) (expr : Text) (msg : Option Text) (file : Text) (line : ℤ)
      (func : Text)
      → Process W
      → Option (Run (Process W) (Unit {0}))
  unfolding assert_fail
  assert_msg fuel test expr msg file line func p =
      if test then some (done tt p) else assert_fail fuel expr msg file line func p

  -- `VAPAA_Warning`, of the text that its format comes to. The message goes to string[500] in two
  -- pieces, the second from disp on, which is the length of the whole first piece: beyond 500 what is
  -- left of the buffer would be negative, and a size_t of that lets vsnprintf write outside.
  unfoldable pub warning : Text → Process W → Run (Process W) (Unit {0})
  unfolding quietly snprintf write tag
  warning text = do
    rank ← quietly (comm_rank comm_world)
    let start = tag rank ++ codes " VAPAA Warning: "
    (if ltb 500 (length start)
        then (λ _. fault)
        else write (snprintf 500 start ++ snprintf (500 - length start) text))
