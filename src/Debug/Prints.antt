-- ===== src/Debug/Prints.antt =====
-- What VAPAA_Assert_fail and VAPAA_Warning of source/debug.c write to stderr.
use vapaa.Prelude.{
  ◌≡◌, refl, sym, ap, ap₂, ◌∙◌, ℕ, zero, suc, ◌-◌, ◌+◌, ◌≤◌, arith, Bool, true, false,
  if◌then◌else◌, ℤ, Option, some, List, [], ◌∷◌, ◌++◌, length, length-append, le→ltb, get_elem?,
}
use vapaa.Run.{done, ◌>>◌, pure, bind_done}
use mathlib.Core.List.{append_assoc, append-nil}
use vapaa.Debug.Formats.{
  countdown, message_printed, frames_printed, failure_text-printed, frame_text-printed,
  heading_text-printed,
}
use vapaa.Debug.{
  Text, DebugLib, Process, take, quietly, write, failure_text, frame_text, heading_text, symbol_at,
  print_frames, complain, print_backtrace, report, snprintf, warning, codes, tag,
}

take_eq : (m n : ℕ) (ys : Text) → m ≡ n → take m ys ≡ take n ys
take_eq m n ys e = ap (λ (k : ℕ). take k ys) e

take-append :
    (n : ℕ) (xs ys : Text)
    → length xs ≤ n
    → take n xs ++ take (n - length xs) ys ≡ take n (xs ++ ys)
unfolding take
take-append zero [] ys h = refl
take-append (suc n) [] ys h = take_eq (suc n - 0) (suc n) ys (omega arith)
take-append zero (x ∷ xs) ys h = take_eq (0 - length (x ∷ xs)) 0 ys (omega arith)
take-append (suc n) (x ∷ xs) ys h =
    ap (λ (t : Text). x ∷ t)
      (ap (λ (m : ℕ). take n xs ++ take m ys) (omega arith) ∙ take-append n xs ys (omega arith))

module _ {W Time : Type 0} (lib : DebugLib W Time) where
  open lib use {
    comm_world, comm_rank, execinfo, backtrace, backtrace_symbols, free_symbols, decimal,
  }

  abbrev wrote_at : Process W → Text → Process W
  wrote_at p text = record { world = p.world; stderr = text }

  symbol_here :
      (ss : List Text) (j : ℕ) (s : Text) (p : Process W)
      → get_elem? ss j ≡ some s
      → symbol_at lib (some ss) j p ≡ done s p
  unfolding symbol_at
  symbol_here ss j s p e = rw (e, symbol_at) refl

  frames-countdown :
      (rank : ℤ) (ss : List Text) (nframes j : ℕ) (rest : List Text) (p : Process W)
      → nframes ≡ j + length rest
      → ((k : ℕ) → get_elem? ss (j + k) ≡ get_elem? rest k)
      → print_frames lib rank (some ss) nframes (length rest) j p
        ≡ done tt (record { world = p.world; stderr = p.stderr ++ countdown lib rank rest })
  unfolding print_frames countdown symbol_at write
  frames-countdown rank ss nframes j [] p n h =
      ap (λ (t : Text). done tt (wrote_at p t)) (sym (append-nil p.stderr))
  frames-countdown rank ss nframes j (s ∷ rest) p n h =
      bind_done (symbol_at lib (some ss) j)
        (λ s'.
          write lib (frame_text lib rank (nframes - j - 1) s')
          >> print_frames lib rank (some ss) nframes (length rest) (suc j))
        (symbol_here ss j s p (ap (get_elem? ss) (omega arith) ∙ h 0))
      ∙ frames-countdown rank ss nframes (suc j) rest
          (wrote_at p (p.stderr ++ frame_text lib rank (nframes - j - 1) s)) (omega arith)
          (λ k. ap (get_elem? ss) (omega arith) ∙ h (suc k))
      ∙ ap (λ (t : Text). done tt (wrote_at p t))
          (append_assoc p.stderr (frame_text lib rank (nframes - j - 1) s) (countdown lib rank rest)
            ∙ ap (λ (m : ℕ). p.stderr ++ (frame_text lib rank m s ++ countdown lib rank rest))
                (omega arith)
            ∙ ap (λ (t : Text). p.stderr ++ (t ++ countdown lib rank rest))
                (frame_text-printed lib rank (length rest) s))

  print_backtrace-countdown :
      (rank : ℤ) (frames : List ℤ) (ss : List Text) (q : Process W) (w1 w2 : W)
      → backtrace 100 q.world ≡ (frames, w1)
      → backtrace_symbols frames w1 ≡ (some ss, w2)
      → length ss ≡ length frames
      → print_backtrace lib rank q
        ≡ done tt (record {
          world = free_symbols (some ss) w2;
          stderr = q.stderr ++ (heading_text lib rank ++ countdown lib rank ss);
        })
  unfolding print_backtrace quietly write complain
  print_backtrace-countdown rank frames ss q w1 w2 traced given long =
      rw (traced, given)
        (bind_done (print_frames lib rank (some ss) (length frames) (length frames) 0) _ (
            ap
              (λ (n : ℕ).
                print_frames lib rank (some ss) n n 0
                  (record { world = w2; stderr = q.stderr ++ heading_text lib rank }))
              (sym long)
            ∙ frames-countdown rank ss (length ss) 0 ss _ (omega arith)
                (λ k. ap (get_elem? ss) (omega arith)))
          ∙ ap (λ (t : Text). done tt (record { world = free_symbols (some ss) w2; stderr = t }))
              (append_assoc q.stderr (heading_text lib rank) (countdown lib rank ss)))

  trace_if :
      (b : Bool) (rank : ℤ) (frames : List ℤ) (ss : List Text) (q : Process W) (w1 w2 : W)
      → backtrace 100 q.world ≡ (frames, w1)
      → backtrace_symbols frames w1 ≡ (some ss, w2)
      → length ss ≡ length frames
      → (if b then print_backtrace lib rank else pure tt) q
        ≡ done tt (record {
          world = if b then free_symbols (some ss) w2 else q.world;
          stderr = q.stderr ++ (if b then heading_text lib rank ++ countdown lib rank ss else []);
        })
  trace_if true rank frames ss q w1 w2 traced given long =
      print_backtrace-countdown rank frames ss q w1 w2 traced given long
  trace_if false rank frames ss q w1 w2 traced given long =
      ap (λ (t : Text). done tt (record { world = q.world; stderr = t }))
        (sym (append-nil q.stderr))

  -- The whole of it, in the words of the formats.
  printed_if :
      (b : Bool) (rank : ℤ) (expr : Text) (msg : Option Text) (file : Text) (line : ℤ) (func : Text)
      (ss : List Text)
      → failure_text lib rank expr msg file line func
          ++ (if b then heading_text lib rank ++ countdown lib rank ss else [])
        ≡ message_printed lib rank expr msg file line func
          ++ (if b then frames_printed lib rank ss else [])
  unfolding frames_printed
  printed_if true rank expr msg file line func ss =
      ap₂ (λ (s t : Text). s ++ (t ++ countdown lib rank ss))
        (failure_text-printed lib rank expr msg file line func) (heading_text-printed lib rank)
  printed_if false rank expr msg file line func ss =
      ap (λ (s : Text). s ++ []) (failure_text-printed lib rank expr msg file line func)

  -- A failed assertion says where it stands and what it says, with its message if it has one, and then,
  -- in a build with backtraces, lists the symbol of every frame, each numbered by how many frames
  -- follow it: the report returns, and stderr has this text, printed by the formats of source/debug.c,
  -- and no more after what it had. The library gives a symbol for each frame.
  pub report-Prints :
      (expr : Text) (msg : Option Text) (file : Text) (line : ℤ) (func : Text) (p : Process W)
      (rank : ℤ) (frames : List ℤ) (ss : List Text) (w w1 w2 : W)
      → comm_rank comm_world p.world ≡ (rank, w)
      → backtrace 100 w ≡ (frames, w1)
      → backtrace_symbols frames w1 ≡ (some ss, w2)
      → length ss ≡ length frames
      → report lib expr msg file line func p
        ≡ done tt (record {
          world = if execinfo then free_symbols (some ss) w2 else w;
          stderr =
              p.stderr
              ++ (message_printed lib rank expr msg file line func
                  ++ (if execinfo then frames_printed lib rank ss else []));
        })
  unfolding report quietly write
  report-Prints expr msg file line func p rank frames ss w w1 w2 ranked traced given long =
      rw ranked (
        trace_if execinfo rank frames ss
          (record { world = w; stderr = p.stderr ++ failure_text lib rank expr msg file line func })
          w1 w2 traced given long
        ∙ ap
            (λ (t : Text).
              done tt
                (record { world = if execinfo then free_symbols (some ss) w2 else w; stderr = t }))
            (append_assoc p.stderr (failure_text lib rank expr msg file line func)
                (if execinfo then heading_text lib rank ++ countdown lib rank ss else [])
              ∙ ap (λ (t : Text). p.stderr ++ t)
                  (printed_if execinfo rank expr msg file line func ss)))

  start_of : ℤ → Text
  start_of rank = tag lib rank ++ codes " VAPAA Warning: "

  start-short : (rank : ℤ) → length (decimal rank) ≤ 11 → length (start_of rank) ≤ 29
  unfolding tag start_of
  start-short rank h = omega (
    arith,
    length-append (decimal rank ++ codes "]") (codes " VAPAA Warning: "),
    length-append (decimal rank) (codes "]"),
  )

  -- A warning is its tag and its text, cut to the 499 bytes that string[500] has room for, however long
  -- the text is: this and no more is written to stderr. The rank has at most eleven characters.
  pub warning-Cut :
      (text : Text) (p : Process W) (rank : ℤ) (w : W)
      → comm_rank comm_world p.world ≡ (rank, w)
      → length (decimal rank) ≤ 11
      → warning lib text p
        ≡ done tt (record {
          world = w;
          stderr = p.stderr ++ take 499 ((tag lib rank ++ codes " VAPAA Warning: ") ++ text);
        })
  unfolding warning quietly write snprintf start_of
  warning-Cut text p rank w ranked short =
      rw (ranked, le→ltb (length (start_of rank)) 500 (omega (arith, start-short rank short)))
        (ap (λ (t : Text). done tt (record { world = w; stderr = p.stderr ++ t }))
          (ap (λ (m : ℕ). take 499 (start_of rank) ++ take m text) (omega arith)
            ∙ take-append 499 (start_of rank) text (omega (arith, start-short rank short))))
