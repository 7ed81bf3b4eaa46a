-- ===== src/Debug/Tests.antt =====
-- Assertions and warnings in a small library, whose state is a clock that goes on by one at each reading,
-- three readings to a second; a frame's symbol is its number. Its %d is for single digits.
use vapaa.Prelude.{
  ◌≡◌, refl, ℕ, suc, ◌+◌, arith, ltb, true, false, ℤ, pos, negsuc, none, some, [], ◌∷◌, ◌++◌,
  length-map, map,
}
use vapaa.Run.{done, aborted, fault, vapaa_assert}
use vapaa.Debug.{Text, codes, DebugLib, Process, take, tag, frame_text, report, assert_msg, warning}
use vapaa.Debug.Formats.{message_printed, frames_printed}
use vapaa.Debug.Prints.{report-Prints, warning-Cut}
use vapaa.Debug.Stops.{ClockLaws, assert_msg-Aborts}

abbrev digit : ℤ → Text
digit (pos n) = (48 + n) ∷ []
digit (negsuc n) = 45 ∷ (49 + n) ∷ []

abbrev lib : DebugLib ℕ ℕ
lib = record {
  comm_world = pos 1000;
  comm_rank = λ comm w. (pos 2, w);
  wtime = λ w. (w, suc w);
  within_second = λ now stall. ltb now (stall + 3);
  pmpi_abort = λ comm rc w. aborted;
  execinfo = true;
  backtrace = λ n w. (pos 7 ∷ pos 8 ∷ [], w);
  backtrace_symbols = λ frames w. (some (map digit frames), w);
  free_symbols = λ symbols w. w;
  perror_text = λ w. codes "no memory\n";
  decimal = digit;
  decimal2 = λ n. 32 ∷ digit n;
}

-- No memory for the symbols.
abbrev poor : DebugLib ℕ ℕ
poor = record lib { backtrace_symbols = λ frames w. (none, w) }

abbrev start : Process ℕ
start = record { world = 5; stderr = codes "earlier\n" }

clock : ClockLaws lib
clock = record {
  moment = λ w. w;
  second = 3;
  goes_on = λ w. omega arith;
  within = λ v w h. ground arith;
}

printed :
    report lib (codes "x") (some (codes "why")) (codes "a.c") (pos 9) (codes "f") start
    ≡ done tt (record {
      world = 5;
      stderr =
          codes
            "earlier\n[2] VAPAA assert fail in f() [a.c:9]: \"x\"\n[2] Message: \"why\"\n[2] Backtrace:\n[2]   1 - 7\n[2]   0 - 8\n";
    })
unfolding report frame_text
printed = refl

too_little_fuel :
    assert_msg lib 2 false (codes "x") none (codes "a.c") (pos 9) (codes "f") start ≡ none
unfolding assert_msg
too_little_fuel = refl

reads_null : report poor (codes "x") none (codes "a.c") (pos 9) (codes "f") start ≡ fault
unfolding report
reads_null = refl

report-Prints_example :
    report lib (codes "x") (some (codes "why")) (codes "a.c") (pos 9) (codes "f") start
    ≡ done tt (record {
      world = 5;
      stderr =
          start.stderr
          ++ (message_printed lib
                (pos 2)
                (codes "x")
                (some (codes "why"))
                (codes "a.c")
                (pos 9)
                (codes "f")
              ++ frames_printed lib (pos 2) (codes "7" ∷ codes "8" ∷ []));
    })
report-Prints_example =
    report-Prints lib (codes "x") (some (codes "why")) (codes "a.c") (pos 9) (codes "f") start
      (pos 2) (pos 7 ∷ pos 8 ∷ []) (codes "7" ∷ codes "8" ∷ []) 5 5 5 refl refl refl refl

assert_msg-Aborts_example :
    assert_msg lib 4 false (codes "x") none (codes "a.c") (pos 9) (codes "f") start
    ≡ some (vapaa_assert false start)
unfolding clock
assert_msg-Aborts_example =
    assert_msg-Aborts lib clock 3 false (codes "x") none (codes "a.c") (pos 9) (codes "f") start
      (omega arith) (λ w. refl) (λ frames w. (map digit frames, refl, length-map digit frames))

warning-Cut_example :
    warning lib (codes "odd") start
    ≡ done tt (record {
      world = 5;
      stderr =
          start.stderr ++ take 499 ((tag lib (pos 2) ++ codes " VAPAA Warning: ") ++ codes "odd");
    })
warning-Cut_example = warning-Cut lib (codes "odd") start (pos 2) 5 refl (omega arith)
