-- ===== src/Debug/Stops.antt =====
-- VAPAA_Assert of source/debug.h comes to what the other modules take it for.
use vapaa.Prelude.{
  ◌≡◌, refl, ℕ, zero, suc, ◌+◌, ◌≤◌, ◌<◌, arith, Bool, true, false, if◌then◌else◌, ℤ, negsuc,
  Option, some, List, length,
}
use vapaa.Run.{aborted, vapaa_assert}
use vapaa.Debug.{Text, DebugLib, Process, stall_loop, stall_and_abort, assert_fail, assert_msg}
use vapaa.Debug.Prints.{report-Prints}

-- The clock, by a count of moments that is not the caller's: each call takes one at least, and of two
-- readings that are less than a second apart, the calls are fewer than `second` moments apart.
pub record ClockLaws {W Time : Type 0} (lib : DebugLib W Time) : Type 0 where
  pub moment : W → ℕ
  pub second : ℕ
  pub goes_on : (w : W) → moment w < moment (lib.wtime w).1
  pub within :
      (v w : W)
      → lib.within_second (lib.wtime w).0 (lib.wtime v).0 ≡ true
      → moment w < moment v + second

-- A round of the wait: it is the last, or there is fuel for those that follow.
if_ends :
    {W : Type 0} (b : Bool) (rest : Option W) (w : W)
    → (b ≡ true → (w' : W) × rest ≡ some w')
    → (w' : W) × (if b then rest else some w) ≡ some w'
if_ends true rest w h = h refl
if_ends false rest w h = (w, refl)

module _ {W Time : Type 0} (lib : DebugLib W Time) (clock : ClockLaws lib) where
  open lib use {
    comm_world, comm_rank, wtime, within_second, pmpi_abort, backtrace, backtrace_symbols,
  }
  open clock use {moment, second, goes_on, within}

  -- From a moment that is so near to a second after the wait began, so much fuel is enough.
  stall_loop-ends :
      (fuel : ℕ) (v w : W)
      → moment v + second ≤ moment w + fuel
      → (w' : W) × stall_loop lib (suc fuel) (wtime v).0 w ≡ some w'
  unfolding stall_loop
  stall_loop-ends zero v w h =
      if_ends (within_second (wtime w).0 (wtime v).0) _ _
        (λ e. let far : ⊥ = omega (arith, within v w e) in elim far [ ])
  stall_loop-ends (suc fuel) v w h =
      if_ends (within_second (wtime w).0 (wtime v).0) _ _
        (λ e. stall_loop-ends fuel v (wtime w).1 (omega (arith, goes_on w)))

  -- With that fuel the wait comes to its end, and PMPI_Abort ends it all.
  stall_and_abort-aborted :
      (fuel : ℕ) (p : Process W)
      → second ≤ fuel
      → ((w : W) → pmpi_abort comm_world (negsuc 0) w ≡ aborted)
      → stall_and_abort lib (suc fuel) p ≡ some aborted
  unfolding stall_and_abort
  stall_and_abort-aborted fuel p enough ends =
      let (w', e) =
        stall_loop-ends fuel p.world (wtime p.world).1 (omega (arith, goes_on p.world)) in
      rw (e, stall_and_abort) (rw (ends w') refl)

  -- A failed VAPAA_Assert ends in PMPI_Abort, and one that holds changes nothing: with or without a
  -- message, VAPAA_Assert comes to `vapaa_assert`. The wait before PMPI_Abort ends, and fuel for one call
  -- of the clock more than a second takes is enough for it. The clock goes on (ClockLaws), PMPI_Abort
  -- of MPI_COMM_WORLD with -1 does not return, and the library gives a symbol for each frame.
  pub assert_msg-Aborts :
      (fuel : ℕ) (test : Bool) (expr : Text) (msg : Option Text) (file : Text) (line : ℤ)
      (func : Text) (p : Process W)
      → second ≤ fuel
      → ((w : W) → pmpi_abort comm_world (negsuc 0) w ≡ aborted)
      → ((frames : List ℤ) (w : W)
          → (ss : List Text) × ((backtrace_symbols frames w).0 ≡ some ss)
            × (length ss ≡ length frames))
      → assert_msg lib (suc fuel) test expr msg file line func p ≡ some (vapaa_assert test p)
  unfolding assert_msg assert_fail
  assert_msg-Aborts fuel true expr msg file line func p enough ends named = refl
  assert_msg-Aborts fuel false expr msg file line func p enough ends named =
      let (rank, w) = comm_rank comm_world p.world in
      let (frames, w1) = backtrace 100 w in
      let (ss, given, long) = named frames w1 in
      rw
        (
          report-Prints lib expr msg file line func p rank frames ss w w1
              (backtrace_symbols frames w1).1 refl refl (cc given) long,
          assert_msg,
          assert_fail,
        )
        (stall_and_abort-aborted fuel _ enough ends)
