-- ===== src/Objects/Tests.antt =====
-- Communicators made and freed on the sample library.
use vapaa.Prelude.{◌≡◌, refl, sym, ap, ◌∙◌, true, some, ℤ, pos, neg, eq_ℤ, eq_ℤ→eq, arith}
use vapaa.Errors.Names.{success, vapaa_error}
use vapaa.Errors.{rc_fix}
use vapaa.Handles.{comm_f2c}
use vapaa.Run.{Returns}
use vapaa.Mpi.Sample.{World, sample, handle_lib}
use vapaa.Cfi.Tests.{world}
use vapaa.Transfer.Tests.{env}
use vapaa.Objects.Comms.{c_comm_size, c_comm_dup, c_comm_free}
use vapaa.Objects.Numbers.{Removes, table, c_comm_free-Removes}
use vapaa.Objects.Lives.{
  Program, holding, dropping, Step, dup, free, here, next, IsSound, Fine, Reach-IsSound,
  Reach-answers,
}
use vapaa.Objects.Sample.{comms, comm_laws}

known : table env comms comm_laws world (neg 1000) ≡ some 4
unfolding comm_laws comm_f2c
known = refl

-- The program starts with MPI_COMM_WORLD.
abbrev start : Program World
start = record { world = world; held = λ f. eq_ℤ f (neg 1000) }

only_world : (f : ℤ) → eq_ℤ f (neg 1000) ≡ true → table env comms comm_laws world f ≡ some 4
only_world f h = ap (table env comms comm_laws world) (eq_ℤ→eq f (neg 1000) h) ∙ known

sound : IsSound env comms comm_laws start
sound = record {
  alive = λ f h. (4, only_world f h);
  apart = λ f g hf hg e. eq_ℤ→eq f (neg 1000) hf ∙ sym (eq_ℤ→eq g (neg 1000) hg);
}

abbrev after_dup : World
after_dup = (comms.comm_dup (pos 1000) world).world

abbrev duplicated : Program World
duplicated = holding env comms start (pos 60000) after_dup

dup-Step : Step env comms start duplicated
unfolding c_comm_dup comm_f2c vapaa_error rc_fix
dup-Step = dup start (neg 1000) (pos 0, pos 60000) after_dup refl refl

abbrev freed : Program World
freed = dropping env comms duplicated (pos 60000) (comms.comm_free (pos 60000) after_dup).world

free-Step : Step env comms duplicated freed
unfolding c_comm_free comm_f2c vapaa_error rc_fix
free-Step =
    free duplicated (pos 60000) (pos 0, pos 10) (comms.comm_free (pos 60000) after_dup).world refl
      (λ e. ground arith) (λ e. ground arith) refl

Reach-IsSound_example : IsSound env comms comm_laws freed
Reach-IsSound_example =
    Reach-IsSound env comms comm_laws start freed sound (next (next here dup-Step) free-Step)

Reach-answers_example :
    Returns (Fine env comms comm_laws) (c_comm_size env comms (pos 60000) (pos 0) after_dup)
    × Returns (Fine env comms comm_laws) (c_comm_dup env comms (pos 60000) after_dup)
    × Returns (Fine env comms comm_laws) (c_comm_free env comms (pos 60000) after_dup)
unfolding comm_f2c
Reach-answers_example =
    Reach-answers env comms comm_laws start duplicated sound (next here dup-Step) (pos 60000)
      (pos 0) refl (λ e. ground arith) (λ e. ground arith)

c_comm_free-Removes_example :
    Returns
      (λ r w'.
        (r.0 ≡ sample.errors.error success)
        × Removes
            (comm_f2c handle_lib)
            (table env comms comm_laws after_dup)
            (table env comms comm_laws w')
            (pos 60000))
      (c_comm_free env comms (pos 60000) after_dup)
unfolding comm_laws comm_f2c
c_comm_free-Removes_example =
    c_comm_free-Removes env comms comm_laws (pos 60000) after_dup 4 refl (λ e. ground arith)
      (λ e. ground arith)
