-- ===== src/Transfer/Sessions/Tests.antt =====
-- A session on the sample library: a section is broadcast and sent.
use vapaa.Prelude.{◌≡◌, refl, ℤ, pos, neg, arith, ◌*ℤ◌, to_int, rem_ℤ}
use vapaa.Errors.Names.{vapaa_error}
use vapaa.Errors.{rc_fix}
use vapaa.Handles.{type_f2c}
use vapaa.Handles.DatatypeNames.{vapaa_datatype, datatype_names}
use vapaa.Cfi.Create.{create_datatype}
use vapaa.Run.{Run, done, aborted, fault}
use vapaa.Mpi.Sample.{World, view, sample, sample_laws}
use vapaa.Prelude.{some}
use vapaa.Cfi.{mpi_name, cfi_types}
use vapaa.Cfi.Indexed.{cfi_to_mpi_type}
use vapaa.Cfi.Shapes.{basic}
use vapaa.Cfi.Tests.{desc, world, section, element, enough}
use vapaa.Transfer.{cfi_bcast, cfi_send}
use vapaa.Transfer.Exchange.{IsSide}
use vapaa.Transfer.Tests.{env, named}
use vapaa.Transfer.Sessions.Same.{Session-Same}
use vapaa.Transfer.PointToPoint.Tests.{matched}
use vapaa.Transfer.Sessions.{MessageLaws, Session, at_start, followed, broadcast, sent}

mild : MessageLaws env matched view
unfolding vapaa_error
mild = record {
  bcast_mild = λ a n t root c v. (λ u. refl, refl);
  send_mild = λ a n t dest tag c v. (λ u. refl, refl);
  recv_mild = λ a n t source tag c s v. (λ u. refl, refl);
  gather_mild = λ a n t b m u root c v. (λ u. refl, refl);
  isend_mild = λ a n t dest tag c v. (λ u. refl, refl);
  irecv_mild = λ a n t source tag c v. (λ u. refl, refl);
  sendrecv_mild = λ a n t dest stag b m u source rtag c s v. (λ u. refl, refl);
}

given : IsSide env view desc 5 (type_f2c sample.handles env.config (neg 30014)) world
given = record {
  section = section;
  element = element;
  named = named;
  enough = enough;
  element_small = omega arith;
  total_small = omega arith;
}

-- The state that a run ends in, or the one given.
abbrev state_of : Run World ℤ → World → World
state_of (done a w) v = w
state_of aborted v = v
state_of fault v = v

abbrev broadcast_run : Run World ℤ
broadcast_run = cfi_bcast env desc (pos 5) (neg 30014) (pos 0) (neg 1000) world

broadcast_done : broadcast_run ≡ done (pos 0) (state_of broadcast_run world)
unfolding cfi_bcast create_datatype type_f2c datatype_names vapaa_datatype vapaa_error ◌*ℤ◌ to_int
    rem_ℤ rc_fix
broadcast_done = refl

abbrev between : World
between = state_of broadcast_run world

element_still : view between (cfi_to_mpi_type sample env.build (pos 8)) ≡ some (basic 8)
unfolding cfi_bcast create_datatype type_f2c datatype_names vapaa_datatype vapaa_error ◌*ℤ◌ to_int
    rem_ℤ rc_fix cfi_to_mpi_type mpi_name cfi_types
element_still = refl

named_still : view between (type_f2c sample.handles env.config (neg 30014)) ≡ some (basic 8)
unfolding cfi_bcast create_datatype type_f2c datatype_names vapaa_datatype vapaa_error ◌*ℤ◌ to_int
    rem_ℤ rc_fix
named_still = refl

given_still : IsSide env view desc 5 (type_f2c sample.handles env.config (neg 30014)) between
given_still = record {
  section = section;
  element = element_still;
  named = named_still;
  enough = enough;
  element_small = omega arith;
  total_small = omega arith;
}

abbrev send_run : Run World ℤ
send_run = cfi_send env desc (pos 5) (neg 30014) (pos 3) (pos 9) (neg 1000) between

send_done : send_run ≡ done (pos 0) (state_of send_run world)
unfolding cfi_bcast create_datatype type_f2c datatype_names vapaa_datatype vapaa_error ◌*ℤ◌ to_int
    rem_ℤ rc_fix cfi_send
send_done = refl

two_transfers : Session env matched view world (state_of send_run world)
two_transfers =
    followed
      (followed at_start (
        broadcast desc 5 (neg 30014) (pos 0) (neg 1000) (pos 0) world between given broadcast_done))
      (sent desc 5 (neg 30014) (pos 3) (pos 9) (neg 1000) (pos 0) between (state_of send_run world)
        given_still send_done)

Session-Same_example : view (state_of send_run world) (pos 50001) ≡ view world (pos 50001)
unfolding sample_laws
Session-Same_example =
    Session-Same env sample_laws (λ n b w. refl) matched mild world (state_of send_run world)
      two_transfers (pos 50001)
