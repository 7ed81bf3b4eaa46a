-- ===== src/Transfer/Tests.antt =====
-- The shims of source/mpi_p2p.c and source/mpi_coll.c on the sample library.
use vapaa.Prelude.{some, ◌≡◌, refl, true, false, pos, neg}
use vapaa.Errors.Names.{err_truncate}
use vapaa.Handles.{type_f2c}
use vapaa.Handles.DatatypeNames.{Config, vapaa_datatype, datatype_names, names_before}
use vapaa.Cfi.Shapes.{basic}
use vapaa.Mpi.Sample.{World, view, sample, handle_lib}
use vapaa.Sentinels.{initial}
use vapaa.Transfer.{Messages, Env}
use vapaa.Cfi.Tests.{build, world}

abbrev pub config : Config
config = record {
  integer16 = false;
  real2 = false;
  real16 = false;
  complex4 = false;
  complex32 = false;
}

-- Calls that succeed, but for receives, which truncate.
abbrev pub messages : Messages World
messages = record {
  mpi_in_place = neg 1;
  mpi_status_ignore = pos 1;
  bcast = λ buffer count t root comm w. (pos 0, w);
  send = λ buffer count t dest tag comm w. (pos 0, w);
  isend = λ buffer count t dest tag comm w. record { rc = pos 0; handle = pos 7; world = w };
  recv = λ buffer count t source tag comm s w. (sample.errors.error err_truncate, w);
  irecv = λ buffer count t source tag comm w. record { rc = pos 0; handle = pos 8; world = w };
  gather = λ a n t b m u root comm w. (pos 0, w);
  scatter = λ a n t b m u root comm w. (pos 0, w);
  allgather = λ a n t b m u comm w. (pos 0, w);
  alltoall = λ a n t b m u comm w. (pos 0, w);
  reduce = λ a b n t o root comm w. (pos 0, w);
  allreduce = λ a b n t o comm w. (pos 0, w);
}

abbrev pub env : Env World
env = record {
  mpi = sample;
  messages = messages;
  config = config;
  version4 = true;
  build = build;
  sentinels = initial;
}

pub named : view world (type_f2c handle_lib config (neg 30014)) ≡ some (basic 8)
unfolding type_f2c vapaa_datatype datatype_names names_before
named = refl
