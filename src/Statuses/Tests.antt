-- ===== src/Statuses/Tests.antt =====
-- A status of Open MPI on its way.
use vapaa.Prelude.{pos, neg}
use vapaa.Statuses.{FStatus, OpenMpiStatus}

abbrev pub blank : FStatus
blank = record {
  count_lo = pos 0;
  count_hi_and_cancelled = pos 0;
  mpi_source = neg 1;
  mpi_tag = neg 1;
  mpi_error = pos 0;
  cancelled = pos 0;
  ucount = 0;
}

abbrev pub arrived : OpenMpiStatus
arrived = record {
  mpi_source = pos 3;
  mpi_tag = pos 9;
  mpi_error = pos 0;
  cancelled = pos 0;
  ucount = 40;
}
