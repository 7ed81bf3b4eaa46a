-- ===== src/Transfer/Probes/Tests.antt =====
-- Runs of MPI_Probe and MPI_Waitall.
use vapaa.Prelude.{◌≡◌, ℕ, List, [], ◌∷◌, map, ℤ, pos, refl, ◌<◌, length, true, arith}
use vapaa.Errors.Names.{vapaa_error}
use vapaa.Handles.{request_f2c}
use vapaa.Sentinels.{is_sentinel, initial}
use vapaa.Convert.Tests.{constants}
use vapaa.Statuses.{open_mpi}
use vapaa.Statuses.Tests.{blank, arrived}
use vapaa.Run.{Returns}
use vapaa.Mpi.Sample.{World, sample}
use vapaa.Cfi.Tests.{world}
use vapaa.Transfer.Tests.{env}
use vapaa.Transfer.Probes.{Probing, c_waitall}
use vapaa.Transfer.Probes.Reports.{Reported, c_waitall-Reported}

-- A message from rank 3 is there, and each request receives from the rank of its place.
abbrev pub probing : Probing World open_mpi
probing = record {
  probe = λ source tag comm wanted w. ((pos 0, arrived), w);
  mprobe = λ source tag comm s w. record { rc = pos 0; handle = pos 21; world = w };
  test = λ r s w. ((pos 0, r, pos 0), w);
  wait = λ r s w. record { rc = pos 0; handle = pos 17; world = w };
  waitall =
      λ rs wanted w. ((pos 0, map (λ r. pos 17) rs, λ i. record arrived { mpi_source = pos i }), w);
  request_get_status = λ r w. ((pos 0, pos 1), w);
  request_free = λ r w. record { rc = pos 0; handle = pos 17; world = w };
  status_set_elements = λ s t n w. ((pos 0, s), w);
}

abbrev requests_f : List ℤ
requests_f = pos 5 ∷ pos 6 ∷ []

c_waitall-Reported_example :
    Returns
      (λ r w'.
        (w' ≡ world)
        × (r.1 ≡ pos 17 ∷ pos 17 ∷ [])
        × ((i : ℕ)
            → i < length requests_f
            → Reported open_mpi r.2 i
                ((probing.waitall (map (request_f2c sample.handles) requests_f) true world).0.2 i)))
      (c_waitall env constants probing 8 24 requests_f (pos 64) (blank ∷ blank ∷ []) world)
unfolding vapaa_error is_sentinel initial
c_waitall-Reported_example =
    c_waitall-Reported env constants probing 8 24 requests_f (pos 64) (blank ∷ blank ∷ []) world
      refl refl refl (omega arith) refl
