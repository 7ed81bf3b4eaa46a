-- ===== src/Queries/Tests.antt =====
-- A run of MPI_Comm_compare.
use vapaa.Prelude.{◌≡◌, refl, neg}
use vapaa.Errors.Names.{success}
use vapaa.Convert.{serialized, congruent, vapaa_thread, vapaa_comparison}
use vapaa.Convert.Tests.{comparison, constants, comparisons_differ}
use vapaa.Run.{done}
use vapaa.Mpi.Sample.{World, sample}
use vapaa.Cfi.Tests.{world}
use vapaa.Transfer.Tests.{env}
use vapaa.Queries.{Querying, c_comm_compare}
use vapaa.Queries.Answers.{c_comm_compare-result}

abbrev querying : Querying World
querying = record {
  init_thread = λ l w. (sample.errors.error success, l, w);
  query_thread = λ w. (sample.errors.error success, vapaa_thread serialized, w);
  comm_compare = λ a b w. (sample.errors.error success, comparison congruent, w);
  group_compare = λ a b w. (sample.errors.error success, comparison congruent, w);
}

congruent_world :
    c_comm_compare env constants querying (neg 1000) (neg 100) world
    ≡ done (sample.errors.error success, vapaa_comparison congruent) world
congruent_world =
    c_comm_compare-result env constants querying comparisons_differ (neg 1000) (neg 100) world world
      congruent refl
