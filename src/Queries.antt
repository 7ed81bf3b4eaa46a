-- ===== src/Queries.antt =====
-- The calls whose answers are constants of mpi.h: MPI_Init_thread and MPI_Query_thread
-- (source/mpi_core.c), MPI_Comm_compare (source/mpi_comm.c) and MPI_Group_compare
-- (source/mpi_group.c).
pub mod Answers
mod Tests
use vapaa.Prelude.{Option, none, some, ℤ, pos}
use vapaa.Convert.{ConstantLib, thread_level_f2c, compare_result_f2c, compare_result_c2f}
use vapaa.Handles.{comm_f2c, group_f2c}
use vapaa.Run.{Run, done, aborted, ◌>>=◌, pure}
use vapaa.Transfer.{Env, fix_rc}

-- Return code and answer of the library, and its next state.
pub record Querying (W : Type 0) : Type 0 where
  pub init_thread : ℤ → W → ℤ × ℤ × W
  pub query_thread : W → ℤ × ℤ × W
  pub comm_compare : ℤ → ℤ → W → ℤ × ℤ × W
  pub group_compare : ℤ → ℤ → W → ℤ × ℤ × W

module _ {W : Type 0} (env : Env W) (constants : ConstantLib) (querying : Querying W) where
  open env use {mpi}
  open querying use {init_thread, query_thread, comm_compare, group_compare}

  -- What follows such a call: the answer is translated, which may abort, and then the return code.
  unfoldable pub deliver : (ℤ → Option ℤ) → ℤ × ℤ × W → Run W (ℤ × ℤ)
  deliver translate (rc, result, w') = elim (translate result) [
    | none ↦ aborted
    | some result_f ↦ (do ierror ← fix_rc env rc; pure (ierror, result_f)) w'
  ]

  -- `C_MPI_Init_thread`: *ierror and *provided_f.
  unfoldable pub c_init_thread : (required_f : ℤ) → W → Run W (ℤ × ℤ)
  unfolding deliver
  c_init_thread required_f w =
      deliver (λ l. some (thread_level_f2c constants l))
        (init_thread (thread_level_f2c constants required_f) w)

  -- `C_MPI_Query_thread`.
  unfoldable pub c_query_thread : W → Run W (ℤ × ℤ)
  unfolding deliver
  c_query_thread w = deliver (λ l. some (thread_level_f2c constants l)) (query_thread w)

  -- `C_MPI_Comm_compare`.
  unfoldable pub c_comm_compare : (comm1_f comm2_f : ℤ) → W → Run W (ℤ × ℤ)
  unfolding deliver
  c_comm_compare comm1_f comm2_f w =
      deliver (compare_result_c2f constants)
        (comm_compare (comm_f2c mpi.handles comm1_f) (comm_f2c mpi.handles comm2_f) w)

  -- `C_MPI_Group_compare`.
  unfoldable pub c_group_compare : (group1_f group2_f : ℤ) → W → Run W (ℤ × ℤ)
  unfolding deliver
  c_group_compare group1_f group2_f w =
      deliver (compare_result_f2c constants)
        (group_compare (group_f2c mpi.handles group1_f) (group_f2c mpi.handles group2_f) w)
