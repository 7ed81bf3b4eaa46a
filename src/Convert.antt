-- ===== src/Convert.antt =====
-- Translating ranks, thread levels, comparison results and attribute keys:
-- source/convert_constants.h. `ConstantLib` holds the values of mpi.h.
pub mod Levels
pub mod Tests
use vapaa.Prelude.{Option, none, some, ℤ, pos, eq_ℤ, if◌then◌else◌}
use vapaa.Constants.{vapaa_proc_null}

-- MPI_THREAD_SINGLE and so on.
pub data ThreadLevel : Type 0 where
  single funneled serialized multiple : ThreadLevel

pub data Comparison : Type 0 where
  ident congruent similar unequal : Comparison

pub data AttributeKey : Type 0 where
  tag_ub io host wtime_is_global : AttributeKey

-- The constants VAPAA_MPI_THREAD_X.
unfoldable pub vapaa_thread : ThreadLevel → ℤ
vapaa_thread single = pos 0
vapaa_thread funneled = pos 1
vapaa_thread serialized = pos 2
vapaa_thread multiple = pos 3

-- The constants VAPAA_MPI_IDENT and so on.
unfoldable pub vapaa_comparison : Comparison → ℤ
vapaa_comparison ident = pos 0
vapaa_comparison congruent = pos 1
vapaa_comparison similar = pos 2
vapaa_comparison unequal = pos 3

-- The constants VAPAA_MPI_TAG_UB and so on.
unfoldable pub vapaa_attribute : AttributeKey → ℤ
vapaa_attribute tag_ub = pos 900
vapaa_attribute io = pos 901
vapaa_attribute host = pos 902
vapaa_attribute wtime_is_global = pos 903

pub record ConstantLib : Type 0 where
  pub proc_null : ℤ
  pub thread : ThreadLevel → ℤ
  pub comparison : Comparison → ℤ
  pub attribute : AttributeKey → ℤ

module _ (lib : ConstantLib) where
  open lib use {proc_null, thread, comparison, attribute}

  -- `C_MPI_PROC_NULL_DETECTOR`.
  unfoldable pub proc_null_detector : ℤ → ℤ
  proc_null_detector rank = if eq_ℤ rank vapaa_proc_null then proc_null else rank

  -- `C_MPI_COMM_ATTR_GLOBAL_F2C`.
  unfoldable pub comm_attr_global_f2c : ℤ → ℤ
  unfolding vapaa_attribute
  comm_attr_global_f2c f =
      if eq_ℤ f (vapaa_attribute tag_ub)
      then attribute tag_ub
      else if eq_ℤ f (vapaa_attribute io)
      then attribute io
      else if eq_ℤ f (vapaa_attribute host)
      then attribute host
      else if eq_ℤ f (vapaa_attribute wtime_is_global)
      then attribute wtime_is_global
      else f

  -- `C_MPI_THREAD_LEVEL_F2C`.
  unfoldable pub thread_level_f2c : ℤ → ℤ
  unfolding vapaa_thread
  thread_level_f2c level =
      if eq_ℤ level (vapaa_thread multiple)
      then thread multiple
      else if eq_ℤ level (vapaa_thread serialized)
      then thread serialized
      else if eq_ℤ level (vapaa_thread funneled)
      then thread funneled
      else thread single

  -- `C_MPI_THREAD_LEVEL_C2F`.
  unfoldable pub thread_level_c2f : ℤ → ℤ
  unfolding vapaa_thread
  thread_level_c2f level =
      if eq_ℤ level (thread multiple)
      then vapaa_thread multiple
      else if eq_ℤ level (thread serialized)
      then vapaa_thread serialized
      else if eq_ℤ level (thread funneled)
      then vapaa_thread funneled
      else vapaa_thread single

  -- `C_MPI_COMPARE_RESULT_F2C`; `none` where it calls MPI_Abort.
  unfoldable pub compare_result_f2c : ℤ → Option ℤ
  unfolding vapaa_comparison
  compare_result_f2c level =
      if eq_ℤ level (vapaa_comparison unequal)
      then some (comparison unequal)
      else if eq_ℤ level (vapaa_comparison similar)
      then some (comparison similar)
      else if eq_ℤ level (vapaa_comparison congruent)
      then some (comparison congruent)
      else if eq_ℤ level (vapaa_comparison ident)
      then some (comparison ident)
      else none

  -- `C_MPI_COMPARE_RESULT_C2F`; `none` where it calls MPI_Abort.
  unfoldable pub compare_result_c2f : ℤ → Option ℤ
  unfolding vapaa_comparison
  compare_result_c2f level =
      if eq_ℤ level (comparison unequal)
      then some (vapaa_comparison unequal)
      else if eq_ℤ level (comparison similar)
      then some (vapaa_comparison similar)
      else if eq_ℤ level (comparison congruent)
      then some (vapaa_comparison congruent)
      else if eq_ℤ level (comparison ident)
      then some (vapaa_comparison ident)
      else none
