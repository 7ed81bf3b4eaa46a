-- ===== src/Objects/Groups.antt =====
-- Groups: source/mpi_group.c but for MPI_Group_compare, which is in Queries. Arrays are passed on by their
-- addresses.
use vapaa.Prelude.{ℤ}
use vapaa.Handles.{comm_f2c, group_f2c}
use vapaa.Run.{Run}
use vapaa.Mpi.{Made}
use vapaa.Transfer.{Env}
use vapaa.Objects.{number_of, code_of, result_of}

pub record GroupLib (W : Type 0) : Type 0 where
  -- Group and the variable: return code and the variable.
  pub group_rank : ℤ → ℤ → W → (ℤ × ℤ) × W
  pub group_size : ℤ → ℤ → W → (ℤ × ℤ) × W
  -- Group, number, ranks, group, ranks.
  pub group_translate_ranks : ℤ → ℤ → ℤ → ℤ → ℤ → W → ℤ × W
  pub comm_group : ℤ → W → Made W
  pub group_union : ℤ → ℤ → W → Made W
  pub group_intersection : ℤ → ℤ → W → Made W
  pub group_difference : ℤ → ℤ → W → Made W
  -- Group, number, ranks.
  pub group_incl : ℤ → ℤ → ℤ → W → Made W
  pub group_excl : ℤ → ℤ → ℤ → W → Made W
  pub group_free : ℤ → W → Made W

module _ {W : Type 0} (env : Env W) (groups : GroupLib W) where
  open env use {mpi}
  open groups use {
    group_rank, group_size, group_translate_ranks, comm_group, group_union, group_intersection,
    group_difference, group_incl, group_excl, group_free,
  }

  -- `C_MPI_Group_rank`.
  unfoldable pub c_group_rank : (group_f rank : ℤ) → W → Run W (ℤ × ℤ)
  unfolding result_of
  c_group_rank group_f rank w = result_of env (group_rank (group_f2c mpi.handles group_f) rank w)

  -- `C_MPI_Group_size`.
  unfoldable pub c_group_size : (group_f size : ℤ) → W → Run W (ℤ × ℤ)
  unfolding result_of
  c_group_size group_f size w = result_of env (group_size (group_f2c mpi.handles group_f) size w)

  -- `C_MPI_Group_translate_ranks`.
  unfoldable pub c_group_translate_ranks : (group1_f n ranks1 group2_f ranks2 : ℤ) → W → Run W ℤ
  unfolding code_of
  c_group_translate_ranks group1_f n ranks1 group2_f ranks2 w = code_of env (
      group_translate_ranks (group_f2c mpi.handles group1_f) n ranks1
        (group_f2c mpi.handles group2_f) ranks2 w)

  -- `C_MPI_Comm_group`.
  unfoldable pub c_comm_group : (comm_f : ℤ) → W → Run W (ℤ × ℤ)
  unfolding number_of
  c_comm_group comm_f w =
      number_of env mpi.handles.mpi_group_c2f (comm_group (comm_f2c mpi.handles comm_f) w)

  -- `C_MPI_Group_union`.
  unfoldable pub c_group_union : (group1_f group2_f : ℤ) → W → Run W (ℤ × ℤ)
  unfolding number_of
  c_group_union group1_f group2_f w =
      number_of env mpi.handles.mpi_group_c2f
        (group_union (group_f2c mpi.handles group1_f) (group_f2c mpi.handles group2_f) w)

  -- `C_MPI_Group_intersection`.
  unfoldable pub c_group_intersection : (group1_f group2_f : ℤ) → W → Run W (ℤ × ℤ)
  unfolding number_of
  c_group_intersection group1_f group2_f w =
      number_of env mpi.handles.mpi_group_c2f
        (group_intersection (group_f2c mpi.handles group1_f) (group_f2c mpi.handles group2_f) w)

  -- `C_MPI_Group_difference`.
  unfoldable pub c_group_difference : (group1_f group2_f : ℤ) → W → Run W (ℤ × ℤ)
  unfolding number_of
  c_group_difference group1_f group2_f w =
      number_of env mpi.handles.mpi_group_c2f
        (group_difference (group_f2c mpi.handles group1_f) (group_f2c mpi.handles group2_f) w)

  -- `C_MPI_Group_incl`.
  unfoldable pub c_group_incl : (group_f n ranks : ℤ) → W → Run W (ℤ × ℤ)
  unfolding number_of
  c_group_incl group_f n ranks w =
      number_of env mpi.handles.mpi_group_c2f (group_incl (group_f2c mpi.handles group_f) n ranks w)

  -- `C_MPI_Group_excl`.
  unfoldable pub c_group_excl : (group_f n ranks : ℤ) → W → Run W (ℤ × ℤ)
  unfolding number_of
  c_group_excl group_f n ranks w =
      number_of env mpi.handles.mpi_group_c2f (group_excl (group_f2c mpi.handles group_f) n ranks w)

  -- `C_MPI_Group_free`.
  unfoldable pub c_group_free : (group_f : ℤ) → W → Run W (ℤ × ℤ)
  unfolding number_of
  c_group_free group_f w =
      number_of env mpi.handles.mpi_group_c2f (group_free (group_f2c mpi.handles group_f) w)
