-- ===== src/Queries/Answers.antt =====
-- What Fortran is told by the calls of Queries.
use vapaa.Prelude.{◌≡◌, ap, ◌∙◌, Option, some, ℤ, eq_ℤ-refl}
use vapaa.Errors.Names.{success}
use vapaa.Errors.{rc_fix}
use vapaa.Handles.{comm_f2c}
use vapaa.Convert.{ConstantLib, Comparison, vapaa_comparison, compare_result_c2f}
use vapaa.Convert.Levels.{compare_result_round_trip}
use vapaa.Run.{done, ◌>>=◌}
use vapaa.Transfer.{Env, fix_rc}
use vapaa.Queries.{Querying, deliver, c_comm_compare}

module _ {W : Type 0} (env : Env W) (constants : ConstantLib) (querying : Querying W) where
  open env use {mpi, version4}

  fix_success :
      (w : W) → fix_rc env (mpi.errors.error success) w ≡ done (mpi.errors.error success) w
  unfolding fix_rc rc_fix
  fix_success w =
      let e : rc_fix mpi.errors version4 (mpi.errors.error success)
          ≡ some (mpi.errors.error success) =
        rw (eq_ℤ-refl (mpi.errors.error success)) in
      rw (e, fix_rc)

  deliver_done :
      (translate : ℤ → Option ℤ) (r : ℤ × ℤ × W) (w' : W) (result result_f : ℤ)
      → r ≡ (mpi.errors.error success, result, w')
      → translate result ≡ some result_f
      → deliver env constants querying translate r ≡ done (mpi.errors.error success, result_f) w'
  unfolding deliver
  deliver_done translate r w' result result_f h t =
      ap (deliver env constants querying translate) h ∙ rw (t, fix_success w', deliver, ◌>>=◌)

  -- `C_MPI_Comm_compare` tells Fortran the result of a comparison that succeeds by Fortran's number,
  -- where the values of mpi.h differ.
  pub c_comm_compare-result :
      ((r s : Comparison) → constants.comparison r ≡ constants.comparison s → r ≡ s)
      → (comm1_f comm2_f : ℤ) (w w' : W) (r : Comparison)
      → querying.comm_compare (comm_f2c mpi.handles comm1_f) (comm_f2c mpi.handles comm2_f) w
        ≡ (mpi.errors.error success, constants.comparison r, w')
      → c_comm_compare env constants querying comm1_f comm2_f w
        ≡ done (mpi.errors.error success, vapaa_comparison r) w'
  unfolding c_comm_compare
  c_comm_compare-result differ comm1_f comm2_f w w' r h =
      deliver_done (compare_result_c2f constants)
        (querying.comm_compare (comm_f2c mpi.handles comm1_f) (comm_f2c mpi.handles comm2_f) w) w'
        (constants.comparison r) (vapaa_comparison r) h
        (compare_result_round_trip constants differ r).1
