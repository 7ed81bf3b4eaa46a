-- ===== src/Transfer/Guard.antt =====
-- The guard of the reductions in source/mpi_coll.c.
use vapaa.Prelude.{◌≡◌, refl, Bool, true, false, ℤ, eq_ℤ, eq_ℤ-false, some}
use vapaa.Errors.Names.{ErrorClass, success, err_op, vapaa_error, error_ladder}
use vapaa.Errors.{ErrorLaws, rc_fix}
use vapaa.Errors.RoundTrip.{error_round_trip, Listed}
use vapaa.Handles.{type_f2c, op_f2c, type_is_builtin, op_is_builtin}
use vapaa.Run.{done}
use vapaa.Cfi.{Desc}
use vapaa.Transfer.{Env, fix_rc}
use vapaa.Transfer.Collectives.{unsupported, reduce, cfi_reduce, allreduce, cfi_allreduce}

err_op-Listed : (version4 : Bool) → Listed version4 err_op
unfolding vapaa_error error_ladder
err_op-Listed true = refl
err_op-Listed false = refl

op_not_success : err_op ≡ success → ⊥
op_not_success e = cc e

module _ {W : Type 0} (env : Env W) (laws : ErrorLaws env.mpi.errors) where
  open env use {mpi, messages, config, version4}

  -- The code of a listed class, where an error is returned without a call.
  pub fix_rc-Listed :
      (c : ErrorClass) (w : W)
      → Listed version4 c
      → (c ≡ success → ⊥)
      → fix_rc env (mpi.errors.error c) w ≡ done (vapaa_error c) w
  unfolding fix_rc rc_fix
  fix_rc-Listed c w listed other =
      let apart : eq_ℤ (mpi.errors.error c) (mpi.errors.error success) ≡ false =
        eq_ℤ-false (mpi.errors.error c) (mpi.errors.error success)
          (λ e. other (laws.injective c success e)) in
      let fixed : rc_fix mpi.errors version4 (mpi.errors.error c) ≡ some (vapaa_error c) =
        rw apart (error_round_trip laws version4 c listed).1 in
      rw (fixed, fix_rc)

  refused : (w : W) → fix_rc env (mpi.errors.error err_op) w ≡ done (vapaa_error err_op) w
  refused w = fix_rc-Listed err_op w (err_op-Listed version4) op_not_success

  -- For an operator of the user's on a built-in datatype all four reductions return Fortran's
  -- MPI_ERR_OP, and no reduction is called: the state is as it was.
  pub reductions-refuse :
      (datatype_f op_f : ℤ)
      → op_is_builtin mpi.handles (op_f2c mpi.handles op_f) ≡ false
      → type_is_builtin mpi.handles config (type_f2c mpi.handles config datatype_f) ≡ true
      → (a b n root comm_f : ℤ) (input output : Desc) (w : W)
      → (reduce env a b n datatype_f op_f root comm_f w ≡ done (vapaa_error err_op) w)
        × (cfi_reduce env input output n datatype_f op_f root comm_f w
            ≡ done (vapaa_error err_op) w)
        × (allreduce env a b n datatype_f op_f comm_f w ≡ done (vapaa_error err_op) w)
        × (cfi_allreduce env input output n datatype_f op_f comm_f w ≡ done (vapaa_error err_op) w)
  unfolding reduce cfi_reduce allreduce cfi_allreduce unsupported
  reductions-refuse datatype_f op_f user builtin a b n root comm_f input output w = (
    rw (user, builtin) (refused w),
    rw (user, builtin) (refused w),
    rw (user, builtin) (refused w),
    rw (user, builtin) (refused w),
  )
