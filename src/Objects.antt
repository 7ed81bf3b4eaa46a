-- ===== src/Objects.antt =====
-- Objects that Fortran knows by number: what the files source/mpi_comm.c, source/mpi_group.c,
-- source/mpi_info.c, source/mpi_datatype.c, source/mpi_op.c and source/mpi_attr.c have in common. Each
-- function converts handles around one call of the library.
pub mod Comms
pub mod Groups
pub mod Infos
pub mod Types
pub mod Names
pub mod Ends
pub mod Texts
pub mod Numbers
pub mod Laws
pub mod Lives
pub mod Sample
pub mod Lengths
mod Tests
use vapaa.Prelude.{ℤ}
use vapaa.Run.{Run, ◌>>=◌, pure}
use vapaa.Mpi.{Made}
use vapaa.Transfer.{Env, fix_rc}

module _ {W : Type 0} (env : Env W) where
  -- After a call that makes or changes an object: *ierror and the object's number, by MPI_X_c2f.
  unfoldable pub number_of : (c2f : ℤ → ℤ) → Made W → Run W (ℤ × ℤ)
  unfolding fix_rc
  number_of c2f m = (do ierror ← fix_rc env m.rc; pure (ierror, c2f m.handle)) m.world

  -- After a call with no result: *ierror.
  unfoldable pub code_of : ℤ × W → Run W ℤ
  unfolding fix_rc
  code_of (rc, w) = fix_rc env rc w

  -- After a call with a result that is passed on as it is: *ierror and the result.
  unfoldable pub result_of : {A : Type 0} → (ℤ × A) × W → Run W (ℤ × A)
  unfolding fix_rc
  result_of ((rc, a), w) = (do ierror ← fix_rc env rc; pure (ierror, a)) w
