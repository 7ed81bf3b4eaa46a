-- ===== src/Transfer/Probes.antt =====
-- Probing, testing and waiting for one request, and MPI_Waitall: source/mpi_p2p.c. With them
-- source/mpi_request.c and source/mpi_status.c. `held` is what Fortran's status objects hold before the
-- call.
pub mod Reports
pub mod Tests
use vapaa.Prelude.{
  ℕ, zero, suc, Bool, true, false, List, [], ◌∷◌, map, ℤ, pos, length, if◌then◌else◌,
}
use vapaa.Errors.Names.{err_other}
use vapaa.Convert.{ConstantLib, proc_null_detector}
use vapaa.Handles.{type_f2c, comm_f2c, request_f2c}
use vapaa.Statuses.{Vendor, CStatus, FStatus, status_c2f}
use vapaa.Sentinels.{is_sentinel, status_ignore, statuses_ignore}
use vapaa.Run.{Run, ◌>>=◌, pure}
use vapaa.Mpi.{Made}
use vapaa.Transfer.{Env, call, started, fix_rc, status}

pub record Probing (W : Type 0) (v : Vendor) : Type 0 where
  -- Source, tag, communicator, and if a status is passed: return code and the local status afterwards.
  pub probe : ℤ → ℤ → ℤ → Bool → W → (ℤ × CStatus v) × W
  -- Source, tag, communicator, status, and the message.
  pub mprobe : ℤ → ℤ → ℤ → ℤ → W → Made W
  -- Request and status: return code, request and flag.
  pub test : ℤ → ℤ → W → (ℤ × ℤ × ℤ) × W
  pub wait : ℤ → ℤ → W → Made W
  -- Requests, and if statuses are passed: return code, the requests and the local statuses afterwards.
  pub waitall : List ℤ → Bool → W → (ℤ × List ℤ × (ℕ → CStatus v)) × W
  -- Return code and flag.
  pub request_get_status : ℤ → W → (ℤ × ℤ) × W
  pub request_free : ℤ → W → Made W
  -- Status, datatype, count: return code and status.
  pub status_set_elements : CStatus v → ℤ → ℤ → W → (ℤ × CStatus v) × W

-- The loop of C_MPI_Waitall that copies statuses, from entry i of the local ones on.
unfoldable pub copy_statuses :
    (v : Vendor) (local : ℕ → CStatus v) (i count : ℕ) → List FStatus → List FStatus
unfolding status_c2f
copy_statuses v local i zero held = held
copy_statuses v local i (suc n) [] = []
copy_statuses v local i (suc n) (f ∷ held) =
    status_c2f v (local i) f ∷ copy_statuses v local (suc i) n held

module _ {W : Type 0} (env : Env W) (constants : ConstantLib) {v : Vendor}
    (probing : Probing W v) where
  open env use {mpi, config, sentinels}
  open probing use {
    probe, mprobe, test, wait, waitall, request_get_status, request_free, status_set_elements,
  }

  -- `C_MPI_Probe`: *ierror and *status_f, whose address is `status_at`.
  unfoldable pub c_probe :
      (source tag comm_f status_at : ℤ) (held : FStatus) → W → Run W (ℤ × FStatus)
  unfolding fix_rc status_c2f
  c_probe source tag comm_f status_at held =
      let need_status = is_sentinel sentinels status_ignore status_at in
      (do
        (rc, local) ← call (
            probe (proc_null_detector constants source) tag (comm_f2c mpi.handles comm_f)
              need_status)
        ierror ← fix_rc env rc
        pure (ierror, if need_status then status_c2f v local held else held))

  -- `C_MPI_Mprobe`: *ierror and *message_f.
  unfoldable pub c_mprobe : (source tag comm_f status_at : ℤ) → W → Run W (ℤ × ℤ)
  unfolding fix_rc status
  c_mprobe source tag comm_f status_at = do
    (rc, message) ← call (
        started (
          mprobe (proc_null_detector constants source) tag (comm_f2c mpi.handles comm_f)
            (status env status_at)))
    ierror ← fix_rc env rc
    pure (ierror, mpi.handles.mpi_message_c2f message)

  -- `C_MPI_Test`: *ierror, *request_f and *flag.
  unfoldable pub c_test : (request_f status_at : ℤ) → W → Run W (ℤ × ℤ × ℤ)
  unfolding fix_rc status
  c_test request_f status_at = do
    (rc, request, flag) ← call (test (request_f2c mpi.handles request_f) (status env status_at))
    ierror ← fix_rc env rc
    pure (ierror, mpi.handles.mpi_request_c2f request, flag)

  -- `C_MPI_Wait`: *ierror and *request_f.
  unfoldable pub c_wait : (request_f status_at : ℤ) → W → Run W (ℤ × ℤ)
  unfolding fix_rc status
  c_wait request_f status_at = do
    (rc, request) ← call (started (wait (request_f2c mpi.handles request_f) (status env status_at)))
    ierror ← fix_rc env rc
    pure (ierror, mpi.handles.mpi_request_c2f request)

  -- `C_MPI_Waitall`: *ierror, requests_f and statuses_f. The sizes are those of MPI_Request and MPI_Status.
  -- Where there is no memory for the statuses, the requests are not stored back.
  unfoldable pub c_waitall :
      (request_size status_size : ℕ) (requests_f : List ℤ) (statuses_at : ℤ) (held : List FStatus)
      → W
      → Run W (ℤ × List ℤ × List FStatus)
  unfolding fix_rc copy_statuses
  c_waitall request_size status_size requests_f statuses_at held w =
      let count = length requests_f in
      let requests = map (request_f2c mpi.handles) requests_f in
      let no_memory = (do
        ierror ← fix_rc env (mpi.errors.error err_other)
        pure (ierror, requests_f, held)) in
      if mpi.malloc (pos count) request_size w
      then (if is_sentinel sentinels statuses_ignore statuses_at
          then (do
            (rc, left, _) ← call (waitall requests false)
            ierror ← fix_rc env rc
            pure (ierror, map mpi.handles.mpi_request_c2f left, held))
              w
          else if mpi.malloc (pos count) status_size w
          then (do
            (rc, left, local) ← call (waitall requests true)
            ierror ← fix_rc env rc
            pure (ierror, map mpi.handles.mpi_request_c2f left, copy_statuses v local 0 count held))
              w
          else no_memory w)
      else no_memory w

  -- `C_MPI_Request_get_status`: *ierror and *flag_f. The status is passed by value, and what the library
  -- writes to the copy is lost.
  unfoldable pub c_request_get_status : (request_f : ℤ) → W → Run W (ℤ × ℤ)
  unfolding fix_rc
  c_request_get_status request_f = do
    (rc, flag) ← call (request_get_status (request_f2c mpi.handles request_f))
    ierror ← fix_rc env rc
    pure (ierror, flag)

  -- `C_MPI_Request_free`: *ierror and *request_f.
  unfoldable pub c_request_free : (request_f : ℤ) → W → Run W (ℤ × ℤ)
  unfolding fix_rc
  c_request_free request_f = do
    (rc, request) ← call (started (request_free (request_f2c mpi.handles request_f)))
    ierror ← fix_rc env rc
    pure (ierror, mpi.handles.mpi_request_c2f request)

  -- `C_MPI_Status_set_elements`: *ierror and *status_f. `fresh` is what the local status happens to hold.
  unfoldable pub c_status_set_elements :
      (fresh : CStatus v) (held : FStatus) (datatype_f count : ℤ) → W → Run W (ℤ × FStatus)
  unfolding fix_rc status_c2f
  c_status_set_elements fresh held datatype_f count = do
    (rc, local) ← call (status_set_elements fresh (type_f2c mpi.handles config datatype_f) count)
    ierror ← fix_rc env rc
    pure (ierror, status_c2f v local held)
