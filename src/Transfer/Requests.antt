-- ===== src/Transfer/Requests.antt =====
-- Waiting for requests and testing them: source/mpi_p2p.c. A call of the library takes the requests and
-- gives them back as it leaves them. A status that is asked for is written by the library at the
-- address that it is passed.
pub mod Left
mod Tests
use vapaa.Prelude.{
  ◌≡◌, ℕ, Bool, Option, none, some, List, [], ◌∷◌, map, ℤ, pos, if◌then◌else◌, length, replicate,
}
use vapaa.Errors.Names.{err_other}
use vapaa.Handles.{request_f2c}
use vapaa.Run.{Run, done, ◌>>=◌, pure}
use vapaa.Sentinels.{is_sentinel, statuses_ignore}
use vapaa.Transfer.{Env, fix_rc, status}

-- Return code, the requests afterwards, and what else the call gives: flags, counts, an index.
pub record Polled (W : Type 0) : Type 0 where
  pub rc : ℤ
  pub requests : List ℤ
  pub flag : ℤ
  pub count : ℤ
  pub index : ℤ
  pub indices : List ℤ
  pub world : W

pub record Polling (W : Type 0) : Type 0 where
  pub mpi_statuses_ignore : ℤ
  -- Requests and the address of the status or statuses.
  pub testall : List ℤ → ℤ → W → Polled W
  pub testsome : List ℤ → ℤ → W → Polled W
  pub testany : List ℤ → ℤ → W → Polled W
  pub waitsome : List ℤ → ℤ → W → Polled W
  pub waitany : List ℤ → ℤ → W → Polled W

-- What a shim leaves: *ierror, the Fortran requests, and the other results if it got that far.
pub record Outcome : Type 0 where
  pub ierror : ℤ
  pub requests_f : List ℤ
  pub flag : Option ℤ
  pub outcount : Option ℤ
  pub index : Option ℤ
  pub indices : Option (List ℤ)

module _ {W : Type 0} (env : Env W) (polling : Polling W) where
  open env use {mpi, messages, config, version4, sentinels}
  open polling use {mpi_statuses_ignore, testall, testsome, testany, waitsome, waitany}

  -- `C_IS_MPI_STATUSES_IGNORE(a) ? MPI_STATUSES_IGNORE : a`.
  unfoldable pub statuses : ℤ → ℤ
  statuses a = if is_sentinel sentinels statuses_ignore a then mpi_statuses_ignore else a

  -- No memory for the array of requests.
  unfoldable pub no_memory : List ℤ → W → Run W Outcome
  no_memory requests_f = do
    ierror ← fix_rc env (mpi.errors.error err_other)
    pure (record {
      ierror = ierror;
      requests_f = requests_f;
      flag = none;
      outcount = none;
      index = none;
      indices = none;
    })

  -- The array of C requests, made and filled, around a call of the library. The requests that the
  -- call leaves are stored back, whatever its return code, and `fix` is applied to that; `size` is
  -- sizeof(MPI_Request).
  unfoldable pub converted :
      (size : ℕ) (fix : ℤ → W → Run W ℤ) (poll : List ℤ → W → Polled W)
      (results : Polled W → Outcome → Outcome) (requests_f : List ℤ)
      → W
      → Run W Outcome
  unfolding no_memory
  converted size fix poll results requests_f w =
      if mpi.malloc (pos (length requests_f)) size w
      then (let p = poll (map (request_f2c mpi.handles) requests_f) w in
          (do
            ierror ← fix p.rc
            pure (
                results p (record {
                  ierror = ierror;
                  requests_f = map mpi.handles.mpi_request_c2f p.requests;
                  flag = none;
                  outcount = none;
                  index = none;
                  indices = none;
                })))
            p.world)
      else no_memory requests_f w

  -- `C_MPI_Testall`.
  unfoldable pub c_testall : (size : ℕ) (requests_f : List ℤ) (statuses_f : ℤ) → W → Run W Outcome
  unfolding converted statuses
  c_testall size requests_f statuses_f =
      converted size (fix_rc env) (λ rs. testall rs (statuses statuses_f))
        (λ p o. record o { flag = some p.flag }) requests_f

  -- `C_MPI_Testsome`.
  unfoldable pub c_testsome : (size : ℕ) (requests_f : List ℤ) (statuses_f : ℤ) → W → Run W Outcome
  unfolding converted statuses
  c_testsome size requests_f statuses_f =
      converted size (fix_rc env) (λ rs. testsome rs (statuses statuses_f))
        (λ p o. record o { outcount = some p.count; indices = some p.indices }) requests_f

  -- `C_MPI_Waitsome`.
  unfoldable pub c_waitsome : (size : ℕ) (requests_f : List ℤ) (statuses_f : ℤ) → W → Run W Outcome
  unfolding converted statuses
  c_waitsome size requests_f statuses_f =
      converted size (fix_rc env) (λ rs. waitsome rs (statuses statuses_f))
        (λ p o. record o { outcount = some p.count; indices = some p.indices }) requests_f

  -- `C_MPI_Waitany`.
  unfoldable pub c_waitany : (size : ℕ) (requests_f : List ℤ) (status_f : ℤ) → W → Run W Outcome
  unfolding converted status
  c_waitany size requests_f status_f =
      converted size (fix_rc env) (λ rs. waitany rs (status env status_f))
        (λ p o. record o { index = some p.index }) requests_f

  -- `C_MPI_Testany`, which leaves its return code as it is.
  unfoldable pub c_testany : (size : ℕ) (requests_f : List ℤ) (status_f : ℤ) → W → Run W Outcome
  unfolding converted status
  c_testany size requests_f status_f =
      converted size pure (λ rs. testany rs (status env status_f))
        (λ p o. record o { flag = some p.flag; index = some p.index }) requests_f
