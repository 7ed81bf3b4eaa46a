-- ===== src/Transfer.antt =====
-- The calls that send data: source/mpi_p2p.c and source/mpi_coll.c. `Messages` holds the calls of the
-- MPI library; each gives its return code and the library's next state, where it starts an operation
-- also the request. Buffers are addresses.
pub mod Sections
pub mod Shims
pub mod Collectives
pub mod Exchange
pub mod Gathers
pub mod Guard
pub mod Vectors
pub mod Flat
pub mod PointToPoint
pub mod Probes
pub mod Sessions
pub mod Effects
pub mod Mail
pub mod Once
pub mod Requests
pub mod Tests
use vapaa.Prelude.{Bool, Option, none, some, List, ℤ, pos, eq_ℤ, if◌then◌else◌}
use vapaa.Handles.DatatypeNames.{Config, datatype_null}
use vapaa.Handles.{type_f2c, comm_f2c}
use vapaa.Errors.{rc_fix}
use vapaa.Run.{Run, done, aborted, ◌>>=◌, ◌>>◌, pure, vapaa_assert}
use vapaa.Mpi.{Mpi, Made, made, ok}
use vapaa.Sentinels.{Sentinels, in_place, status_ignore, is_sentinel}
use vapaa.Cfi.{Desc, Build}
use vapaa.Cfi.Create.{create_datatype}

pub record Messages (W : Type 0) : Type 0 where
  -- The values of MPI_IN_PLACE and MPI_STATUS_IGNORE.
  pub mpi_in_place : ℤ
  pub mpi_status_ignore : ℤ
  -- Buffer, count, datatype, root, communicator.
  pub bcast : ℤ → ℤ → ℤ → ℤ → ℤ → W → ℤ × W
  -- Buffer, count, datatype, destination, tag, communicator.
  pub send : ℤ → ℤ → ℤ → ℤ → ℤ → ℤ → W → ℤ × W
  -- The same, and the request.
  pub isend : ℤ → ℤ → ℤ → ℤ → ℤ → ℤ → W → Made W
  -- Buffer, count, datatype, source, tag, communicator, status.
  pub recv : ℤ → ℤ → ℤ → ℤ → ℤ → ℤ → ℤ → W → ℤ × W
  -- Buffer, count, datatype, source, tag, communicator, and the request.
  pub irecv : ℤ → ℤ → ℤ → ℤ → ℤ → ℤ → W → Made W
  -- Input, its count and datatype, output, its count and datatype, root, communicator.
  pub gather : ℤ → ℤ → ℤ → ℤ → ℤ → ℤ → ℤ → ℤ → W → ℤ × W
  pub scatter : ℤ → ℤ → ℤ → ℤ → ℤ → ℤ → ℤ → ℤ → W → ℤ × W
  -- The same without a root.
  pub allgather : ℤ → ℤ → ℤ → ℤ → ℤ → ℤ → ℤ → W → ℤ × W
  pub alltoall : ℤ → ℤ → ℤ → ℤ → ℤ → ℤ → ℤ → W → ℤ × W
  -- Input, output, count, datatype, operator, root, communicator.
  pub reduce : ℤ → ℤ → ℤ → ℤ → ℤ → ℤ → ℤ → W → ℤ × W
  -- The same without a root.
  pub allreduce : ℤ → ℤ → ℤ → ℤ → ℤ → ℤ → W → ℤ × W

-- What the shims rest on.
pub record Env (W : Type 0) : Type 0 where
  pub mpi : Mpi W
  pub messages : Messages W
  pub config : Config
  pub version4 : Bool
  pub build : Build
  pub sentinels : Sentinels

-- A call with whose return code, or results, the code goes on.
abbrev pub call : {W A : Type 0} → (W → A × W) → W → Run W A
call f w = let (a, w') = f w in done a w'

-- A call that starts an operation: its return code and the request.
abbrev pub started : {W : Type 0} → (W → Made W) → W → (ℤ × ℤ) × W
started f w = let m = f w in ((m.rc, m.handle), m.world)

abbrev pub contiguous : Build → Desc → Bool
contiguous build desc = eq_ℤ (pos 1) (build.is_contiguous desc)

module _ {W : Type 0} (env : Env W) where
  open env use {mpi, messages, config, version4, build, sentinels}

  -- `C_MPI_RC_FIX`, which may abort.
  unfoldable pub fix_rc : ℤ → W → Run W ℤ
  fix_rc rc w = elim (rc_fix mpi.errors version4 rc) [ none ↦ aborted | some v ↦ done v w ]

  -- `C_IS_MPI_IN_PLACE(a) ? MPI_IN_PLACE : a`.
  unfoldable pub place : ℤ → ℤ
  place a = if is_sentinel sentinels in_place a then messages.mpi_in_place else a

  -- `C_IS_MPI_STATUS_IGNORE(a) ? MPI_STATUS_IGNORE : a`.
  unfoldable pub status : ℤ → ℤ
  status a = if is_sentinel sentinels status_ignore a then messages.mpi_status_ignore else a

  -- A datatype for the section, committed; the variable held `out` before.
  unfoldable pub commit_section : Desc → (count datatype out : ℤ) → W → Run W ℤ
  commit_section desc count datatype out = do
    (rc, t) ← create_datatype mpi build desc count datatype out
    vapaa_assert (ok mpi rc)
    made mpi (mpi.type_commit t)

  -- The block that the shims of one descriptor repeat: the section's datatype is made, committed,
  -- used and freed.
  unfoldable pub with_section :
      {A : Type 0} → Desc → (count datatype : ℤ) → (ℤ → W → Run W A) → W → Run W A
  unfolding commit_section
  with_section desc count datatype body = do
    t ← commit_section desc count datatype (mpi.handles.datatype datatype_null)
    rc ← body t
    _ ← made mpi (mpi.type_free t)
    pure rc

  -- `C_MPI_Bcast`.
  unfoldable pub bcast : (buffer count datatype_f root comm_f : ℤ) → W → Run W ℤ
  unfolding fix_rc
  bcast buffer count datatype_f root comm_f = do
    rc ← call (
        messages.bcast buffer count (type_f2c mpi.handles config datatype_f) root
          (comm_f2c mpi.handles comm_f))
    fix_rc rc

  -- `CFI_MPI_Bcast`.
  unfoldable pub cfi_bcast : Desc → (count datatype_f root comm_f : ℤ) → W → Run W ℤ
  unfolding with_section fix_rc
  cfi_bcast desc count datatype_f root comm_f =
      let datatype = type_f2c mpi.handles config datatype_f in
      let comm = comm_f2c mpi.handles comm_f in
      (do
        rc ←
            if contiguous build desc
            then call (messages.bcast desc.base_addr count datatype root comm)
            else with_section desc count datatype
                (λ t. call (messages.bcast desc.base_addr (pos 1) t root comm))
        fix_rc rc)

  -- `C_MPI_Send`.
  unfoldable pub send : (buffer count datatype_f dest tag comm_f : ℤ) → W → Run W ℤ
  unfolding fix_rc
  send buffer count datatype_f dest tag comm_f = do
    rc ← call (
        messages.send buffer count (type_f2c mpi.handles config datatype_f) dest tag
          (comm_f2c mpi.handles comm_f))
    fix_rc rc

  -- `CFI_MPI_Send`.
  unfoldable pub cfi_send : Desc → (count datatype_f dest tag comm_f : ℤ) → W → Run W ℤ
  unfolding with_section fix_rc
  cfi_send desc count datatype_f dest tag comm_f =
      let datatype = type_f2c mpi.handles config datatype_f in
      let comm = comm_f2c mpi.handles comm_f in
      (do
        rc ←
            if contiguous build desc
            then call (messages.send desc.base_addr count datatype dest tag comm)
            else with_section desc count datatype
                (λ t. call (messages.send desc.base_addr (pos 1) t dest tag comm))
        fix_rc rc)

  -- `C_MPI_Recv`.
  unfoldable pub recv : (buffer count datatype_f source tag comm_f status_f : ℤ) → W → Run W ℤ
  unfolding fix_rc status
  recv buffer count datatype_f source tag comm_f status_f = do
    rc ← call (
        messages.recv buffer count (type_f2c mpi.handles config datatype_f) source tag
          (comm_f2c mpi.handles comm_f) (status status_f))
    fix_rc rc

  -- `CFI_MPI_Recv`.
  unfoldable pub cfi_recv : Desc → (count datatype_f source tag comm_f status_f : ℤ) → W → Run W ℤ
  unfolding with_section fix_rc status
  cfi_recv desc count datatype_f source tag comm_f status_f =
      let datatype = type_f2c mpi.handles config datatype_f in
      let comm = comm_f2c mpi.handles comm_f in
      (do
        rc ←
            if contiguous build desc
            then call
                (messages.recv desc.base_addr count datatype source tag comm (status status_f))
            else with_section desc count datatype (λ t.
              call (messages.recv desc.base_addr (pos 1) t source tag comm (status status_f)))
        fix_rc rc)
