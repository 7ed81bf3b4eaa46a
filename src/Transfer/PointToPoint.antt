-- ===== src/Transfer/PointToPoint.antt =====
-- The point-to-point calls of source/mpi_p2p.c beside MPI_Send and MPI_Recv: those that start an
-- operation, those on a matched message and MPI_Sendrecv; Pack has MPI_Pack and MPI_Unpack. The C
-- code passes a copy of the message to the library and does not store it back.
pub mod Starting
pub mod Pack
pub mod Packing
pub mod Both
pub mod Twice
pub mod Tests
use vapaa.Prelude.{◌&&◌, ℤ, pos, if◌then◌else◌}
use vapaa.Handles.DatatypeNames.{datatype_null}
use vapaa.Handles.{type_f2c, comm_f2c, message_f2c}
use vapaa.Run.{Run, ◌>>=◌, pure}
use vapaa.Mpi.{Made, made}
use vapaa.Cfi.{Desc}
use vapaa.Transfer.{Env, call, started, contiguous, fix_rc, status, commit_section, with_section}

pub record Matched (W : Type 0) : Type 0 where
  -- Buffer, count, datatype, message, status.
  pub mrecv : ℤ → ℤ → ℤ → ℤ → ℤ → W → ℤ × W
  -- Buffer, count, datatype, message, and the request.
  pub imrecv : ℤ → ℤ → ℤ → ℤ → W → Made W
  -- What is sent: buffer, count, datatype, destination, tag; what is received: the same with
  -- a source; communicator and status.
  pub sendrecv : ℤ → ℤ → ℤ → ℤ → ℤ → ℤ → ℤ → ℤ → ℤ → ℤ → ℤ → ℤ → W → ℤ × W
  -- Input, count, datatype, output, its size, position, communicator: return code and position.
  pub pack : ℤ → ℤ → ℤ → ℤ → ℤ → ℤ → ℤ → W → (ℤ × ℤ) × W
  -- Input, its size, position, output, count, datatype, communicator: return code and position.
  pub unpack : ℤ → ℤ → ℤ → ℤ → ℤ → ℤ → ℤ → W → (ℤ × ℤ) × W

module _ {W : Type 0} (env : Env W) (matched : Matched W) where
  open env use {mpi, messages, config, build}
  open matched use {mrecv, imrecv, sendrecv}

  -- The end of a call that starts an operation: *ierror and *request_f.
  unfoldable pub store_request : (rc request : ℤ) → W → Run W (ℤ × ℤ)
  unfolding fix_rc
  store_request rc request = do
    ierror ← fix_rc env rc
    pure (ierror, mpi.handles.mpi_request_c2f request)

  -- `C_MPI_Isend`.
  unfoldable pub c_isend : (buffer count datatype_f dest tag comm_f : ℤ) → W → Run W (ℤ × ℤ)
  unfolding store_request
  c_isend buffer count datatype_f dest tag comm_f = do
    (rc, request) ← call (
        started (
          messages.isend buffer count (type_f2c mpi.handles config datatype_f) dest tag
            (comm_f2c mpi.handles comm_f)))
    store_request rc request

  -- `CFI_MPI_Isend`.
  unfoldable pub cfi_isend : Desc → (count datatype_f dest tag comm_f : ℤ) → W → Run W (ℤ × ℤ)
  unfolding with_section store_request
  cfi_isend desc count datatype_f dest tag comm_f = do
    (rc, request) ←
        if contiguous build desc
        then call (
            started (
              messages.isend desc.base_addr count (type_f2c mpi.handles config datatype_f) dest tag
                (comm_f2c mpi.handles comm_f)))
        else with_section env desc count (type_f2c mpi.handles config datatype_f) (λ t. call (
            started
              (messages.isend desc.base_addr (pos 1) t dest tag (comm_f2c mpi.handles comm_f))))
    store_request rc request

  -- `C_MPI_Irecv`.
  unfoldable pub c_irecv : (buffer count datatype_f source tag comm_f : ℤ) → W → Run W (ℤ × ℤ)
  unfolding store_request
  c_irecv buffer count datatype_f source tag comm_f = do
    (rc, request) ← call (
        started (
          messages.irecv buffer count (type_f2c mpi.handles config datatype_f) source tag
            (comm_f2c mpi.handles comm_f)))
    store_request rc request

  -- `CFI_MPI_Irecv`.
  unfoldable pub cfi_irecv : Desc → (count datatype_f source tag comm_f : ℤ) → W → Run W (ℤ × ℤ)
  unfolding with_section store_request
  cfi_irecv desc count datatype_f source tag comm_f = do
    (rc, request) ←
        if contiguous build desc
        then call (
            started (
              messages.irecv desc.base_addr count (type_f2c mpi.handles config datatype_f) source
                tag (comm_f2c mpi.handles comm_f)))
        else with_section env desc count (type_f2c mpi.handles config datatype_f) (λ t. call (
            started
              (messages.irecv desc.base_addr (pos 1) t source tag (comm_f2c mpi.handles comm_f))))
    store_request rc request

  -- `C_MPI_Imrecv`.
  unfoldable pub c_imrecv : (buffer count datatype_f message_f : ℤ) → W → Run W (ℤ × ℤ)
  unfolding store_request
  c_imrecv buffer count datatype_f message_f = do
    (rc, request) ← call (
        started (
          imrecv buffer count (type_f2c mpi.handles config datatype_f)
            (message_f2c mpi.handles message_f)))
    store_request rc request

  -- `CFI_MPI_Imrecv`.
  unfoldable pub cfi_imrecv : Desc → (count datatype_f message_f : ℤ) → W → Run W (ℤ × ℤ)
  unfolding with_section store_request
  cfi_imrecv desc count datatype_f message_f = do
    (rc, request) ←
        if contiguous build desc
        then call (
            started (
              imrecv desc.base_addr count (type_f2c mpi.handles config datatype_f)
                (message_f2c mpi.handles message_f)))
        else with_section env desc count (type_f2c mpi.handles config datatype_f) (λ t.
          call (started (imrecv desc.base_addr (pos 1) t (message_f2c mpi.handles message_f))))
    store_request rc request

  -- `C_MPI_Mrecv`.
  unfoldable pub c_mrecv : (buffer count datatype_f message_f status_f : ℤ) → W → Run W ℤ
  unfolding fix_rc status
  c_mrecv buffer count datatype_f message_f status_f = do
    rc ← call (
        mrecv buffer count (type_f2c mpi.handles config datatype_f)
          (message_f2c mpi.handles message_f) (status env status_f))
    fix_rc env rc

  -- `CFI_MPI_Mrecv`.
  unfoldable pub cfi_mrecv : Desc → (count datatype_f message_f status_f : ℤ) → W → Run W ℤ
  unfolding with_section fix_rc status
  cfi_mrecv desc count datatype_f message_f status_f =
      let datatype = type_f2c mpi.handles config datatype_f in
      let message = message_f2c mpi.handles message_f in
      (do
        rc ←
            if contiguous build desc
            then call (mrecv desc.base_addr count datatype message (status env status_f))
            else with_section env desc count datatype
                (λ t. call (mrecv desc.base_addr (pos 1) t message (status env status_f)))
        fix_rc env rc)

  -- `C_MPI_Sendrecv`.
  unfoldable pub c_sendrecv :
      (sbuffer scount stype_f dest stag rbuffer rcount rtype_f src rtag comm_f status_f : ℤ)
      → W
      → Run W ℤ
  unfolding fix_rc status
  c_sendrecv sbuffer scount stype_f dest stag rbuffer rcount rtype_f src rtag comm_f status_f = do
    rc ← call (
        sendrecv sbuffer scount (type_f2c mpi.handles config stype_f) dest stag rbuffer rcount
          (type_f2c mpi.handles config rtype_f) src rtag (comm_f2c mpi.handles comm_f)
          (status env status_f))
    fix_rc env rc

  -- `CFI_MPI_Sendrecv`, which tests the section that is sent twice and the other not at all.
  unfoldable pub cfi_sendrecv :
      (sdesc : Desc) (scount stype_f dest stag : ℤ) (rdesc : Desc)
      (rcount rtype_f src rtag comm_f status_f : ℤ)
      → W
      → Run W ℤ
  unfolding commit_section fix_rc status
  cfi_sendrecv sdesc scount stype_f dest stag rdesc rcount rtype_f src rtag comm_f status_f =
      let stype = type_f2c mpi.handles config stype_f in
      let rtype = type_f2c mpi.handles config rtype_f in
      let comm = comm_f2c mpi.handles comm_f in
      (do
        rc ←
            if contiguous build sdesc && contiguous build sdesc
            then call (
                sendrecv sdesc.base_addr scount stype dest stag rdesc.base_addr rcount rtype src
                  rtag comm (status env status_f))
            else (do
              s ← commit_section env sdesc scount stype (mpi.handles.datatype datatype_null)
              r ← commit_section env rdesc rcount rtype (mpi.handles.datatype datatype_null)
              rc ← call (
                  sendrecv sdesc.base_addr (pos 1) s dest stag rdesc.base_addr (pos 1) r src rtag
                    comm (status env status_f))
              _ ← made mpi (mpi.type_free s)
              _ ← made mpi (mpi.type_free r)
              pure rc)
        fix_rc env rc)
