-- ===== src/Transfer/Sessions.antt =====
-- Sequences of transfers through the shims of source/mpi_p2p.c and source/mpi_coll.c.
mod Kept
pub mod Same
mod Tests
use vapaa.Prelude.{◌≡◌, ℕ, Option, ℤ, pos}
use vapaa.Errors.Names.{success}
use vapaa.Handles.{type_f2c}
use vapaa.Run.{done}
use vapaa.Mpi.Laws.{TypeInfo}
use vapaa.Cfi.{Desc}
use vapaa.Transfer.{Env, call, cfi_bcast, cfi_send, cfi_recv}
use vapaa.Transfer.Exchange.{IsSide}
use vapaa.Mpi.{Made}
use vapaa.Transfer.PointToPoint.{Matched, cfi_isend, cfi_irecv, cfi_sendrecv}
use vapaa.Transfer.Collectives.{cfi_gather}

module _ {W : Type 0} (env : Env W) (matched : Matched W) (view : W → ℤ → Option TypeInfo) where
  open env use {mpi, messages, config}

  -- A call of the library that changes no datatype and returns a known code.
  abbrev pub Mild : (W → ℤ × W) → Type 0
  Mild f =
      (v : W)
      → ((u : ℤ) → view (f v).1 u ≡ view v u)
        × ((mpi.errors.error_class (f v).0).0 ≡ mpi.errors.error success)

  abbrev pub MildStart : (W → Made W) → Type 0
  MildStart f =
      (v : W)
      → ((u : ℤ) → view (f v).world u ≡ view v u)
        × ((mpi.errors.error_class (f v).rc).0 ≡ mpi.errors.error success)

  -- The calls that transfer data are mild.
  pub record MessageLaws : Type 0 where
    pub bcast_mild : (a n t root c : ℤ) → Mild (messages.bcast a n t root c)
    pub send_mild : (a n t dest tag c : ℤ) → Mild (messages.send a n t dest tag c)
    pub recv_mild : (a n t source tag c s : ℤ) → Mild (messages.recv a n t source tag c s)
    pub gather_mild : (a n t b m u root c : ℤ) → Mild (messages.gather a n t b m u root c)
    pub isend_mild : (a n t dest tag c : ℤ) → MildStart (messages.isend a n t dest tag c)
    pub irecv_mild : (a n t source tag c : ℤ) → MildStart (messages.irecv a n t source tag c)
    pub sendrecv_mild :
        (a n t dest stag b m u source rtag c s : ℤ)
        → Mild (matched.sendrecv a n t dest stag b m u source rtag c s)

  abbrev Side : Desc → ℕ → ℤ → W → Type 0
  Side desc c datatype_f w = IsSide env view desc c (type_f2c mpi.handles config datatype_f) w

  -- One transfer of enough elements of named types, that returned.
  pub data Transferred : W → W → Type 0 where
    broadcast :
        (desc : Desc) (c : ℕ) (datatype_f root comm_f ierror : ℤ) (w w' : W)
        → Side desc c datatype_f w
        → cfi_bcast env desc (pos c) datatype_f root comm_f w ≡ done ierror w'
        → Transferred w w'
    sent :
        (desc : Desc) (c : ℕ) (datatype_f dest tag comm_f ierror : ℤ) (w w' : W)
        → Side desc c datatype_f w
        → cfi_send env desc (pos c) datatype_f dest tag comm_f w ≡ done ierror w'
        → Transferred w w'
    received :
        (desc : Desc) (c : ℕ) (datatype_f source tag comm_f status_f ierror : ℤ) (w w' : W)
        → Side desc c datatype_f w
        → cfi_recv env desc (pos c) datatype_f source tag comm_f status_f w ≡ done ierror w'
        → Transferred w w'
    gathered :
        (input output : Desc) (c d : ℕ) (stype_f rtype_f root comm_f ierror : ℤ) (w w' : W)
        → Side input c stype_f w
        → Side output d rtype_f w
        → cfi_gather env input (pos c) stype_f output (pos d) rtype_f root comm_f w ≡ done ierror w'
        → Transferred w w'
    send_started :
        (desc : Desc) (c : ℕ) (datatype_f dest tag comm_f : ℤ) (r : ℤ × ℤ) (w w' : W)
        → Side desc c datatype_f w
        → cfi_isend env matched desc (pos c) datatype_f dest tag comm_f w ≡ done r w'
        → Transferred w w'
    receive_started :
        (desc : Desc) (c : ℕ) (datatype_f source tag comm_f : ℤ) (r : ℤ × ℤ) (w w' : W)
        → Side desc c datatype_f w
        → cfi_irecv env matched desc (pos c) datatype_f source tag comm_f w ≡ done r w'
        → Transferred w w'
    exchanged :
        (sdesc rdesc : Desc) (c d : ℕ)
        (stype_f dest stag rtype_f source rtag comm_f status_f ierror : ℤ) (w w' : W)
        → Side sdesc c stype_f w
        → Side rdesc d rtype_f w
        → cfi_sendrecv env matched sdesc
            (pos c)
            stype_f
            dest
            stag
            rdesc
            (pos d)
            rtype_f
            source
            rtag
            comm_f
            status_f
            w
          ≡ done ierror w'
        → Transferred w w'

  pub data Session (w : W) : W → Type 0 where
    at_start : Session w w
    followed : {v v' : W} → Session w v → Transferred v v' → Session w v'
