-- ===== src/Transfer/Sessions/Same.antt =====
-- Sequences of transfers leave every datatype as it was: source/mpi_p2p.c and source/mpi_coll.c.
use vapaa.Prelude.{◌≡◌, refl, ◌∙◌, ℕ, true, ℤ, pos}
use vapaa.Handles.{type_f2c, comm_f2c}
use vapaa.Run.{Returns-done, Returns-weaken}
use vapaa.Mpi.Laws.{TypeLaws}
use vapaa.Transfer.{Env, status, cfi_bcast, cfi_send, cfi_recv}
use vapaa.Transfer.PointToPoint.{Matched, cfi_isend, cfi_irecv, cfi_sendrecv}
use vapaa.Transfer.Collectives.{cfi_gather}
use vapaa.Transfer.Gathers.{Passes, cfi_gather-Passes}
use vapaa.Transfer.Sessions.{
  MessageLaws, Transferred, broadcast, sent, received, gathered, send_started, receive_started,
  exchanged, Session, at_start, followed,
}
use vapaa.Transfer.Sessions.Kept.{Same, SameStart, shim-Same, start-Same, sendrecv-Same}

module _ {W : Type 0} (env : Env W) (laws : TypeLaws env.mpi)
    (memory : (n : ℤ) (b : ℕ) (w : W) → env.mpi.malloc n b w ≡ true) (matched : Matched W)
    (mild : MessageLaws env matched laws.view) where
  open env use {mpi, messages, config, build, version4}
  open laws use {view}

  Transferred-Same : {w w' : W} → Transferred env matched view w w' → (u : ℤ) → view w' u ≡ view w u
  unfolding cfi_bcast cfi_send cfi_recv cfi_isend cfi_irecv cfi_sendrecv
  Transferred-Same (broadcast desc c datatype_f root comm_f ierror w w' given e) =
      let comm = comm_f2c mpi.handles comm_f in
      Returns-done (Same env laws memory matched mild w)
        (cfi_bcast env desc (pos c) datatype_f root comm_f w)
        (shim-Same env laws memory matched mild desc c datatype_f w
          (messages.bcast desc.base_addr (pos c) (type_f2c mpi.handles config datatype_f) root comm)
          (λ t. messages.bcast desc.base_addr (pos 1) t root comm) given
          (mild.bcast_mild desc.base_addr (pos c) (type_f2c mpi.handles config datatype_f) root
            comm)
          (λ t. mild.bcast_mild desc.base_addr (pos 1) t root comm))
        e
  Transferred-Same (sent desc c datatype_f dest tag comm_f ierror w w' given e) =
      let comm = comm_f2c mpi.handles comm_f in
      Returns-done (Same env laws memory matched mild w)
        (cfi_send env desc (pos c) datatype_f dest tag comm_f w)
        (shim-Same env laws memory matched mild desc c datatype_f w
          (messages.send desc.base_addr (pos c) (type_f2c mpi.handles config datatype_f) dest tag
            comm)
          (λ t. messages.send desc.base_addr (pos 1) t dest tag comm) given
          (mild.send_mild desc.base_addr (pos c) (type_f2c mpi.handles config datatype_f) dest tag
            comm)
          (λ t. mild.send_mild desc.base_addr (pos 1) t dest tag comm))
        e
  Transferred-Same (received desc c datatype_f source tag comm_f status_f ierror w w' given e) =
      let comm = comm_f2c mpi.handles comm_f in
      let s = status env status_f in
      Returns-done (Same env laws memory matched mild w)
        (cfi_recv env desc (pos c) datatype_f source tag comm_f status_f w)
        (shim-Same env laws memory matched mild desc c datatype_f w
          (messages.recv desc.base_addr (pos c) (type_f2c mpi.handles config datatype_f) source tag
            comm s)
          (λ t. messages.recv desc.base_addr (pos 1) t source tag comm s) given
          (mild.recv_mild desc.base_addr (pos c) (type_f2c mpi.handles config datatype_f) source tag
            comm s)
          (λ t. mild.recv_mild desc.base_addr (pos 1) t source tag comm s))
        e
  Transferred-Same
        (gathered input output c d stype_f rtype_f root comm_f ierror w w' given given' e) =
      let comm = comm_f2c mpi.handles comm_f in
      Returns-done (Same env laws memory matched mild w)
        (cfi_gather env input (pos c) stype_f output (pos d) rtype_f root comm_f w)
        (Returns-weaken
          (Passes env view (λ a n t b m s. messages.gather a n t b m s root comm) input c
            (type_f2c mpi.handles config stype_f) output d (type_f2c mpi.handles config rtype_f) w)
          (Same env laws memory matched mild w)
          (cfi_gather env input (pos c) stype_f output (pos d) rtype_f root comm_f w)
          (cfi_gather-Passes env laws memory input c stype_f output d rtype_f w given given' root
            comm_f (λ a n t b m s u v. (mild.gather_mild a n t b m s root comm v).0 u)
            (λ a n t b m s v. (mild.gather_mild a n t b m s root comm v).1))
          (λ r w' passes. passes.unchanged))
        e
  Transferred-Same (send_started desc c datatype_f dest tag comm_f r w w' given e) =
      let comm = comm_f2c mpi.handles comm_f in
      Returns-done (SameStart env laws memory matched mild w)
        (cfi_isend env matched desc (pos c) datatype_f dest tag comm_f w)
        (start-Same env laws memory matched mild desc c datatype_f w
          (messages.isend desc.base_addr (pos c) (type_f2c mpi.handles config datatype_f) dest tag
            comm)
          (λ t. messages.isend desc.base_addr (pos 1) t dest tag comm) given
          (mild.isend_mild desc.base_addr (pos c) (type_f2c mpi.handles config datatype_f) dest tag
            comm)
          (λ t. mild.isend_mild desc.base_addr (pos 1) t dest tag comm))
        e
  Transferred-Same (receive_started desc c datatype_f source tag comm_f r w w' given e) =
      let comm = comm_f2c mpi.handles comm_f in
      Returns-done (SameStart env laws memory matched mild w)
        (cfi_irecv env matched desc (pos c) datatype_f source tag comm_f w)
        (start-Same env laws memory matched mild desc c datatype_f w
          (messages.irecv desc.base_addr (pos c) (type_f2c mpi.handles config datatype_f) source tag
            comm)
          (λ t. messages.irecv desc.base_addr (pos 1) t source tag comm) given
          (mild.irecv_mild desc.base_addr (pos c) (type_f2c mpi.handles config datatype_f) source
            tag comm)
          (λ t. mild.irecv_mild desc.base_addr (pos 1) t source tag comm))
        e
  Transferred-Same
        (exchanged sdesc rdesc c d stype_f dest stag rtype_f source rtag comm_f status_f ierror w w'
          given given' e) =
      Returns-done (Same env laws memory matched mild w)
        (cfi_sendrecv env matched sdesc (pos c) stype_f dest stag rdesc (pos d) rtype_f source rtag
          comm_f status_f w)
        (sendrecv-Same env laws memory matched mild sdesc rdesc c d stype_f dest stag rtype_f source
          rtag comm_f status_f w given given')
        e

  -- However many sections a program broadcasts, sends, receives (in one call or by starting the
  -- operation), exchanges by MPI_Sendrecv and gathers, contiguous or not, and whatever the calls
  -- return, in the end every datatype is what it was at the start: the datatypes that are made on the
  -- way are all freed, and none of the program's is. The sections have enough elements of named types
  -- (IsSide), memory can be had, and the library's own calls change no datatype and return codes that
  -- MPI_Error_class knows.
  pub Session-Same : (w w' : W) → Session env matched view w w' → (u : ℤ) → view w' u ≡ view w u
  Session-Same w w' at_start u = refl
  Session-Same w w' (followed before last) u = Transferred-Same last u ∙ Session-Same w _ before u
