-- ===== src/Transfer/Mail/Later.antt =====
-- A receive that `CFI_MPI_Irecv` starts and `C_MPI_Wait` completes (source/mpi_p2p.c). The datatype of the
-- section is freed in between.
mod Tests
use vapaa.Prelude.{
  ◌≡◌, refl, sym, ap, ◌∙◌, inl, inr, ℕ, ◌*◌, true, Bool, Option, none, some, List, map, ℤ, pos,
  Bool-cases, length, if◌then◌else◌, arith,
}
use vapaa.Convert.{ConstantLib}
use vapaa.Errors.Names.{success}
use vapaa.Handles.{type_f2c, comm_f2c, request_f2c}
use vapaa.Run.{Run, Returns, Returns-bind, pure, ◌>>=◌}
use vapaa.Mpi.{Made}
use vapaa.Mpi.Laws.{TypeInfo, TypeLaws}
use vapaa.Cfi.{Desc}
use vapaa.Cfi.Quiet.{IsQuiet}
use vapaa.Cfi.Select.{Picks}
use vapaa.Statuses.{Vendor}
use vapaa.Transfer.{Env, call, started, contiguous, fix_rc, status, with_section}
use vapaa.Transfer.Exchange.{IsSide}
use vapaa.Transfer.Effects.{Known, fix_rc-Returns, with_section-Does}
use vapaa.Transfer.PointToPoint.{Matched, store_request, cfi_irecv}
use vapaa.Transfer.Probes.{Probing, c_wait}
use vapaa.Transfer.Mail.{Mail, Stores, section_bytes, entry_bytes, distinct}
use vapaa.Transfer.Mail.Places.{length-section_bytes}
use vapaa.Transfer.Mail.Places.{Adjacent, picked-bytes, picked_size, contiguous-bytes}

-- A receive that was started: the addresses that it fills, and what it matches.
pub record Receive : Type 0 where
  pub addresses : List ℤ
  pub source : ℤ
  pub tag : ℤ
  pub comm : ℤ

-- What MPI says of MPI_Irecv and MPI_Wait: a receive fills the entries of its datatype when it is
-- waited for, whether or not the datatype is still there. `pending` tells for a request the receive
-- that it stands for.
pub record LaterLaws {W : Type 0} (env : Env W) (view : W → ℤ → Option TypeInfo) (mail : Mail W)
    {v : Vendor} (probing : Probing W v) (pending : W → ℤ → Option Receive) : Type 0 where
  pub quiet : (w : W) → IsQuiet env.mpi (λ v. pending v ≡ pending w)
  pub irecv_law :
      (a t source tag comm : ℤ) (n e : ℕ) (w : W) {i : TypeInfo}
      → view w t ≡ some i
      → i.size ≡ length i.disps * e
      → let m = env.messages.irecv a (pos n) t source tag comm w in
        pending m.world m.handle
        ≡ some (record { addresses = entry_bytes a n e i; source = source; tag = tag; comm = comm })
  -- The request goes to Fortran and back.
  pub irecv_back :
      (a n t source tag comm : ℤ) (w : W)
      → let m = env.messages.irecv a n t source tag comm w in
        request_f2c env.mpi.handles (env.mpi.handles.mpi_request_c2f m.handle) ≡ m.handle
  pub wait_law :
      (request status : ℤ) (w : W) {r : Receive}
      → pending w request ≡ some r
      → distinct r.addresses ≡ true
      → length (mail.arrived w r.source r.tag r.comm) ≡ length r.addresses
      → Stores r.addresses
          (mail.arrived w r.source r.tag r.comm)
          (mail.memory w)
          (mail.memory (probing.wait request status w).world)
  pub wait_null :
      (request status : ℤ) (w : W) {r : Receive}
      → pending w request ≡ some r
      → (probing.wait request status w).handle ≡ env.mpi.handles.request_null

module _ {W : Type 0} (env : Env W) (laws : TypeLaws env.mpi)
    (memory : (n : ℤ) (b : ℕ) (w : W) → env.mpi.malloc n b w ≡ true) {mail : Mail W}
    (matched : Matched W) (constants : ConstantLib) {vendor : Vendor} (probing : Probing W vendor)
    (pending : W → ℤ → Option Receive) (later : LaterLaws env laws.view mail probing pending)
    (adjacent : Adjacent env.build) (desc : Desc) (c : ℕ) (datatype_f source tag comm_f : ℤ) (w : W)
    (side : IsSide env laws.view desc c (type_f2c env.mpi.handles env.config datatype_f) w) where
  open env use {mpi, messages, config, build}
  open laws use {view}

  abbrev comm : ℤ
  comm = comm_f2c mpi.handles comm_f

  abbrev receive : Receive
  receive = record { addresses = section_bytes desc c; source = source; tag = tag; comm = comm }

  -- The request stands for a receive into the section's elements.
  abbrev Started : ℤ × ℤ → W → Type 0
  Started r v =
      Known env r.0
      × (pending v r.1 ≡ some receive)
      × (request_f2c mpi.handles (mpi.handles.mpi_request_c2f r.1) ≡ r.1)

  module _
      (keeps : (a n t u : ℤ) (v : W)
        → view (messages.irecv a n t source tag comm v).world u ≡ view v u)
      (known : (a n t : ℤ) (v : W) → Known env (messages.irecv a n t source tag comm v).rc) where
    whole-Started :
        contiguous build desc ≡ true
        → let m =
            messages.irecv desc.base_addr
              (pos c)
              (type_f2c mpi.handles config datatype_f)
              source
              tag
              comm
              w in
          Started (m.rc, m.handle) m.world
    whole-Started one =
        let datatype = type_f2c mpi.handles config datatype_f in
        (
          known desc.base_addr (pos c) datatype w,
          later.irecv_law desc.base_addr datatype source tag comm c desc.elem_len w side.named
                (omega arith)
              ∙ ap (λ (ps : List ℤ). some (record receive { addresses = ps }))
                  (contiguous-bytes env view adjacent desc c datatype w side one),
          later.irecv_back desc.base_addr (pos c) datatype source tag comm w,
        )

    parts-Started :
        (t : ℤ) (v : W)
        → Picks view desc c w t v
        → let m = messages.irecv desc.base_addr (pos 1) t source tag comm v in
          Started (m.rc, m.handle) m.world
    parts-Started t v p = (
      known desc.base_addr (pos 1) t v,
      later.irecv_law desc.base_addr t source tag comm 1 desc.elem_len v p.now (picked_size desc c)
          ∙ ap (λ (ps : List ℤ). some (record receive { addresses = ps }))
              (picked-bytes desc c p.extent),
      later.irecv_back desc.base_addr (pos 1) t source tag comm v,
    )

    freed-Started : (r : ℤ × ℤ) (t : ℤ) (v : W) → Started r v → Started r (mpi.type_free t v).world
    freed-Started r t v (good, here, back) =
        (good, ap (λ (p : ℤ → Option Receive). p r.1) ((later.quiet v).free t v refl) ∙ here, back)

    -- Fortran's number for the request.
    abbrev Numbered : ℤ × ℤ → W → Type 0
    Numbered r v = pending v (request_f2c mpi.handles r.1) ≡ some receive

    store-Numbered :
        (r : ℤ × ℤ) (v : W) → Started r v → Returns Numbered (store_request env matched r.0 r.1 v)
    unfolding store_request
    store-Numbered r v (good, here, back) =
        Returns-bind (λ _ v'. pending v' r.1 ≡ some receive) Numbered (fix_rc env r.0)
          (λ ierror. pure (ierror, mpi.handles.mpi_request_c2f r.1)) v
          (fix_rc-Returns env (λ v'. pending v' r.1 ≡ some receive) r.0 v good here)
          (λ ierror v' p. ap (pending v') back ∙ p)

    cfi_irecv-Numbered :
        Returns Numbered (cfi_irecv env matched desc (pos c) datatype_f source tag comm_f w)
    unfolding cfi_irecv
    cfi_irecv-Numbered =
        let datatype = type_f2c mpi.handles config datatype_f in
        elim (Bool-cases (contiguous build desc)) [
          | inl one ↦
              let m = messages.irecv desc.base_addr (pos c) datatype source tag comm w in
              rw one (store-Numbered (m.rc, m.handle) m.world (whole-Started one))
          | inr apart ↦ rw apart (
              Returns-bind Started Numbered
                (with_section env desc (pos c) datatype
                  (λ t. call (started (messages.irecv desc.base_addr (pos 1) t source tag comm))))
                (λ r. store_request env matched r.0 r.1) w
                (with_section-Does env laws memory desc c datatype w side (later.quiet w) refl
                  (λ t. started (messages.irecv desc.base_addr (pos 1) t source tag comm)) Started
                  (λ t u v. keeps desc.base_addr (pos 1) t u v) freed-Started
                  (λ t v p _. parts-Started t v p))
                store-Numbered)
        ]

    -- Waiting for it.
    waited :
        (f status_at : ℤ) (v : W) (before : ℤ → ℕ) (bytes : List ℕ)
        → pending v (request_f2c mpi.handles f) ≡ some receive
        → distinct (section_bytes desc c) ≡ true
        → length bytes ≡ length (section_bytes desc c)
        → mail.memory v ≡ before
        → mail.arrived v source tag comm ≡ bytes
        → ((r : ℤ) (u : W) → Known env (probing.wait r (status env status_at) u).rc)
        → Returns
            (λ r u.
              (r.1 ≡ mpi.handles.mpi_request_c2f mpi.handles.request_null)
              × Stores (section_bytes desc c) bytes before (mail.memory u))
            (c_wait env constants probing f status_at v)
    unfolding c_wait
    waited f status_at v before bytes here apart fits was brought waits =
        let request = request_f2c mpi.handles f in
        let st = status env status_at in
        let m = probing.wait request st v in
        let end = mpi.handles.mpi_request_c2f m.handle in
        let filled : Stores (section_bytes desc c) bytes before (mail.memory m.world) =
          rw (brought, was) at (later.wait_law request st v here apart (rw brought fits)) in
        Returns-bind (λ _ u. Stores (section_bytes desc c) bytes before (mail.memory u))
          (λ r u.
            (r.1 ≡ mpi.handles.mpi_request_c2f mpi.handles.request_null)
            × Stores (section_bytes desc c) bytes before (mail.memory u))
          (fix_rc env m.rc) (λ ierror. pure (ierror, end)) m.world
          (fix_rc-Returns env (λ u. Stores (section_bytes desc c) bytes before (mail.memory u)) m.rc
            m.world (waits request v) filled)
          (λ ierror u q. (ap mpi.handles.mpi_request_c2f (later.wait_null request st v here), q))

    -- `CFI_MPI_Irecv` starts a receive into the first c elements of a section, contiguous or not, and
    -- later `C_MPI_Wait` waits for the request that it gave Fortran. Both calls return; afterwards
    -- Fortran's request is what MPI_Request_c2f makes of MPI_REQUEST_NULL, the elements' bytes are, in array element order,
    -- those of the message that has arrived, and no other byte has changed in the wait, although the
    -- datatype of the section was freed before. The section has at least c elements of a named type
    -- (IsSide), which do not overlap; the message has their length; what happens between the calls
    -- leaves started receives as they are. CFI_is_contiguous tells the truth (Adjacent); memory can
    -- be had. The library is as MPI says (LaterLaws), changes no
    -- datatype in MPI_Irecv, and returns codes that MPI_Error_class knows.
    pub cfi_irecv-c_wait :
        (status_at : ℤ) (between : W → W) (before : ℤ → ℕ) (bytes : List ℕ)
        → distinct (section_bytes desc c) ≡ true
        → length bytes ≡ c * desc.elem_len
        → ((v : W) (r : ℤ) → pending (between v) r ≡ pending v r)
        → ((v : W) → mail.memory (between v) ≡ before)
        → ((v : W) → mail.arrived (between v) source tag comm ≡ bytes)
        → ((r : ℤ) (v : W) → Known env (probing.wait r (status env status_at) v).rc)
        → Returns
            (λ r v.
              (r.1 ≡ mpi.handles.mpi_request_c2f mpi.handles.request_null)
              × Stores (section_bytes desc c) bytes before (mail.memory v))
            ((cfi_irecv env matched desc (pos c) datatype_f source tag comm_f >>= λ r v.
                c_wait env constants probing r.1 status_at (between v))
              w)
    cfi_irecv-c_wait status_at between before bytes apart long still was brought waits =
        Returns-bind Numbered
          (λ r v.
            (r.1 ≡ mpi.handles.mpi_request_c2f mpi.handles.request_null)
            × Stores (section_bytes desc c) bytes before (mail.memory v))
          (cfi_irecv env matched desc (pos c) datatype_f source tag comm_f)
          (λ r v. c_wait env constants probing r.1 status_at (between v)) w cfi_irecv-Numbered
          (λ r v p.
            waited r.1 status_at (between v) before bytes (still v _ ∙ p) apart
              (long ∙ sym (length-section_bytes desc c)) (was v) (brought v) waits)
