-- ===== src/Transfer/Mail/Ends.antt =====
-- What `CFI_MPI_Send` and `CFI_MPI_Recv` of source/mpi_p2p.c do with a section, contiguous or not: the
-- message and the memory.
use vapaa.Prelude.{◌≡◌, refl, sym, ap, ◌∙◌, ℕ, ◌*◌, true, List, map, ℤ, pos, length, arith}
use vapaa.Handles.{type_f2c, comm_f2c}
use vapaa.Run.{Returns}
use vapaa.Mpi.Laws.{TypeLaws}
use vapaa.Cfi.{Desc}
use vapaa.Transfer.{Env, status, cfi_send, cfi_recv}
use vapaa.Transfer.Exchange.{IsSide}
use vapaa.Transfer.Effects.{Known, shim-Does}
use vapaa.Transfer.Mail.{Mail, MailLaws, Unseen, Stores, section_bytes, distinct}
use vapaa.Transfer.Mail.Places.{
  Adjacent, picked-bytes, picked_size, contiguous-bytes, length-section_bytes,
}

module _ {W : Type 0} (env : Env W) (laws : TypeLaws env.mpi)
    (memory : (n : ℤ) (b : ℕ) (w : W) → env.mpi.malloc n b w ≡ true) {mail : Mail W}
    (post : MailLaws env laws.view mail) (adjacent : Adjacent env.build) where
  open env use {mpi, messages, config, build, version4}
  open laws use {view}

  unseen : (w : W) → Unseen mail w w
  unseen w = record { memory = refl; sent = refl; arrived = refl }

  -- `CFI_MPI_Send` of the first c elements of a section, contiguous or not, returns, having sent
  -- a message of their bytes in array element order, and leaves memory as it was. The section has at
  -- least c elements of a named type (IsSide); CFI_is_contiguous tells the truth (Adjacent); memory can
  -- be had; messages are what the MPI standard says (MailLaws), and the library's call changes no
  -- datatype and returns a code that MPI_Error_class knows.
  pub cfi_send-Sends :
      (desc : Desc) (c : ℕ) (datatype_f dest tag comm_f : ℤ) (w : W)
      → IsSide env view desc c (type_f2c mpi.handles config datatype_f) w
      → ((a n t u : ℤ) (v : W)
          → view (messages.send a n t dest tag (comm_f2c mpi.handles comm_f) v).1 u ≡ view v u)
      → ((a n t : ℤ) (v : W)
          → Known env (messages.send a n t dest tag (comm_f2c mpi.handles comm_f) v).0)
      → Returns
          (λ _ w'.
            (mail.sent w' dest tag (comm_f2c mpi.handles comm_f)
              ≡ map (mail.memory w) (section_bytes desc c))
            × (mail.memory w' ≡ mail.memory w))
          (cfi_send env desc (pos c) datatype_f dest tag comm_f w)
  unfolding cfi_send
  cfi_send-Sends desc c datatype_f dest tag comm_f w side keeps known =
      let datatype = type_f2c mpi.handles config datatype_f in
      let comm = comm_f2c mpi.handles comm_f in
      shim-Does env laws memory desc c datatype w side (post.quiet w) (unseen w)
        (λ w'.
          (mail.sent w' dest tag comm ≡ map (mail.memory w) (section_bytes desc c))
          × (mail.memory w' ≡ mail.memory w))
        (λ t v q.
          let same = (post.quiet v).free t v (unseen v) in
          (ap (λ (s : ℤ → ℤ → ℤ → List ℕ). s dest tag comm) same.sent ∙ q.0, same.memory ∙ q.1))
        (messages.send desc.base_addr (pos c) datatype dest tag comm)
        (λ t. messages.send desc.base_addr (pos 1) t dest tag comm)
        (λ t u v. keeps desc.base_addr (pos 1) t u v)
        (λ one. (
          known desc.base_addr (pos c) datatype w,
          (
            post.send_law desc.base_addr datatype dest tag comm c desc.elem_len w side.named
                  (omega arith)
                ∙ ap (map (mail.memory w))
                    (contiguous-bytes env view adjacent desc c datatype w side one),
            post.send_memory desc.base_addr datatype dest tag comm c w,
          ),
        ))
        (λ t v p same. (
          known desc.base_addr (pos 1) t v,
          (
            post.send_law desc.base_addr t dest tag comm 1 desc.elem_len v p.now
                  (picked_size desc c)
                ∙ ap (map (mail.memory v)) (picked-bytes desc c p.extent)
                ∙ ap (λ (m : ℤ → ℕ). map m (section_bytes desc c)) same.memory,
            post.send_memory desc.base_addr t dest tag comm 1 v ∙ same.memory,
          ),
        ))

  -- `CFI_MPI_Recv` into the first c elements of a section, contiguous or not, returns, having stored
  -- the message that has arrived in their bytes in array element order, and leaves the rest of memory
  -- as it was. The section has at least c elements of a named type (IsSide), which do not overlap, and
  -- the message has their length; CFI_is_contiguous tells the truth (Adjacent); memory can be had;
  -- messages are what the MPI standard says (MailLaws), and the library's call changes no datatype and
  -- returns a code that MPI_Error_class knows.
  pub cfi_recv-Stores :
      (desc : Desc) (c : ℕ) (datatype_f source tag comm_f status_f : ℤ) (w : W)
      → IsSide env view desc c (type_f2c mpi.handles config datatype_f) w
      → distinct (section_bytes desc c) ≡ true
      → length (mail.arrived w source tag (comm_f2c mpi.handles comm_f)) ≡ c * desc.elem_len
      → ((a n t u : ℤ) (v : W)
          → view
              (messages.recv a n t source tag
                (comm_f2c mpi.handles comm_f)
                (status env status_f)
                v).1
              u
            ≡ view v u)
      → ((a n t : ℤ) (v : W)
          → Known env
              (messages.recv a n t source tag
                (comm_f2c mpi.handles comm_f)
                (status env status_f)
                v).0)
      → Returns
          (λ _ w'.
            Stores
              (section_bytes desc c)
              (mail.arrived w source tag (comm_f2c mpi.handles comm_f))
              (mail.memory w)
              (mail.memory w'))
          (cfi_recv env desc (pos c) datatype_f source tag comm_f status_f w)
  unfolding cfi_recv
  cfi_recv-Stores desc c datatype_f source tag comm_f status_f w side apart long keeps known =
      let datatype = type_f2c mpi.handles config datatype_f in
      let comm = comm_f2c mpi.handles comm_f in
      let st = status env status_f in
      let here = section_bytes desc c in
      let bytes = mail.arrived w source tag comm in
      let fits : length bytes ≡ length here = long ∙ sym (length-section_bytes desc c) in
      shim-Does env laws memory desc c datatype w side (post.quiet w) (unseen w)
        (λ w'. Stores here bytes (mail.memory w) (mail.memory w'))
        (λ t v q. let same = (post.quiet v).free t v (unseen v) in rw same.memory q)
        (messages.recv desc.base_addr (pos c) datatype source tag comm st)
        (λ t. messages.recv desc.base_addr (pos 1) t source tag comm st)
        (λ t u v. keeps desc.base_addr (pos 1) t u v)
        (λ one.
          let places = contiguous-bytes env view adjacent desc c datatype w side one in
          (
            known desc.base_addr (pos c) datatype w,
            rw places at (
                post.recv_law desc.base_addr datatype source tag comm st c desc.elem_len w
                  side.named (omega arith) (rw places apart) (rw places fits)),
          ))
        (λ t v p same.
          let places = picked-bytes desc c p.extent in
          let arrived : mail.arrived v source tag comm ≡ bytes =
            ap (λ (s : ℤ → ℤ → ℤ → List ℕ). s source tag comm) same.arrived in
          (
            known desc.base_addr (pos 1) t v,
            rw (places, arrived, same.memory) at
                (post.recv_law desc.base_addr t source tag comm st 1 desc.elem_len v p.now
                  (picked_size desc c) (rw places apart) (rw (places, arrived) fits)),
          ))
