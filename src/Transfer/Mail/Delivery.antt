-- ===== src/Transfer/Mail/Delivery.antt =====
-- A section that is sent by `CFI_MPI_Send` and received by `CFI_MPI_Recv` (source/mpi_p2p.c).
use vapaa.Prelude.{◌≡◌, ap, ◌∙◌, ℕ, ◌*◌, true, map, length, length-map, ℤ, pos}
use vapaa.Handles.{type_f2c, comm_f2c}
use vapaa.Run.{Run, Returns, Returns-bind, ◌>>=◌}
use vapaa.Mpi.Laws.{TypeLaws}
use vapaa.Cfi.{Desc}
use vapaa.Transfer.{Env, status, cfi_send, cfi_recv}
use vapaa.Transfer.Exchange.{IsSide}
use vapaa.Transfer.Effects.{Known}
use vapaa.Transfer.Mail.{Mail, MailLaws, Stores, section_bytes, distinct}
use vapaa.Transfer.Mail.Places.{length-section_bytes}
use vapaa.Transfer.Mail.Places.{Adjacent}
use vapaa.Transfer.Mail.Ends.{cfi_send-Sends, cfi_recv-Stores}

-- One process sends, the network makes a state of the receiver from the state in which the sender's
-- call ends, and the receiver receives.
abbrev pub transfer :
    {W : Type 0}
    → Env W
    → (deliver : W → W) (from to : Desc)
      (c stype_f dest tag comm_f rtype_f source rcomm_f status_f : ℤ)
    → W
    → Run W ℤ
transfer env deliver from to c stype_f dest tag comm_f rtype_f source rcomm_f status_f =
    cfi_send env from c stype_f dest tag comm_f >>= λ _ w.
    cfi_recv env to c rtype_f source tag rcomm_f status_f (deliver w)

module _ {W : Type 0} (env : Env W) (laws : TypeLaws env.mpi)
    (memory : (n : ℤ) (b : ℕ) (w : W) → env.mpi.malloc n b w ≡ true) {mail : Mail W}
    (post : MailLaws env laws.view mail) (adjacent : Adjacent env.build) (from to : Desc) (c : ℕ)
    (stype_f dest tag comm_f rtype_f source rcomm_f status_f : ℤ) (w : W) (deliver : W → W)
    (before : ℤ → ℕ) where
  open env use {mpi, messages, config}
  open laws use {view}

  abbrev comm : ℤ
  comm = comm_f2c mpi.handles comm_f

  abbrev rcomm : ℤ
  rcomm = comm_f2c mpi.handles rcomm_f

  -- The first c elements of a section are sent from one process to another, which receives into the
  -- first c elements of a section of its own; each section may be contiguous or not, of rank 1 to
  -- 14 and any strides. Both calls return, and afterwards the receiver's elements are, byte for byte
  -- and in array element order, what the sender's were, and no other byte of the receiver's memory has
  -- changed. The sections have at least c elements of a named type (IsSide), of the same length, and
  -- the receiver's do not overlap; the network brings the message that was sent; CFI_is_contiguous
  -- tells the truth (Adjacent); memory can be had; messages are what the
  -- MPI standard says (MailLaws), calls change no datatype and return codes that MPI_Error_class knows.
  pub transfer-Stores :
      IsSide env view from c (type_f2c mpi.handles config stype_f) w
      → ((v : W) → IsSide env view to c (type_f2c mpi.handles config rtype_f) (deliver v))
      → from.elem_len ≡ to.elem_len
      → distinct (section_bytes to c) ≡ true
      → ((v : W) → mail.arrived (deliver v) source tag rcomm ≡ mail.sent v dest tag comm)
      → ((v : W) → mail.memory (deliver v) ≡ before)
      → ((a n t u : ℤ) (v : W) → view (messages.send a n t dest tag comm v).1 u ≡ view v u)
      → ((a n t : ℤ) (v : W) → Known env (messages.send a n t dest tag comm v).0)
      → ((a n t u : ℤ) (v : W)
          → view (messages.recv a n t source tag rcomm (status env status_f) v).1 u ≡ view v u)
      → ((a n t : ℤ) (v : W)
          → Known env (messages.recv a n t source tag rcomm (status env status_f) v).0)
      → Returns
          (λ _ v.
            Stores
              (section_bytes to c)
              (map (mail.memory w) (section_bytes from c))
              before
              (mail.memory v))
          (transfer env deliver from to
            (pos c)
            stype_f
            dest
            tag
            comm_f
            rtype_f
            source
            rcomm_f
            status_f
            w)
  transfer-Stores side side' same_length apart brought was keeps known keeps' known' =
      let bytes = map (mail.memory w) (section_bytes from c) in
      Returns-bind (λ _ v. (mail.sent v dest tag comm ≡ bytes) × (mail.memory v ≡ mail.memory w))
        (λ _ v. Stores (section_bytes to c) bytes before (mail.memory v))
        (cfi_send env from (pos c) stype_f dest tag comm_f)
        (λ _ v. cfi_recv env to (pos c) rtype_f source tag rcomm_f status_f (deliver v)) w
        (cfi_send-Sends env laws memory post adjacent from c stype_f dest tag comm_f w side keeps
          known)
        (λ _ v p.
          let arrived : mail.arrived (deliver v) source tag rcomm ≡ bytes = brought v ∙ p.0 in
          let long : length bytes ≡ c * to.elem_len =
            length-map (mail.memory w) (section_bytes from c)
            ∙ length-section_bytes from c
            ∙ ap (λ (e : ℕ). c * e) same_length in
          rw (arrived, was v) at
            (cfi_recv-Stores env laws memory post adjacent to c rtype_f source tag rcomm_f status_f
              (deliver v) (side' v) apart (rw arrived long) keeps' known'))
