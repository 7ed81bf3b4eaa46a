-- ===== src/Transfer/Mail/Swap.antt =====
-- What `CFI_MPI_Sendrecv` of source/mpi_p2p.c sends, and where it stores what it receives.
mod Tests
use vapaa.Prelude.{
  ◌≡◌, ◌≢◌, refl, sym, ap, ◌∙◌, inl, inr, ℕ, ◌*◌, Bool, true, false, not, ◌&&◌, Option, none, some,
  List, [], ◌∷◌, map, ℤ, pos, eq_ℤ, eq_ℤ-refl, eq_ℤ-false, length, tabulate, Bool-cases,
  if◌then◌else◌, arith,
}
use vapaa.Errors.Names.{success}
use vapaa.Handles.DatatypeNames.{datatype_null}
use vapaa.Handles.{type_f2c, comm_f2c}
use vapaa.Run.{Run, Returns, Returns-bind, Returns-Leaves, pure, ◌>>=◌}
use vapaa.Mpi.{made}
use vapaa.Mpi.Laws.{TypeInfo, TypeLaws}
use vapaa.Cfi.{Desc, Build}
use vapaa.Cfi.Quiet.{IsQuiet}
use vapaa.Cfi.Section.{offset_of}
use vapaa.Cfi.Select.{Picks}
use vapaa.Cfi.Shapes.{basic}
use vapaa.Transfer.{Env, call, contiguous, fix_rc, status, commit_section}
use vapaa.Transfer.Sections.{commit_section-Picks}
use vapaa.Transfer.Exchange.{IsSide}
use vapaa.Transfer.Effects.{Known, fix_rc-Returns, commit_section-Leaves}
use vapaa.Transfer.PointToPoint.{Matched, cfi_sendrecv}
use vapaa.Transfer.PointToPoint.Both.{both_sections}
use vapaa.Transfer.PointToPoint.Twice.{picked, both-Does}
use vapaa.Transfer.Mail.{Mail, Unseen, Stores, section_bytes, entry_bytes, contains, distinct}
use vapaa.Transfer.Mail.Places.{
  Adjacent, picked-bytes, picked_size, contiguous-bytes, length-section_bytes, length-entry_bytes,
}

abbrev pub disjoint : List ℤ → List ℤ → Bool
disjoint [] ys = true
disjoint (x ∷ xs) ys = not (contains x ys) && disjoint xs ys

-- Some bytes are sent, and others are stored.
abbrev pub Swaps :
    {W : Type 0} → Mail W → (from to : List ℤ) (dest stag source rtag comm : ℤ) → W → W → Type 0
Swaps mail from to dest stag source rtag comm w w' =
    (mail.sent w' dest stag comm ≡ map (mail.memory w) from)
    × Stores to (mail.arrived w source rtag comm) (mail.memory w) (mail.memory w')

-- What MPI says of MPI_Sendrecv, on buffers that do not overlap.
pub record SwapLaws {W : Type 0} (env : Env W) (view : W → ℤ → Option TypeInfo) (mail : Mail W)
    (matched : Matched W) : Type 0 where
  pub quiet : (w : W) → IsQuiet env.mpi (Unseen mail w)
  pub sendrecv_law :
      (a s dest stag b r source rtag comm status : ℤ) (n m e d : ℕ) (w : W) {i j : TypeInfo}
      → view w s ≡ some i
      → i.size ≡ length i.disps * e
      → view w r ≡ some j
      → j.size ≡ length j.disps * d
      → distinct (entry_bytes b m d j) ≡ true
      → disjoint (entry_bytes a n e i) (entry_bytes b m d j) ≡ true
      → length (mail.arrived w source rtag comm) ≡ length (entry_bytes b m d j)
      → Swaps mail
          (entry_bytes a n e i)
          (entry_bytes b m d j)
          dest
          stag
          source
          rtag
          comm
          w
          (matched.sendrecv a (pos n) s dest stag b (pos m) r source rtag comm status w).1

-- Where the message is stored: in the section that is received into, if the one that is sent is not
-- contiguous; else in as many elements one after the other, whether that section is contiguous or not.
abbrev pub stored_at : Build → (sdesc rdesc : Desc) → ℕ → List ℤ
stored_at build sdesc rdesc d =
    if contiguous build sdesc
    then entry_bytes rdesc.base_addr d rdesc.elem_len (basic rdesc.elem_len)
    else section_bytes rdesc d

module _ {W : Type 0} (env : Env W) (laws : TypeLaws env.mpi)
    (memory : (n : ℤ) (b : ℕ) (w : W) → env.mpi.malloc n b w ≡ true) {mail : Mail W}
    (matched : Matched W) (post : SwapLaws env laws.view mail matched)
    (adjacent : Adjacent env.build) (sdesc rdesc : Desc) (c d : ℕ)
    (stype_f dest stag rtype_f source rtag comm_f status_f : ℤ) (w : W)
    (side : IsSide env laws.view sdesc c (type_f2c env.mpi.handles env.config stype_f) w)
    (side' : IsSide env laws.view rdesc d (type_f2c env.mpi.handles env.config rtype_f) w) where
  open env use {mpi, config, build}
  open laws use {view}

  abbrev comm : ℤ
  comm = comm_f2c mpi.handles comm_f

  abbrev st : ℤ
  st = status env status_f

  abbrev Swapped : List ℤ → W → Type 0
  Swapped to w' = Swaps mail (section_bytes sdesc c) to dest stag source rtag comm w w'

  module _
      (keeps : (a n s b m r u : ℤ) (v : W)
        → view (matched.sendrecv a n s dest stag b m r source rtag comm st v).1 u ≡ view v u)
      (known : (a n s b m r : ℤ) (v : W)
        → Known env (matched.sendrecv a n s dest stag b m r source rtag comm st v).0)
      (long : length (mail.arrived w source rtag comm) ≡ d * rdesc.elem_len) where
    free-Swapped :
        (to : List ℤ) (t : ℤ) (v : W) → Swapped to v → Swapped to (mpi.type_free t v).world
    free-Swapped to t v (sent, stores) =
        let same =
          (post.quiet v).free t v (record { memory = refl; sent = refl; arrived = refl }) in
        (ap (λ (s : ℤ → ℤ → ℤ → List ℕ). s dest stag comm) same.sent ∙ sent, rw same.memory stores)

    flat-Swapped :
        contiguous build sdesc ≡ true
        → let to = entry_bytes rdesc.base_addr d rdesc.elem_len (basic rdesc.elem_len) in
          distinct to ≡ true
          → disjoint (section_bytes sdesc c) to ≡ true
          → Swapped to
              (matched.sendrecv sdesc.base_addr
                (pos c)
                (type_f2c mpi.handles config stype_f)
                dest
                stag
                rdesc.base_addr
                (pos d)
                (type_f2c mpi.handles config rtype_f)
                source
                rtag
                comm
                st
                w).1
    flat-Swapped one apart clear =
        let places =
          contiguous-bytes env view adjacent sdesc c (type_f2c mpi.handles config stype_f) w side
            one in
        rw places at (
          post.sendrecv_law sdesc.base_addr (type_f2c mpi.handles config stype_f) dest stag
            rdesc.base_addr (type_f2c mpi.handles config rtype_f) source rtag comm st c d
            sdesc.elem_len rdesc.elem_len w side.named (omega arith) side'.named (omega arith) apart
            (rw places clear) (long ∙ sym (length-entry_bytes rdesc.base_addr d rdesc.elem_len)))

    parts-Swapped :
        (s r : ℤ) (v v0 : W)
        → Picks view rdesc d v0 r v
        → (e : ℤ) → view v s ≡ some (picked sdesc c e)
        → Unseen mail w v
        → distinct (section_bytes rdesc d) ≡ true
        → disjoint (section_bytes sdesc c) (section_bytes rdesc d) ≡ true
        → Swapped
            (section_bytes rdesc d)
            (matched.sendrecv sdesc.base_addr
              (pos 1)
              s
              dest
              stag
              rdesc.base_addr
              (pos 1)
              r
              source
              rtag
              comm
              st
              v).1
    parts-Swapped s r v v0 p e known_s same apart clear =
        let from = picked-bytes sdesc c e in
        let to = picked-bytes rdesc d p.extent in
        let arrived : mail.arrived v source rtag comm ≡ mail.arrived w source rtag comm =
          ap (λ (a : ℤ → ℤ → ℤ → List ℕ). a source rtag comm) same.arrived in
        rw (from, to, arrived, same.memory) at
          (post.sendrecv_law sdesc.base_addr s dest stag rdesc.base_addr r source rtag comm st 1 1
            sdesc.elem_len rdesc.elem_len v known_s (picked_size sdesc c) p.now
            (picked_size rdesc d) (rw to apart) (rw (from, to) clear)
            (rw (to, arrived) (long ∙ sym (length-section_bytes rdesc d))))

    -- `CFI_MPI_Sendrecv` of the first c elements of one section and the first d of another returns,
    -- having sent a message of the bytes of the former in array element order, and having stored the
    -- message that has arrived, as long as the latter, at `stored_at`: in the section received into, if
    -- the one that is sent is not contiguous; else in d elements one after the other from its base
    -- address on, although the section received into need not be contiguous. No other byte changes.
    -- The sections have enough elements of named types (IsSide); the bytes sent and those stored are
    -- apart, and the latter do not overlap; CFI_is_contiguous tells the truth (Adjacent); memory can be
    -- had; MPI_Sendrecv is as the MPI standard says (SwapLaws), changes no datatype and returns a code
    -- that MPI_Error_class knows.
    pub cfi_sendrecv-Swaps :
        distinct (stored_at build sdesc rdesc d) ≡ true
        → disjoint (section_bytes sdesc c) (stored_at build sdesc rdesc d) ≡ true
        → Returns
            (λ _ w'.
              Swaps mail
                (section_bytes sdesc c)
                (stored_at build sdesc rdesc d)
                dest
                stag
                source
                rtag
                comm
                w
                w')
            (cfi_sendrecv env matched sdesc
              (pos c)
              stype_f
              dest
              stag
              rdesc
              (pos d)
              rtype_f
              source
              rtag
              comm_f
              status_f
              w)
    unfolding cfi_sendrecv
    cfi_sendrecv-Swaps = elim (Bool-cases (contiguous build sdesc)) [
      | inl one ↦ rw one (λ apart clear.
          let whole =
            matched.sendrecv sdesc.base_addr (pos c) (type_f2c mpi.handles config stype_f) dest stag
              rdesc.base_addr (pos d) (type_f2c mpi.handles config rtype_f) source rtag comm st in
          fix_rc-Returns env
            (Swapped (entry_bytes rdesc.base_addr d rdesc.elem_len (basic rdesc.elem_len)))
            (whole w).0 (whole w).1
            (known sdesc.base_addr (pos c) (type_f2c mpi.handles config stype_f) rdesc.base_addr
              (pos d) (type_f2c mpi.handles config rtype_f) w)
            (flat-Swapped one apart clear))
      | inr scattered ↦ rw scattered (λ apart clear.
          let parts : ℤ → ℤ → W → ℤ × W = λ s r.
            matched.sendrecv sdesc.base_addr (pos 1) s dest stag rdesc.base_addr (pos 1) r source
              rtag comm st in
          let to = section_bytes rdesc d in
          Returns-bind (λ rc w'. Known env rc × Swapped to w') (λ _. Swapped to)
            (both_sections env parts sdesc rdesc (pos c) (pos d)
              (type_f2c mpi.handles config stype_f) (type_f2c mpi.handles config rtype_f))
            (fix_rc env) w
            (both-Does env laws memory (post.quiet w) sdesc rdesc c d
              (type_f2c mpi.handles config stype_f) (type_f2c mpi.handles config rtype_f) w side
              side' (record { memory = refl; sent = refl; arrived = refl }) parts
              (λ s r u v. keeps sdesc.base_addr (pos 1) s rdesc.base_addr (pos 1) r u v)
              (λ rc w'. Known env rc × Swapped to w') (λ rc t v q. (q.0, free-Swapped to t v q.1))
              (λ s r v v0 p e here same. (
                known sdesc.base_addr (pos 1) s rdesc.base_addr (pos 1) r v,
                parts-Swapped s r v v0 p e here same apart clear,
              )))
            (λ rc w' q. fix_rc-Returns env (Swapped to) rc w' q.0 q.1))
    ]
