-- ===== src/Transfer/Mail/Broadcast.antt =====
-- A section that one process broadcasts by `CFI_MPI_Bcast` to another (source/mpi_coll.c).
mod Tests
use vapaa.Prelude.{
  ◌≡◌, refl, ap, ◌∙◌, sym, ℕ, ◌*◌, Bool, true, false, Option, some, List, map, length, length-map,
  ℤ, pos, arith,
}
use vapaa.Handles.{type_f2c, comm_f2c}
use vapaa.Run.{Run, Returns, Returns-bind, ◌>>=◌}
use vapaa.Mpi.Laws.{TypeInfo, TypeLaws}
use vapaa.Cfi.{Desc}
use vapaa.Cfi.Quiet.{IsQuiet}
use vapaa.Transfer.{Env, cfi_bcast}
use vapaa.Transfer.Exchange.{IsSide}
use vapaa.Transfer.Effects.{Known, shim-Does}
use vapaa.Transfer.Mail.{Stores, section_bytes, entry_bytes, distinct}
use vapaa.Transfer.Mail.Places.{
  Adjacent, picked-bytes, picked_size, contiguous-bytes, length-section_bytes,
}

-- What can be seen of a process: its memory, the message that it broadcast last as the root, the
-- message that the next broadcast from a root brings it, and if it is that root itself.
pub record Cast (W : Type 0) : Type 0 where
  pub memory : W → ℤ → ℕ
  pub published : W → ℤ → ℤ → List ℕ
  pub awaited : W → ℤ → ℤ → List ℕ
  pub is_root : W → ℤ → ℤ → Bool

pub record Unmoved {W : Type 0} (cast : Cast W) (w w' : W) : Type 0 where
  pub memory : cast.memory w' ≡ cast.memory w
  pub published : cast.published w' ≡ cast.published w
  pub awaited : cast.awaited w' ≡ cast.awaited w
  pub is_root : cast.is_root w' ≡ cast.is_root w

-- What MPI says of MPI_Bcast.
pub record CastLaws {W : Type 0} (env : Env W) (view : W → ℤ → Option TypeInfo) (cast : Cast W)
    : Type 0 where
  pub quiet : (w : W) → IsQuiet env.mpi (Unmoved cast w)
  pub root_law :
      (a t root comm : ℤ) (n e : ℕ) (w : W) {i : TypeInfo}
      → view w t ≡ some i
      → i.size ≡ length i.disps * e
      → cast.is_root w root comm ≡ true
      → cast.published (env.messages.bcast a (pos n) t root comm w).1 root comm
        ≡ map (cast.memory w) (entry_bytes a n e i)
  pub other_law :
      (a t root comm : ℤ) (n e : ℕ) (w : W) {i : TypeInfo}
      → view w t ≡ some i
      → i.size ≡ length i.disps * e
      → cast.is_root w root comm ≡ false
      → distinct (entry_bytes a n e i) ≡ true
      → length (cast.awaited w root comm) ≡ length (entry_bytes a n e i)
      → Stores
          (entry_bytes a n e i)
          (cast.awaited w root comm)
          (cast.memory w)
          (cast.memory (env.messages.bcast a (pos n) t root comm w).1)

module _ {W : Type 0} (env : Env W) (laws : TypeLaws env.mpi)
    (memory : (n : ℤ) (b : ℕ) (w : W) → env.mpi.malloc n b w ≡ true) {cast : Cast W}
    (post : CastLaws env laws.view cast) (adjacent : Adjacent env.build) where
  open env use {mpi, messages, config, build}
  open laws use {view}

  unmoved : (w : W) → Unmoved cast w w
  unmoved w = record { memory = refl; published = refl; awaited = refl; is_root = refl }

  module _ (desc : Desc) (c : ℕ) (datatype_f root comm_f : ℤ) (w : W)
      (side : IsSide env view desc c (type_f2c mpi.handles config datatype_f) w)
      (keeps : (a n t u : ℤ) (v : W)
        → view (messages.bcast a n t root (comm_f2c mpi.handles comm_f) v).1 u ≡ view v u)
      (known : (a n t : ℤ) (v : W)
        → Known env (messages.bcast a n t root (comm_f2c mpi.handles comm_f) v).0) where
    abbrev comm : ℤ
    comm = comm_f2c mpi.handles comm_f

    abbrev datatype : ℤ
    datatype = type_f2c mpi.handles config datatype_f

    -- At the root the section's bytes are sent.
    pub root-publishes :
        cast.is_root w root comm ≡ true
        → Returns
            (λ _ w'. cast.published w' root comm ≡ map (cast.memory w) (section_bytes desc c))
            (cfi_bcast env desc (pos c) datatype_f root comm_f w)
    unfolding cfi_bcast
    root-publishes mine =
        shim-Does env laws memory desc c datatype w side (post.quiet w) (unmoved w)
          (λ w'. cast.published w' root comm ≡ map (cast.memory w) (section_bytes desc c))
          (λ t v q.
            let same = (post.quiet v).free t v (unmoved v) in
            ap (λ (s : ℤ → ℤ → List ℕ). s root comm) same.published ∙ q)
          (messages.bcast desc.base_addr (pos c) datatype root comm)
          (λ t. messages.bcast desc.base_addr (pos 1) t root comm)
          (λ t u v. keeps desc.base_addr (pos 1) t u v)
          (λ one. (
            known desc.base_addr (pos c) datatype w,
            post.root_law desc.base_addr datatype root comm c desc.elem_len w side.named
                  (omega arith) mine
                ∙ ap (map (cast.memory w))
                    (contiguous-bytes env view adjacent desc c datatype w side one),
          ))
          (λ t v p same.
            let mine' : cast.is_root v root comm ≡ true =
              ap (λ (s : ℤ → ℤ → Bool). s root comm) same.is_root ∙ mine in
            (
              known desc.base_addr (pos 1) t v,
              post.root_law desc.base_addr t root comm 1 desc.elem_len v p.now (picked_size desc c)
                    mine'
                  ∙ ap (map (cast.memory v)) (picked-bytes desc c p.extent)
                  ∙ ap (λ (m : ℤ → ℕ). map m (section_bytes desc c)) same.memory,
            ))

    -- At another process they are stored.
    pub other-Stores :
        cast.is_root w root comm ≡ false
        → distinct (section_bytes desc c) ≡ true
        → length (cast.awaited w root comm) ≡ c * desc.elem_len
        → Returns
            (λ _ w'.
              Stores
                (section_bytes desc c)
                (cast.awaited w root comm)
                (cast.memory w)
                (cast.memory w'))
            (cfi_bcast env desc (pos c) datatype_f root comm_f w)
    unfolding cfi_bcast
    other-Stores not_mine apart long =
        let here = section_bytes desc c in
        let bytes = cast.awaited w root comm in
        let fits : length bytes ≡ length here = long ∙ sym (length-section_bytes desc c) in
        shim-Does env laws memory desc c datatype w side (post.quiet w) (unmoved w)
          (λ w'. Stores here bytes (cast.memory w) (cast.memory w'))
          (λ t v q. let same = (post.quiet v).free t v (unmoved v) in rw same.memory q)
          (messages.bcast desc.base_addr (pos c) datatype root comm)
          (λ t. messages.bcast desc.base_addr (pos 1) t root comm)
          (λ t u v. keeps desc.base_addr (pos 1) t u v)
          (λ one.
            let places = contiguous-bytes env view adjacent desc c datatype w side one in
            (
              known desc.base_addr (pos c) datatype w,
              rw places at (
                  post.other_law desc.base_addr datatype root comm c desc.elem_len w side.named
                    (omega arith) not_mine (rw places apart) (rw places fits)),
            ))
          (λ t v p same.
            let places = picked-bytes desc c p.extent in
            let brought : cast.awaited v root comm ≡ bytes =
              ap (λ (s : ℤ → ℤ → List ℕ). s root comm) same.awaited in
            let not_mine' : cast.is_root v root comm ≡ false =
              ap (λ (s : ℤ → ℤ → Bool). s root comm) same.is_root ∙ not_mine in
            (
              known desc.base_addr (pos 1) t v,
              rw (places, brought, same.memory) at
                  (post.other_law desc.base_addr t root comm 1 desc.elem_len v p.now
                    (picked_size desc c) not_mine' (rw places apart) (rw (places, brought) fits)),
            ))

-- The root broadcasts, the network makes a state of another process from the state in which the root's
-- call ends, and that process takes part in the broadcast.
abbrev pub broadcast :
    {W : Type 0}
    → Env W
    → (deliver : W → W) (from to : Desc) (c stype_f rtype_f root comm_f rcomm_f : ℤ) → W
    → Run W ℤ
broadcast env deliver from to c stype_f rtype_f root comm_f rcomm_f =
    cfi_bcast env from c stype_f root comm_f >>= λ _ w.
    cfi_bcast env to c rtype_f root rcomm_f (deliver w)

module _ {W : Type 0} (env : Env W) (laws : TypeLaws env.mpi)
    (memory : (n : ℤ) (b : ℕ) (w : W) → env.mpi.malloc n b w ≡ true) {cast : Cast W}
    (post : CastLaws env laws.view cast) (adjacent : Adjacent env.build) (from to : Desc) (c : ℕ)
    (stype_f rtype_f root comm_f rcomm_f : ℤ) (w : W) (deliver : W → W) (before : ℤ → ℕ) where
  open env use {mpi, messages, config}
  open laws use {view}

  -- The first c elements of a section of the root are broadcast by CFI_MPI_Bcast, and another process
  -- takes part with the first c elements of a section of its own; each section may be contiguous or
  -- not, of rank 1 to 14 and any strides. Both calls return, and afterwards the other process's
  -- elements are, byte for byte and in array element order, what the root's were, and no other byte
  -- of its memory has changed. The sections have at least c elements of a named type (IsSide), of the same length,
  -- and those of the other process do not overlap; the network brings the message that the root
  -- broadcast; CFI_is_contiguous tells the truth (Adjacent); memory can be had; broadcasts are what
  -- the MPI standard says (CastLaws), change no datatype and return codes that MPI_Error_class knows.
  pub broadcast-Stores :
      IsSide env view from c (type_f2c mpi.handles config stype_f) w
      → ((v : W) → IsSide env view to c (type_f2c mpi.handles config rtype_f) (deliver v))
      → from.elem_len ≡ to.elem_len
      → distinct (section_bytes to c) ≡ true
      → cast.is_root w root (comm_f2c mpi.handles comm_f) ≡ true
      → ((v : W) → cast.is_root (deliver v) root (comm_f2c mpi.handles rcomm_f) ≡ false)
      → ((v : W)
          → cast.awaited (deliver v) root (comm_f2c mpi.handles rcomm_f)
            ≡ cast.published v root (comm_f2c mpi.handles comm_f))
      → ((v : W) → cast.memory (deliver v) ≡ before)
      → ((a n t comm u : ℤ) (v : W) → view (messages.bcast a n t root comm v).1 u ≡ view v u)
      → ((a n t comm : ℤ) (v : W) → Known env (messages.bcast a n t root comm v).0)
      → Returns
          (λ _ v.
            Stores
              (section_bytes to c)
              (map (cast.memory w) (section_bytes from c))
              before
              (cast.memory v))
          (broadcast env deliver from to (pos c) stype_f rtype_f root comm_f rcomm_f w)
  broadcast-Stores side side' same_length apart mine not_mine brought was keeps known =
      let bytes = map (cast.memory w) (section_bytes from c) in
      let comm = comm_f2c mpi.handles comm_f in
      let rcomm = comm_f2c mpi.handles rcomm_f in
      Returns-bind (λ _ v. cast.published v root comm ≡ bytes)
        (λ _ v. Stores (section_bytes to c) bytes before (cast.memory v))
        (cfi_bcast env from (pos c) stype_f root comm_f)
        (λ _ v. cfi_bcast env to (pos c) rtype_f root rcomm_f (deliver v)) w
        (root-publishes env laws memory post adjacent from c stype_f root comm_f w side
          (λ a n t u v. keeps a n t comm u v) (λ a n t v. known a n t comm v) mine)
        (λ _ v p.
          let awaited : cast.awaited (deliver v) root rcomm ≡ bytes = brought v ∙ p in
          let long : length bytes ≡ c * to.elem_len =
            length-map (cast.memory w) (section_bytes from c)
            ∙ length-section_bytes from c
            ∙ ap (λ (e : ℕ). c * e) same_length in
          rw (awaited, was v) at
            (other-Stores env laws memory post adjacent to c rtype_f root rcomm_f (deliver v)
              (side' v) (λ a n t u v. keeps a n t rcomm u v) (λ a n t v. known a n t rcomm v)
              (not_mine v) apart (rw awaited long)))
