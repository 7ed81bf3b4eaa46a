-- ===== src/Transfer/Shims.antt =====
-- How the shims of source/mpi_p2p.c and source/mpi_coll.c call the library: CFI_MPI_Bcast and
-- CFI_MPI_Isend.
use vapaa.Prelude.{◌≡◌, refl, ℕ, Option, some, List, ◌∷◌, true, ℤ, pos, if◌then◌else◌}
use vapaa.Errors.{rc_fix}
use vapaa.Handles.{type_f2c, comm_f2c}
use vapaa.Run.{Run, Returns, Returns-bind, ◌>>=◌}
use vapaa.Mpi.Laws.{TypeInfo, TypeLaws}
use vapaa.Cfi.{Desc}
use vapaa.Transfer.{Env, call, started, contiguous, fix_rc, with_section, cfi_bcast}
use vapaa.Transfer.Sections.{code_known}
use vapaa.Transfer.Exchange.{IsSide}
use vapaa.Transfer.Effects.{Known}
use vapaa.Transfer.Once.{Posted, Posts, Told, OnceBy, post-Once}
use vapaa.Transfer.PointToPoint.{Matched, cfi_isend, store_request}

-- What a shim that hands on a return code comes to: one call, for the section, whose code, told Fortran,
-- is the result; every datatype is as it was.
pub record CalledOnce {W : Type 0} (env : Env W) (view : W → ℤ → Option TypeInfo) (desc : Desc)
    (c : ℕ) (calls : W → List (Posted × ℤ)) (w : W) (ierror : ℤ) (w' : W) : Type 0 where
  pub rc : ℤ
  pub posted : Posted
  pub posts : Posts desc c desc.base_addr (contiguous env.build desc) posted
  pub once : calls w' ≡ ((posted, rc) ∷ calls w)
  pub code : rc_fix env.mpi.errors env.version4 rc ≡ some ierror
  pub unchanged : (u : ℤ) → view w' u ≡ view w u

-- The same for one that starts an operation, whose request it tells Fortran too.
pub record StartedOnce {W : Type 0} (env : Env W) (view : W → ℤ → Option TypeInfo) (desc : Desc)
    (c : ℕ) (calls : W → List (Posted × (ℤ × ℤ))) (w : W) (r : ℤ × ℤ) (w' : W) : Type 0 where
  pub rc : ℤ
  pub request : ℤ
  pub posted : Posted
  pub posts : Posts desc c desc.base_addr (contiguous env.build desc) posted
  pub once : calls w' ≡ ((posted, (rc, request)) ∷ calls w)
  pub code : rc_fix env.mpi.errors env.version4 rc ≡ some r.0
  pub number : r.1 ≡ env.mpi.handles.mpi_request_c2f request
  pub unchanged : (u : ℤ) → view w' u ≡ view w u

module _ {W : Type 0} (env : Env W) (laws : TypeLaws env.mpi)
    (memory : (n : ℤ) (b : ℕ) (w : W) → env.mpi.malloc n b w ≡ true) (desc : Desc) (c : ℕ)
    (datatype_f : ℤ) (w : W)
    (side : IsSide env laws.view desc c (type_f2c env.mpi.handles env.config datatype_f) w) where
  open env use {mpi, messages, config, build, version4}
  open laws use {view}

  abbrev datatype : ℤ
  datatype = type_f2c mpi.handles config datatype_f

  module _ (calls : W → List (Posted × ℤ)) (f : (address count datatype : ℤ) → W → ℤ × W)
      (told : Told env view calls f)
      (keeps : (a n t u : ℤ) (v : W) → view (f a n t v).1 u ≡ view v u)
      (known : (a n t : ℤ) (v : W) → Known env (f a n t v).0) where
    abbrev shim : W → Run W ℤ
    shim =
        if contiguous build desc
        then call (f desc.base_addr (pos c) datatype)
        else with_section env desc (pos c) datatype (λ t. call (f desc.base_addr (pos 1) t))

    abbrev OncePosted : ℤ → W → Type 0
    OncePosted =
        OnceBy env laws memory desc c datatype w side calls f told keeps (Known env) known
          (contiguous build desc)

    fix-CalledOnce :
        (rc : ℤ) (w' : W)
        → OncePosted rc w'
        → Returns (CalledOnce env view desc c calls w) (fix_rc env rc w')
    unfolding fix_rc
    fix-CalledOnce rc w' (k, (x, posts, e), unchanged) =
        let (ierror, fixed) = code_known mpi.errors version4 rc k in
        rw (fixed, fix_rc)
          (record {
            rc = rc;
            posted = x;
            posts = posts;
            once = e;
            code = fixed;
            unchanged = unchanged;
          })

    shim-CalledOnce : Returns (CalledOnce env view desc c calls w) ((shim >>= fix_rc env) w)
    shim-CalledOnce =
        Returns-bind OncePosted (CalledOnce env view desc c calls w) shim (fix_rc env) w
          (post-Once env laws memory desc c datatype w side calls f told keeps (Known env) known)
          fix-CalledOnce

  module _ (matched : Matched W) (calls : W → List (Posted × (ℤ × ℤ)))
      (f : (address count datatype : ℤ) → W → (ℤ × ℤ) × W) (told : Told env view calls f)
      (keeps : (a n t u : ℤ) (v : W) → view (f a n t v).1 u ≡ view v u)
      (known : (a n t : ℤ) (v : W) → Known env (f a n t v).0.0) where
    abbrev KnownStart : ℤ × ℤ → Type 0
    KnownStart r = Known env r.0

    abbrev shim_start : W → Run W (ℤ × ℤ)
    shim_start =
        if contiguous build desc
        then call (f desc.base_addr (pos c) datatype)
        else with_section env desc (pos c) datatype (λ t. call (f desc.base_addr (pos 1) t))

    abbrev StartPosted : ℤ × ℤ → W → Type 0
    StartPosted =
        OnceBy env laws memory desc c datatype w side calls f told keeps KnownStart known
          (contiguous build desc)

    store-StartedOnce :
        (r : ℤ × ℤ) (w' : W)
        → StartPosted r w'
        → Returns (StartedOnce env view desc c calls w) (store_request env matched r.0 r.1 w')
    unfolding store_request fix_rc
    store-StartedOnce r w' (k, (x, posts, e), unchanged) =
        let (ierror, fixed) = code_known mpi.errors version4 r.0 k in
        rw (fixed, fix_rc, ◌>>=◌)
          (record {
            rc = r.0;
            request = r.1;
            posted = x;
            posts = posts;
            once = e;
            code = fixed;
            number = refl;
            unchanged = unchanged;
          })

    shim-StartedOnce :
        Returns
          (StartedOnce env view desc c calls w)
          ((shim_start >>= λ r. store_request env matched r.0 r.1) w)
    shim-StartedOnce =
        Returns-bind StartPosted (StartedOnce env view desc c calls w) shim_start
          (λ r. store_request env matched r.0 r.1) w
          (post-Once env laws memory desc c datatype w side calls f told keeps KnownStart known)
          store-StartedOnce

  -- CFI_MPI_Bcast of the first c elements of a section, contiguous or not, returns, having called
  -- MPI_Bcast once: with the section's address, and c elements of its type if it is contiguous, else one
  -- element of a datatype whose elements are the first c of the section. Fortran has what becomes of
  -- that call's return code, and every datatype is as it was. The section has at least c elements of
  -- a named type (IsSide); memory can be had; the state tells the calls that were made (Told); MPI_Bcast
  -- changes no datatype and returns codes that MPI_Error_class knows.
  pub cfi_bcast-CalledOnce :
      (root comm_f : ℤ) (calls : W → List (Posted × ℤ))
      → Told env view calls (λ a n t. messages.bcast a n t root (comm_f2c mpi.handles comm_f))
      → ((a n t u : ℤ) (v : W)
          → view (messages.bcast a n t root (comm_f2c mpi.handles comm_f) v).1 u ≡ view v u)
      → ((a n t : ℤ) (v : W)
          → Known env (messages.bcast a n t root (comm_f2c mpi.handles comm_f) v).0)
      → Returns
          (CalledOnce env view desc c calls w)
          (cfi_bcast env desc (pos c) datatype_f root comm_f w)
  unfolding cfi_bcast
  cfi_bcast-CalledOnce root comm_f calls told keeps known =
      shim-CalledOnce calls (λ a n t. messages.bcast a n t root (comm_f2c mpi.handles comm_f)) told
        keeps known

  -- CFI_MPI_Isend of the first c elements of a section, contiguous or not, returns, having called
  -- MPI_Isend once: with the section's address, and c elements of its type if it is contiguous, else one
  -- element of a datatype whose elements are the first c of the section. Fortran has what becomes of
  -- that call's return code, and what MPI_Request_c2f makes of its request; every datatype is as it
  -- was. The section has at least c elements of a named type (IsSide); memory can be had; the state
  -- tells the calls that were made (Told); MPI_Isend changes no datatype and returns codes that
  -- MPI_Error_class knows.
  pub cfi_isend-StartedOnce :
      (matched : Matched W) (dest tag comm_f : ℤ) (calls : W → List (Posted × (ℤ × ℤ)))
      → Told env view calls
          (λ a n t. started (messages.isend a n t dest tag (comm_f2c mpi.handles comm_f)))
      → ((a n t u : ℤ) (v : W)
          → view (messages.isend a n t dest tag (comm_f2c mpi.handles comm_f) v).world u ≡ view v u)
      → ((a n t : ℤ) (v : W)
          → Known env (messages.isend a n t dest tag (comm_f2c mpi.handles comm_f) v).rc)
      → Returns
          (StartedOnce env view desc c calls w)
          (cfi_isend env matched desc (pos c) datatype_f dest tag comm_f w)
  unfolding cfi_isend
  cfi_isend-StartedOnce matched dest tag comm_f calls told keeps known =
      shim-StartedOnce matched calls
        (λ a n t. started (messages.isend a n t dest tag (comm_f2c mpi.handles comm_f))) told keeps
        known
