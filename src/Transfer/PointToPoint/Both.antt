-- ===== src/Transfer/PointToPoint/Both.antt =====
-- `CFI_MPI_Sendrecv` of source/mpi_p2p.c makes datatypes for both sections where the one to send is not
-- contiguous, and frees them.
use vapaa.Prelude.{◌≡◌, refl, ℕ, true, false, Bool, ℤ, pos, eq_ℤ-refl}
use vapaa.Errors.Names.{success}
use vapaa.Handles.DatatypeNames.{datatype_null}
use vapaa.Run.{Run, Returns, Returns-weaken, Returns-bind, bind-Returns, ◌>>=◌, pure}
use vapaa.Mpi.{made}
use vapaa.Mpi.Laws.{TypeLaws}
use vapaa.Cfi.{Desc}
use vapaa.Cfi.Select.{Picks}
use vapaa.Transfer.{Env, call, commit_section}
use vapaa.Transfer.Sections.{commit_section-Picks}
use vapaa.Transfer.Exchange.{IsSide, Adds, Adds-keeps, Adds-later, gone-Adds}

-- The branch of the shim: both datatypes are made, used and freed.
abbrev pub both_sections :
    {W : Type 0}
    → Env W
    → (ℤ → ℤ → W → ℤ × W)
    → (sdesc rdesc : Desc) (count rcount stype rtype : ℤ) → W
    → Run W ℤ
both_sections env f sdesc rdesc count rcount stype rtype =
    let null = env.mpi.handles.datatype datatype_null in
    (do
      s ← commit_section env sdesc count stype null
      r ← commit_section env rdesc rcount rtype null
      rc ← call (f s r)
      _ ← made env.mpi (env.mpi.type_free s)
      _ ← made env.mpi (env.mpi.type_free r)
      pure rc)

module _ {W : Type 0} (env : Env W) (laws : TypeLaws env.mpi)
    (memory : (n : ℤ) (b : ℕ) (w : W) → env.mpi.malloc n b w ≡ true) where
  open env use {mpi}
  open laws use {view}

  -- What a datatype that a section has been given adds.
  pub picks-Adds :
      (desc : Desc) (c : ℕ) (w : W) (t : ℤ) (w' : W)
      → Picks view desc c w t w'
      → Adds env laws memory t w w' false
  picks-Adds desc c w t w' p = (p.fresh, (_, p.now, refl), p.others)

  -- Freeing what was added, while a later addition stays.
  freed :
      (t t' : ℤ) (w w1 v : W) (b : Bool)
      → Adds env laws memory t w w1 false
      → Adds env laws memory t' w1 v b
      → Returns (λ _ v'. Adds env laws memory t' w v' b) (made mpi (mpi.type_free t) v)
  freed t t' w w1 v b one two =
      let (_, (i, was, derived), _) = one in
      let now = Adds-keeps env laws memory t' w1 v b two t was in
      rw (laws.free_succeeds t v now derived, eq_ℤ-refl (mpi.errors.error success))
        (gone-Adds env laws memory t w w1 v (mpi.type_free t v).world
          (laws.free_view t v now derived) t' b one two)

  pub later-IsSide :
      (desc : Desc) (c : ℕ) (datatype t : ℤ) (w v : W)
      → Adds env laws memory t w v false
      → IsSide env view desc c datatype w
      → IsSide env view desc c datatype v
  later-IsSide desc c datatype t w v added given = record {
    section = given.section;
    element = Adds-keeps env laws memory t w v false added _ given.element;
    named = Adds-keeps env laws memory t w v false added datatype given.named;
    enough = given.enough;
    element_small = given.element_small;
    total_small = given.total_small;
  }

  committed :
      (desc : Desc) (c : ℕ) (datatype out : ℤ) (w : W)
      → IsSide env view desc c datatype w
      → Returns
          (λ t w'. Adds env laws memory t w w' false)
          (commit_section env desc (pos c) datatype out w)
  committed desc c datatype out w given =
      Returns-weaken (Picks view desc c w) (λ t w'. Adds env laws memory t w w' false)
        (commit_section env desc (pos c) datatype out w)
        (commit_section-Picks env laws memory given.section c w datatype given.element given.named
          given.enough given.element_small given.total_small out)
        (λ t w' p. picks-Adds desc c w t w' p)

  module _ (f : ℤ → ℤ → W → ℤ × W) (P : ℤ → Type 0)
      (keeps : (s r : ℤ) (v : W) → ((u : ℤ) → view (f s r v).1 u ≡ view v u) × P (f s r v).0) where
    abbrev Kept : W → ℤ → W → Type 0
    Kept w rc w' = P rc × ((u : ℤ) → view w' u ≡ view w u)

    abbrev null : ℤ
    null = mpi.handles.datatype datatype_null

    -- The call, and both frees.
    abbrev ending : ℤ → ℤ → W → Run W ℤ
    ending s r = call (f s r) >>= λ rc.
        made mpi (mpi.type_free s) >>= λ _. made mpi (mpi.type_free r) >>= λ _. pure rc

    ending-Kept :
        (s r : ℤ) (w w1 w2 : W)
        → Adds env laws memory s w w1 false
        → Adds env laws memory r w1 w2 false
        → Returns (Kept w) (ending s r w2)
    ending-Kept s r w w1 w2 one two =
        let rc : ℤ = (f s r w2).0 in
        let v : W = (f s r w2).1 in
        let (same, good) = keeps s r w2 in
        bind-Returns (Kept w) (call (f s r))
          (λ rc. made mpi (mpi.type_free s) >>= λ _. made mpi (mpi.type_free r) >>= λ _. pure rc)
          refl
          (Returns-bind (λ _ v'. Adds env laws memory r w v' false) (Kept w)
            (made mpi (mpi.type_free s)) (λ _. made mpi (mpi.type_free r) >>= λ _. pure rc) v
            (freed s r w w1 v false one (Adds-later env laws memory r w1 w2 v false two same))
            (λ _ v' left.
              Returns-bind (λ _ w'. (u : ℤ) → view w' u ≡ view w u) (Kept w)
                (made mpi (mpi.type_free r)) (λ _. pure rc) v'
                (freed r r w v' v' true left (λ u. refl)) (λ _ w' back. (good, back))))

    pub both-Kept :
        (sdesc rdesc : Desc) (c d : ℕ) (stype rtype : ℤ) (w : W)
        → IsSide env view sdesc c stype w
        → IsSide env view rdesc d rtype w
        → Returns (Kept w) (both_sections env f sdesc rdesc (pos c) (pos d) stype rtype w)
    both-Kept sdesc rdesc c d stype rtype w given given' =
        Returns-bind (λ s w1. Adds env laws memory s w w1 false) (Kept w)
          (commit_section env sdesc (pos c) stype null)
          (λ s. commit_section env rdesc (pos d) rtype null >>= λ r. ending s r) w
          (committed sdesc c stype null w given)
          (λ s w1 one.
            Returns-bind (λ r w2. Adds env laws memory r w1 w2 false) (Kept w)
              (commit_section env rdesc (pos d) rtype null) (λ r. ending s r) w1
              (committed rdesc d rtype null w1 (later-IsSide rdesc d rtype s w w1 one given'))
              (λ r w2 two. ending-Kept s r w w1 w2 one two))
