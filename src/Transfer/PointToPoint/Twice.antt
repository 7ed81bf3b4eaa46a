-- ===== src/Transfer/PointToPoint/Twice.antt =====
-- The branch of `CFI_MPI_Sendrecv` (source/mpi_p2p.c) that makes two datatypes, from what its call of
-- the library does on them.
use vapaa.Prelude.{
  ◌≡◌, ◌≢◌, refl, sym, ap, ◌∙◌, ℕ, ◌*◌, true, false, some, ℤ, pos, eq_ℤ-refl, eq_ℤ-false, tabulate,
}
use vapaa.Errors.Names.{success}
use vapaa.Handles.DatatypeNames.{datatype_null}
use vapaa.Run.{Run, Returns, Returns-bind, Returns-Leaves, pure, ◌>>=◌}
use vapaa.Mpi.{made}
use vapaa.Mpi.Laws.{TypeInfo, TypeLaws}
use vapaa.Cfi.{Desc}
use vapaa.Cfi.Quiet.{IsQuiet}
use vapaa.Cfi.Section.{offset_of}
use vapaa.Cfi.Select.{Picks}
use vapaa.Transfer.{Env, call, commit_section}
use vapaa.Transfer.Sections.{commit_section-Picks}
use vapaa.Transfer.Exchange.{IsSide}
use vapaa.Transfer.Effects.{commit_section-Leaves}
use vapaa.Transfer.PointToPoint.Both.{both_sections, picks-Adds, later-IsSide}

-- The datatype of the first c elements of a section.
abbrev pub picked : Desc → ℕ → ℤ → TypeInfo
picked desc c extent = record {
  disps = tabulate c (offset_of desc);
  size = c * desc.elem_len;
  extent = extent;
  named = false;
}

module _ {W : Type 0} (env : Env W) (laws : TypeLaws env.mpi)
    (memory : (n : ℤ) (b : ℕ) (w : W) → env.mpi.malloc n b w ≡ true) where
  open env use {mpi}
  open laws use {view}

  -- With two datatypes in a state that P holds of, of which the second is new, a call is made and
  -- both are freed.
  module _ {P : W → Type 0} (quiet : IsQuiet mpi P) (sdesc rdesc : Desc) (c d : ℕ) (stype rtype : ℤ)
      (w : W) (side : IsSide env view sdesc c stype w) (side' : IsSide env view rdesc d rtype w)
      (before : P w) (f : ℤ → ℤ → W → ℤ × W)
      (keeps : (s r u : ℤ) (v : W) → view (f s r v).1 u ≡ view v u) (Q : ℤ → W → Type 0)
      (free : (a t : ℤ) (v : W) → Q a v → Q a (mpi.type_free t v).world)
      (does : (s r : ℤ) (v v0 : W)
        → Picks view rdesc d v0 r v
        → (e : ℤ) → view v s ≡ some (picked sdesc c e)
        → P v
        → Q (f s r v).0 (f s r v).1) where
    -- The call, and both frees.
    abbrev ending : ℤ → ℤ → W → Run W ℤ
    ending s r = call (f s r) >>= λ rc.
        made mpi (mpi.type_free s) >>= λ _. made mpi (mpi.type_free r) >>= λ _. pure rc

    ending-Does :
        (s r : ℤ) (w1 w2 : W)
        → Picks view sdesc c w s w1
        → Picks view rdesc d w1 r w2
        → P w2
        → Returns Q (ending s r w2)
    ending-Does s r w1 w2 one two h =
        let v : W = (f s r w2).1 in
        let other : s ≢ r = λ e. cc (one.now, two.fresh, ap (view w1) e) in
        let s_now = two.others s other ∙ one.now in
        let s_then = keeps s r s w2 ∙ s_now in
        let r_then = keeps s r r w2 ∙ two.now in
        let v' : W = (mpi.type_free s v).world in
        let r_left : view v' r ≡ some (picked rdesc d two.extent) =
          laws.free_view s v s_then refl r ∙ rw (eq_ℤ-false r s (λ e. other (sym e))) r_then in
        rw
          (
            laws.free_succeeds s v s_then refl,
            eq_ℤ-refl (mpi.errors.error success),
            laws.free_succeeds r v' r_left refl,
            eq_ℤ-refl (mpi.errors.error success),
            ◌>>=◌,
          )
          (free _ r v' (free _ s v (does s r w2 w1 two one.extent s_now h)))

    pub both-Does : Returns Q (both_sections env f sdesc rdesc (pos c) (pos d) stype rtype w)
    both-Does =
        let none : ℤ = mpi.handles.datatype datatype_null in
        Returns-bind (λ s w1. Picks view sdesc c w s w1 × P w1) Q
          (commit_section env sdesc (pos c) stype none)
          (λ s. commit_section env rdesc (pos d) rtype none >>= λ r. ending s r) w
          (Returns-Leaves (Picks view sdesc c w) P (commit_section env sdesc (pos c) stype none w)
            (commit_section-Picks env laws memory side.section c w stype side.element side.named
              side.enough side.element_small side.total_small none)
            (commit_section-Leaves env sdesc (pos c) stype none w quiet before))
          (λ s w1 p.
            let there =
              later-IsSide env laws memory rdesc d rtype s w w1
                (picks-Adds env laws memory sdesc c w s w1 p.0) side' in
            Returns-bind (λ r w2. Picks view rdesc d w1 r w2 × P w2) Q
              (commit_section env rdesc (pos d) rtype none) (λ r. ending s r) w1
              (Returns-Leaves (Picks view rdesc d w1) P
                (commit_section env rdesc (pos d) rtype none w1)
                (commit_section-Picks env laws memory there.section d w1 rtype there.element
                  there.named there.enough there.element_small there.total_small none)
                (commit_section-Leaves env rdesc (pos d) rtype none w1 quiet p.1))
              (λ r w2 q. ending-Does s r w1 w2 p.0 q.0 q.1))
