-- ===== src/Transfer/Effects.antt =====
-- What a shim of source/mpi_p2p.c or source/mpi_coll.c comes to with a section, from what its call of the
-- library does on a datatype of the section's elements.
use vapaa.Prelude.{◌≡◌, refl, ◌∙◌, inl, inr, ℕ, Bool-cases, true, ℤ, pos, eq_ℤ-refl, if◌then◌else◌}
use vapaa.Errors.Names.{success}
use vapaa.Handles.DatatypeNames.{datatype_null}
use vapaa.Run.{Returns, Returns-bind, Returns-Leaves, Leaves, leaves, pure, ◌>>=◌}
use vapaa.Mpi.{made}
use vapaa.Mpi.Laws.{TypeLaws}
use vapaa.Cfi.{Desc}
use vapaa.Cfi.Quiet.{IsQuiet, create_datatype-Leaves}
use vapaa.Cfi.Select.{Picks}
use vapaa.Transfer.{Env, call, contiguous, fix_rc, commit_section, with_section}
use vapaa.Transfer.Exchange.{IsSide}
use vapaa.Transfer.Sections.{commit_section-Picks, code_known}

module _ {W : Type 0} (env : Env W) where
  open env use {mpi, build, version4}

  -- A return code that MPI_Error_class knows.
  abbrev pub Known : ℤ → Type 0
  Known rc = (mpi.errors.error_class rc).0 ≡ mpi.errors.error success

  pub fix_rc-Returns :
      (Q : W → Type 0) (rc : ℤ) (w : W) → Known rc → Q w → Returns (λ _. Q) (fix_rc env rc w)
  unfolding fix_rc
  fix_rc-Returns Q rc w known h =
      let (ierror, fixed) = code_known mpi.errors version4 rc known in rw (fixed, fix_rc) h

  pub commit_section-Leaves :
      (desc : Desc) (n t out : ℤ) {P : W → Type 0} (w : W)
      → IsQuiet mpi P
      → P w
      → Leaves P (commit_section env desc n t out w)
  unfolding commit_section
  commit_section-Leaves desc n t out w quiet h =
      search (leaves, create_datatype-Leaves build quiet, quiet.commit) depth 12

  module _ (laws : TypeLaws mpi) (memory : (n : ℤ) (b : ℕ) (w : W) → mpi.malloc n b w ≡ true)
      (desc : Desc) (c : ℕ) (datatype : ℤ) (w : W) (side : IsSide env laws.view desc c datatype w)
      {P : W → Type 0} (quiet : IsQuiet mpi P) (before : P w) where
    open laws use {view}

    -- The call is made on a datatype that picks the section's elements, in a state that P holds of.
    -- What holds after it holds in the end if it outlives the datatype.
    pub with_section-Does :
        {A : Type 0} (f : ℤ → W → A × W) (Q : A → W → Type 0)
        → ((t u : ℤ) (v : W) → view (f t v).1 u ≡ view v u)
        → ((a : A) (t : ℤ) (v : W) → Q a v → Q a (mpi.type_free t v).world)
        → ((t : ℤ) (v : W) → Picks view desc c w t v → P v → Q (f t v).0 (f t v).1)
        → Returns Q (with_section env desc (pos c) datatype (λ t. call (f t)) w)
    unfolding with_section
    with_section-Does f Q keeps free does =
        let null = mpi.handles.datatype datatype_null in
        Returns-bind (λ t v. Picks view desc c w t v × P v) Q
          (commit_section env desc (pos c) datatype null)
          (λ t. call (f t) >>= λ a. made mpi (mpi.type_free t) >>= λ _. pure a) w
          (Returns-Leaves (Picks view desc c w) P (commit_section env desc (pos c) datatype null w)
            (commit_section-Picks env laws memory side.section c w datatype side.element side.named
              side.enough side.element_small side.total_small null)
            (commit_section-Leaves desc (pos c) datatype null w quiet before))
          (λ t v p.
            rw
              (
                laws.free_succeeds t (f t v).1 (keeps t t v ∙ p.0.now) refl,
                eq_ℤ-refl (mpi.errors.error success),
                ◌>>=◌,
              )
              (free (f t v).0 t (f t v).1 (does t v p.0 p.1)))

    -- A shim that makes the call on a contiguous section as it is.
    pub shim-Does :
        (Q : W → Type 0)
        → ((t : ℤ) (v : W) → Q v → Q (mpi.type_free t v).world)
        → (whole : W → ℤ × W) (parts : ℤ → W → ℤ × W)
        → ((t u : ℤ) (v : W) → view (parts t v).1 u ≡ view v u)
        → (contiguous build desc ≡ true → Known (whole w).0 × Q (whole w).1)
        → ((t : ℤ) (v : W) → Picks view desc c w t v → P v → Known (parts t v).0 × Q (parts t v).1)
        → Returns
            (λ _. Q)
            (((if contiguous build desc
                  then call whole
                  else with_section env desc (pos c) datatype (λ t. call (parts t)))
                >>= fix_rc env)
              w)
    shim-Does Q free whole parts keeps flat does = elim (Bool-cases (contiguous build desc)) [
      | inl one ↦ rw one (fix_rc-Returns Q (whole w).0 (whole w).1 (flat one).0 (flat one).1)
      | inr apart ↦ rw apart (
          Returns-bind (λ rc w'. Known rc × Q w') (λ _. Q)
            (with_section env desc (pos c) datatype (λ t. call (parts t))) (fix_rc env) w
            (with_section-Does parts (λ rc w'. Known rc × Q w') keeps
              (λ rc t v q. (q.0, free t v q.1)) does)
            (λ rc w' p. fix_rc-Returns Q rc w' p.0 p.1))
    ]
