-- ===== src/Transfer/Sessions/Kept.antt =====
-- One shim of source/mpi_p2p.c or source/mpi_coll.c, contiguous or not, and the datatypes after it.
use vapaa.Prelude.{◌≡◌, inl, inr, ℕ, true, ℤ, pos, Bool-cases, if◌then◌else◌}
use vapaa.Errors.Names.{success}
use vapaa.Handles.{type_f2c, comm_f2c}
use vapaa.Run.{Returns, Returns-bind, Returns-weaken, ◌>>=◌}
use vapaa.Mpi.Laws.{TypeLaws}
use vapaa.Cfi.{Desc}
use vapaa.Transfer.{Env, call, contiguous, fix_rc, with_section, status}
use vapaa.Transfer.Sections.{Uses, section-Uses, code_known}
use vapaa.Transfer.Exchange.{IsSide}
use vapaa.Mpi.{Made}
use vapaa.Transfer.{started}
use vapaa.Transfer.PointToPoint.{Matched, store_request, cfi_sendrecv}
use vapaa.Transfer.PointToPoint.Starting.{Starts, section-Starts}
use vapaa.Transfer.PointToPoint.Both.{both_sections, both-Kept}
use vapaa.Transfer.Sessions.{Mild, MildStart, MessageLaws}

module _ {W : Type 0} (env : Env W) (laws : TypeLaws env.mpi)
    (memory : (n : ℤ) (b : ℕ) (w : W) → env.mpi.malloc n b w ≡ true) (matched : Matched W)
    (mild : MessageLaws env matched laws.view) where
  open env use {mpi, messages, config, build, version4}
  open laws use {view}

  abbrev pub Same : W → ℤ → W → Type 0
  Same w r w' = (u : ℤ) → view w' u ≡ view w u

  fix_rc-Same :
      (rc : ℤ) (w v : W)
      → (mpi.errors.error_class rc).0 ≡ mpi.errors.error success
      → Same w rc v
      → Returns (Same w) (fix_rc env rc v)
  unfolding fix_rc
  fix_rc-Same rc w v known same =
      let (ierror, fixed) = code_known mpi.errors version4 rc known in rw (fixed, fix_rc) same

  -- Contiguous or not, a mild call leaves the datatypes as they were.
  pub shim-Same :
      (desc : Desc) (c : ℕ) (datatype_f : ℤ) (w : W) (whole : W → ℤ × W) (parts : ℤ → W → ℤ × W)
      → IsSide env view desc c (type_f2c mpi.handles config datatype_f) w
      → Mild env matched view whole
      → ((t : ℤ) → Mild env matched view (parts t))
      → Returns (Same w) (
          ((if contiguous build desc
                then call whole
                else with_section env desc
                    (pos c)
                    (type_f2c mpi.handles config datatype_f)
                    (λ t. call (parts t)))
              >>= fix_rc env)
            w)
  shim-Same desc c datatype_f w whole parts given one each =
      elim (Bool-cases (contiguous build desc)) [
        | inl flat ↦ rw flat (fix_rc-Same (whole w).0 w (whole w).1 (one w).1 (one w).0)
        | inr apart ↦ rw apart (
            Returns-weaken (Uses env view desc c parts w) (Same w)
              ((with_section env desc (pos c) (type_f2c mpi.handles config datatype_f)
                    (λ t. call (parts t))
                  >>= fix_rc env)
                w)
              (section-Uses env laws memory given.section c w
                (type_f2c mpi.handles config datatype_f) given.element given.named given.enough
                given.element_small given.total_small parts (λ t u v. (each t v).0 u)
                (λ t v. (each t v).1))
              (λ r w' uses. uses.unchanged))
      ]

  abbrev pub SameStart : W → ℤ × ℤ → W → Type 0
  SameStart w r w' = (u : ℤ) → view w' u ≡ view w u

  store_request-Same :
      (r : ℤ × ℤ) (w v : W)
      → (mpi.errors.error_class r.0).0 ≡ mpi.errors.error success
      → SameStart w r v
      → Returns (SameStart w) (store_request env matched r.0 r.1 v)
  unfolding store_request fix_rc
  store_request-Same r w v known same =
      let (ierror, fixed) = code_known mpi.errors version4 r.0 known in
      rw (fixed, fix_rc, ◌>>=◌) same

  pub start-Same :
      (desc : Desc) (c : ℕ) (datatype_f : ℤ) (w : W) (whole : W → Made W) (parts : ℤ → W → Made W)
      → IsSide env view desc c (type_f2c mpi.handles config datatype_f) w
      → MildStart env matched view whole
      → ((t : ℤ) → MildStart env matched view (parts t))
      → Returns (SameStart w) (
          ((if contiguous build desc
                then call (started whole)
                else with_section env desc
                    (pos c)
                    (type_f2c mpi.handles config datatype_f)
                    (λ t. call (started (parts t))))
              >>= λ r. store_request env matched r.0 r.1)
            w)
  start-Same desc c datatype_f w whole parts given one each =
      elim (Bool-cases (contiguous build desc)) [
        | inl flat ↦ rw flat (
            store_request-Same ((whole w).rc, (whole w).handle) w (whole w).world (one w).1
              (one w).0)
        | inr apart ↦ rw apart (
            Returns-weaken (Starts env view desc c parts w) (SameStart w)
              ((with_section env desc (pos c) (type_f2c mpi.handles config datatype_f)
                    (λ t. call (started (parts t)))
                  >>= λ r. store_request env matched r.0 r.1)
                w)
              (section-Starts env matched laws memory given.section c w datatype_f given.element
                given.named given.enough given.element_small given.total_small apart parts
                (λ t u v. (each t v).0 u) (λ t v. (each t v).1))
              (λ r w' starts. starts.unchanged))
      ]

  abbrev Known : ℤ → Type 0
  Known rc = (mpi.errors.error_class rc).0 ≡ mpi.errors.error success

  pub sendrecv-Same :
      (sdesc rdesc : Desc) (c d : ℕ) (stype_f dest stag rtype_f source rtag comm_f status_f : ℤ)
      (w : W)
      → IsSide env view sdesc c (type_f2c mpi.handles config stype_f) w
      → IsSide env view rdesc d (type_f2c mpi.handles config rtype_f) w
      → Returns (Same w) (
          cfi_sendrecv env matched sdesc
            (pos c)
            stype_f
            dest
            stag
            rdesc
            (pos d)
            rtype_f
            source
            rtag
            comm_f
            status_f
            w)
  unfolding cfi_sendrecv
  sendrecv-Same sdesc rdesc c d stype_f dest stag rtype_f source rtag comm_f status_f w given
        given' =
      let stype = type_f2c mpi.handles config stype_f in
      let rtype = type_f2c mpi.handles config rtype_f in
      let comm = comm_f2c mpi.handles comm_f in
      let st = status env status_f in
      elim (Bool-cases (contiguous build sdesc)) [
        | inl flat ↦
            let whole =
              matched.sendrecv sdesc.base_addr (pos c) stype dest stag rdesc.base_addr (pos d) rtype
                source rtag comm st in
            let m =
              mild.sendrecv_mild sdesc.base_addr (pos c) stype dest stag rdesc.base_addr (pos d)
                rtype source rtag comm st w in
            rw flat (fix_rc-Same (whole w).0 w (whole w).1 m.1 m.0)
        | inr apart ↦
            let parts : ℤ → ℤ → W → ℤ × W = λ s r.
              matched.sendrecv sdesc.base_addr (pos 1) s dest stag rdesc.base_addr (pos 1) r source
                rtag comm st in
            rw apart (
              Returns-bind (λ rc w'. Known rc × Same w rc w') (Same w)
                (both_sections env parts sdesc rdesc (pos c) (pos d) stype rtype) (fix_rc env) w
                (both-Kept env laws memory parts Known
                  (λ s r.
                    mild.sendrecv_mild sdesc.base_addr (pos 1) s dest stag rdesc.base_addr (pos 1) r
                      source rtag comm st)
                  sdesc rdesc c d stype rtype w given given')
                (λ rc v kept. fix_rc-Same rc w v kept.0 kept.1))
      ]
