-- ===== src/Transfer/Sections.antt =====
-- What the shims of source/mpi_p2p.c and source/mpi_coll.c do with a section that is not contiguous.
use vapaa.Prelude.{
  ◌≡◌, refl, sym, ap, ◌∙◌, inl, inr, ℕ, ◌*◌, ◌^◌, ◌≤◌, ◌<◌, Bool, true, false, Option, none, some,
  ℤ, pos, eq_ℤ, eq_ℤ-refl, eq_ℤ→eq, tabulate, Bool-cases, if◌then◌else◌,
}
use vapaa.Errors.Names.{success}
use vapaa.Errors.{ErrorLib, rc_fix, error_code_c2f, class_c2f}
use vapaa.Handles.DatatypeNames.{datatype_null}
use vapaa.Run.{Returns, ◌>>=◌, ◌>>◌, Returns-bind, pure, vapaa_assert}
use vapaa.Mpi.{made, ok}
use vapaa.Mpi.Laws.{TypeInfo, TypeLaws}
use vapaa.Cfi.{Desc}
use vapaa.Cfi.Elements.{extents_product}
use vapaa.Cfi.Indexed.{cfi_to_mpi_type}
use vapaa.Cfi.Create.{create_datatype}
use vapaa.Cfi.Shapes.{basic}
use vapaa.Cfi.Section.{sizes, offset_of, IsSection}
use vapaa.Cfi.Select.{Picks}
use vapaa.Cfi.Datatype.{create_datatype-Picks}
use vapaa.Transfer.{Env, call, fix_rc, commit_section, with_section}

-- A call on a datatype of the section: in the state `at`, with a datatype whose elements are the first c
-- of the section, it gives the code that Fortran is told, and afterwards every datatype is what it was
-- before.
pub record Uses {W : Type 0} (env : Env W) (view : W → ℤ → Option TypeInfo) (desc : Desc) (c : ℕ)
    (f : ℤ → W → ℤ × W) (w : W) (ierror : ℤ) (w' : W) : Type 0 where
  pub datatype : ℤ
  pub at : W
  pub extent : ℤ
  pub now :
      view at datatype
      ≡ some (record {
        disps = tabulate c (offset_of desc);
        size = c * desc.elem_len;
        extent = extent;
        named = false;
      })
  pub code : rc_fix env.mpi.errors env.version4 (f datatype at).0 ≡ some ierror
  pub unchanged : (u : ℤ) → view w' u ≡ view w u

-- A code that MPI_Error_class knows is translated.
pub code_known :
    (errors : ErrorLib) (version4 : Bool) (rc : ℤ)
    → (errors.error_class rc).0 ≡ errors.error success
    → (ierror : ℤ) × (rc_fix errors version4 rc ≡ some ierror)
unfolding rc_fix error_code_c2f
code_known errors version4 rc h = elim (Bool-cases (eq_ℤ rc (errors.error success))) [
  | inl fine ↦ (rc, rw fine)
  | inr bad ↦ (
    class_c2f errors version4 (errors.error_class rc).1,
    rw (bad, h, eq_ℤ-refl (errors.error success)),
  )
]

module _ {W : Type 0} (env : Env W) (laws : TypeLaws env.mpi)
    (memory : (n : ℤ) (b : ℕ) (w : W) → env.mpi.malloc n b w ≡ true) {desc : Desc}
    (is : IsSection desc) (c : ℕ) (w : W) (datatype : ℤ)
    (element : laws.view w (cfi_to_mpi_type env.mpi env.build desc.cfi_type)
      ≡ some (basic desc.elem_len))
    (named : laws.view w datatype ≡ some (basic desc.elem_len))
    (enough : c ≤ extents_product (sizes desc) 0 desc.rank) (element_small : desc.elem_len < 2 ^ 31)
    (total_small : c * desc.elem_len < 2 ^ 31) where
  open env use {mpi, build, version4}
  open laws use {view}

  abbrev Picked : ℤ → W → Type 0
  Picked t w' = Picks view desc c w t w'

  pub commit_section-Picks :
      (out : ℤ) → Returns Picked (commit_section env desc (pos c) datatype out w)
  unfolding commit_section
  commit_section-Picks out =
      Returns-bind (λ r w'. (r.0 ≡ mpi.errors.error success) × Picked r.1 w') Picked
        (create_datatype mpi build desc (pos c) datatype out)
        (λ r. vapaa_assert (ok mpi r.0) >> made mpi (mpi.type_commit r.1)) w
        (create_datatype-Picks build laws memory is c w datatype element named enough element_small
          total_small out)
        (λ r w' p.
          let picked = p.1 in
          rw
            (
              p.0,
              eq_ℤ-refl (mpi.errors.error success),
              laws.commit_succeeds r.1 w' picked.now,
              eq_ℤ-refl (mpi.errors.error success),
              laws.commit_handle r.1 w' picked.now,
            )
            (record {
              fresh = picked.fresh;
              extent = picked.extent;
              now = laws.commit_view r.1 w' picked.now r.1 ∙ picked.now;
              others = λ u h. laws.commit_view r.1 w' picked.now u ∙ picked.others u h;
            }))

  module _ {A : Type 0} (f : ℤ → W → A × W)
      (keeps : (t u : ℤ) (v : W) → view (f t v).1 u ≡ view v u) where
    abbrev pub Used : A → W → Type 0
    Used a w' = (t : ℤ) × (v : W) × Picked t v × (a ≡ (f t v).0) × ((u : ℤ) → view w' u ≡ view w u)

    -- Once the datatype is freed, all are as before.
    back :
        (t : ℤ) (v : W)
        → Picked t v
        → (u : ℤ) → (if eq_ℤ u t then none else view (f t v).1 u) ≡ view w u
    back t v picked u = elim (Bool-cases (eq_ℤ u t)) [
      | inl same ↦ rw same (sym (ap (view w) (eq_ℤ→eq u t same) ∙ picked.fresh))
      | inr other ↦
          rw other (
            keeps t u v
            ∙ picked.others u (λ e. cc (other, ap (λ (x : ℤ). eq_ℤ x t) e, eq_ℤ-refl t)))
    ]

    pub with_section-Used :
        Returns Used (with_section env desc (pos c) datatype (λ t. call (f t)) w)
    unfolding with_section
    with_section-Used =
        Returns-bind Picked Used
          (commit_section env desc (pos c) datatype (mpi.handles.datatype datatype_null))
          (λ t. call (f t) >>= λ rc. made mpi (mpi.type_free t) >>= λ _. pure rc) w
          (commit_section-Picks (mpi.handles.datatype datatype_null))
          (λ t v picked.
            let still = keeps t t v ∙ picked.now in
            let w2 : W = (f t v).1 in
            let gone = laws.free_view t w2 still refl in
            rw (laws.free_succeeds t w2 still refl, eq_ℤ-refl (mpi.errors.error success), ◌>>=◌)
              (t, v, picked, refl, λ u. gone u ∙ back t v picked u))

  module _ (f : ℤ → W → ℤ × W) (keeps : (t u : ℤ) (v : W) → view (f t v).1 u ≡ view v u)
      (known : (t : ℤ) (v : W)
        → (mpi.errors.error_class (f t v).0).0 ≡ mpi.errors.error success) where
    finish :
        (rc : ℤ) (w' : W)
        → Used f keeps rc w'
        → Returns (Uses env view desc c f w) (fix_rc env rc w')
    unfolding fix_rc
    finish rc w' (t, v, picked, e, unchanged) =
        let (ierror, fixed) = code_known mpi.errors version4 (f t v).0 (known t v) in
        rw (e, fixed, fix_rc)
          (record {
            datatype = t;
            at = v;
            extent = picked.extent;
            now = picked.now;
            code = fixed;
            unchanged = unchanged;
          })

    pub section-Uses :
        Returns
          (Uses env view desc c f w)
          ((with_section env desc (pos c) datatype (λ t. call (f t)) >>= fix_rc env) w)
    section-Uses =
        Returns-bind (Used f keeps) (Uses env view desc c f w)
          (with_section env desc (pos c) datatype (λ t. call (f t))) (fix_rc env) w
          (with_section-Used f keeps) finish
