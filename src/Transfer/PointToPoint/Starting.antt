-- ===== src/Transfer/PointToPoint/Starting.antt =====
-- What the shims of source/mpi_p2p.c that start an operation do with a section that is not contiguous.
use vapaa.Prelude.{refl, ◌≡◌, ℕ, ◌*◌, ◌^◌, ◌≤◌, ◌<◌, true, false, Option, some, ℤ, pos, tabulate}
use vapaa.Errors.Names.{success}
use vapaa.Errors.{rc_fix}
use vapaa.Handles.{type_f2c}
use vapaa.Run.{Returns, ◌>>=◌, Returns-bind}
use vapaa.Mpi.{Made}
use vapaa.Mpi.Laws.{TypeInfo, TypeLaws}
use vapaa.Cfi.{Desc}
use vapaa.Cfi.Elements.{extents_product}
use vapaa.Cfi.Indexed.{cfi_to_mpi_type}
use vapaa.Cfi.Shapes.{basic}
use vapaa.Cfi.Section.{sizes, offset_of, IsSection}
use vapaa.Transfer.{Env, call, started, contiguous, fix_rc, with_section}
use vapaa.Transfer.Sections.{code_known, Used, with_section-Used}
use vapaa.Transfer.PointToPoint.{Matched, store_request}

-- An operation started on a datatype of the section: in the state `at` that datatype's elements are
-- the first c of the section; Fortran gets the return code and the number of the request; afterwards
-- every datatype is what it was before.
pub record Starts {W : Type 0} (env : Env W) (view : W → ℤ → Option TypeInfo) (desc : Desc) (c : ℕ)
    (f : ℤ → W → Made W) (w : W) (r : ℤ × ℤ) (w' : W) : Type 0 where
  pub datatype : ℤ
  pub at : W
  pub extent : ℤ
  pub now :
      view at datatype
      ≡ some (record {
        disps = tabulate c (offset_of desc);
        size = c * desc.elem_len;
        extent = extent;
        named = false;
      })
  pub code : rc_fix env.mpi.errors env.version4 (f datatype at).rc ≡ some r.0
  pub request : r.1 ≡ env.mpi.handles.mpi_request_c2f (f datatype at).handle
  pub unchanged : (u : ℤ) → view w' u ≡ view w u

module _ {W : Type 0} (env : Env W) (matched : Matched W) (laws : TypeLaws env.mpi)
    (memory : (n : ℤ) (b : ℕ) (w : W) → env.mpi.malloc n b w ≡ true) {desc : Desc}
    (is : IsSection desc) (c : ℕ) (w : W) (datatype_f : ℤ)
    (element : laws.view w (cfi_to_mpi_type env.mpi env.build desc.cfi_type)
      ≡ some (basic desc.elem_len))
    (named : laws.view w (type_f2c env.mpi.handles env.config datatype_f)
      ≡ some (basic desc.elem_len))
    (enough : c ≤ extents_product (sizes desc) 0 desc.rank) (element_small : desc.elem_len < 2 ^ 31)
    (total_small : c * desc.elem_len < 2 ^ 31) (apart : contiguous env.build desc ≡ false) where
  open env use {mpi, messages, config, build, version4}
  open matched use {imrecv}
  open laws use {view}

  abbrev datatype : ℤ
  datatype = type_f2c mpi.handles config datatype_f

  module _ (f : ℤ → W → Made W) (keeps : (t u : ℤ) (v : W) → view (f t v).world u ≡ view v u)
      (known : (t : ℤ) (v : W)
        → (mpi.errors.error_class (f t v).rc).0 ≡ mpi.errors.error success) where
    abbrev start : ℤ → W → (ℤ × ℤ) × W
    start t = started (f t)

    abbrev UsedStart : ℤ × ℤ → W → Type 0
    UsedStart =
        Used env laws memory is c w datatype element named enough element_small total_small start
          keeps

    finish :
        (r : ℤ × ℤ) (w' : W)
        → UsedStart r w'
        → Returns (Starts env view desc c f w) (store_request env matched r.0 r.1 w')
    unfolding store_request fix_rc
    finish r w' (t, v, picked, e, unchanged) =
        let (ierror, fixed) = code_known mpi.errors version4 (f t v).rc (known t v) in
        rw (e, fixed, fix_rc, ◌>>=◌)
          (record {
            datatype = t;
            at = v;
            extent = picked.extent;
            now = picked.now;
            code = fixed;
            request = refl;
            unchanged = unchanged;
          })

    pub section-Starts : Returns (Starts env view desc c f w) (
        (with_section env desc (pos c) datatype (λ t. call (start t)) >>= λ r.
        store_request env matched r.0 r.1)
          w)
    section-Starts =
        Returns-bind UsedStart (Starts env view desc c f w)
          (with_section env desc (pos c) datatype (λ t. call (start t)))
          (λ r. store_request env matched r.0 r.1) w
          (with_section-Used env laws memory is c w datatype element named enough element_small
            total_small start keeps)
          finish
