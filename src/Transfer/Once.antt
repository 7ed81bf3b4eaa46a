-- ===== src/Transfer/Once.antt =====
-- How often the shims of source/mpi_p2p.c and source/mpi_coll.c call the library for a section, and with
-- what. The library's state is taken to tell which calls have been made.
mod Tests
use vapaa.Prelude.{
  ◌≡◌, refl, ap, ap₂, ◌∙◌, ℕ, Bool, true, false, Option, some, List, ◌∷◌, ℤ, pos, if◌then◌else◌,
}
use vapaa.Run.{Run, Returns, Returns-weaken, Returns-both}
use vapaa.Mpi.Laws.{TypeInfo, TypeLaws}
use vapaa.Cfi.{Desc}
use vapaa.Cfi.Quiet.{IsQuiet}
use vapaa.Cfi.Shapes.{basic}
use vapaa.Transfer.{Env, call, contiguous, with_section}
use vapaa.Transfer.Sections.{Used, with_section-Used}
use vapaa.Transfer.Exchange.{IsSide}
use vapaa.Transfer.Effects.{with_section-Does}
use vapaa.Transfer.PointToPoint.Twice.{picked}

-- A buffer that the library was given: its address, a count, and what its datatype then was.
pub record Posted : Type 0 where
  pub address : ℤ
  pub count : ℤ
  pub described : Option TypeInfo

-- It is the first c elements of the section: so many of its type if it is contiguous, else one element
-- of a datatype that picks them.
abbrev pub Posts : Desc → (c : ℕ) (address : ℤ) → (contiguous : Bool) → Posted → Type 0
Posts desc c address true x =
    x ≡ record { address = address; count = pos c; described = some (basic desc.elem_len) }
Posts desc c address false x =
    (extent : ℤ) × (x
      ≡ record { address = address; count = pos 1; described = some (picked desc c extent) })

-- `calls` tells the calls of `f` that have been made, the last one first, each with what it was given
-- and what it returned. Datatype calls are not among them.
pub record Told {W A : Type 0} (env : Env W) (view : W → ℤ → Option TypeInfo)
    (calls : W → List (Posted × A)) (f : (address count datatype : ℤ) → W → A × W) : Type 0 where
  pub quiet : (before : List (Posted × A)) → IsQuiet env.mpi (λ w. calls w ≡ before)
  pub tells :
      (a n t : ℤ) (w : W)
      → calls (f a n t w).1
        ≡ ((record { address = a; count = n; described = view w t }, (f a n t w).0) ∷ calls w)

module _ {W A : Type 0} (env : Env W) (laws : TypeLaws env.mpi)
    (memory : (n : ℤ) (b : ℕ) (w : W) → env.mpi.malloc n b w ≡ true) (desc : Desc) (c : ℕ)
    (datatype : ℤ) (w : W) (side : IsSide env laws.view desc c datatype w)
    (calls : W → List (Posted × A)) (f : (address count datatype : ℤ) → W → A × W)
    (told : Told env laws.view calls f)
    (keeps : (a n t u : ℤ) (v : W) → laws.view (f a n t v).1 u ≡ laws.view v u) (K : A → Type 0)
    (known : (a n t : ℤ) (v : W) → K (f a n t v).0) where
  open env use {mpi, build}
  open laws use {view}

  -- One call was made, for this section, and returned this; datatypes are as they were.
  abbrev pub OnceBy : Bool → A → W → Type 0
  OnceBy b a w' =
      K a
      × ((x : Posted) × Posts desc c desc.base_addr b x × (calls w' ≡ ((x, a) ∷ calls w)))
      × ((u : ℤ) → view w' u ≡ view w u)

  abbrev Apart : A → W → Type 0
  Apart a w' =
      K a × ((x : Posted) × Posts desc c desc.base_addr false x × (calls w' ≡ ((x, a) ∷ calls w)))

  free-Apart : (a : A) (t : ℤ) (v : W) → Apart a v → Apart a (mpi.type_free t v).world
  free-Apart a t v (k, (x, posts, e)) = (k, (x, posts, (told.quiet ((x, a) ∷ calls w)).free t v e))

  posting :
      (b : Bool)
      → Returns (OnceBy b) (
          (if b
              then call (f desc.base_addr (pos c) datatype)
              else with_section env desc (pos c) datatype (λ t. call (f desc.base_addr (pos 1) t)))
            w)
  posting true = (
    known desc.base_addr (pos c) datatype w,
    (
      record { address = desc.base_addr; count = pos c; described = some (basic desc.elem_len) },
      refl,
      told.tells desc.base_addr (pos c) datatype w
          ∙ ap
              (λ (i : Option TypeInfo).
                (
                  record { address = desc.base_addr; count = pos c; described = i },
                  (f desc.base_addr (pos c) datatype w).0,
                )
                ∷ calls w)
              side.named,
    ),
    λ u. keeps desc.base_addr (pos c) datatype u w,
  )
  posting false =
      let body : ℤ → W → A × W = f desc.base_addr (pos 1) in
      let run = with_section env desc (pos c) datatype (λ t. call (body t)) w in
      Returns-weaken
        (λ a w'.
          Apart a w'
          × Used env laws memory side.section c w datatype side.element side.named side.enough
              side.element_small side.total_small body (keeps desc.base_addr (pos 1)) a w')
        (OnceBy false) run
        (Returns-both Apart _ run
          (with_section-Does env laws memory desc c datatype w side (told.quiet (calls w)) refl body
            Apart (keeps desc.base_addr (pos 1)) free-Apart
            (λ t v picks before. (
              known desc.base_addr (pos 1) t v,
              (
                record {
                  address = desc.base_addr;
                  count = pos 1;
                  described = some (picked desc c picks.extent);
                },
                (picks.extent, refl),
                told.tells desc.base_addr (pos 1) t v
                    ∙ ap₂
                        (λ (i : Option TypeInfo) (before : List (Posted × A)).
                          (
                            record { address = desc.base_addr; count = pos 1; described = i },
                            (body t v).0,
                          )
                          ∷ before)
                        picks.now before,
              ),
            )))
          (with_section-Used env laws memory side.section c w datatype side.element side.named
            side.enough side.element_small side.total_small body (keeps desc.base_addr (pos 1))))
        (λ a w' (p, (t, v, picks, e, unchanged)). (p.0, p.1, unchanged))

  pub post-Once : Returns (OnceBy (contiguous build desc)) (
      (if contiguous build desc
          then call (f desc.base_addr (pos c) datatype)
          else with_section env desc (pos c) datatype (λ t. call (f desc.base_addr (pos 1) t)))
        w)
  post-Once = posting (contiguous build desc)
