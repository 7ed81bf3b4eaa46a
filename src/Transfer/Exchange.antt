-- ===== src/Transfer/Exchange.antt =====
-- What the gather family of source/mpi_coll.c passes on of its two buffers, and that it leaves no
-- datatype behind.
use vapaa.Prelude.{
  ◌≡◌, ◌≢◌, refl, sym, ap, ◌∙◌, inl, inr, ℕ, ◌*◌, ◌^◌, ◌≤◌, ◌<◌, Bool, true, false, Option, none,
  some, ℤ, pos, eq_ℤ, eq_ℤ-refl, eq_ℤ→eq, eq_ℤ-false, tabulate, Bool-cases, if◌then◌else◌,
}
use vapaa.Errors.Names.{success}
use vapaa.Run.{Run, Returns, ◌>>=◌, Returns-bind, pure}
use vapaa.Mpi.Laws.{TypeInfo, TypeLaws}
use vapaa.Cfi.{Desc}
use vapaa.Cfi.Elements.{extents_product}
use vapaa.Cfi.Indexed.{cfi_to_mpi_type}
use vapaa.Cfi.Shapes.{basic}
use vapaa.Cfi.Section.{sizes, offset_of, IsSection}
use vapaa.Cfi.Select.{Picks}
use vapaa.Transfer.{Env, contiguous, commit_section}
use vapaa.Transfer.Sections.{commit_section-Picks}
use vapaa.Transfer.Collectives.{offer, release}

-- One side: at least c elements in a section of a named type, which take fewer than 2^31 bytes.
pub record IsSide {W : Type 0} (env : Env W) (view : W → ℤ → Option TypeInfo) (desc : Desc) (c : ℕ)
    (datatype : ℤ) (w : W) : Type 0 where
  pub section : IsSection desc
  pub element :
      view w (cfi_to_mpi_type env.mpi env.build desc.cfi_type) ≡ some (basic desc.elem_len)
  pub named : view w datatype ≡ some (basic desc.elem_len)
  pub enough : c ≤ extents_product (sizes desc) 0 desc.rank
  pub element_small : desc.elem_len < 2 ^ 31
  pub total_small : c * desc.elem_len < 2 ^ 31

-- The count and the datatype for a side, in the state of the call: those given for a contiguous
-- buffer, else one element of a datatype whose elements are the first c of the section.
abbrev pub Offers :
    {W : Type 0}
    → (W → ℤ → Option TypeInfo)
    → Desc
    → (c : ℕ) (datatype count t : ℤ) → W
    → Bool
    → Type 0
Offers view desc c datatype count t at true = (count ≡ pos c) × (t ≡ datatype)
Offers view desc c datatype count t at false =
    (count ≡ pos 1)
    × ((extent : ℤ) × (view at t
          ≡ some (record {
            disps = tabulate c (offset_of desc);
            size = c * desc.elem_len;
            extent = extent;
            named = false;
          })))

module _ {W : Type 0} (env : Env W) (laws : TypeLaws env.mpi)
    (memory : (n : ℤ) (b : ℕ) (w : W) → env.mpi.malloc n b w ≡ true) where
  open env use {mpi, build, version4, config}
  open laws use {view}

  abbrev Same : W → W → Type 0
  Same v w = (u : ℤ) → view v u ≡ view w u

  -- From w to w', one new derived datatype t, or none for a contiguous buffer.
  abbrev pub Adds : ℤ → W → W → Bool → Type 0
  Adds t w w' true = Same w' w
  Adds t w w' false =
      (view w t ≡ none)
      × ((i : TypeInfo) × (view w' t ≡ some i) × (i.named ≡ false))
      × ((u : ℤ) → u ≢ t → view w' u ≡ view w u)

  pub Adds-keeps :
      (t : ℤ) (w w' : W) (b : Bool)
      → Adds t w w' b
      → (u : ℤ) {i : TypeInfo} → view w u ≡ some i
      → view w' u ≡ some i
  Adds-keeps t w w' true same u h = same u ∙ h
  Adds-keeps t w w' false (fresh, _, others) u h = others u (λ e. cc (fresh, h, ap (view w) e)) ∙ h

  pub offer-Offers :
      (desc : Desc) (c : ℕ) (datatype : ℤ) (w : W)
      → IsSide env view desc c datatype w
      → Returns
          (λ r w'.
            Offers view desc c datatype r.0 r.1 w' (contiguous build desc)
            × Adds r.1 w w' (contiguous build desc))
          (offer env desc (pos c) datatype w)
  unfolding offer
  offer-Offers desc c datatype w side = elim (Bool-cases (contiguous build desc)) [
    | inl whole ↦ rw whole ((refl, refl), λ u. refl)
    | inr parts ↦ rw parts (
        Returns-bind (Picks view desc c w)
          (λ r w'. Offers view desc c datatype r.0 r.1 w' false × Adds r.1 w w' false)
          (commit_section env desc (pos c) datatype datatype) (λ t. pure (pos 1, t)) w
          (commit_section-Picks env laws memory side.section c w datatype side.element side.named
            side.enough side.element_small side.total_small datatype)
          (λ t w' p. ((refl, (p.extent, p.now)), (p.fresh, (_, p.now, refl), p.others))))
  ]

  Adds-Same : (t' : ℤ) (w w1 v : W) (b : Bool) → Same w1 w → Adds t' w1 v b → Adds t' w v b
  Adds-Same t' w w1 v true same two = λ u. two u ∙ same u
  Adds-Same t' w w1 v false same (fresh, new, others) =
      (sym (same t') ∙ fresh, new, λ u h. others u h ∙ same u)

  -- Without t, a state is as it was before t was added.
  module _ (t : ℤ) (w w1 v v' : W)
      (gone : (u : ℤ) → view v' u ≡ (if eq_ℤ u t then none else view v u)) where
    gone-back : Adds t w w1 false → (u : ℤ) → (u ≢ t → view v u ≡ view w1 u) → view v' u ≡ view w u
    gone-back (fresh, _, others) u before = elim (Bool-cases (eq_ℤ u t)) [
      | inl same ↦ gone u ∙ rw same (sym (ap (view w) (eq_ℤ→eq u t same) ∙ fresh))
      | inr other ↦
          let apart : u ≢ t = λ e. cc (other, ap (λ (x : ℤ). eq_ℤ x t) e, eq_ℤ-refl t) in
          gone u ∙ rw other (before apart ∙ others u apart)
    ]

    pub gone-Adds : (t' : ℤ) (b : Bool) → Adds t w w1 false → Adds t' w1 v b → Adds t' w v' b
    gone-Adds t' true one two = λ u. gone-back one u (λ _. two u)
    gone-Adds t' false (fresh, (i, now, derived), others) (fresh', (j, now', derived'), others') =
        let apart : t' ≢ t = λ e. cc (now, fresh', ap (view w1) e) in
        (
          sym (others t' apart) ∙ fresh',
          (j, gone t' ∙ rw (eq_ℤ-false t' t apart) now', derived'),
          λ u h. gone-back (fresh, (i, now, derived), others) u (λ _. others' u h),
        )

  -- What was added for one side is released, while a later addition stays.
  release-Adds :
      (desc : Desc) (t t' : ℤ) (w w1 v : W) (b : Bool)
      → Adds t w w1 (contiguous build desc)
      → Adds t' w1 v b
      → Returns (λ _ v'. Adds t' w v' b) (release env desc t v)
  unfolding release
  release-Adds desc t t' w w1 v b one two = elim (Bool-cases (contiguous build desc)) [
    | inl whole ↦ rw whole (Adds-Same t' w w1 v b (rw whole at one) two)
    | inr parts ↦
        let one' : Adds t w w1 false = rw parts at one in
        let (_, (i, was, derived), _) = one' in
        let now = Adds-keeps t' w1 v b two t was in
        rw
          (
            parts,
            laws.free_succeeds t v now derived,
            eq_ℤ-refl (mpi.errors.error success),
            if◌then◌else◌,
            ◌>>=◌,
          )
          (gone-Adds t w w1 v (mpi.type_free t v).world (laws.free_view t v now derived) t' b one'
            two)
  ]

  pub Adds-later : (t : ℤ) (w w1 v : W) (b : Bool) → Adds t w w1 b → Same v w1 → Adds t w v b
  Adds-later t w w1 v true one same = λ u. same u ∙ one u
  Adds-later t w w1 v false (fresh, (i, now, derived), others) same =
      (fresh, (i, same t ∙ now, derived), λ u h. same u ∙ others u h)

  pub Offers-keeps :
      (desc : Desc) (c : ℕ) (datatype n t t' : ℤ) (w w' : W) (b b' : Bool)
      → Offers view desc c datatype n t w b
      → Adds t' w w' b'
      → Offers view desc c datatype n t w' b
  Offers-keeps desc c datatype n t t' w w' true b' offers two = offers
  Offers-keeps desc c datatype n t t' w w' false b' (one, (extent, now)) two =
      (one, (extent, Adds-keeps t' w w' b' two t now))

  module _ (f : ℤ → ℤ → ℤ → ℤ → ℤ → ℤ → W → ℤ × W) (input output : Desc) where
    -- The datatypes are released once the call has returned.
    abbrev pub ending : (in_type out_type ierror : ℤ) → W → Run W ℤ
    ending in_type out_type ierror =
        release env input in_type >>= λ _. release env output out_type >>= λ _. pure ierror

    pub ending-Same :
        (ti to ierror : ℤ) (w w1 w2 v : W)
        → Adds ti w w1 (contiguous build input)
        → Adds to w1 w2 (contiguous build output)
        → Same v w2
        → Returns (λ e w'. (e ≡ ierror) × Same w' w) (ending ti to ierror v)
    ending-Same ti to ierror w w1 w2 v one two same =
        Returns-bind (λ _ v'. Adds to w v' (contiguous build output))
          (λ e w'. (e ≡ ierror) × Same w' w) (release env input ti)
          (λ _. release env output to >>= λ _. pure ierror) v
          (release-Adds input ti to w w1 v (contiguous build output) one
            (Adds-later to w1 w2 v (contiguous build output) two same))
          (λ _ v' left.
            Returns-bind (λ _ w'. Same w' w) (λ e w'. (e ≡ ierror) × Same w' w)
              (release env output to) (λ _. pure ierror) v'
              (release-Adds output to to w v' v' true left (λ u. refl)) (λ _ w' back. (refl, back)))
