-- ===== src/Transfer/Gathers/Once.antt =====
-- How CFI_MPI_Gather and CFI_MPI_Scatter of source/mpi_coll.c call the library.
use vapaa.Prelude.{
  ◌≡◌, ◌∙◌, refl, sym, ap, ap₂, true, false, ℕ, Bool, Option, some, List, ◌∷◌, ℤ, pos,
}
use vapaa.Errors.{rc_fix}
use vapaa.Handles.{type_f2c, comm_f2c}
use vapaa.Run.{
  Run, Returns, ◌>>=◌, Returns-bind, bind-Returns, Returns-weaken, Returns-Leaves, Leaves, leaves,
}
use vapaa.Mpi.Laws.{TypeInfo, TypeLaws}
use vapaa.Cfi.{Desc}
use vapaa.Cfi.Quiet.{IsQuiet}
use vapaa.Cfi.Shapes.{basic}
use vapaa.Transfer.{Env, call, contiguous, fix_rc, place}
use vapaa.Transfer.Sections.{code_known}
use vapaa.Transfer.Collectives.{offer, release, exchange, cfi_gather, cfi_scatter}
use vapaa.Transfer.Effects.{Known, commit_section-Leaves}
use vapaa.Transfer.Exchange.{
  IsSide, Offers, Adds, Adds-keeps, Offers-keeps, offer-Offers, ending, ending-Same,
}
use vapaa.Transfer.Once.{Posted, Posts}
use vapaa.Transfer.Gathers.{IsSide-later, fix_rc_done}

-- The call of a function with two buffers: the input, the output, and what it returned.
abbrev pub Exchanged : Type 0
Exchanged = (Posted × Posted) × ℤ

-- `calls` tells the calls of `f` that have been made, the last one first.
pub record ToldBoth {W : Type 0} (env : Env W) (view : W → ℤ → Option TypeInfo)
    (calls : W → List Exchanged)
    (f : (in_addr in_count in_type out_addr out_count out_type : ℤ) → W → ℤ × W) : Type 0 where
  pub quiet : (before : List Exchanged) → IsQuiet env.mpi (λ w. calls w ≡ before)
  pub tells :
      (a n t b m s : ℤ) (w : W)
      → calls (f a n t b m s w).1 ≡ (
          (
            (
              record { address = a; count = n; described = view w t },
              record { address = b; count = m; described = view w s },
            ),
            (f a n t b m s w).0,
          )
          ∷ calls w)

-- What an exchange comes to: one call, for the two sides, whose code, told Fortran, is the result; every
-- datatype is as it was.
pub record ExchangedOnce {W : Type 0} (env : Env W) (view : W → ℤ → Option TypeInfo) (input : Desc)
    (c : ℕ) (output : Desc) (d : ℕ) (calls : W → List Exchanged) (w : W) (ierror : ℤ) (w' : W)
    : Type 0 where
  pub rc : ℤ
  pub in_posted : Posted
  pub out_posted : Posted
  pub in_posts : Posts input c (place env input.base_addr) (contiguous env.build input) in_posted
  pub out_posts :
      Posts output d (place env output.base_addr) (contiguous env.build output) out_posted
  pub once : calls w' ≡ (((in_posted, out_posted), rc) ∷ calls w)
  pub code : rc_fix env.mpi.errors env.version4 rc ≡ some ierror
  pub unchanged : (u : ℤ) → view w' u ≡ view w u

Offers-Posts :
    {W : Type 0} (view : W → ℤ → Option TypeInfo) (desc : Desc) (c : ℕ) (address datatype n t : ℤ)
    (at : W) (b : Bool)
    → Offers view desc c datatype n t at b
    → view at datatype ≡ some (basic desc.elem_len)
    → Posts desc c address b (record { address = address; count = n; described = view at t })
Offers-Posts view desc c address datatype n t at true (one, same) named =
    ap₂ (λ (k : ℤ) (i : Option TypeInfo). record { address = address; count = k; described = i })
      one (ap (view at) same ∙ named)
Offers-Posts view desc c address datatype n t at false (one, (extent, now)) named = (
  extent,
  ap₂ (λ (k : ℤ) (i : Option TypeInfo). record { address = address; count = k; described = i }) one
      now,
)

module _ {W : Type 0} (env : Env W) where
  open env use {mpi, build}

  offer-Leaves :
      (desc : Desc) (n t : ℤ) {P : W → Type 0} (w : W)
      → IsQuiet mpi P
      → P w
      → Leaves P (offer env desc n t w)
  unfolding offer
  offer-Leaves desc n t w quiet h = search (leaves, commit_section-Leaves env) depth 12

  release-Leaves :
      (desc : Desc) (t : ℤ) {P : W → Type 0} (w : W)
      → IsQuiet mpi P
      → P w
      → Leaves P (release env desc t w)
  unfolding release
  release-Leaves desc t w quiet h = search (leaves, quiet.free) depth 12

module _ {W : Type 0} (env : Env W) (laws : TypeLaws env.mpi)
    (memory : (n : ℤ) (b : ℕ) (w : W) → env.mpi.malloc n b w ≡ true) (input : Desc) (c : ℕ)
    (stype_f : ℤ) (output : Desc) (d : ℕ) (rtype_f : ℤ) (w : W)
    (in_side : IsSide env laws.view input c (type_f2c env.mpi.handles env.config stype_f) w)
    (out_side : IsSide env laws.view output d (type_f2c env.mpi.handles env.config rtype_f) w) where
  open env use {mpi, messages, config, build, version4}
  open laws use {view}

  abbrev stype : ℤ
  stype = type_f2c mpi.handles config stype_f

  abbrev rtype : ℤ
  rtype = type_f2c mpi.handles config rtype_f

  module _ (calls : W → List Exchanged) (f : ℤ → ℤ → ℤ → ℤ → ℤ → ℤ → W → ℤ × W)
      (told : ToldBoth env view calls f)
      (keeps : (a n t b m s u : ℤ) (v : W) → view (f a n t b m s v).1 u ≡ view v u)
      (known : (a n t b m s : ℤ) (v : W) → Known env (f a n t b m s v).0) where
    ending-Leaves :
        (ti to ierror : ℤ) {P : W → Type 0} (v : W)
        → IsQuiet mpi P
        → P v
        → Leaves P (ending env laws memory f input output ti to ierror v)
    ending-Leaves ti to ierror v quiet h = search (leaves, release-Leaves env) depth 12

    abbrev calling : (in_count in_type out_count out_type : ℤ) → W → Run W ℤ
    calling n t m s =
        call (f (place env input.base_addr) n t (place env output.base_addr) m s) >>= λ rc.
        fix_rc env rc >>= λ ierror. ending env laws memory f input output t s ierror

    calling-Once :
        (n t m s : ℤ) (w1 w2 : W)
        → Offers view input c stype n t w1 (contiguous build input)
        → Adds env laws memory t w w1 (contiguous build input)
        → Offers view output d rtype m s w2 (contiguous build output)
        → Adds env laws memory s w1 w2 (contiguous build output)
        → calls w2 ≡ calls w
        → Returns (ExchangedOnce env view input c output d calls w) (calling n t m s w2)
    calling-Once n t m s w1 w2 offer1 one offer2 two before =
        let A = place env input.base_addr in
        let B = place env output.base_addr in
        let rc : ℤ = (f A n t B m s w2).0 in
        let v : W = (f A n t B m s w2).1 in
        let x : Posted = record { address = A; count = n; described = view w2 t } in
        let y : Posted = record { address = B; count = m; described = view w2 s } in
        let (ierror, code) = code_known mpi.errors version4 rc (known A n t B m s w2) in
        let later : (u : ℤ) (i : TypeInfo) → view w u ≡ some i → view w2 u ≡ some i = λ u i h.
          Adds-keeps env laws memory s w1 w2 (contiguous build output) two u
            (Adds-keeps env laws memory t w w1 (contiguous build input) one u h) in
        let told_now : calls v ≡ (((x, y), rc) ∷ calls w) =
          told.tells A n t B m s w2
          ∙ ap (λ (before : List Exchanged). ((x, y), rc) ∷ before) before in
        bind-Returns (ExchangedOnce env view input c output d calls w) (call (f A n t B m s))
          (λ rc. fix_rc env rc >>= λ ierror. ending env laws memory f input output t s ierror) refl
          (bind-Returns (ExchangedOnce env view input c output d calls w) (fix_rc env rc)
            (λ ierror. ending env laws memory f input output t s ierror)
            (fix_rc_done env laws memory input c stype_f output d rtype_f w in_side out_side rc
              ierror v code)
            (Returns-weaken
              (λ e w'.
                ((e ≡ ierror) × ((u : ℤ) → view w' u ≡ view w u))
                × (calls w' ≡ (((x, y), rc) ∷ calls w)))
              (ExchangedOnce env view input c output d calls w)
              (ending env laws memory f input output t s ierror v)
              (Returns-Leaves (λ e w'. (e ≡ ierror) × ((u : ℤ) → view w' u ≡ view w u))
                (λ v'. calls v' ≡ (((x, y), rc) ∷ calls w))
                (ending env laws memory f input output t s ierror v)
                (ending-Same env laws memory f input output t s ierror w w1 w2 v one two
                  (λ u. keeps A n t B m s u w2))
                (ending-Leaves t s ierror v (told.quiet (((x, y), rc) ∷ calls w)) told_now))
              (λ e w' p. record {
                rc = rc;
                in_posted = x;
                out_posted = y;
                in_posts =
                    Offers-Posts view input c A stype n t w2 (contiguous build input)
                      (Offers-keeps env laws memory input c stype n t s w1 w2
                        (contiguous build input) (contiguous build output) offer1 two)
                      (later stype _ in_side.named);
                out_posts =
                    Offers-Posts view output d B rtype m s w2 (contiguous build output) offer2
                      (later rtype _ out_side.named);
                once = p.1;
                code = code ∙ ap some (sym p.0.0);
                unchanged = p.0.1;
              })))

    exchange-Once :
        Returns
          (ExchangedOnce env view input c output d calls w)
          (exchange env f input (pos c) stype_f output (pos d) rtype_f w)
    unfolding exchange
    exchange-Once =
        Returns-bind
          (λ r w'.
            (Offers view input c stype r.0 r.1 w' (contiguous build input)
              × Adds env laws memory r.1 w w' (contiguous build input))
            × (calls w' ≡ calls w))
          (ExchangedOnce env view input c output d calls w) (offer env input (pos c) stype)
          (λ r. offer env output (pos d) rtype >>= λ q. calling r.0 r.1 q.0 q.1) w
          (Returns-Leaves _ (λ v. calls v ≡ calls w) (offer env input (pos c) stype w)
            (offer-Offers env laws memory input c stype w in_side)
            (offer-Leaves env input (pos c) stype w (told.quiet (calls w)) refl))
          (λ r w1 p.
            Returns-bind
              (λ q w'.
                (Offers view output d rtype q.0 q.1 w' (contiguous build output)
                  × Adds env laws memory q.1 w1 w' (contiguous build output))
                × (calls w' ≡ calls w))
              (ExchangedOnce env view input c output d calls w) (offer env output (pos d) rtype)
              (λ q. calling r.0 r.1 q.0 q.1) w1
              (Returns-Leaves _ (λ v. calls v ≡ calls w) (offer env output (pos d) rtype w1)
                (offer-Offers env laws memory output d rtype w1 (
                  IsSide-later env laws memory input c stype_f output d rtype_f w in_side out_side
                    r.1 w1 (contiguous build input) p.0.1))
                (offer-Leaves env output (pos d) rtype w1 (told.quiet (calls w)) p.1))
              (λ q w2 o. calling-Once r.0 r.1 q.0 q.1 w1 w2 p.0.0 p.0.1 o.0.0 o.0.1 o.1))

  -- CFI_MPI_Gather of two sections, each contiguous or not, returns, having called MPI_Gather once: each
  -- buffer with its address, or MPI_IN_PLACE for that of Fortran, and so many elements of its type if it
  -- is contiguous, else one element of a datatype whose elements are the first of the section. Fortran
  -- has what becomes of that call's return code, and every datatype is as it was. Both sections have
  -- enough elements of named types (IsSide); memory can be had; the state tells the calls that were
  -- made (ToldBoth); MPI_Gather changes no datatype and returns codes that MPI_Error_class knows.
  pub cfi_gather-ExchangedOnce :
      (root comm_f : ℤ) (calls : W → List Exchanged)
      → ToldBoth env view calls
          (λ a n t b m s. messages.gather a n t b m s root (comm_f2c mpi.handles comm_f))
      → ((a n t b m s u : ℤ) (v : W)
          → view (messages.gather a n t b m s root (comm_f2c mpi.handles comm_f) v).1 u ≡ view v u)
      → ((a n t b m s : ℤ) (v : W)
          → Known env (messages.gather a n t b m s root (comm_f2c mpi.handles comm_f) v).0)
      → Returns
          (ExchangedOnce env view input c output d calls w)
          (cfi_gather env input (pos c) stype_f output (pos d) rtype_f root comm_f w)
  unfolding cfi_gather
  cfi_gather-ExchangedOnce root comm_f calls told keeps known =
      exchange-Once calls
        (λ a n t b m s. messages.gather a n t b m s root (comm_f2c mpi.handles comm_f)) told keeps
        known

  -- CFI_MPI_Scatter of two sections, each contiguous or not, returns, having called MPI_Scatter once: each
  -- buffer with its address, or MPI_IN_PLACE for that of Fortran, and so many elements of its type if it
  -- is contiguous, else one element of a datatype whose elements are the first of the section. Fortran
  -- has what becomes of that call's return code, and every datatype is as it was. Both sections have
  -- enough elements of named types (IsSide); memory can be had; the state tells the calls that were
  -- made (ToldBoth); MPI_Scatter changes no datatype and returns codes that MPI_Error_class knows.
  pub cfi_scatter-ExchangedOnce :
      (root comm_f : ℤ) (calls : W → List Exchanged)
      → ToldBoth env view calls
          (λ a n t b m s. messages.scatter a n t b m s root (comm_f2c mpi.handles comm_f))
      → ((a n t b m s u : ℤ) (v : W)
          → view (messages.scatter a n t b m s root (comm_f2c mpi.handles comm_f) v).1 u ≡ view v u)
      → ((a n t b m s : ℤ) (v : W)
          → Known env (messages.scatter a n t b m s root (comm_f2c mpi.handles comm_f) v).0)
      → Returns
          (ExchangedOnce env view input c output d calls w)
          (cfi_scatter env input (pos c) stype_f output (pos d) rtype_f root comm_f w)
  unfolding cfi_scatter
  cfi_scatter-ExchangedOnce root comm_f calls told keeps known =
      exchange-Once calls
        (λ a n t b m s. messages.scatter a n t b m s root (comm_f2c mpi.handles comm_f)) told keeps
        known
