-- ===== src/Transfer/Gathers.antt =====
-- The gather family of source/mpi_coll.c on two buffers, contiguous or not.
pub mod Once
use vapaa.Prelude.{◌≡◌, ◌∙◌, refl, sym, ap, true, ℕ, Bool, Option, some, ℤ, pos}
use vapaa.Errors.Names.{success}
use vapaa.Errors.{rc_fix}
use vapaa.Handles.{type_f2c, comm_f2c}
use vapaa.Run.{Run, done, Returns, ◌>>=◌, Returns-bind, bind-Returns, Returns-weaken}
use vapaa.Mpi.Laws.{TypeInfo, TypeLaws}
use vapaa.Cfi.{Desc}
use vapaa.Transfer.{Env, call, contiguous, fix_rc, place}
use vapaa.Transfer.Sections.{code_known}
use vapaa.Transfer.Collectives.{offer, exchange, cfi_gather, cfi_scatter}
use vapaa.Transfer.Exchange.{
  IsSide, Offers, Adds, Adds-keeps, Offers-keeps, offer-Offers, ending, ending-Same,
}

-- A collective on two buffers: in a state `at`, with a count and a datatype for each side as they should
-- be, the library's call gives the code that Fortran is told, and afterwards every datatype is as it was
-- before.
pub record Passes {W : Type 0} (env : Env W) (view : W → ℤ → Option TypeInfo)
    (f : ℤ → ℤ → ℤ → ℤ → ℤ → ℤ → W → ℤ × W) (input : Desc) (c : ℕ) (stype : ℤ) (output : Desc)
    (d : ℕ) (rtype : ℤ) (w : W) (ierror : ℤ) (w' : W) : Type 0 where
  pub in_count : ℤ
  pub in_type : ℤ
  pub out_count : ℤ
  pub out_type : ℤ
  pub at : W
  pub in_offer : Offers view input c stype in_count in_type at (contiguous env.build input)
  pub out_offer : Offers view output d rtype out_count out_type at (contiguous env.build output)
  pub code :
      rc_fix env.mpi.errors env.version4
        (f
          (place env input.base_addr)
          in_count
          in_type
          (place env output.base_addr)
          out_count
          out_type
          at).0
      ≡ some ierror
  pub unchanged : (u : ℤ) → view w' u ≡ view w u

module _ {W : Type 0} (env : Env W) (laws : TypeLaws env.mpi)
    (memory : (n : ℤ) (b : ℕ) (w : W) → env.mpi.malloc n b w ≡ true) (input : Desc) (c : ℕ)
    (stype_f : ℤ) (output : Desc) (d : ℕ) (rtype_f : ℤ) (w : W)
    (in_side : IsSide env laws.view input c (type_f2c env.mpi.handles env.config stype_f) w)
    (out_side : IsSide env laws.view output d (type_f2c env.mpi.handles env.config rtype_f) w) where
  open env use {mpi, messages, config, build, version4}
  open laws use {view}

  abbrev stype : ℤ
  stype = type_f2c mpi.handles config stype_f

  abbrev rtype : ℤ
  rtype = type_f2c mpi.handles config rtype_f

  pub fix_rc_done :
      (rc ierror : ℤ) (v : W)
      → rc_fix mpi.errors version4 rc ≡ some ierror
      → fix_rc env rc v ≡ done ierror v
  unfolding fix_rc
  fix_rc_done rc ierror v h = rw (h, fix_rc)

  pub IsSide-later :
      (t : ℤ) (v : W) (b : Bool) → Adds env laws memory t w v b → IsSide env view output d rtype v
  IsSide-later t v b added = record {
    section = out_side.section;
    element = Adds-keeps env laws memory t w v b added _ out_side.element;
    named = Adds-keeps env laws memory t w v b added rtype out_side.named;
    enough = out_side.enough;
    element_small = out_side.element_small;
    total_small = out_side.total_small;
  }

  module _ (f : ℤ → ℤ → ℤ → ℤ → ℤ → ℤ → W → ℤ × W)
      (keeps : (a n t b m s u : ℤ) (v : W) → view (f a n t b m s v).1 u ≡ view v u)
      (known : (a n t b m s : ℤ) (v : W)
        → (mpi.errors.error_class (f a n t b m s v).0).0 ≡ mpi.errors.error success) where
    abbrev Passed : ℤ → W → Type 0
    Passed = Passes env view f input c stype output d rtype w

    -- From the call on.
    abbrev calling : (in_count in_type out_count out_type : ℤ) → W → Run W ℤ
    calling n t m s =
        call (f (place env input.base_addr) n t (place env output.base_addr) m s) >>= λ rc.
        fix_rc env rc >>= λ ierror. ending env laws memory f input output t s ierror

    calling-Passed :
        (n t m s : ℤ) (w1 w2 : W)
        → Offers view input c stype n t w1 (contiguous build input)
        → Adds env laws memory t w w1 (contiguous build input)
        → Offers view output d rtype m s w2 (contiguous build output)
        → Adds env laws memory s w1 w2 (contiguous build output)
        → Returns Passed (calling n t m s w2)
    calling-Passed n t m s w1 w2 offer1 one offer2 two =
        let A = place env input.base_addr in
        let B = place env output.base_addr in
        let rc : ℤ = (f A n t B m s w2).0 in
        let v : W = (f A n t B m s w2).1 in
        let (ierror, code) = code_known mpi.errors version4 rc (known A n t B m s w2) in
        bind-Returns Passed (call (f A n t B m s))
          (λ rc. fix_rc env rc >>= λ ierror. ending env laws memory f input output t s ierror) refl
          (bind-Returns Passed (fix_rc env rc)
            (λ ierror. ending env laws memory f input output t s ierror)
            (fix_rc_done rc ierror v code)
            (Returns-weaken (λ e w'. (e ≡ ierror) × ((u : ℤ) → view w' u ≡ view w u)) Passed
              (ending env laws memory f input output t s ierror v)
              (ending-Same env laws memory f input output t s ierror w w1 w2 v one two
                (λ u. keeps A n t B m s u w2))
              (λ e w' p. record {
                in_count = n;
                in_type = t;
                out_count = m;
                out_type = s;
                at = w2;
                in_offer =
                    Offers-keeps env laws memory input c stype n t s w1 w2 (contiguous build input)
                      (contiguous build output) offer1 two;
                out_offer = offer2;
                code = code ∙ ap some (sym p.0);
                unchanged = p.1;
              })))

    pub exchange-Passes :
        Returns Passed (exchange env f input (pos c) stype_f output (pos d) rtype_f w)
    unfolding exchange
    exchange-Passes =
        Returns-bind
          (λ r w'.
            Offers view input c stype r.0 r.1 w' (contiguous build input)
            × Adds env laws memory r.1 w w' (contiguous build input))
          Passed (offer env input (pos c) stype)
          (λ r. offer env output (pos d) rtype >>= λ q. calling r.0 r.1 q.0 q.1) w
          (offer-Offers env laws memory input c stype w in_side)
          (λ r w1 p.
            Returns-bind
              (λ q w'.
                Offers view output d rtype q.0 q.1 w' (contiguous build output)
                × Adds env laws memory q.1 w1 w' (contiguous build output))
              Passed (offer env output (pos d) rtype) (λ q. calling r.0 r.1 q.0 q.1) w1
              (offer-Offers env laws memory output d rtype w1
                (IsSide-later r.1 w1 (contiguous build input) p.1))
              (λ q w2 o. calling-Passed r.0 r.1 q.0 q.1 w1 w2 p.0 p.1 o.0 o.1))

  -- CFI_MPI_Gather returns the code that MPI_Gather gives in some state, for a contiguous buffer with the
  -- count and datatype given, for another with one element of a datatype whose elements are the first of
  -- the section; and in the end every datatype is as it was. Both buffers are sections (IsSide) with
  -- enough elements of named types, memory can be had, and the call itself changes no datatype and
  -- returns codes that MPI_Error_class knows. How often it is called is said in Transfer.Gathers.Once.
  pub cfi_gather-Passes :
      (root comm_f : ℤ)
      → ((a n t b m s u : ℤ) (v : W)
          → view (messages.gather a n t b m s root (comm_f2c mpi.handles comm_f) v).1 u ≡ view v u)
      → ((a n t b m s : ℤ) (v : W)
          → (mpi.errors.error_class
              (messages.gather a n t b m s root (comm_f2c mpi.handles comm_f) v).0).0
            ≡ mpi.errors.error success)
      → Returns
          (Passes env view
            (λ a n t b m s. messages.gather a n t b m s root (comm_f2c mpi.handles comm_f))
            input
            c
            stype
            output
            d
            rtype
            w)
          (cfi_gather env input (pos c) stype_f output (pos d) rtype_f root comm_f w)
  unfolding cfi_gather
  cfi_gather-Passes root comm_f keeps known =
      exchange-Passes
        (λ a n t b m s. messages.gather a n t b m s root (comm_f2c mpi.handles comm_f)) keeps known
