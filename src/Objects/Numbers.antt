-- ===== src/Objects/Numbers.antt =====
-- The communicators that Fortran has numbers for, as a table, and what the functions of
-- source/mpi_comm.c do to it.
use vapaa.Prelude.{◌≡◌, ◌≢◌, refl, ap, ◌∙◌, ℕ, Option, none, some, ℤ, pos, eq_ℤ-refl, eq_ℤ-false}
use vapaa.Errors.Names.{success}
use vapaa.Errors.{rc_fix}
use vapaa.Handles.{comm_f2c, info_f2c}
use vapaa.Run.{done, Returns, ◌>>=◌}
use vapaa.Mpi.{Made}
use vapaa.Transfer.{Env, fix_rc}
use vapaa.Objects.{number_of, result_of}
use vapaa.Objects.Comms.{
  CommLib, c_comm_size, c_comm_dup, c_comm_dup_with_info, c_comm_split, c_comm_free,
}
use vapaa.Objects.Laws.{IsNew, CommLaws}

-- The number f is new and stands for o; every number that stood for something stands for it still.
pub record Adds {O : Type 0} (before after : ℤ → Option O) (f : ℤ) (o : O) : Type 0 where
  pub absent : before f ≡ none
  pub present : after f ≡ some o
  pub kept : (g : ℤ) {p : O} → before g ≡ some p → after g ≡ some p

-- The numbers that stand for what f did stand for nothing; no other number changes.
pub record Removes {O : Type 0} (f2c : ℤ → ℤ) (before after : ℤ → Option O) (f : ℤ) : Type 0 where
  pub gone : (g : ℤ) → f2c g ≡ f2c f → after g ≡ none
  pub kept : (g : ℤ) → f2c g ≢ f2c f → after g ≡ before g

module _ {W : Type 0} (env : Env W) where
  open env use {mpi, version4}

  abbrev fine : ℤ
  fine = mpi.errors.error success

  fixed : (w : W) → fix_rc env fine w ≡ done fine w
  unfolding fix_rc rc_fix
  fixed w =
      let e : rc_fix mpi.errors version4 fine ≡ some fine = rw (eq_ℤ-refl fine) in rw (e, fix_rc)

  -- A call that succeeds returns.
  number_of-done :
      (c2f : ℤ → ℤ) (m : Made W)
      → m.rc ≡ fine
      → number_of env c2f m ≡ done (fine, c2f m.handle) m.world
  unfolding number_of
  number_of-done c2f m h = rw (h, fixed m.world, ◌>>=◌)

  pub result_of-done :
      {A : Type 0} (r : (ℤ × A) × W) (x : A) (w : W)
      → r ≡ ((fine, x), w)
      → result_of env r ≡ done (fine, x) w
  unfolding result_of
  result_of-done r x w h = ap (result_of env) h ∙ rw (fixed w, ◌>>=◌, result_of)

module _ {W : Type 0} (env : Env W) (comms : CommLib W) (laws : CommLaws env comms) where
  open env use {mpi}
  open laws use {view}

  -- Fortran's table.
  abbrev pub table : W → ℤ → Option ℕ
  table w f = view w (comm_f2c mpi.handles f)

  -- What a call that makes a communicator of n processes returns.
  abbrev pub Numbered : W → ℕ → ℤ × ℤ → W → Type 0
  Numbered w n r w' = (r.0 ≡ mpi.errors.error success) × Adds (table w) (table w') r.1 n

  new-Adds :
      (w : W) (m : Made W) (n : ℕ)
      → IsNew env view w m n
      → Adds (table w) (table m.world) (mpi.handles.mpi_comm_c2f m.handle) n
  new-Adds w m n new = record {
    absent = ap (view w) new.back ∙ new.fresh;
    present = ap (view m.world) new.back ∙ new.now;
    kept =
        λ g {p} h. new.others (comm_f2c mpi.handles g) (λ e. cc (new.fresh, h, ap (view w) e)) ∙ h;
  }

  number_of-Numbered :
      (w : W) (m : Made W) (n : ℕ)
      → IsNew env view w m n
      → Returns (Numbered w n) (number_of env mpi.handles.mpi_comm_c2f m)
  number_of-Numbered w m n new =
      rw (number_of-done env mpi.handles.mpi_comm_c2f m new.succeeds) (refl, new-Adds w m n new)

  pub c_comm_dup-Numbered :
      (comm_f info_f : ℤ) (w : W) (n : ℕ)
      → table w comm_f ≡ some n
      → Returns (Numbered w n) (c_comm_dup env comms comm_f w)
        × Returns (Numbered w n) (c_comm_dup_with_info env comms comm_f info_f w)
  unfolding c_comm_dup c_comm_dup_with_info
  c_comm_dup-Numbered comm_f info_f w n h =
      let t = comm_f2c mpi.handles comm_f in
      let info = info_f2c mpi.handles info_f in
      (
        number_of-Numbered w (comms.comm_dup t w) n (laws.dup t w h),
        number_of-Numbered w (comms.comm_dup_with_info t info w) n (laws.dup_with_info t info w h),
      )

  pub c_comm_split-Numbered :
      (comm_f : ℤ) (color : ℕ) (key : ℤ) (w : W) (n : ℕ)
      → table w comm_f ≡ some n
      → (k : ℕ) × Returns (Numbered w k) (c_comm_split env comms comm_f (pos color) key w)
  unfolding c_comm_split
  c_comm_split-Numbered comm_f color key w n h =
      let t = comm_f2c mpi.handles comm_f in
      let (k, new) = laws.split t color key w h in
      (k, number_of-Numbered w (comms.comm_split t (pos color) key w) k new)

  pub c_comm_size-known :
      (comm_f size : ℤ) (w : W) (n : ℕ)
      → table w comm_f ≡ some n
      → Returns
          (λ r w'. r ≡ (mpi.errors.error success, pos n))
          (c_comm_size env comms comm_f size w)
  unfolding c_comm_size
  c_comm_size-known comm_f size w n h =
      rw
        (result_of-done env (comms.comm_size (comm_f2c mpi.handles comm_f) size w) (pos n) w
          (laws.size (comm_f2c mpi.handles comm_f) size w h))
        refl

  -- `C_MPI_Comm_free` succeeds on a number that stands for a communicator, but not for
  -- MPI_COMM_WORLD or MPI_COMM_SELF, and afterwards the number stands for nothing; numbers of other
  -- handles stand for what they did.
  pub c_comm_free-Removes :
      (comm_f : ℤ) (w : W) (n : ℕ)
      → table w comm_f ≡ some n
      → comm_f2c mpi.handles comm_f ≢ mpi.handles.comm_world
      → comm_f2c mpi.handles comm_f ≢ mpi.handles.comm_self
      → Returns
          (λ r w'.
            (r.0 ≡ mpi.errors.error success)
            × Removes (comm_f2c mpi.handles) (table w) (table w') comm_f)
          (c_comm_free env comms comm_f w)
  unfolding c_comm_free
  c_comm_free-Removes comm_f w n h not_world not_self =
      let t = comm_f2c mpi.handles comm_f in
      let view' = laws.free_view t w h not_world not_self in
      rw
        (number_of-done env mpi.handles.mpi_comm_c2f (comms.comm_free t w)
          (laws.free_succeeds t w h not_world not_self))
        (
          refl,
          record {
            gone = λ g e. view' (comm_f2c mpi.handles g) ∙ rw (e, eq_ℤ-refl t);
            kept = λ g apart.
                view' (comm_f2c mpi.handles g) ∙ rw (eq_ℤ-false (comm_f2c mpi.handles g) t apart);
          },
        )
