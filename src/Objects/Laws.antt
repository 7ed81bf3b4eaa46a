-- ===== src/Objects/Laws.antt =====
-- What the MPI standard says of the calls on communicators that Objects.Comms makes, as laws of the
-- library. A handle may stand for a communicator of so many processes.
use vapaa.Prelude.{◌≡◌, ◌≢◌, ℕ, Option, none, some, ℤ, pos, eq_ℤ, if◌then◌else◌}
use vapaa.Errors.Names.{success}
use vapaa.Handles.{comm_f2c}
use vapaa.Mpi.{Made}
use vapaa.Transfer.{Env}
use vapaa.Objects.Comms.{CommLib}

-- A call made a new communicator of n processes, which Fortran can name, and touched no other.
pub record IsNew {W : Type 0} (env : Env W) (view : W → ℤ → Option ℕ) (w : W) (m : Made W) (n : ℕ)
    : Type 0 where
  pub succeeds : m.rc ≡ env.mpi.errors.error success
  pub fresh : view w m.handle ≡ none
  pub now : view m.world m.handle ≡ some n
  pub others : (t : ℤ) → t ≢ m.handle → view m.world t ≡ view w t
  pub back : comm_f2c env.mpi.handles (env.mpi.handles.mpi_comm_c2f m.handle) ≡ m.handle

pub record CommLaws {W : Type 0} (env : Env W) (comms : CommLib W) : Type 0 where
  pub view : W → ℤ → Option ℕ
  pub size :
      (t held : ℤ) (w : W) {n : ℕ}
      → view w t ≡ some n
      → comms.comm_size t held w ≡ ((env.mpi.errors.error success, pos n), w)
  pub dup : (t : ℤ) (w : W) {n : ℕ} → view w t ≡ some n → IsNew env view w (comms.comm_dup t w) n
  pub dup_with_info :
      (t info : ℤ) (w : W) {n : ℕ}
      → view w t ≡ some n
      → IsNew env view w (comms.comm_dup_with_info t info w) n
  -- A process that gives a colour gets a communicator.
  pub split :
      (t : ℤ) (color : ℕ) (key : ℤ) (w : W) {n : ℕ}
      → view w t ≡ some n
      → (k : ℕ) × IsNew env view w (comms.comm_split t (pos color) key w) k
  -- Any communicator but the two that are always there may be freed.
  pub free_succeeds :
      (t : ℤ) (w : W) {n : ℕ}
      → view w t ≡ some n
      → t ≢ env.mpi.handles.comm_world
      → t ≢ env.mpi.handles.comm_self
      → (comms.comm_free t w).rc ≡ env.mpi.errors.error success
  pub free_view :
      (t : ℤ) (w : W) {n : ℕ}
      → view w t ≡ some n
      → t ≢ env.mpi.handles.comm_world
      → t ≢ env.mpi.handles.comm_self
      → (u : ℤ) → view (comms.comm_free t w).world u ≡ (if eq_ℤ u t then none else view w u)
