-- ===== src/Objects/Lives.antt =====
-- Programs that make and free communicators through source/mpi_comm.c, as sequences of calls. A program
-- uses the numbers that it holds: MPI_COMM_WORLD, and what calls have given it and it has not freed.
use vapaa.Prelude.{
  ◌≡◌, ◌≢◌, sym, ap, ◌∙◌, inl, inr, ℕ, Bool, true, false, ◌||◌, some, ℤ, pos, eq_ℤ, eq_ℤ-refl,
  eq_ℤ→eq, Bool-cases, if◌then◌else◌,
}
use vapaa.Errors.Names.{success}
use vapaa.Handles.{comm_f2c}
use vapaa.Run.{done, Returns, Returns-done, Returns-weaken}
use vapaa.Transfer.{Env}
use vapaa.Objects.Comms.{CommLib, c_comm_size, c_comm_dup, c_comm_split, c_comm_free}
use vapaa.Objects.Laws.{CommLaws}
use vapaa.Objects.Numbers.{
  Adds, Removes, table, Numbered, c_comm_size-known, c_comm_dup-Numbered, c_comm_split-Numbered,
  c_comm_free-Removes,
}

pub record Program (W : Type 0) : Type 0 where
  pub world : W
  pub held : ℤ → Bool

module _ {W : Type 0} (env : Env W) (comms : CommLib W) where
  open env use {mpi}

  -- The program goes on with a new number, or without one.
  abbrev pub holding : Program W → ℤ → W → Program W
  holding s f w = record { world = w; held = λ g. eq_ℤ g f || s.held g }

  abbrev pub dropping : Program W → ℤ → W → Program W
  dropping s f w = record { world = w; held = λ g. if eq_ℤ g f then false else s.held g }

  -- One call, on a number that the program holds, that returned.
  pub data Step : Program W → Program W → Type 0 where
    dup :
        (s : Program W) (f : ℤ) (r : ℤ × ℤ) (w : W)
        → s.held f ≡ true
        → c_comm_dup env comms f s.world ≡ done r w
        → Step s (holding s r.1 w)
    split :
        (s : Program W) (f : ℤ) (color : ℕ) (key : ℤ) (r : ℤ × ℤ) (w : W)
        → s.held f ≡ true
        → c_comm_split env comms f (pos color) key s.world ≡ done r w
        → Step s (holding s r.1 w)
    free :
        (s : Program W) (f : ℤ) (r : ℤ × ℤ) (w : W)
        → s.held f ≡ true
        → comm_f2c mpi.handles f ≢ mpi.handles.comm_world
        → comm_f2c mpi.handles f ≢ mpi.handles.comm_self
        → c_comm_free env comms f s.world ≡ done r w
        → Step s (dropping s f w)

  pub data Reach (s : Program W) : Program W → Type 0 where
    here : Reach s s
    next : {t u : Program W} → Reach s t → Step t u → Reach s u

module _ {W : Type 0} (env : Env W) (comms : CommLib W) (laws : CommLaws env comms) where
  open env use {mpi}

  -- The call succeeded.
  abbrev pub Fine : ℤ × ℤ → W → Type 0
  Fine r w = r.0 ≡ mpi.errors.error success

  -- Every number that is held stands for a communicator, and different numbers for different handles.
  pub record IsSound (s : Program W) : Type 0 where
    pub alive : (f : ℤ) → s.held f ≡ true → (n : ℕ) × (table env comms laws s.world f ≡ some n)
    pub apart :
        (f g : ℤ)
        → s.held f ≡ true
        → s.held g ≡ true
        → comm_f2c mpi.handles f ≡ comm_f2c mpi.handles g
        → f ≡ g

  holding-IsSound :
      (s : Program W) (f : ℤ) (w : W) (n : ℕ)
      → IsSound s
      → Adds (table env comms laws s.world) (table env comms laws w) f n
      → IsSound (holding env comms s f w)
  holding-IsSound s f w n sound adds = record { alive = alive; apart = apart }
    where
      alive :
          (g : ℤ) → (eq_ℤ g f || s.held g) ≡ true → (k : ℕ) × (table env comms laws w g ≡ some k)
      alive g h = elim (Bool-cases (eq_ℤ g f)) [
        | inl same ↦ (n, ap (table env comms laws w) (eq_ℤ→eq g f same) ∙ adds.present)
        | inr other ↦ let (k, live) = sound.alive g (rw other at h) in (k, adds.kept g live)
      ]

      clash : (g : ℤ) → s.held g ≡ true → comm_f2c mpi.handles g ≡ comm_f2c mpi.handles f → ⊥
      clash g h e =
          let (k, live) = sound.alive g h in cc (adds.absent, live, ap (laws.view s.world) e)

      apart :
          (g k : ℤ)
          → (eq_ℤ g f || s.held g) ≡ true
          → (eq_ℤ k f || s.held k) ≡ true
          → comm_f2c mpi.handles g ≡ comm_f2c mpi.handles k
          → g ≡ k
      apart g k hg hk e = elim (Bool-cases (eq_ℤ g f)) [
        | inl a ↦ elim (Bool-cases (eq_ℤ k f)) [
          | inl b ↦ eq_ℤ→eq g f a ∙ sym (eq_ℤ→eq k f b)
          | inr b ↦
              absurd (clash k (rw b at hk) (sym e ∙ ap (comm_f2c mpi.handles) (eq_ℤ→eq g f a)))
        ]
        | inr a ↦ elim (Bool-cases (eq_ℤ k f)) [
          | inl b ↦ absurd (clash g (rw a at hg) (e ∙ ap (comm_f2c mpi.handles) (eq_ℤ→eq k f b)))
          | inr b ↦ sound.apart g k (rw a at hg) (rw b at hk) e
        ]
      ]

  still :
      (s : Program W) (f g : ℤ)
      → (if eq_ℤ g f then false else s.held g) ≡ true
      → (s.held g ≡ true) × (g ≢ f)
  still s f g h = elim (Bool-cases (eq_ℤ g f)) [
    | inl same ↦ let bad : false ≡ true = rw same at h in absurd (cc bad)
    | inr other ↦ (rw other at h, λ e. cc (other, ap (λ (x : ℤ). eq_ℤ x f) e, eq_ℤ-refl f))
  ]

  dropping-IsSound :
      (s : Program W) (f : ℤ) (w : W)
      → s.held f ≡ true
      → IsSound s
      → Removes (comm_f2c mpi.handles) (table env comms laws s.world) (table env comms laws w) f
      → IsSound (dropping env comms s f w)
  dropping-IsSound s f w mine sound removes = record {
    alive = λ g h.
        let (was, other) = still s f g h in
        let (k, live) = sound.alive g was in
        (k, removes.kept g (λ e. other (sound.apart g f was mine e)) ∙ live);
    apart = λ g k hg hk e. sound.apart g k (still s f g hg).0 (still s f k hk).0 e;
  }

  Step-IsSound : {s t : Program W} → Step env comms s t → IsSound s → IsSound t
  Step-IsSound (dup s f r w mine e) sound =
      let (n, live) = sound.alive f mine in
      let made =
        Returns-done (Numbered env comms laws s.world n) (c_comm_dup env comms f s.world)
          (c_comm_dup-Numbered env comms laws f f s.world n live).0 e in
      holding-IsSound s r.1 w n sound made.1
  Step-IsSound (split s f color key r w mine e) sound =
      let (n, live) = sound.alive f mine in
      let (k, returns) = c_comm_split-Numbered env comms laws f color key s.world n live in
      let made =
        Returns-done (Numbered env comms laws s.world k)
          (c_comm_split env comms f (pos color) key s.world) returns e in
      holding-IsSound s r.1 w k sound made.1
  Step-IsSound (free s f r w mine not_world not_self e) sound =
      let (n, live) = sound.alive f mine in
      let gone =
        Returns-done
          (λ r w'.
            (r.0 ≡ mpi.errors.error success)
            × Removes (comm_f2c mpi.handles) (table env comms laws s.world)
                (table env comms laws w') f)
          (c_comm_free env comms f s.world)
          (c_comm_free-Removes env comms laws f s.world n live not_world not_self) e in
      dropping-IsSound s f w mine sound gone.1

  -- However a program makes communicators by MPI_Comm_dup and MPI_Comm_split and frees them, from
  -- a sound state on each number that it holds stands for a communicator, and no two for the same
  -- handle. It calls with numbers that it holds, splits with a colour that is not negative, and frees
  -- neither MPI_COMM_WORLD nor MPI_COMM_SELF.
  pub Reach-IsSound : (s t : Program W) → IsSound s → Reach env comms s t → IsSound t
  Reach-IsSound s t sound here = sound
  Reach-IsSound s t sound (next r step) = Step-IsSound step (Reach-IsSound s _ sound r)

  -- In every state that such a program reaches from a sound state, each number that it holds can be
  -- used: `C_MPI_Comm_size` and `C_MPI_Comm_dup` return, with MPI_SUCCESS, and so does `C_MPI_Comm_free`
  -- unless the number is that of MPI_COMM_WORLD or MPI_COMM_SELF. `size` is what the variable for the
  -- size holds before.
  pub Reach-answers :
      (s t : Program W)
      → IsSound s
      → Reach env comms s t
      → (f size : ℤ) → t.held f ≡ true
      → comm_f2c mpi.handles f ≢ mpi.handles.comm_world
      → comm_f2c mpi.handles f ≢ mpi.handles.comm_self
      → Returns Fine (c_comm_size env comms f size t.world)
        × Returns Fine (c_comm_dup env comms f t.world)
        × Returns Fine (c_comm_free env comms f t.world)
  Reach-answers s t sound reach f size mine not_world not_self =
      let now = Reach-IsSound s t sound reach in
      let (n, live) = now.alive f mine in
      (
        Returns-weaken (λ r w'. r ≡ (mpi.errors.error success, pos n)) Fine
            (c_comm_size env comms f size t.world)
            (c_comm_size-known env comms laws f size t.world n live)
            (λ r w' e. ap (λ (x : ℤ × ℤ). x.0) e),
        Returns-weaken (Numbered env comms laws t.world n) Fine (c_comm_dup env comms f t.world)
            (c_comm_dup-Numbered env comms laws f f t.world n live).0 (λ r w' made. made.0),
        Returns-weaken
            (λ r w'.
              (r.0 ≡ mpi.errors.error success)
              × Removes (comm_f2c mpi.handles) (table env comms laws t.world)
                  (table env comms laws w') f)
            Fine (c_comm_free env comms f t.world)
            (c_comm_free-Removes env comms laws f t.world n live not_world not_self)
            (λ r w' gone. gone.0),
      )
