-- ===== src/Transfer/Probes/Reports.antt =====
-- What Fortran learns from the calls of Transfer.Probes: source/mpi_p2p.c.
use vapaa.Prelude.{
  ◌≡◌, refl, ap, ◌∙◌, ℕ, zero, suc, ◌+◌, ◌≤◌, ◌<◌, arith, true, false, some, List, [], ◌∷◌, map, ℤ,
  pos, length, get_elem?,
}
use vapaa.Errors.Names.{success}
use vapaa.Convert.{ConstantLib}
use vapaa.Handles.{request_f2c}
use vapaa.Statuses.{Vendor, CStatus, FStatus, status_c2f, status_f2c, status_f2c-status_c2f}
use vapaa.Sentinels.{is_sentinel, statuses_ignore}
use vapaa.Run.{Returns, ◌>>=◌, pure}
use vapaa.Transfer.{Env, fix_rc}
use vapaa.Transfer.Sections.{code_known}
use vapaa.Transfer.Probes.{Probing, copy_statuses, c_waitall}

-- An entry is a status that stands for the C status.
abbrev pub Reported : (v : Vendor) → List FStatus → ℕ → CStatus v → Type 0
Reported v fs i c =
    (f : FStatus) × (get_elem? fs i ≡ some f) × ((d : CStatus v) → status_f2c v f d ≡ c)

copy_statuses-Reported :
    (v : Vendor) (local : ℕ → CStatus v) (i n : ℕ) (held : List FStatus)
    → n ≤ length held
    → (k : ℕ) → k < n
    → Reported v (copy_statuses v local i n held) k (local (i + k))
unfolding copy_statuses
copy_statuses-Reported v local i zero held h k lt = absurd (omega arith)
copy_statuses-Reported v local i (suc n) [] h k lt = absurd (omega arith)
copy_statuses-Reported v local i (suc n) (f ∷ held) h zero lt = (
  status_c2f v (local i) f,
  refl,
  λ d. status_f2c-status_c2f v (local i) d f ∙ ap local (omega arith),
)
copy_statuses-Reported v local i (suc n) (f ∷ held) h (suc k) lt =
    let (g, here, back) =
      copy_statuses-Reported v local (suc i) n held (omega arith) k (omega arith) in
    (g, here, λ d. back d ∙ ap local (omega arith))

each_Reported :
    (v : Vendor) (local : ℕ → CStatus v) (n : ℕ) (held : List FStatus)
    → n ≤ length held
    → (k : ℕ) → k < n
    → Reported v (copy_statuses v local 0 n held) k (local k)
each_Reported v local n held h k lt =
    let (g, here, back) = copy_statuses-Reported v local 0 n held h k lt in
    (g, here, λ d. back d ∙ ap local (omega arith))

module _ {W : Type 0} (env : Env W) where
  open env use {mpi, version4}

  -- What follows a call with a known code.
  fixed_then :
      {A : Type 0} (P : A → W → Type 0) (rc : ℤ) (k : ℤ → A) (w : W)
      → (mpi.errors.error_class rc).0 ≡ mpi.errors.error success
      → ((e : ℤ) → P (k e) w)
      → Returns P ((fix_rc env rc >>= λ e. pure (k e)) w)
  unfolding fix_rc
  fixed_then P rc k w known h =
      let (ierror, fixed) = code_known mpi.errors version4 rc known in
      rw (fixed, fix_rc, ◌>>=◌) (h ierror)

module _ {W : Type 0} (env : Env W) (constants : ConstantLib) {v : Vendor}
    (probing : Probing W v) where
  open env use {mpi, sentinels}
  open probing use {probe, waitall}

  -- `C_MPI_Waitall` reports to Fortran, for each request, the status that the library gave, and stores
  -- back what MPI_Request_c2f makes of the requests that the library left; the state is the one that
  -- one call of MPI_Waitall leaves. There is memory for both
  -- arrays, the statuses are asked for and have an entry for each request, and the code that the library
  -- returns is known to MPI_Error_class.
  pub c_waitall-Reported :
      (request_size status_size : ℕ) (requests_f : List ℤ) (statuses_at : ℤ) (held : List FStatus)
      (w : W)
      → mpi.malloc (pos (length requests_f)) request_size w ≡ true
      → mpi.malloc (pos (length requests_f)) status_size w ≡ true
      → is_sentinel sentinels statuses_ignore statuses_at ≡ false
      → length requests_f ≤ length held
      → (mpi.errors.error_class (waitall (map (request_f2c mpi.handles) requests_f) true w).0.0).0
        ≡ mpi.errors.error success
      → Returns
          (λ r w'.
            (w' ≡ (waitall (map (request_f2c mpi.handles) requests_f) true w).1)
            × (r.1
                ≡ map mpi.handles.mpi_request_c2f
                    (waitall (map (request_f2c mpi.handles) requests_f) true w).0.1)
            × ((i : ℕ)
                → i < length requests_f
                → Reported v r.2 i
                    ((waitall (map (request_f2c mpi.handles) requests_f) true w).0.2 i)))
          (c_waitall env constants probing request_size status_size requests_f statuses_at held w)
  unfolding c_waitall
  c_waitall-Reported request_size status_size requests_f statuses_at held w m1 m2 wanted room
        known =
      let result = waitall (map (request_f2c mpi.handles) requests_f) true w in
      let left = map mpi.handles.mpi_request_c2f result.0.1 in
      rw (m1, m2, wanted)
        (fixed_then env
          (λ (r : ℤ × List ℤ × List FStatus) w'.
            (w' ≡ result.1)
            × (r.1 ≡ left)
            × ((i : ℕ) → i < length requests_f → Reported v r.2 i (result.0.2 i)))
          result.0.0 (λ e. (e, left, copy_statuses v result.0.2 0 (length requests_f) held))
          result.1 known
          (λ e. (refl, refl, each_Reported v result.0.2 (length requests_f) held room)))
