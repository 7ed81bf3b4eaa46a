-- ===== src/Transfer/Requests/Left.antt =====
-- The Fortran requests after the array calls of source/mpi_p2p.c.
use vapaa.Prelude.{
  ◌≡◌, ◌≢◌, refl, ap, ◌∙◌, ◌⊎◌, inl, inr, ℕ, Bool, true, false, eq_ℤ→eq, none, some, List, [], ◌∷◌,
  map, ℤ, pos, eq_ℤ, eq_ℤ-refl, length, Bool-cases,
}
use vapaa.Constants.{vapaa_request_null}
use vapaa.Errors.Names.{success, err_other}
use vapaa.Errors.{ErrorLaws, rc_fix}
use vapaa.Handles.{request_f2c}
use vapaa.Run.{done, Returns, bind-Returns, pure}
use vapaa.Transfer.{Env, fix_rc}
use vapaa.Transfer.Sections.{code_known}
use vapaa.Transfer.Requests.{
  Polled, Polling, Outcome, no_memory, converted, statuses, c_testall, c_waitsome,
}

-- The library leaves each request as it was, or completes it, when it becomes the null request.
abbrev pub Left : (null : ℤ) → List ℤ → List ℤ → Type 0
Left null [] [] = Unit {0}
Left null [] (q ∷ qs) = ⊥
Left null (r ∷ rs) [] = ⊥
Left null (r ∷ rs) (q ∷ qs) = ((q ≡ r) ⊎ (q ≡ null)) × Left null rs qs

pub Left-refl : (null : ℤ) (rs : List ℤ) → Left null rs rs
Left-refl null [] = tt
Left-refl null (r ∷ rs) = (inl refl, Left-refl null rs)

-- Of Fortran's requests rs, of which the library left qs, os are stored: for a request that is null now
-- what stands for that in Fortran, for any other what Fortran had.
abbrev pub Stored : (null null_f : ℤ) → (rs qs os : List ℤ) → Type 0
Stored null null_f [] [] [] = Unit {0}
Stored null null_f (r ∷ rs) (q ∷ qs) (o ∷ os) =
    (((q ≡ null) × (o ≡ null_f)) ⊎ ((q ≢ null) × (o ≡ r))) × Stored null null_f rs qs os
Stored null null_f _ _ _ = ⊥

module _ {W : Type 0} (env : Env W) (polling : Polling W) where
  open env use {mpi, version4}

  abbrev pub null_f : ℤ
  null_f = mpi.handles.mpi_request_c2f mpi.handles.request_null

  -- What comes of a call. With memory for the requests, the library was called once, in the state w, and
  -- left p: that is the state now, Fortran has its return code, its requests are stored, and the other
  -- results are handed on (`given`). Without, the state and Fortran's requests are as they were.
  abbrev pub Answered :
      (given : Polled W → Outcome → Type 0) (memory : Bool) (requests_f : List ℤ) (p : Polled W)
      (w : W) (o : Outcome) (w' : W)
      → Type 0
  Answered given true requests_f p w o w' =
      (w' ≡ p.world)
      × (rc_fix mpi.errors version4 p.rc ≡ some o.ierror)
      × Stored mpi.handles.request_null null_f requests_f p.requests o.requests_f
      × given p o
  Answered given false requests_f p w o w' =
      (w' ≡ w)
      × (rc_fix mpi.errors version4 (mpi.errors.error err_other) ≡ some o.ierror)
      × (o.requests_f ≡ requests_f)

  outcome : ℤ → List ℤ → Outcome
  outcome ierror rs = record {
    ierror = ierror;
    requests_f = rs;
    flag = none;
    outcount = none;
    index = none;
    indices = none;
  }

  fix_rc_done :
      (rc ierror : ℤ) (v : W)
      → rc_fix mpi.errors version4 rc ≡ some ierror
      → fix_rc env rc v ≡ done ierror v
  unfolding fix_rc
  fix_rc_done rc ierror v h = rw (h, fix_rc)

  module _
      (back : (r : ℤ)
        → r ≢ vapaa_request_null
        → mpi.handles.mpi_request_c2f (mpi.handles.mpi_request_f2c r) ≡ r) where
    same_back :
        (r q : ℤ)
        → q ≡ request_f2c mpi.handles r
        → q ≢ mpi.handles.request_null
        → mpi.handles.mpi_request_c2f q ≡ r
    unfolding request_f2c
    same_back r q e live = elim (Bool-cases (eq_ℤ r vapaa_request_null)) [
      | inl null ↦ absurd (live (rw null at e))
      | inr other ↦
          ap mpi.handles.mpi_request_c2f (rw other at e)
          ∙ back r (λ h.
            cc (other, ap (λ (x : ℤ). eq_ℤ x vapaa_request_null) h, eq_ℤ-refl vapaa_request_null))
    ]

    one_back :
        (r q : ℤ)
        → ((q ≡ request_f2c mpi.handles r) ⊎ (q ≡ mpi.handles.request_null))
        → (((q ≡ mpi.handles.request_null) × (mpi.handles.mpi_request_c2f q ≡ null_f))
            ⊎ ((q ≢ mpi.handles.request_null) × (mpi.handles.mpi_request_c2f q ≡ r)))
    one_back r q (inr e) = inl (e, ap mpi.handles.mpi_request_c2f e)
    one_back r q (inl e) = elim (Bool-cases (eq_ℤ q mpi.handles.request_null)) [
      | inl gone ↦
          let e' = eq_ℤ→eq q mpi.handles.request_null gone in
          inl (e', ap mpi.handles.mpi_request_c2f e')
      | inr live ↦
          let apart : q ≢ mpi.handles.request_null = λ h. cc (
            live,
            ap (λ (x : ℤ). eq_ℤ x mpi.handles.request_null) h,
            eq_ℤ-refl mpi.handles.request_null,
          ) in
          inr (apart, same_back r q e apart)
    ]

    Left-Stored :
        (rs qs : List ℤ)
        → Left mpi.handles.request_null (map (request_f2c mpi.handles) rs) qs
        → Stored mpi.handles.request_null null_f rs qs (map mpi.handles.mpi_request_c2f qs)
    Left-Stored [] [] h = tt
    Left-Stored [] (q ∷ qs) h = elim h [ ]
    Left-Stored (r ∷ rs) [] h = elim h [ ]
    Left-Stored (r ∷ rs) (q ∷ qs) (one, rest) = (one_back r q one, Left-Stored rs qs rest)

    module _ (laws : ErrorLaws mpi.errors) (poll : List ℤ → W → Polled W)
        (leaves : (rs : List ℤ) (v : W) → Left mpi.handles.request_null rs (poll rs v).requests)
        (known : (rs : List ℤ) (v : W)
          → (mpi.errors.error_class (poll rs v).rc).0 ≡ mpi.errors.error success) where
      converted-Answered :
          (size : ℕ) (given : Polled W → Outcome → Type 0) (results : Polled W → Outcome → Outcome)
          → ((p : Polled W) (o : Outcome)
              → ((results p o).requests_f ≡ o.requests_f)
                × ((results p o).ierror ≡ o.ierror)
                × given p (results p o))
          → (requests_f : List ℤ) (w : W)
          → Returns
              (Answered given
                (mpi.malloc (pos (length requests_f)) size w)
                requests_f
                (poll (map (request_f2c mpi.handles) requests_f) w)
                w)
              (converted env polling size (fix_rc env) poll results requests_f w)
      unfolding converted no_memory outcome
      converted-Answered size given results same requests_f w =
          elim (Bool-cases (mpi.malloc (pos (length requests_f)) size w)) [
            | inl memory ↦
                let rs = map (request_f2c mpi.handles) requests_f in
                let p = poll rs w in
                let (ierror, code) = code_known mpi.errors version4 p.rc (known rs w) in
                let qs = map mpi.handles.mpi_request_c2f p.requests in
                let (stays, coded, gives) = same p (outcome ierror qs) in
                rw memory (
                  bind-Returns (Answered given true requests_f p w) (fix_rc env p.rc)
                    (λ e. pure (results p (outcome e qs))) (fix_rc_done p.rc ierror p.world code)
                    (
                      refl,
                      rw coded code,
                      rw stays (Left-Stored requests_f p.requests (leaves rs w)),
                      gives,
                    ))
            | inr full ↦
                let (ierror, code) =
                  code_known mpi.errors version4 (mpi.errors.error err_other)
                    (ap (λ (r : ℤ × ℤ). r.0) (laws.class_of_class err_other)) in
                rw full (
                  bind-Returns
                    (Answered given false requests_f
                      (poll (map (request_f2c mpi.handles) requests_f) w) w)
                    (fix_rc env (mpi.errors.error err_other)) (λ e. pure (outcome e requests_f))
                    (fix_rc_done (mpi.errors.error err_other) ierror w code) (refl, code, refl))
          ]

    -- C_MPI_Testall returns. If there is memory for the requests it has called the library once, with what
    -- C_MPI_REQUEST_F2C makes of Fortran's requests: the state is the one that the call leaves, Fortran
    -- has its return code, its flag, and in the array, for each request that
    -- the call left null, what MPI_Request_c2f makes of MPI_REQUEST_NULL, for each other the number that
    -- stood there. Without memory it returns the code of MPI_ERR_OTHER and nothing changes (Answered).
    -- The library leaves or completes each request and returns codes that MPI_Error_class knows, and
    -- MPI_Request_c2f undoes MPI_Request_f2c on all numbers but Vapaa's null request.
    pub c_testall-Answered :
        ErrorLaws mpi.errors
        → (statuses_f : ℤ)
        → ((rs : List ℤ) (v : W)
            → Left mpi.handles.request_null rs
                (polling.testall rs (statuses env polling statuses_f) v).requests)
        → ((rs : List ℤ) (v : W)
            → (mpi.errors.error_class (polling.testall rs (statuses env polling statuses_f) v).rc).0
              ≡ mpi.errors.error success)
        → (size : ℕ) (requests_f : List ℤ) (w : W)
        → Returns
            (Answered
              (λ p o. o.flag ≡ some p.flag)
              (mpi.malloc (pos (length requests_f)) size w)
              requests_f
              (polling.testall
                (map (request_f2c mpi.handles) requests_f)
                (statuses env polling statuses_f)
                w)
              w)
            (c_testall env polling size requests_f statuses_f w)
    unfolding c_testall
    c_testall-Answered laws statuses_f leaves known size requests_f w =
        converted-Answered laws (λ rs. polling.testall rs (statuses env polling statuses_f)) leaves
          known size (λ p o. o.flag ≡ some p.flag) (λ p o. record o { flag = some p.flag })
          (λ p o. (refl, refl, refl)) requests_f w

    -- C_MPI_Waitsome returns. If there is memory for the requests it has called the library once, with what
    -- C_MPI_REQUEST_F2C makes of Fortran's requests: the state is the one that the call leaves, Fortran
    -- has its return code, its count and its indices, and in the array, for each request that
    -- the call left null, what MPI_Request_c2f makes of MPI_REQUEST_NULL, for each other the number that
    -- stood there. Without memory it returns the code of MPI_ERR_OTHER and nothing changes (Answered).
    -- The library leaves or completes each request and returns codes that MPI_Error_class knows, and
    -- MPI_Request_c2f undoes MPI_Request_f2c on all numbers but Vapaa's null request.
    pub c_waitsome-Answered :
        ErrorLaws mpi.errors
        → (statuses_f : ℤ)
        → ((rs : List ℤ) (v : W)
            → Left mpi.handles.request_null rs
                (polling.waitsome rs (statuses env polling statuses_f) v).requests)
        → ((rs : List ℤ) (v : W)
            → (mpi.errors.error_class
                (polling.waitsome rs (statuses env polling statuses_f) v).rc).0
              ≡ mpi.errors.error success)
        → (size : ℕ) (requests_f : List ℤ) (w : W)
        → Returns
            (Answered
              (λ p o. (o.outcount ≡ some p.count) × (o.indices ≡ some p.indices))
              (mpi.malloc (pos (length requests_f)) size w)
              requests_f
              (polling.waitsome
                (map (request_f2c mpi.handles) requests_f)
                (statuses env polling statuses_f)
                w)
              w)
            (c_waitsome env polling size requests_f statuses_f w)
    unfolding c_waitsome
    c_waitsome-Answered laws statuses_f leaves known size requests_f w =
        converted-Answered laws (λ rs. polling.waitsome rs (statuses env polling statuses_f)) leaves
          known size (λ p o. (o.outcount ≡ some p.count) × (o.indices ≡ some p.indices))
          (λ p o. record o { outcount = some p.count; indices = some p.indices })
          (λ p o. (refl, refl, (refl, refl))) requests_f w
