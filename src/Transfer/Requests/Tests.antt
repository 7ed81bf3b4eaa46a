-- ===== src/Transfer/Requests/Tests.antt =====
-- Runs of the array calls of source/mpi_p2p.c on requests.
use vapaa.Prelude.{◌≡◌, true, some, ℤ, List, [], ◌∷◌, inr, refl, pos, neg}
use vapaa.Handles.{request_f2c}
use vapaa.Run.{Returns}
use vapaa.Mpi.Sample.{World}
use vapaa.Transfer.Requests.{Polled, Polling, c_testall, c_waitsome}
use vapaa.Transfer.Requests.Left.{
  Left, Left-refl, Answered, c_testall-Answered, c_waitsome-Answered,
}
use vapaa.Mpi.Sample.{error_laws}
use vapaa.Errors.Names.{vapaa_error}
use vapaa.Cfi.Tests.{world}
use vapaa.Transfer.Tests.{env}

-- The first request completes, the others stay.
abbrev complete_first : List ℤ → List ℤ
complete_first [] = []
complete_first (r ∷ rs) = pos 17 ∷ rs

abbrev poll : List ℤ → ℤ → World → Polled World
poll rs s w = record {
  rc = pos 0;
  requests = complete_first rs;
  flag = pos 1;
  count = pos 1;
  index = pos 0;
  indices = pos 0 ∷ [];
  world = w;
}

abbrev polling : Polling World
polling = record {
  mpi_statuses_ignore = pos 2;
  testall = poll;
  testsome = poll;
  testany = poll;
  waitsome = poll;
  waitany = poll;
}

poll-Left : (rs : List ℤ) → Left (pos 17) rs (complete_first rs)
poll-Left [] = tt
poll-Left (r ∷ rs) = (inr refl, Left-refl (pos 17) rs)

c_testall-Answered_example :
    Returns
      (Answered env polling
        (λ p o. o.flag ≡ some p.flag)
        true
        (pos 5 ∷ pos 6 ∷ [])
        (poll (pos 5 ∷ pos 6 ∷ []) (pos 64) world)
        world)
      (c_testall env polling 8 (pos 5 ∷ pos 6 ∷ []) (pos 64) world)
unfolding vapaa_error request_f2c
c_testall-Answered_example =
    c_testall-Answered env polling (λ r h. refl) error_laws (pos 64) (λ rs v. poll-Left rs)
      (λ rs v. refl) 8 (pos 5 ∷ pos 6 ∷ []) world

c_waitsome-Answered_example :
    Returns
      (Answered env polling
        (λ p o. (o.outcount ≡ some p.count) × (o.indices ≡ some p.indices))
        true
        (pos 5 ∷ neg 17 ∷ [])
        (poll (pos 5 ∷ pos 17 ∷ []) (pos 64) world)
        world)
      (c_waitsome env polling 8 (pos 5 ∷ neg 17 ∷ []) (pos 64) world)
unfolding vapaa_error request_f2c
c_waitsome-Answered_example =
    c_waitsome-Answered env polling (λ r h. refl) error_laws (pos 64) (λ rs v. poll-Left rs)
      (λ rs v. refl) 8 (pos 5 ∷ neg 17 ∷ []) world
