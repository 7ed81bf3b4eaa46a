-- ===== src/Transfer/Mail/Later/Tests.antt =====
-- A receive on the sample library that is started, and waited for once the message is there.
use vapaa.Prelude.{
  ◌≡◌, refl, ap, ◌∙◌, inl, inr, ℕ, ◌+◌, ◌+ℤ◌, ◌*ℤ◌, true, Option, none, some, List, ℤ, pos, neg,
  pos_part, eq_ℤ, tabulate, length, Option-cases, if◌then◌else◌,
}
use vapaa.Errors.Names.{vapaa_error}
use vapaa.Handles.{type_f2c, request_f2c}
use vapaa.Run.{Returns, ◌>>=◌}
use vapaa.Mpi.Laws.{TypeInfo}
use vapaa.Mpi.Sample.{World, view, sample, sample_laws, derived}
use vapaa.Statuses.{open_mpi}
use vapaa.Cfi.Tests.{desc, world}
use vapaa.Transfer.{Env, Messages}
use vapaa.Transfer.Tests.{messages}
use vapaa.Transfer.PointToPoint.{cfi_irecv}
use vapaa.Transfer.PointToPoint.Tests.{matched}
use vapaa.Transfer.Probes.{Probing, c_wait}
use vapaa.Transfer.Probes.Tests.{probing}
use vapaa.Convert.Tests.{constants}
use vapaa.Transfer.Mail.{Stores, entry_bytes, section_bytes, distinct}
use vapaa.Cfi.Elements.{element_offset}
use vapaa.Transfer.Exchange.{IsSide}
use vapaa.Transfer.Mail.Sample.{
  sample_mail, store, entry_size, entry_size_lem, store-stored, store-elsewhere,
}
use vapaa.Transfer.Mail.Tests.{mail_env, adjacent, given}
use vapaa.Transfer.Mail.Later.{Receive, LaterLaws, cfi_irecv-c_wait}

abbrev pending_after :
    (a : ℤ) (n : ℕ) (source tag comm : ℤ)
    → World
    → Option TypeInfo
    → ℤ
    → Option (List ℤ × ℤ × ℤ × ℤ)
pending_after a n source tag comm w none r = w.pending r
pending_after a n source tag comm w (some i) r =
    if eq_ℤ r (pos 8)
    then some (entry_bytes a n (entry_size i) i, source, tag, comm)
    else w.pending r

abbrev filled : Option (List ℤ × ℤ × ℤ × ℤ) → World → ℤ → ℕ
filled none w = w.memory
filled (some (addresses, _, _, _)) w = store addresses w.incoming w.memory

-- A receive is kept under the request 8, and carried out when it is waited for.
abbrev later_messages : Messages World
later_messages = record messages {
  irecv = λ a n t source tag comm w. record {
    rc = pos 0;
    handle = pos 8;
    world = record w { pending = pending_after a (pos_part n) source tag comm w (view w t) };
  };
}

abbrev later_env : Env World
later_env = record mail_env { messages = later_messages }

abbrev later_probing : Probing World open_mpi
later_probing = record probing {
  wait = λ request status w. record {
    rc = pos 0;
    handle = pos 17;
    world = record w { memory = filled (w.pending request) w };
  };
}

abbrev receive_of : Option (List ℤ × ℤ × ℤ × ℤ) → Option Receive
receive_of none = none
receive_of (some (addresses, source, tag, comm)) =
    some (record { addresses = addresses; source = source; tag = tag; comm = comm })

abbrev pending : World → ℤ → Option Receive
pending w r = receive_of (w.pending r)

derived-pending :
    (disps : TypeInfo → List ℤ) (size : TypeInfo → ℕ) (old : ℤ) (w : World)
    → pending (derived disps size old w).world ≡ pending w
derived-pending disps size old w = elim (Option-cases (view w old)) [
  | inl gone ↦ rw (gone, derived)
  | inr (i, e) ↦ rw (e, derived)
]

filled-Stores :
    (p : Option (List ℤ × ℤ × ℤ × ℤ)) (w : World) {r : Receive}
    → receive_of p ≡ some r
    → distinct r.addresses ≡ true
    → length w.incoming ≡ length r.addresses
    → Stores r.addresses w.incoming w.memory (filled p w)
filled-Stores none w h apart fits = absurd (cc h)
filled-Stores (some (ps, source, tag, comm)) w {r} h apart fits =
    let here : ps ≡ r.addresses =
      ap (λ (o : Option Receive). elim o [ none ↦ ps | some q ↦ q.addresses ]) h in
    rw here (record {
      stored = store-stored r.addresses w.incoming w.memory apart fits;
      elsewhere = store-elsewhere r.addresses w.incoming w.memory;
    })

later_laws : LaterLaws later_env view sample_mail later_probing pending
unfolding request_f2c
later_laws = record {
  quiet = λ w. record {
    hvector = λ n b stride old v h. derived-pending _ _ old v ∙ h;
    hindexed = λ n bs ds old v h. derived-pending _ _ old v ∙ h;
    commit = λ t v h. h;
    free = λ t v h. h;
  };
  irecv_law = λ a t source tag comm n e w {i} h size. rw (h, entry_size_lem a n e i size);
  irecv_back = λ a n t source tag comm w. refl;
  wait_law = λ request status w {r} h apart fits. filled-Stores (w.pending request) w h apart fits;
  wait_null = λ request status w {r} h. refl;
}

-- Forty bytes arrive between the two calls.
abbrev between : World → World
between w = record w { incoming = tabulate 40 (λ k. k + 1); memory = λ x. 0 }

given_later :
    IsSide later_env view desc 5 (type_f2c sample.handles later_env.config (neg 30014)) world
given_later = record {
  section = given.section;
  element = given.element;
  named = given.named;
  enough = given.enough;
  element_small = given.element_small;
  total_small = given.total_small;
}

apart : distinct (section_bytes desc 5) ≡ true
unfolding element_offset ◌*ℤ◌ ◌+ℤ◌
apart = refl

cfi_irecv-c_wait_example :
    Returns
      (λ r v.
        (r.1 ≡ sample.handles.mpi_request_c2f sample.handles.request_null)
        × Stores (section_bytes desc 5) (tabulate 40 (λ k. k + 1)) (λ x. 0) v.memory)
      ((cfi_irecv later_env matched desc (pos 5) (neg 30014) (pos 0) (pos 9) (neg 1000) >>= λ r v.
          c_wait later_env constants later_probing r.1 (pos 64) (between v))
        world)
unfolding sample_laws vapaa_error
cfi_irecv-c_wait_example =
    cfi_irecv-c_wait later_env sample_laws (λ n b w. refl) matched constants later_probing pending
      later_laws adjacent desc 5 (neg 30014) (pos 0) (pos 9) (neg 1000) world given_later
      (λ a n t u v. refl) (λ a n t v. refl) (pos 64) between (λ x. 0) (tabulate 40 (λ k. k + 1))
      apart refl (λ v r. refl) (λ v. refl) (λ v. refl) (λ r v. refl)
