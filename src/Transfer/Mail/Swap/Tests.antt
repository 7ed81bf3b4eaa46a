-- ===== src/Transfer/Mail/Swap/Tests.antt =====
-- A section is exchanged for a vector on the sample library.
use vapaa.Prelude.{◌≡◌, refl, ◌+◌, ◌+ℤ◌, ◌*ℤ◌, true, pos, neg, pos_part, tabulate}
use vapaa.Errors.Names.{vapaa_error}
use vapaa.Handles.{type_f2c}
use vapaa.Run.{Returns}
use vapaa.Mpi.Sample.{World, view, sample, sample_laws}
use vapaa.Cfi.Elements.{element_offset}
use vapaa.Cfi.Tests.{desc, world}
use vapaa.Transfer.Exchange.{IsSide}
use vapaa.Transfer.Tests.{env, messages}
use vapaa.Transfer.PointToPoint.{Matched, cfi_sendrecv}
use vapaa.Transfer.PointToPoint.Tests.{matched}
use vapaa.Transfer.Mail.{entry_bytes, section_bytes}
use vapaa.Transfer.Mail.Sample.{
  sample_mail, sample_mail_laws, sent_bytes, memory_after, entry_size_lem, store-stored,
  store-elsewhere,
}
use vapaa.Transfer.Mail.Tests.{mail_env, build, adjacent, given, vector, room, apart}
use vapaa.Transfer.Mail.Swap.{SwapLaws, Swaps, disjoint, cfi_sendrecv-Swaps}

abbrev swapping : Matched World
swapping = record matched {
  sendrecv = λ a n s dest stag b m r source rtag comm status w. (
    pos 0,
    record w {
      outgoing = sent_bytes a (pos_part n) w (view w s);
      memory = memory_after b (pos_part m) w (view w r);
    },
  );
}

swap_laws : SwapLaws mail_env view sample_mail swapping
swap_laws = record {
  quiet = (sample_mail_laws (record env { build = build }) messages).quiet;
  sendrecv_law =
      λ a s dest stag b r source rtag comm status n m e d w {i} {j} hs is hr js apart clear fits.
        let from = entry_size_lem a n e i is in
        let to = entry_size_lem b m d j js in
        rw (hs, hr, from, to)
          (
            refl,
            record {
              stored = store-stored (entry_bytes b m d j) w.incoming w.memory apart fits;
              elsewhere = store-elsewhere (entry_bytes b m d j) w.incoming w.memory;
            },
          );
}

-- The process with a message of forty bytes.
abbrev ready : World
ready = record world { incoming = tabulate 40 (λ k. k + 1) }

given_ready :
    IsSide mail_env view desc 5 (type_f2c sample.handles mail_env.config (neg 30014)) ready
given_ready = record {
  section = given.section;
  element = given.element;
  named = given.named;
  enough = given.enough;
  element_small = given.element_small;
  total_small = given.total_small;
}

room_ready :
    IsSide mail_env view vector 5 (type_f2c sample.handles mail_env.config (neg 30014)) ready
room_ready =
    let side = room world in
    record {
      section = side.section;
      element = side.element;
      named = side.named;
      enough = side.enough;
      element_small = side.element_small;
      total_small = side.total_small;
    }

clear : disjoint (section_bytes desc 5) (section_bytes vector 5) ≡ true
unfolding element_offset ◌*ℤ◌ ◌+ℤ◌
clear = refl

cfi_sendrecv-Swaps_example :
    Returns
      (λ _ w'.
        Swaps sample_mail
          (section_bytes desc 5)
          (section_bytes vector 5)
          (pos 1)
          (pos 9)
          (pos 1)
          (pos 8)
          (pos 1000)
          ready
          w')
      (cfi_sendrecv mail_env swapping desc
        (pos 5)
        (neg 30014)
        (pos 1)
        (pos 9)
        vector
        (pos 5)
        (neg 30014)
        (pos 1)
        (pos 8)
        (neg 1000)
        (pos 64)
        ready)
unfolding sample_laws vapaa_error
cfi_sendrecv-Swaps_example =
    cfi_sendrecv-Swaps mail_env sample_laws (λ n b w. refl) swapping swap_laws adjacent desc vector
      5 5 (neg 30014) (pos 1) (pos 9) (neg 30014) (pos 1) (pos 8) (neg 1000) (pos 64) ready
      given_ready room_ready (λ a n s b m r u v. refl) (λ a n s b m r v. refl) refl apart clear
