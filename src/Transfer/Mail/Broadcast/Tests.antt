-- ===== src/Transfer/Mail/Broadcast/Tests.antt =====
-- A broadcast on the sample library, of a section into a vector.
use vapaa.Prelude.{
  refl, ap, ◌∙◌, inl, inr, ℕ, ◌*◌, List, map, ℤ, pos, neg, pos_part, eq_ℤ, Option-cases,
  if◌then◌else◌,
}
use vapaa.Errors.Names.{vapaa_error}
use vapaa.Handles.{type_f2c}
use vapaa.Run.{Returns}
use vapaa.Mpi.Laws.{TypeInfo, hvector_disps, hindexed_disps}
use vapaa.Mpi.Sample.{World, view, sample, sample_laws, derived}
use vapaa.Cfi.Tests.{desc, world}
use vapaa.Transfer.{Env, Messages}
use vapaa.Transfer.Exchange.{IsSide}
use vapaa.Transfer.Tests.{messages}
use vapaa.Transfer.Mail.{Stores, entry_bytes, section_bytes}
use vapaa.Transfer.Mail.Sample.{
  sent_bytes, memory_after, entry_size_lem, store-stored, store-elsewhere,
}
use vapaa.Transfer.Mail.Tests.{mail_env, adjacent, given, vector, room, apart, deliver}
use vapaa.Transfer.Mail.Broadcast.{Cast, CastLaws, Unmoved, broadcast, broadcast-Stores}

abbrev cast : Cast World
cast = record {
  memory = λ w. w.memory;
  published = λ w root comm. w.outgoing;
  awaited = λ w root comm. w.incoming;
  is_root = λ w root comm. eq_ℤ root (pos w.rank);
}

-- At the root the message is kept, elsewhere the one that is there is stored.
abbrev casting : Messages World
casting = record messages {
  bcast = λ a n t root comm w. (
    pos 0,
    record w {
      outgoing =
          if eq_ℤ root (pos w.rank) then sent_bytes a (pos_part n) w (view w t) else w.outgoing;
      memory =
          if eq_ℤ root (pos w.rank) then w.memory else memory_after a (pos_part n) w (view w t);
    },
  );
}

abbrev cast_env : Env World
cast_env = record mail_env { messages = casting }

Unmoved-trans : (u v w : World) → Unmoved cast u v → Unmoved cast v w → Unmoved cast u w
Unmoved-trans u v w one two = record {
  memory = two.memory ∙ one.memory;
  published = two.published ∙ one.published;
  awaited = two.awaited ∙ one.awaited;
  is_root = two.is_root ∙ one.is_root;
}

derived-Unmoved :
    (disps : TypeInfo → List ℤ) (size : TypeInfo → ℕ) (old : ℤ) (w : World)
    → Unmoved cast w (derived disps size old w).world
derived-Unmoved disps size old w = elim (Option-cases (view w old)) [
  | inl gone ↦
      rw (gone, derived)
        (record { memory = refl; published = refl; awaited = refl; is_root = refl })
  | inr (i, e) ↦
      rw (e, derived) (record { memory = refl; published = refl; awaited = refl; is_root = refl })
]

cast_laws : CastLaws cast_env view cast
cast_laws = record {
  quiet = λ w. record {
    hvector = λ n b stride old v h. Unmoved-trans w v _ h (
        derived-Unmoved (hvector_disps (pos_part n) (pos_part b) stride)
          (λ i. pos_part n * pos_part b * i.size) old v);
    hindexed = λ n bs ds old v h.
        Unmoved-trans w v _ h
          (derived-Unmoved (hindexed_disps ds) (λ i. pos_part n * i.size) old v);
    commit = λ t v h. h;
    free = λ t v h. record {
      memory = h.memory;
      published = h.published;
      awaited = h.awaited;
      is_root = h.is_root;
    };
  };
  root_law = λ a t root comm n e w {i} h size mine.
      rw (mine, h) (ap (map w.memory) (entry_size_lem a n e i size));
  other_law = λ a t root comm n e w {i} h size not_mine apart fits.
      let same = entry_size_lem a n e i size in
      rw (not_mine, h, same)
        (record {
          stored = store-stored (entry_bytes a n e i) w.incoming w.memory apart fits;
          elsewhere = store-elsewhere (entry_bytes a n e i) w.incoming w.memory;
        });
}

-- The process of rank 1, with the message.
abbrev to_second : World → World
to_second w = record (deliver w) { rank = 1 }

given_cast : IsSide cast_env view desc 5 (type_f2c sample.handles cast_env.config (neg 30014)) world
given_cast = record {
  section = given.section;
  element = given.element;
  named = given.named;
  enough = given.enough;
  element_small = given.element_small;
  total_small = given.total_small;
}

room_cast :
    (w : World)
    → IsSide cast_env view vector 5
        (type_f2c sample.handles cast_env.config (neg 30014))
        (to_second w)
room_cast w =
    let side = room w in
    record {
      section = side.section;
      element = side.element;
      named = side.named;
      enough = side.enough;
      element_small = side.element_small;
      total_small = side.total_small;
    }

broadcast-Stores_example :
    Returns
      (λ _ v.
        Stores (section_bytes vector 5) (map world.memory (section_bytes desc 5)) (λ x. 0) v.memory)
      (broadcast cast_env to_second desc vector
        (pos 5)
        (neg 30014)
        (neg 30014)
        (pos 0)
        (neg 1000)
        (neg 1000)
        world)
unfolding sample_laws vapaa_error
broadcast-Stores_example =
    broadcast-Stores cast_env sample_laws (λ n b w. refl) cast_laws adjacent desc vector 5
      (neg 30014) (neg 30014) (pos 0) (neg 1000) (neg 1000) world to_second (λ x. 0) given_cast
      room_cast refl apart refl (λ v. refl) (λ v. refl) (λ v. refl) (λ a n t comm u v. refl)
      (λ a n t comm v. refl)
