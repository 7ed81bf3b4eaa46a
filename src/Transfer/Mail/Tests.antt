-- ===== src/Transfer/Mail/Tests.antt =====
-- A section of every other element is sent from one process of the sample library to another, which
-- receives it in a contiguous array.
use vapaa.Prelude.{
  tabulate, ◌+◌, ◌≡◌, refl, ◌∙◌, ℕ, zero, suc, ◌*◌, ◌==◌, ◌&&◌, ◌<◌, ◌≤◌, ◌^◌, true, some, map, ℤ,
  pos, neg, eq_ℤ, eq_ℤ→eq, ap, ◌+ℤ◌, ◌*ℤ◌, *ℤ_pos, if◌then◌else◌, arith,
}
use vapaa.Errors.Names.{vapaa_error}
use vapaa.Handles.{type_f2c}
use vapaa.Handles.DatatypeNames.{vapaa_datatype}
use vapaa.Run.{Returns}
use vapaa.Mpi.Sample.{World, view, sample, sample_laws}
use vapaa.Cfi.{Desc, Dim, Build, mpi_name, cfi_types}
use vapaa.Cfi.Elements.{extents_product, element_offset}
use vapaa.Cfi.Indexed.{cfi_to_mpi_type}
use vapaa.Cfi.Section.{sizes, offset_in_1}
use vapaa.Cfi.Shapes.{basic}
use vapaa.Cfi.Tests.{code, desc, world, section, enough}
use vapaa.Transfer.{Env, cfi_send, cfi_recv}
use vapaa.Transfer.Exchange.{IsSide}
use vapaa.Transfer.Mail.{Stores, section_bytes, distinct}
use vapaa.Transfer.Mail.Places.{Adjacent}
use vapaa.Transfer.Mail.Ends.{cfi_send-Sends, cfi_recv-Stores}
use vapaa.Transfer.Mail.Delivery.{transfer, transfer-Stores}
use vapaa.Transfer.Mail.Sample.{posting, sample_mail_laws}
use vapaa.Transfer.Tests.{env, messages, named}

-- Vectors whose elements follow one another are contiguous, and nothing else is said to be.
abbrev pub build : Build
build = record {
  cfi_code = code;
  is_contiguous = λ d. if d.rank == 1 && eq_ℤ (d.dim 0).sm (pos d.elem_len) then pos 1 else pos 0;
  has_iov = true;
}

abbrev pub mail_env : Env World
mail_env = record env { build = build; messages = posting messages }

pub adjacent : Adjacent build
unfolding extents_product
adjacent d is one k h =
    let flat : d.rank ≡ 1 = ground arith in
    let next : (d.dim 0).sm ≡ pos d.elem_len = eq_ℤ→eq _ _ (ground arith) in
    let small : k < sizes d 0 * 1 = rw flat at h in
    offset_in_1 is k (omega arith) ∙ ap (λ (s : ℤ). s *ℤ pos k) next ∙ *ℤ_pos d.elem_len k

abbrev vector_dims : ℕ → Dim
vector_dims zero = record { lower_bound = pos 0; extent = pos 5; sm = pos 8 }
vector_dims (suc n) = record { lower_bound = pos 0; extent = pos 0; sm = pos 0 }

abbrev pub vector : Desc
vector = record {
  base_addr = pos 8192;
  elem_len = 8;
  rank = 1;
  cfi_type = pos 8;
  dim = vector_dims;
}

vector_extents : (i : ℕ) → i < 1 → (vector_dims i).extent ≡ pos (sizes vector i)
vector_extents zero h = refl
vector_extents (suc i) h = absurd (omega arith)

vector_bounded : (i : ℕ) → i < 1 → sizes vector i < 2 ^ 31
vector_bounded zero h = omega arith
vector_bounded (suc i) h = absurd (omega arith)

vector_products : (k : ℕ) → k ≤ 1 → extents_product (sizes vector) 0 k < 2 ^ 31
unfolding extents_product
vector_products zero h = omega arith
vector_products (suc zero) h = omega arith
vector_products (suc (suc k)) h = absurd (omega arith)

vector_enough : 5 ≤ extents_product (sizes vector) 0 1
unfolding extents_product
vector_enough = omega arith

element : view world (cfi_to_mpi_type sample build (pos 8)) ≡ some (basic 8)
unfolding cfi_to_mpi_type mpi_name cfi_types vapaa_datatype
element = refl

pub given : IsSide mail_env view desc 5 (type_f2c sample.handles mail_env.config (neg 30014)) world
given = record {
  section = section;
  element = element;
  named = named;
  enough = enough;
  element_small = omega arith;
  total_small = omega arith;
}

-- The receiver's memory is empty before; the message is all that the sender's state gives it.
abbrev pub deliver : World → World
deliver w = record world { memory = λ x. 0; incoming = w.outgoing }

pub room :
    (w : World)
    → IsSide mail_env view vector 5
        (type_f2c sample.handles mail_env.config (neg 30014))
        (deliver w)
room w = record {
  section = record {
    rank_pos = omega arith;
    rank_small = omega arith;
    extents = vector_extents;
    each_bounded = vector_bounded;
    bounded = vector_products;
  };
  element = element;
  named = named;
  enough = vector_enough;
  element_small = omega arith;
  total_small = omega arith;
}

pub apart : distinct (section_bytes vector 5) ≡ true
unfolding element_offset ◌*ℤ◌ ◌+ℤ◌
apart = refl

transfer-Stores_example :
    Returns
      (λ _ v.
        Stores (section_bytes vector 5) (map world.memory (section_bytes desc 5)) (λ x. 0) v.memory)
      (transfer mail_env deliver desc vector
        (pos 5)
        (neg 30014)
        (pos 1)
        (pos 9)
        (neg 1000)
        (neg 30014)
        (pos 0)
        (neg 1000)
        (pos 64)
        world)
unfolding sample_laws vapaa_error
transfer-Stores_example =
    transfer-Stores mail_env sample_laws (λ n b w. refl)
      (sample_mail_laws (record env { build = build }) messages) adjacent desc vector 5 (neg 30014)
      (pos 1) (pos 9) (neg 1000) (neg 30014) (pos 0) (neg 1000) (pos 64) world deliver (λ x. 0)
      given room refl apart (λ v. refl) (λ v. refl) (λ a n t u v. refl) (λ a n t v. refl)
      (λ a n t u v. refl) (λ a n t v. refl)

cfi_send-Sends_example :
    Returns
      (λ _ v. (v.outgoing ≡ map world.memory (section_bytes desc 5)) × (v.memory ≡ world.memory))
      (cfi_send mail_env desc (pos 5) (neg 30014) (pos 1) (pos 9) (neg 1000) world)
unfolding sample_laws vapaa_error
cfi_send-Sends_example =
    cfi_send-Sends mail_env sample_laws (λ n b w. refl)
      (sample_mail_laws (record env { build = build }) messages) adjacent desc 5 (neg 30014) (pos 1)
      (pos 9) (neg 1000) world given (λ a n t u v. refl) (λ a n t v. refl)

-- The message of forty bytes that has arrived.
abbrev forty : World
forty = deliver (record world { outgoing = tabulate 40 (λ k. k + 1) })

cfi_recv-Stores_example :
    Returns
      (λ _ v. Stores (section_bytes vector 5) (tabulate 40 (λ k. k + 1)) (λ x. 0) v.memory)
      (cfi_recv mail_env vector (pos 5) (neg 30014) (pos 0) (pos 9) (neg 1000) (pos 64) forty)
unfolding sample_laws vapaa_error
cfi_recv-Stores_example =
    cfi_recv-Stores mail_env sample_laws (λ n b w. refl)
      (sample_mail_laws (record env { build = build }) messages) adjacent vector 5 (neg 30014)
      (pos 0) (pos 9) (neg 1000) (pos 64) forty
      (room (record world { outgoing = tabulate 40 (λ k. k + 1) })) apart refl (λ a n t u v. refl)
      (λ a n t v. refl)
