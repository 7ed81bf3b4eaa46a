-- ===== src/Cfi/Tests.antt =====
-- Runs of the code of source/cfi_util.c on the sample library.
use vapaa.Prelude.{
  pos_part, ◌%◌, [], tabulate, ◌≡◌, refl, ℕ, zero, suc, ◌^◌, ◌≤◌, ◌<◌, ◌==◌, true, none, some, ℤ,
  pos, neg, if◌then◌else◌, arith,
}
use vapaa.Errors.Names.{success, err_arg, err_count}
use vapaa.Handles.DatatypeNames.{vapaa_datatype}
use vapaa.Run.{Returns, done}
use vapaa.Mpi.Sample.{World, view, sample, sample_laws}
use vapaa.Cfi.{Desc, Dim, CfiType, Build, mpi_name, cfi_types}
use vapaa.Cfi.Elements.{extents_product, element_offset}
use vapaa.Cfi.Indexed.{cfi_to_mpi_type}
use vapaa.Cfi.DerivedType.{Collects, create_datatype-Collects}
use vapaa.Errors.Names.{vapaa_error}
use vapaa.Prelude.{false, ◌∷◌, ◌*ℤ◌, ◌+ℤ◌, div_ℤ}
use vapaa.Cfi.Create.{create_datatype}
use vapaa.Cfi.Shapes.{basic}
use vapaa.Cfi.Section.{IsSection, sizes, offset_of}
use vapaa.Cfi.Select.{Picks}
use vapaa.Cfi.Datatype.{create_datatype-Picks}
use vapaa.Cfi.Refusal.{create_datatype-too_many, create_datatype-large}
use vapaa.Cfi.Fill.{nest-ends}
use vapaa.Cfi.Nests.{fill_15d-offsets}
use vapaa.Cfi.Loops.{nest, written, running, jumped, rounds, fill_15d}

abbrev pub code : CfiType → ℤ
code CfiType.signed_char = pos 1
code CfiType.char = pos 2
code CfiType.int8_t = pos 3
code CfiType.int16_t = pos 4
code CfiType.int32_t = pos 5
code CfiType.int64_t = pos 6
code CfiType.float = pos 7
code CfiType.double = pos 8
code CfiType.float_complex = pos 9
code CfiType.double_complex = pos 10

abbrev pub build : Build
build = record { cfi_code = code; is_contiguous = λ d. pos 0; has_iov = true }

-- Every other row of three, in two columns that lie 80 bytes apart.
abbrev pub dims : ℕ → Dim
dims zero = record { lower_bound = pos 0; extent = pos 3; sm = pos 16 }
dims (suc zero) = record { lower_bound = pos 0; extent = pos 2; sm = pos 80 }
dims (suc (suc n)) = record { lower_bound = pos 0; extent = pos 0; sm = pos 0 }

abbrev pub desc : Desc
desc = record { base_addr = pos 4096; elem_len = 8; rank = 2; cfi_type = pos 8; dim = dims }

-- The library knows MPI_DOUBLE and MPI_COMM_WORLD, of four processes.
abbrev pub world : World
world = record {
  types = λ n. if n == 30014 then some (basic 8) else none;
  next = 50000;
  file_size = 0;
  comms = λ n. if n == 1000 then some 4 else none;
  next_comm = 60000;
  memory = λ x. pos_part x % 251;
  outgoing = [];
  incoming = [];
  rank = 0;
  pending = λ r. none;
  posts = [];
  starts = [];
  exchanges = [];
}

extents : (i : ℕ) → i < 2 → (dims i).extent ≡ pos (sizes desc i)
extents zero h = refl
extents (suc zero) h = refl
extents (suc (suc i)) h = absurd (omega arith)

each_bounded : (i : ℕ) → i < 2 → sizes desc i < 2 ^ 31
each_bounded zero h = omega arith
each_bounded (suc zero) h = omega arith
each_bounded (suc (suc i)) h = absurd (omega arith)

bounded : (k : ℕ) → k ≤ 2 → extents_product (sizes desc) 0 k < 2 ^ 31
unfolding extents_product
bounded zero h = omega arith
bounded (suc zero) h = omega arith
bounded (suc (suc zero)) h = omega arith
bounded (suc (suc (suc k))) h = absurd (omega arith)

pub section : IsSection desc
section = record {
  rank_pos = omega arith;
  rank_small = omega arith;
  extents = extents;
  each_bounded = each_bounded;
  bounded = bounded;
}

pub element : view world (cfi_to_mpi_type sample build (pos 8)) ≡ some (basic 8)
unfolding cfi_to_mpi_type vapaa_datatype mpi_name cfi_types
element = refl

pub enough : 5 ≤ extents_product (sizes desc) 0 2
unfolding extents_product
enough = omega arith

create_datatype-Picks_example :
    Returns
      (λ r w'. (r.0 ≡ sample.errors.error success) × Picks view desc 5 world r.1 w')
      (create_datatype sample build desc (pos 5) (pos 30014) (pos 0) world)
unfolding sample_laws cfi_to_mpi_type vapaa_datatype mpi_name cfi_types
create_datatype-Picks_example =
    create_datatype-Picks build sample_laws (λ n b w. refl) section 5 world (pos 30014) element refl
      enough (omega arith) (omega arith) (pos 0)

create_datatype-too_many_example :
    create_datatype sample build desc (pos 7) (pos 30014) (pos 0) world
    ≡ done (sample.errors.error err_arg, pos 0) world
unfolding sample_laws extents_product
create_datatype-too_many_example =
    create_datatype-too_many build sample_laws desc (pos 7) world (pos 30014) (pos 0) 8 refl section
      refl

-- A section of 65536 rows and columns.
abbrev wide_dims : ℕ → Dim
wide_dims n = record { lower_bound = pos 0; extent = pos 65536; sm = pos 16 }

abbrev wide : Desc
wide = record { base_addr = pos 4096; elem_len = 8; rank = 3; cfi_type = pos 8; dim = wide_dims }

create_datatype-large_example :
    create_datatype sample build wide (pos 7) (pos 30014) (pos 0) world
    ≡ done (sample.errors.error err_count, pos 0) world
unfolding sample_laws extents_product
create_datatype-large_example =
    create_datatype-large build sample_laws wide (pos 7) world (pos 30014) (pos 0) 8 refl
      (λ i h. refl) 2 (omega arith) (omega arith) (omega arith)

-- Seven entries of three rows of three.
nest-ends_example :
    nest (pos 7) (λ k. pos 3) (λ k. if k == 0 then pos 8 else neg 100) 2 [] (running 0 [])
    ≡ jumped (
        tabulate 7
          (element_offset (λ k. rounds (pos 3)) (λ k. if k == 0 then pos 8 else neg 100) 0 2))
unfolding extents_product
nest-ends_example =
    nest-ends 7 (λ k. pos 3) (λ k. if k == 0 then pos 8 else neg 100) 2 (omega arith)

fill_15d-offsets_example : written (fill_15d (pos 5) desc) ≡ tabulate 5 (offset_of desc)
fill_15d-offsets_example = fill_15d-offsets section 5 (omega arith) enough

-- The world with a datatype of two doubles, sixteen bytes apart.
abbrev with_pair : World
with_pair = record world {
  types = λ n.
      if n == 40000
      then some (record { disps = pos 0 ∷ pos 16 ∷ []; size = 16; extent = pos 24; named = false })
      else world.types n;
}

-- One copy takes elements 0 and 2 of the section.
create_datatype-Collects_example :
    Returns
      (λ r w'.
        (r.0 ≡ sample.errors.error success) × Collects view desc (0 ∷ 2 ∷ []) with_pair r.1 w')
      (create_datatype sample build desc (pos 1) (pos 40000) (pos 0) with_pair)
unfolding sample_laws cfi_to_mpi_type vapaa_datatype vapaa_error mpi_name cfi_types extents_product
    ◌*ℤ◌ ◌+ℤ◌ div_ℤ
create_datatype-Collects_example =
    create_datatype-Collects build sample_laws (λ n b w. refl) section 1 with_pair (pos 40000) refl
      (omega arith) (0 ∷ 2 ∷ []) refl (omega arith, (omega arith, tt)) (omega arith) (pos 0) refl
      refl refl refl refl refl
