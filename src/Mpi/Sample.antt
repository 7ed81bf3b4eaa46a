-- ===== src/Mpi/Sample.antt =====
-- A small MPI library, in which the laws hold: datatypes are kept in a table, and a new one takes the
-- next free handle. The tests run the code on it.
use vapaa.Prelude.{
  ◌≡◌, ◌≢◌, refl, ap, ◌∙◌, ℕ, suc, ◌*◌, ◌==◌, ltb, Bool, true, false, Option, none, some, List, [],
  ◌∷◌, ℤ, pos, negsuc, pos_part, neg_part, eq_ℤ, if◌then◌else◌, arith,
}
use vapaa.Errors.Names.{ErrorClass, success, err_type, vapaa_error}
use vapaa.Errors.{ErrorLib, ErrorLaws}
use vapaa.Errors.RoundTrip.{vapaa_error_injective, vapaa_error_range}
use vapaa.Handles.{HandleLib}
use vapaa.Handles.DatatypeNames.{vapaa_datatype}
use vapaa.Handles.OpNames.{vapaa_op}
use vapaa.Mpi.{Mpi, Made, Iov}
use vapaa.Mpi.Laws.{TypeInfo, TypeLaws, Makes, hvector_disps, hindexed_disps}

abbrev pub error_lib : ErrorLib
error_lib = record {
  error = λ c. pos (3 * pos_part (vapaa_error c));
  error_class = λ e. (pos 0, e);
}

error_injective : (c d : ErrorClass) → error_lib.error c ≡ error_lib.error d → c ≡ d
error_injective c d h =
    let (n, cn, _) = vapaa_error_range c in
    let (m, dm, _) = vapaa_error_range d in vapaa_error_injective c d (ground arith)

success_zero : error_lib.error success ≡ pos 0
unfolding vapaa_error
success_zero = refl

pub error_laws : ErrorLaws error_lib
unfolding vapaa_error
error_laws = record {
  injective = error_injective;
  success_zero = success_zero;
  class_of_class = λ c. refl;
}

abbrev pub handle_lib : HandleLib
handle_lib = record {
  datatype = λ d. pos (neg_part (vapaa_datatype d));
  op = λ o. pos (neg_part (vapaa_op o));
  comm_world = pos 1000;
  comm_self = pos 100;
  comm_null = pos 10;
  file_null = pos 12;
  group_null = pos 13;
  info_null = pos 14;
  message_null = pos 15;
  message_no_proc = pos 150;
  request_null = pos 17;
  win_null = pos 18;
  mpi_comm_f2c = λ f. f;
  mpi_comm_c2f = λ f. f;
  mpi_type_f2c = λ f. f;
  mpi_type_c2f = λ f. f;
  mpi_file_f2c = λ f. f;
  mpi_file_c2f = λ f. f;
  mpi_group_f2c = λ f. f;
  mpi_group_c2f = λ f. f;
  mpi_info_f2c = λ f. f;
  mpi_info_c2f = λ f. f;
  mpi_message_f2c = λ f. f;
  mpi_message_c2f = λ f. f;
  mpi_op_f2c = λ f. f;
  mpi_op_c2f = λ f. f;
  mpi_request_f2c = λ f. f;
  mpi_request_c2f = λ f. f;
  mpi_win_f2c = λ f. f;
}

-- The datatypes below `next` that the table holds, the size of the one file there is, the
-- communicators below `next_comm` with their sizes, the bytes in memory, one message each way,
-- and for a request the addresses that it fills with the message from a source, with a tag, on
-- a communicator; the rank of the process; and what its calls of one kind were given and returned: those
-- with one buffer, those that start an operation, and those with two.
pub record World : Type 0 where
  pub types : ℕ → Option TypeInfo
  pub next : ℕ
  pub file_size : ℕ
  pub comms : ℕ → Option ℕ
  pub next_comm : ℕ
  pub memory : ℤ → ℕ
  pub outgoing : List ℕ
  pub incoming : List ℕ
  pub rank : ℕ
  pub pending : ℤ → Option (List ℤ × ℤ × ℤ × ℤ)
  pub posts : List ((ℤ × ℤ × Option TypeInfo) × ℤ)
  pub starts : List ((ℤ × ℤ × Option TypeInfo) × ℤ × ℤ)
  pub exchanges : List ((ℤ × ℤ × Option TypeInfo) × (ℤ × ℤ × Option TypeInfo) × ℤ)

abbrev pub view : World → ℤ → Option TypeInfo
view w (pos n) = if ltb n w.next then w.types n else none
view w (negsuc n) = none

abbrev pub add : World → TypeInfo → Made World
add w i = record {
  rc = pos 0;
  handle = pos w.next;
  world = record w { types = λ n. if n == w.next then some i else w.types n; next = suc w.next };
}

abbrev pub derived : (TypeInfo → List ℤ) → (TypeInfo → ℕ) → ℤ → World → Made World
derived disps size old w = elim (view w old) [
  | none ↦ record { rc = error_lib.error err_type; handle = old; world = w }
  | some i ↦ add w (record { disps = disps i; size = size i; extent = i.extent; named = false })
]

-- The segments that it tells of any datatype: two of eight bytes, sixteen bytes apart.
abbrev two_doubles : List Iov
two_doubles =
    record { iov_base = pos 0; iov_len = pos 8 }
    ∷ record { iov_base = pos 16; iov_len = pos 8 }
    ∷ []

abbrev pub sample : Mpi World
sample = record {
  errors = error_lib;
  handles = handle_lib;
  malloc = λ n b w. true;
  combiner_named = pos 1;
  type_get_envelope = λ t w. elim (view w t) [
    | none ↦ (error_lib.error err_type, pos 0)
    | some i ↦ (pos 0, if i.named then pos 1 else pos 2)
  ];
  type_create_hvector = λ n b stride old w.
      derived (hvector_disps (pos_part n) (pos_part b) stride)
        (λ i. pos_part n * pos_part b * i.size) old w;
  type_create_hindexed =
      λ n bs ds old w. derived (hindexed_disps ds) (λ i. pos_part n * i.size) old w;
  type_commit = λ t w. record { rc = pos 0; handle = t; world = w };
  type_free = λ t w. record {
    rc = pos 0;
    handle = handle_lib.datatype vapaa.Handles.DatatypeNames.datatype_null;
    world = record w { types = λ n. if eq_ℤ (pos n) t then none else w.types n };
  };
  type_size = λ t w. elim (view w t) [
    | none ↦ (error_lib.error err_type, pos 0)
    | some i ↦ (pos 0, pos i.size)
  ];
  type_get_extent = λ t w. elim (view w t) [
    | none ↦ (error_lib.error err_type, pos 0)
    | some i ↦ (pos 0, i.extent)
  ];
  type_iov_len = λ t w. (pos 0, pos 2, pos 16);
  type_iov = λ t n w. (pos 0, two_doubles);
}

-- Looking a handle up in a table that has grown, or lost an entry.
grown :
    (f : ℕ → Option TypeInfo) (next n : ℕ) (i : TypeInfo)
    → n ≢ next
    → (if ltb n (suc next) then (if n == next then some i else f n) else none)
      ≡ (if ltb n next then f n else none)
grown f next n i h = ground arith

lost :
    (f : ℕ → Option TypeInfo) (next n : ℕ) (gone : Bool)
    → (if ltb n next then (if gone then none else f n) else none)
      ≡ (if gone then none else if ltb n next then f n else none)
lost f next n gone = ground arith

add-others : (w : World) (i : TypeInfo) (t : ℤ) → t ≢ pos w.next → view (add w i).world t ≡ view w t
add-others w i (pos n) h = grown w.types w.next n i (λ e. h (ap pos e))
add-others w i (negsuc n) h = refl

add-Makes :
    (w : World) (ds : List ℤ) (size : ℕ) (e : ℤ)
    → Makes sample view w
        (add w (record { disps = ds; size = size; extent = e; named = false }))
        ds
        size
unfolding vapaa_error
add-Makes w ds size e =
    let out : ltb w.next w.next ≡ false = ground arith in
    let here : ltb w.next (suc w.next) ≡ true = ground arith in
    let same : (w.next == w.next) ≡ true = ground arith in
    record {
      succeeds = refl;
      fresh = rw out;
      extent = e;
      now = rw (here, same);
      others = add-others w (record { disps = ds; size = size; extent = e; named = false });
    }

pub free-view :
    (t : ℤ) (w : World) (u : ℤ)
    → view (sample.type_free t w).world u ≡ (if eq_ℤ u t then none else view w u)
free-view t w (pos n) = lost w.types w.next n (eq_ℤ (pos n) t)
free-view t w (negsuc n) = ground arith

pub derived-Makes :
    (disps : TypeInfo → List ℤ) (size : TypeInfo → ℕ) (old : ℤ) (w : World) {i : TypeInfo}
    → view w old ≡ some i
    → Makes sample view w (derived disps size old w) (disps i) (size i)
derived-Makes disps size old w {i} h = rw (h, derived) (add-Makes w (disps i) (size i) i.extent)

pub envelope :
    (t : ℤ) (w : World) {i : TypeInfo}
    → view w t ≡ some i
    → sample.type_get_envelope t w ≡ (pos 0, if i.named then pos 1 else pos 2)
envelope t w h = rw (h, sample)

pub combiner : (named : Bool) → eq_ℤ (if named then pos 1 else pos 2) (pos 1) ≡ named
combiner true = refl
combiner false = refl

unfoldable pub sample_laws : TypeLaws sample
unfolding vapaa_error
sample_laws = record {
  view = view;
  envelope_succeeds = λ t w h. ap (λ (r : ℤ × ℤ). r.0) (envelope t w h);
  envelope_named =
      λ t w {i} h. ap (λ (r : ℤ × ℤ). eq_ℤ r.1 (pos 1)) (envelope t w h) ∙ combiner i.named;
  hvector = λ n b stride old w _ _ h.
      derived-Makes (hvector_disps n b stride) (λ i. n * b * i.size) old w h;
  hindexed = λ n ds old w _ _ h. derived-Makes (hindexed_disps ds) (λ i. n * i.size) old w h;
  free_succeeds = λ t w h n. refl;
  free_view = λ t w h n u. free-view t w u;
  size_law = λ t w h small. rw (h, sample);
  commit_succeeds = λ t w h. refl;
  commit_handle = λ t w h. refl;
  commit_view = λ t w h u. refl;
}
