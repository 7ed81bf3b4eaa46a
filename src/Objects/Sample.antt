-- ===== src/Objects/Sample.antt =====
-- Communicators in the sample library, in which the laws of Objects.Laws hold.
use vapaa.Prelude.{
  ◌≡◌, ◌≢◌, refl, ap, ℕ, suc, ◌==◌, ltb, Bool, true, false, Option, none, some, ℤ, pos, negsuc,
  eq_ℤ, if◌then◌else◌, arith,
}
use vapaa.Errors.Names.{err_comm, vapaa_error}
use vapaa.Handles.{comm_f2c}
use vapaa.Mpi.{Made}
use vapaa.Mpi.Sample.{World, error_lib}
use vapaa.Transfer.Tests.{env}
use vapaa.Objects.Comms.{CommLib, MadeLater}
use vapaa.Objects.Laws.{IsNew, CommLaws}

abbrev pub live : World → ℤ → Option ℕ
live w (pos n) = if ltb n w.next_comm then w.comms n else none
live w (negsuc n) = none

abbrev new_comm : World → ℕ → Made World
new_comm w k = record {
  rc = pos 0;
  handle = pos w.next_comm;
  world = record w {
    comms = λ n. if n == w.next_comm then some k else w.comms n;
    next_comm = suc w.next_comm;
  };
}

abbrev refuse : World → Made World
refuse w = record { rc = error_lib.error err_comm; handle = pos 10; world = w }

abbrev derive : (ℕ → ℕ) → ℤ → World → Made World
derive f t w = elim (live w t) [ none ↦ refuse w | some n ↦ new_comm w (f n) ]

abbrev later : Made World → MadeLater World
later m = record { rc = m.rc; handle = m.handle; request = pos 17; world = m.world }

abbrev pub comms : CommLib World
comms = record {
  split_type = λ t. pos 1;
  comm_rank = λ t held w. ((pos 0, pos 0), w);
  comm_size = λ t held w. elim (live w t) [
    | none ↦ ((error_lib.error err_comm, held), w)
    | some n ↦ ((pos 0, pos n), w)
  ];
  comm_dup = derive (λ n. n);
  comm_dup_with_info = λ t info. derive (λ n. n) t;
  comm_idup = λ t w. later (derive (λ n. n) t w);
  comm_idup_with_info = λ t info w. later (derive (λ n. n) t w);
  comm_create = λ t g. derive (λ n. n) t;
  comm_create_group = λ t g tag. derive (λ n. n) t;
  comm_split = λ t color key. derive (λ n. 1) t;
  comm_split_type = λ t type key info. derive (λ n. 1) t;
  comm_free = λ t w. record {
    rc = pos 0;
    handle = pos 10;
    world = record w { comms = λ n. if eq_ℤ (pos n) t then none else w.comms n };
  };
  cart_create = λ t n dims periods reorder. derive (λ n. n) t;
  dims_create = λ n d dims w. (pos 0, w);
  cart_coords = λ t r d coords w. (pos 0, w);
}

grown :
    (f : ℕ → Option ℕ) (next n k : ℕ)
    → n ≢ next
    → (if ltb n (suc next) then (if n == next then some k else f n) else none)
      ≡ (if ltb n next then f n else none)
grown f next n k h = ground arith

lost :
    (f : ℕ → Option ℕ) (next n : ℕ) (gone : Bool)
    → (if ltb n next then (if gone then none else f n) else none)
      ≡ (if gone then none else if ltb n next then f n else none)
lost f next n gone = ground arith

new_comm-others :
    (w : World) (k : ℕ) (t : ℤ) → t ≢ pos w.next_comm → live (new_comm w k).world t ≡ live w t
new_comm-others w k (pos n) h = grown w.comms w.next_comm n k (λ e. h (ap pos e))
new_comm-others w k (negsuc n) h = refl

new_comm-IsNew : (w : World) (k : ℕ) → IsNew env live w (new_comm w k) k
unfolding vapaa_error comm_f2c
new_comm-IsNew w k =
    let out : ltb w.next_comm w.next_comm ≡ false = ground arith in
    let here : ltb w.next_comm (suc w.next_comm) ≡ true = ground arith in
    let same : (w.next_comm == w.next_comm) ≡ true = ground arith in
    record {
      succeeds = refl;
      fresh = rw out;
      now = rw (here, same);
      others = new_comm-others w k;
      back = refl;
    }

pub derive-IsNew :
    (f : ℕ → ℕ) (t : ℤ) (w : World) {n : ℕ}
    → live w t ≡ some n
    → IsNew env live w (derive f t w) (f n)
derive-IsNew f t w {n} h = rw (h, derive) (new_comm-IsNew w (f n))

pub comm_free-live :
    (t : ℤ) (w : World) (u : ℤ)
    → live (comms.comm_free t w).world u ≡ (if eq_ℤ u t then none else live w u)
comm_free-live t w (pos n) = lost w.comms w.next_comm n (eq_ℤ (pos n) t)
comm_free-live t w (negsuc n) = ground arith

unfoldable pub comm_laws : CommLaws env comms
unfolding vapaa_error
comm_laws = record {
  view = live;
  size = λ t held w h. rw (h, comms);
  dup = λ t w h. derive-IsNew (λ n. n) t w h;
  dup_with_info = λ t info w h. derive-IsNew (λ n. n) t w h;
  split = λ t color key w h. (1, derive-IsNew (λ n. 1) t w h);
  free_succeeds = λ t w h a b. refl;
  free_view = λ t w h a b u. comm_free-live t w u;
}
