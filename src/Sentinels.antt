-- ===== src/Sentinels.antt =====
-- The sentinels that Fortran passes by address: source/detect_sentinels.c and
-- source/detect_sentinels.h. The state is the nine addresses; before a sentinel is set its address is
-- null, 0. A setter is given the address that the descriptor or pointer holds.
mod Tests
use vapaa.Prelude.{◌≡◌, ◌≢◌, refl, Bool, true, false, ℤ, pos, eq_ℤ, eq_ℤ-refl, eq_ℤ-false}

pub data Sentinel : Type 0 where
  bottom status_ignore statuses_ignore errcodes_ignore in_place argv_null argvs_null unweighted
        weights_empty :
      Sentinel

-- The variables f08_MPI_X_address.
pub record Sentinels : Type 0 where
  pub bottom_address : ℤ
  pub status_ignore_address : ℤ
  pub statuses_ignore_address : ℤ
  pub errcodes_ignore_address : ℤ
  pub in_place_address : ℤ
  pub argv_null_address : ℤ
  pub argvs_null_address : ℤ
  pub unweighted_address : ℤ
  pub weights_empty_address : ℤ

-- Their values before any call.
unfoldable pub initial : Sentinels
initial = record {
  bottom_address = pos 0;
  status_ignore_address = pos 0;
  statuses_ignore_address = pos 0;
  errcodes_ignore_address = pos 0;
  in_place_address = pos 0;
  argv_null_address = pos 0;
  argvs_null_address = pos 0;
  unweighted_address = pos 0;
  weights_empty_address = pos 0;
}

-- `C_MPI_BOTTOM` and the other eight setters.
unfoldable pub set_sentinel : Sentinel → ℤ → Sentinels → Sentinels
set_sentinel bottom a s = record s { bottom_address = a }
set_sentinel status_ignore a s = record s { status_ignore_address = a }
set_sentinel statuses_ignore a s = record s { statuses_ignore_address = a }
set_sentinel errcodes_ignore a s = record s { errcodes_ignore_address = a }
set_sentinel in_place a s = record s { in_place_address = a }
set_sentinel argv_null a s = record s { argv_null_address = a }
set_sentinel argvs_null a s = record s { argvs_null_address = a }
set_sentinel unweighted a s = record s { unweighted_address = a }
set_sentinel weights_empty a s = record s { weights_empty_address = a }

-- `C_IS_MPI_BOTTOM` and the other eight tests.
unfoldable pub is_sentinel : Sentinels → Sentinel → ℤ → Bool
is_sentinel s bottom a = eq_ℤ a s.bottom_address
is_sentinel s status_ignore a = eq_ℤ a s.status_ignore_address
is_sentinel s statuses_ignore a = eq_ℤ a s.statuses_ignore_address
is_sentinel s errcodes_ignore a = eq_ℤ a s.errcodes_ignore_address
is_sentinel s in_place a = eq_ℤ a s.in_place_address
is_sentinel s argv_null a = eq_ℤ a s.argv_null_address
is_sentinel s argvs_null a = eq_ℤ a s.argvs_null_address
is_sentinel s unweighted a = eq_ℤ a s.unweighted_address
is_sentinel s weights_empty a = eq_ℤ a s.weights_empty_address

-- After a sentinel is set, its test holds of the address given and of no other.
is_sentinel-set_sentinel :
    (k : Sentinel) (a b : ℤ) (s : Sentinels) → is_sentinel (set_sentinel k a s) k b ≡ eq_ℤ b a
unfolding is_sentinel set_sentinel
is_sentinel-set_sentinel bottom a b s = refl
is_sentinel-set_sentinel _ a b s = refl

-- Setting one sentinel changes the test for no other.
is_sentinel-set_other :
    (k l : Sentinel) (a b : ℤ) (s : Sentinels)
    → l ≢ k
    → is_sentinel (set_sentinel k a s) l b ≡ is_sentinel s l b
unfolding is_sentinel set_sentinel
is_sentinel-set_other bottom bottom a b s h = absurd (h refl)
is_sentinel-set_other status_ignore status_ignore a b s h = absurd (h refl)
is_sentinel-set_other statuses_ignore statuses_ignore a b s h = absurd (h refl)
is_sentinel-set_other errcodes_ignore errcodes_ignore a b s h = absurd (h refl)
is_sentinel-set_other in_place in_place a b s h = absurd (h refl)
is_sentinel-set_other argv_null argv_null a b s h = absurd (h refl)
is_sentinel-set_other argvs_null argvs_null a b s h = absurd (h refl)
is_sentinel-set_other unweighted unweighted a b s h = absurd (h refl)
is_sentinel-set_other weights_empty weights_empty a b s h = absurd (h refl)
is_sentinel-set_other _ _ a b s h = refl

-- After a sentinel is set, its test holds of the address given and of no other, and the test for every
-- other sentinel is what it was.
pub is_sentinel-after_set :
    (k l : Sentinel) (a b : ℤ) (s : Sentinels)
    → l ≢ k
    → (is_sentinel (set_sentinel k a s) k b ≡ eq_ℤ b a)
      × (is_sentinel (set_sentinel k a s) l b ≡ is_sentinel s l b)
is_sentinel-after_set k l a b s h =
    (is_sentinel-set_sentinel k a b s, is_sentinel-set_other k l a b s h)
