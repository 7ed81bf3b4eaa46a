-- ===== src/Statuses.antt =====
-- The status objects of Fortran and of the C library: source/convert_handles.h. The layout of the C
-- object is that of MPICH or of Open MPI, whichever the code is built with.
pub mod Tests
use vapaa.Prelude.{◌≡◌, refl, ℕ, ℤ}

-- struct F_MPI_Status.
pub record FStatus : Type 0 where
  pub count_lo : ℤ
  pub count_hi_and_cancelled : ℤ
  pub mpi_source : ℤ
  pub mpi_tag : ℤ
  pub mpi_error : ℤ
  pub cancelled : ℤ
  pub ucount : ℕ

pub data Vendor : Type 0 where
  mpich open_mpi : Vendor

-- The fields of MPI_Status that the code copies.
pub record MpichStatus : Type 0 where
  pub count_lo : ℤ
  pub count_hi_and_cancelled : ℤ
  pub mpi_source : ℤ
  pub mpi_tag : ℤ
  pub mpi_error : ℤ

pub record OpenMpiStatus : Type 0 where
  pub mpi_source : ℤ
  pub mpi_tag : ℤ
  pub mpi_error : ℤ
  pub cancelled : ℤ
  pub ucount : ℕ

abbrev pub CStatus : Vendor → Type 0
CStatus mpich = MpichStatus
CStatus open_mpi = OpenMpiStatus

-- `C_MPI_STATUS_F2C`: the object *c after it, which was `c` before.
unfoldable pub status_f2c : (v : Vendor) → FStatus → CStatus v → CStatus v
status_f2c mpich f c = record c {
  count_lo = f.count_lo;
  count_hi_and_cancelled = f.count_hi_and_cancelled;
  mpi_source = f.mpi_source;
  mpi_tag = f.mpi_tag;
  mpi_error = f.mpi_error;
}
status_f2c open_mpi f c = record c {
  mpi_source = f.mpi_source;
  mpi_tag = f.mpi_tag;
  mpi_error = f.mpi_error;
  cancelled = f.cancelled;
  ucount = f.ucount;
}

-- `C_MPI_STATUS_C2F`: the object *f after it, which was `f` before.
unfoldable pub status_c2f : (v : Vendor) → CStatus v → FStatus → FStatus
status_c2f mpich c f = record f {
  count_lo = c.count_lo;
  count_hi_and_cancelled = c.count_hi_and_cancelled;
  mpi_source = c.mpi_source;
  mpi_tag = c.mpi_tag;
  mpi_error = c.mpi_error;
}
status_c2f open_mpi c f = record f {
  mpi_source = c.mpi_source;
  mpi_tag = c.mpi_tag;
  mpi_error = c.mpi_error;
  cancelled = c.cancelled;
  ucount = c.ucount;
}

-- A C status survives the way to Fortran and back, whatever the two objects held before.
pub status_f2c-status_c2f :
    (v : Vendor) (c d : CStatus v) (f : FStatus) → status_f2c v (status_c2f v c f) d ≡ c
unfolding status_f2c status_c2f
status_f2c-status_c2f mpich c d f = refl
status_f2c-status_c2f open_mpi c d f = refl
