-- ===== src/Mpi.antt =====
-- The part of the MPI library (and of malloc) that the C code rests on, as a parameter: the
-- datatype calls. `W` is the library's state.
pub mod Laws
pub mod Sample
use vapaa.Prelude.{Bool, List, ℤ, ℕ, eq_ℤ, if◌then◌else◌}
use vapaa.Errors.Names.{success}
use vapaa.Run.{Run, done, abort}
use vapaa.Errors.{ErrorLib}
use vapaa.Handles.{HandleLib}

-- What a call that makes or changes a handle returns: its return code, the handle it stores, and
-- the library's next state.
pub record Made (W : Type 0) : Type 0 where
  pub rc : ℤ
  pub handle : ℤ
  pub world : W

-- An MPIX_Iov.
pub record Iov : Type 0 where
  pub iov_base : ℤ
  pub iov_len : ℤ

pub record Mpi (W : Type 0) : Type 0 where
  pub errors : ErrorLib
  pub handles : HandleLib
  -- malloc of so many objects of so many bytes gives memory.
  pub malloc : ℤ → ℕ → W → Bool
  pub combiner_named : ℤ
  -- Return code and combiner.
  pub type_get_envelope : ℤ → W → ℤ × ℤ
  -- Count, block length, stride in bytes, old type.
  pub type_create_hvector : ℤ → ℤ → ℤ → ℤ → W → Made W
  -- Count, block lengths, displacements in bytes, old type.
  pub type_create_hindexed : ℤ → List ℤ → List ℤ → ℤ → W → Made W
  pub type_commit : ℤ → W → Made W
  pub type_free : ℤ → W → Made W
  -- Return code and size.
  pub type_size : ℤ → W → ℤ × ℤ
  -- Return code and extent.
  pub type_get_extent : ℤ → W → ℤ × ℤ
  -- MPIX_Type_iov_len for INT_MAX bytes: return code, length, bytes.
  pub type_iov_len : ℤ → W → ℤ × ℤ × ℤ
  -- MPIX_Type_iov from 0 for so many entries: return code and entries.
  pub type_iov : ℤ → ℤ → W → ℤ × List Iov

module _ {W : Type 0} (mpi : Mpi W) where
  -- The test `rc == MPI_SUCCESS`.
  abbrev pub ok : ℤ → Bool
  ok rc = eq_ℤ rc (mpi.errors.error success)

  -- A call that makes or changes a handle, and the assertion that it succeeded.
  abbrev pub made : (W → Made W) → W → Run W ℤ
  made call w = let m = call w in if ok m.rc then done m.handle m.world else abort w
