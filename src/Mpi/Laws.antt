-- ===== src/Mpi/Laws.antt =====
-- What the MPI standard says of the datatype calls, as laws of the library. A datatype is described
-- by its type map: the displacements of its basic elements, its size and its extent in bytes. Counts
-- are numbers that an int holds.
use vapaa.Prelude.{
  ◌≡◌, ◌≢◌, ℕ, ◌*◌, ◌<◌, ◌^◌, Bool, false, Option, none, some, List, map, ℤ, pos, eq_ℤ, ◌+ℤ◌, ◌*ℤ◌,
  length, replicate, tabulate, concat, if◌then◌else◌,
}
use vapaa.Errors.Names.{success}
use vapaa.Mpi.{Mpi, Made}

pub record TypeInfo : Type 0 where
  pub disps : List ℤ
  pub size : ℕ
  pub extent : ℤ
  pub named : Bool

-- The type map of MPI_Type_create_hvector.
abbrev pub hvector_disps : (count blocklength : ℕ) (stride : ℤ) → TypeInfo → List ℤ
hvector_disps n b stride old = concat (
    tabulate n (λ i.
      concat
        (tabulate b (λ j. map (λ d. stride *ℤ pos i +ℤ (old.extent *ℤ pos j +ℤ d)) old.disps))))

-- The type map of MPI_Type_create_hindexed with blocks of one element.
abbrev pub hindexed_disps : List ℤ → TypeInfo → List ℤ
hindexed_disps ds old = concat (map (λ at. map (λ d. at +ℤ d) old.disps) ds)

-- A call made a new datatype of the given type map, and touched no other.
pub record Makes {W : Type 0} (mpi : Mpi W) (view : W → ℤ → Option TypeInfo) (w : W) (m : Made W)
    (disps : List ℤ) (size : ℕ) : Type 0 where
  pub succeeds : m.rc ≡ mpi.errors.error success
  pub fresh : view w m.handle ≡ none
  pub extent : ℤ
  pub now :
      view m.world m.handle
      ≡ some (record { disps = disps; size = size; extent = extent; named = false })
  pub others : (t : ℤ) → t ≢ m.handle → view m.world t ≡ view w t

pub record TypeLaws {W : Type 0} (mpi : Mpi W) : Type 0 where
  -- The datatype that a handle stands for, if it stands for one.
  pub view : W → ℤ → Option TypeInfo
  pub envelope_succeeds :
      (t : ℤ) (w : W) {i : TypeInfo}
      → view w t ≡ some i
      → (mpi.type_get_envelope t w).0 ≡ mpi.errors.error success
  pub envelope_named :
      (t : ℤ) (w : W) {i : TypeInfo}
      → view w t ≡ some i
      → eq_ℤ (mpi.type_get_envelope t w).1 mpi.combiner_named ≡ i.named
  pub hvector :
      (n b : ℕ) (stride old : ℤ) (w : W) {i : TypeInfo}
      → n < 2 ^ 31
      → b < 2 ^ 31
      → view w old ≡ some i
      → Makes mpi view w
          (mpi.type_create_hvector (pos n) (pos b) stride old w)
          (hvector_disps n b stride i)
          (n * b * i.size)
  pub hindexed :
      (n : ℕ) (ds : List ℤ) (old : ℤ) (w : W) {i : TypeInfo}
      → n < 2 ^ 31
      → length ds ≡ n
      → view w old ≡ some i
      → Makes mpi view w
          (mpi.type_create_hindexed (pos n) (replicate n (pos 1)) ds old w)
          (hindexed_disps ds i)
          (n * i.size)
  pub free_succeeds :
      (t : ℤ) (w : W) {i : TypeInfo}
      → view w t ≡ some i
      → i.named ≡ false
      → (mpi.type_free t w).rc ≡ mpi.errors.error success
  pub free_view :
      (t : ℤ) (w : W) {i : TypeInfo}
      → view w t ≡ some i
      → i.named ≡ false
      → (u : ℤ) → view (mpi.type_free t w).world u ≡ (if eq_ℤ u t then none else view w u)
  pub size_law :
      (t : ℤ) (w : W) {i : TypeInfo}
      → view w t ≡ some i
      → i.size < 2 ^ 31
      → mpi.type_size t w ≡ (mpi.errors.error success, pos i.size)
  pub commit_succeeds :
      (t : ℤ) (w : W) {i : TypeInfo}
      → view w t ≡ some i
      → (mpi.type_commit t w).rc ≡ mpi.errors.error success
  pub commit_handle :
      (t : ℤ) (w : W) {i : TypeInfo} → view w t ≡ some i → (mpi.type_commit t w).handle ≡ t
  pub commit_view :
      (t : ℤ) (w : W) {i : TypeInfo}
      → view w t ≡ some i
      → (u : ℤ) → view (mpi.type_commit t w).world u ≡ view w u
