-- ===== src/Cfi/Quiet.antt =====
-- What `VAPAA_CFI_CREATE_DATATYPE` (source/cfi_util.c) leaves alone: all that the datatype calls of
-- the library leave alone.
use vapaa.Prelude.{[], to_int, inl, inr, Option, none, some, List, ℤ, pos, ltb_ℤ, Option-cases}
use vapaa.Errors.Names.{err_arg}
use vapaa.Run.{Run, Leaves, returned, Leaves-bind, Leaves-if_block, leaves, pure}
use vapaa.Mpi.{Mpi, Iov}
use vapaa.Cfi.{Desc, Build}
use vapaa.Cfi.Loops.{Filling, rounds}
use vapaa.Cfi.Indexed.{
  create_mpix_iov, make_indexed, create_indexed, all_displacements, address_nest,
}
use vapaa.Cfi.Create.{
  is_named, create_single_elements, create_datatype_15d, create_nested, create_shape, check_size,
  count_elements, create_named, create_datatype,
}

-- The calls that make, commit and free datatypes keep a property of states.
pub record IsQuiet {W : Type 0} (mpi : Mpi W) (P : W → Type 0) : Type 0 where
  pub hvector :
      (n b stride old : ℤ) (w : W) → P w → P (mpi.type_create_hvector n b stride old w).world
  pub hindexed :
      (n : ℤ) (bs ds : List ℤ) (old : ℤ) (w : W)
      → P w
      → P (mpi.type_create_hindexed n bs ds old w).world
  pub commit : (t : ℤ) (w : W) → P w → P (mpi.type_commit t w).world
  pub free : (t : ℤ) (w : W) → P w → P (mpi.type_free t w).world

-- What follows the choice of the shape in `create_named`.
abbrev ending : {W : Type 0} → Mpi W → Build → Desc → (n out : ℤ) → Option ℤ → W → Run W (ℤ × ℤ)
ending mpi build desc n out none = pure (mpi.errors.error err_arg, out)
ending mpi build desc n out (some t) = check_size mpi build desc n t

module _ {W : Type 0} {mpi : Mpi W} (build : Build) {P : W → Type 0} (quiet : IsQuiet mpi P) where
  is_named-Leaves : (t : ℤ) (w : W) → P w → Leaves P (is_named mpi build t w)
  unfolding is_named
  is_named-Leaves t w h = search leaves

  create_nested-Leaves :
      (n e s0 s1 t : ℤ) (w : W) → P w → Leaves P (create_nested mpi build n e s0 s1 t w)
  unfolding create_nested
  create_nested-Leaves n e s0 s1 t w h = search (leaves, quiet.hvector, quiet.free) depth 14

  create_single_elements-Leaves :
      (n : ℤ) (filling : Filling) (t : ℤ) (w : W)
      → P w
      → Leaves P (create_single_elements mpi build n filling t w)
  unfolding create_single_elements
  create_single_elements-Leaves n filling t w h = search (leaves, quiet.hindexed)

  create_datatype_15d-Leaves :
      (desc : Desc) (n input out : ℤ) (w : W)
      → P w
      → Leaves P (create_datatype_15d mpi build desc n input out w)
  unfolding create_datatype_15d
  create_datatype_15d-Leaves desc n input out w h =
      search (leaves, is_named-Leaves, create_single_elements-Leaves) depth 9

  create_shape-Leaves :
      (desc : Desc) (n input out : ℤ) (w : W)
      → P w
      → Leaves P (create_shape mpi build desc n input out w)
  unfolding create_shape
  create_shape-Leaves desc n input out w h =
      search
        (
          leaves, create_single_elements-Leaves, create_datatype_15d-Leaves, create_nested-Leaves,
          quiet.hvector,
        )
        depth 14

  check_size-Leaves :
      (desc : Desc) (n t : ℤ) (w : W) → P w → Leaves P (check_size mpi build desc n t w)
  unfolding check_size
  check_size-Leaves desc n t w h = search leaves

  ending-Leaves :
      (desc : Desc) (n out : ℤ) (shape : Option ℤ) (w : W)
      → P w
      → Leaves P (ending mpi build desc n out shape w)
  ending-Leaves desc n out none w h = returned h
  ending-Leaves desc n out (some t) w h = check_size-Leaves desc n t w h

  create_named-Leaves :
      (desc : Desc) (n input out : ℤ) (w : W)
      → P w
      → Leaves P (create_named mpi build desc n input out w)
  unfolding create_named
  create_named-Leaves desc n input out w h =
      elim (Option-cases (count_elements desc desc.rank 0 (pos 1))) [
        | inl large ↦ rw (large, create_named) (returned h)
        | inr (total, e) ↦
            rw (e, create_named)
              (Leaves-if_block (ltb_ℤ total n) _ _ w (returned h) (
                Leaves-bind {f = ending mpi build desc n out}
                  (create_shape-Leaves desc n input out w h) (ending-Leaves desc n out)))
      ]

  create_mpix_iov-Leaves : (t : ℤ) (w : W) → P w → Leaves P (create_mpix_iov mpi build t w)
  unfolding create_mpix_iov
  create_mpix_iov-Leaves t w h = search leaves depth 9

  make_indexed-Leaves :
      (desc : Desc) (n extent : ℤ) (segments : List Iov × ℤ) (w : W)
      → P w
      → Leaves P (make_indexed mpi build desc n extent segments w)
  unfolding make_indexed
  make_indexed-Leaves desc n extent (iovs, bytes) w h =
      elim (Option-cases (
        all_displacements (address_nest desc 15 []) (to_int (pos desc.elem_len)) extent iovs
          (rounds n) 0)) [
            | inl outside ↦ rw outside (search leaves depth 9)
            | inr (disps, e) ↦ rw e (search (leaves, quiet.hindexed) depth 12)
          ]

  create_indexed-Leaves :
      (desc : Desc) (n input out : ℤ) (w : W)
      → P w
      → Leaves P (create_indexed mpi build desc n input out w)
  unfolding create_indexed
  create_indexed-Leaves desc n input out w h =
      search (leaves, create_mpix_iov-Leaves, make_indexed-Leaves) depth 12

  -- Whatever its arguments, `VAPAA_CFI_CREATE_DATATYPE` keeps a property of states that the calls of
  -- the library keep, if it returns.
  pub create_datatype-Leaves :
      (desc : Desc) (n input out : ℤ) (w : W)
      → P w
      → Leaves P (create_datatype mpi build desc n input out w)
  unfolding create_datatype
  create_datatype-Leaves desc n input out w h =
      search (leaves, is_named-Leaves, create_named-Leaves, create_indexed-Leaves) depth 9
