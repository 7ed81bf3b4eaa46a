-- ===== src/Transfer/PointToPoint/Pack.antt =====
-- MPI_Pack and MPI_Unpack of source/mpi_p2p.c.
use vapaa.Prelude.{Bool, ℤ, pos, eq_ℤ, if◌then◌else◌}
use vapaa.Errors.Names.{err_arg}
use vapaa.Handles.{type_f2c, comm_f2c}
use vapaa.Run.{Run, ◌>>=◌, pure}
use vapaa.Cfi.{Desc, Build}
use vapaa.Transfer.{Env, call, contiguous, fix_rc, with_section}
use vapaa.Transfer.PointToPoint.{Matched}

-- The test `0 == CFI_is_contiguous(desc)`.
abbrev pub scattered : Build → Desc → Bool
scattered build desc = eq_ℤ (pos 0) (build.is_contiguous desc)

module _ {W : Type 0} (env : Env W) (matched : Matched W) where
  open env use {mpi, config, build}
  open matched use {pack, unpack}

  -- *ierror and *position, once the return code is fixed.
  unfoldable pub store_position : (rc position : ℤ) → W → Run W (ℤ × ℤ)
  unfolding fix_rc
  store_position rc position = do ierror ← fix_rc env rc; pure (ierror, position)

  -- `C_MPI_Pack`.
  unfoldable pub c_pack :
      (inbuf incount datatype_f outbuf outsize position comm_f : ℤ) → W → Run W (ℤ × ℤ)
  unfolding store_position
  c_pack inbuf incount datatype_f outbuf outsize position comm_f = do
    (rc, after) ← call (
        pack inbuf incount (type_f2c mpi.handles config datatype_f) outbuf outsize position
          (comm_f2c mpi.handles comm_f))
    store_position rc after

  -- `CFI_MPI_Pack`.
  unfoldable pub cfi_pack :
      (indesc : Desc) (incount datatype_f : ℤ) (outdesc : Desc) (outsize position comm_f : ℤ)
      → W
      → Run W (ℤ × ℤ)
  unfolding with_section store_position
  cfi_pack indesc incount datatype_f outdesc outsize position comm_f =
      let datatype = type_f2c mpi.handles config datatype_f in
      let comm = comm_f2c mpi.handles comm_f in
      (do
        (rc, after) ←
            if scattered build outdesc
            then pure (mpi.errors.error err_arg, position)
            else if contiguous build indesc
            then call
                (pack indesc.base_addr incount datatype outdesc.base_addr outsize position comm)
            else with_section env indesc incount datatype (λ t.
              call (pack indesc.base_addr (pos 1) t outdesc.base_addr outsize position comm))
        store_position rc after)

  -- `C_MPI_Unpack`.
  unfoldable pub c_unpack :
      (inbuf insize position outbuf outcount datatype_f comm_f : ℤ) → W → Run W (ℤ × ℤ)
  unfolding store_position
  c_unpack inbuf insize position outbuf outcount datatype_f comm_f = do
    (rc, after) ← call (
        unpack inbuf insize position outbuf outcount (type_f2c mpi.handles config datatype_f)
          (comm_f2c mpi.handles comm_f))
    store_position rc after

  -- `CFI_MPI_Unpack`.
  unfoldable pub cfi_unpack :
      (indesc : Desc) (insize position : ℤ) (outdesc : Desc) (outcount datatype_f comm_f : ℤ)
      → W
      → Run W (ℤ × ℤ)
  unfolding with_section store_position
  cfi_unpack indesc insize position outdesc outcount datatype_f comm_f =
      let datatype = type_f2c mpi.handles config datatype_f in
      let comm = comm_f2c mpi.handles comm_f in
      (do
        (rc, after) ←
            if scattered build indesc
            then pure (mpi.errors.error err_arg, position)
            else if contiguous build outdesc
            then call
                (unpack indesc.base_addr insize position outdesc.base_addr outcount datatype comm)
            else with_section env outdesc outcount datatype (λ t.
              call (unpack indesc.base_addr insize position outdesc.base_addr (pos 1) t comm))
        store_position rc after)
