-- ===== src/Transfer/PointToPoint/Packing.antt =====
-- Packing into a section that is not contiguous, and unpacking from one: source/mpi_p2p.c.
use vapaa.Prelude.{◌≡◌, refl, ℤ, Bool, true, false}
use vapaa.Errors.Names.{err_arg, vapaa_error, error_ladder}
use vapaa.Errors.{ErrorLaws}
use vapaa.Errors.RoundTrip.{Listed}
use vapaa.Run.{done, ◌>>=◌}
use vapaa.Cfi.{Desc}
use vapaa.Transfer.{Env}
use vapaa.Transfer.Guard.{fix_rc-Listed}
use vapaa.Transfer.PointToPoint.{Matched}
use vapaa.Transfer.PointToPoint.Pack.{scattered, store_position, cfi_pack, cfi_unpack}

err_arg-Listed : (version4 : Bool) → Listed version4 err_arg
unfolding vapaa_error error_ladder
err_arg-Listed true = refl
err_arg-Listed false = refl

module _ {W : Type 0} (env : Env W) (matched : Matched W) (laws : ErrorLaws env.mpi.errors) where
  open env use {mpi, build, version4}

  refused :
      (position : ℤ) (w : W)
      → store_position env matched (mpi.errors.error err_arg) position w
        ≡ done (vapaa_error err_arg, position) w
  unfolding store_position
  refused position w =
      rw (fix_rc-Listed env laws err_arg w (err_arg-Listed version4) (λ e. cc e), ◌>>=◌)

  -- Packed data in a section that is not contiguous: `CFI_MPI_Pack` and `CFI_MPI_Unpack` return Fortran's
  -- MPI_ERR_ARG, the position stays, and the library is not called. The library's error codes are as
  -- the MPI standard says (ErrorLaws).
  pub packing-refuses :
      (packed desc : Desc) (count datatype_f size position comm_f : ℤ) (w : W)
      → scattered build packed ≡ true
      → (cfi_pack env matched desc count datatype_f packed size position comm_f w
          ≡ done (vapaa_error err_arg, position) w)
        × (cfi_unpack env matched packed size position desc count datatype_f comm_f w
            ≡ done (vapaa_error err_arg, position) w)
  unfolding cfi_pack cfi_unpack
  packing-refuses packed desc count datatype_f size position comm_f w parts =
      (rw parts (refused position w), rw parts (refused position w))
