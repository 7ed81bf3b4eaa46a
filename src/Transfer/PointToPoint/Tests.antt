-- ===== src/Transfer/PointToPoint/Tests.antt =====
-- Runs of the point-to-point calls of Transfer.PointToPoint.
use vapaa.Prelude.{◌≡◌, refl, pos, neg}
use vapaa.Errors.Names.{err_arg, vapaa_error}
use vapaa.Mpi.Sample.{error_laws}
use vapaa.Transfer.PointToPoint.Packing.{packing-refuses}
use vapaa.Transfer.PointToPoint.Pack.{cfi_pack, cfi_unpack}
use vapaa.Run.{done}
use vapaa.Mpi.Sample.{World}
use vapaa.Cfi.{Desc}
use vapaa.Cfi.Tests.{desc, world}
use vapaa.Transfer.Tests.{env}
use vapaa.Transfer.PointToPoint.{Matched}

abbrev pub matched : Matched World
matched = record {
  mrecv = λ buffer count t message s w. (pos 0, w);
  imrecv = λ buffer count t message w. record { rc = pos 0; handle = pos 9; world = w };
  sendrecv = λ a n t dest stag b m u src rtag comm s w. (pos 0, w);
  pack = λ a n t b size position comm w. ((pos 0, position), w);
  unpack = λ a size position b n t comm w. ((pos 0, position), w);
}

abbrev column : Desc
column = record desc { base_addr = pos 8192 }

packing-refuses_example :
    (cfi_pack env matched desc (pos 5) (neg 30014) column (pos 64) (pos 8) (neg 1000) world
      ≡ done (vapaa_error err_arg, pos 8) world)
    × (cfi_unpack env matched column (pos 64) (pos 8) desc (pos 5) (neg 30014) (neg 1000) world
        ≡ done (vapaa_error err_arg, pos 8) world)
packing-refuses_example =
    packing-refuses env matched error_laws column desc (pos 5) (neg 30014) (pos 64) (pos 8)
      (neg 1000) world refl
