-- ===== src/Transfer/Flat.antt =====
-- The two entry points of each collective of Transfer.Vectors agree: source/mpi_coll.c.
use vapaa.Prelude.{◌≡◌, ℤ, ◌&&◌, if◌then◌else◌}
use vapaa.Run.{aborted, refused_or}
use vapaa.Cfi.{Desc}
use vapaa.Transfer.{Env, contiguous}
use vapaa.Transfer.Vectors.{
  VectorMessages, c_gatherv, cfi_gatherv, c_allgatherv, cfi_allgatherv, c_scatterv, cfi_scatterv,
  c_alltoallv, cfi_alltoallv,
}

-- Each of the four does with contiguous sections what the call for addresses does with their base
-- addresses, MPI_IN_PLACE included, and aborts if one of the sections is not contiguous.
pub vector_collectives-Flat :
    {W : Type 0} (env : Env W) (vectors : VectorMessages W) (input output : Desc)
    (scount scounts sdisps stype_f rcount rcounts rdisps rtype_f root comm_f : ℤ) (w : W)
    → (cfi_gatherv env vectors input scount stype_f output rcounts rdisps rtype_f root comm_f w ≡ (
        if contiguous env.build input && contiguous env.build output
        then c_gatherv env vectors input.base_addr scount stype_f output.base_addr rcounts rdisps
            rtype_f root comm_f w
        else aborted))
      × (cfi_allgatherv env vectors input scount stype_f output rcounts rdisps rtype_f comm_f w ≡ (
          if contiguous env.build input && contiguous env.build output
          then c_allgatherv env vectors input.base_addr scount stype_f output.base_addr rcounts
              rdisps rtype_f comm_f w
          else aborted))
      × (cfi_scatterv env vectors input scounts sdisps stype_f output rcount rtype_f root comm_f w
          ≡ (if contiguous env.build input && contiguous env.build output
              then c_scatterv env vectors input.base_addr scounts sdisps stype_f output.base_addr
                  rcount rtype_f root comm_f w
              else aborted))
      × (cfi_alltoallv env vectors input scounts sdisps stype_f output rcounts rdisps rtype_f comm_f
            w
          ≡ (if contiguous env.build input && contiguous env.build output
              then c_alltoallv env vectors input.base_addr scounts sdisps stype_f output.base_addr
                  rcounts rdisps rtype_f comm_f w
              else aborted))
unfolding c_gatherv cfi_gatherv c_allgatherv cfi_allgatherv c_scatterv cfi_scatterv c_alltoallv
    cfi_alltoallv
vector_collectives-Flat env vectors input output scount scounts sdisps stype_f rcount rcounts rdisps
      rtype_f root comm_f w =
    let both = contiguous env.build input && contiguous env.build output in
    (refused_or both _ _ w, refused_or both _ _ w, refused_or both _ _ w, refused_or both _ _ w)
