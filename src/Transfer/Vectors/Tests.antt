-- ===== src/Transfer/Vectors/Tests.antt =====
-- Runs of the collectives of Transfer.Vectors.
use vapaa.Prelude.{◌≡◌, pos, neg, ◌&&◌, if◌then◌else◌}
use vapaa.Run.{aborted}
use vapaa.Mpi.Sample.{World}
use vapaa.Cfi.{Desc}
use vapaa.Cfi.Tests.{world, desc}
use vapaa.Transfer.{contiguous}
use vapaa.Transfer.Tests.{env}
use vapaa.Transfer.Vectors.{
  VectorMessages, c_gatherv, cfi_gatherv, c_allgatherv, cfi_allgatherv, c_scatterv, cfi_scatterv,
  c_alltoallv, cfi_alltoallv,
}
use vapaa.Transfer.Flat.{vector_collectives-Flat}

abbrev vectors : VectorMessages World
vectors = record {
  barrier = λ comm w. (pos 0, w);
  gatherv = λ a n t b ns ds u root comm w. (pos 0, w);
  allgatherv = λ a n t b ns ds u comm w. (pos 0, w);
  scatterv = λ a ns ds t b n u root comm w. (pos 0, w);
  alltoallv = λ a ms es t b ns ds u comm w. (pos 0, w);
}

abbrev column : Desc
column = record desc { base_addr = pos 8192 }

vector_collectives-Flat_example :
    (cfi_gatherv env vectors desc
        (pos 5)
        (neg 30014)
        column
        (pos 528)
        (pos 536)
        (neg 30014)
        (pos 0)
        (neg 1000)
        world
      ≡ (if contiguous env.build desc && contiguous env.build column
          then c_gatherv env vectors
              (pos 4096)
              (pos 5)
              (neg 30014)
              (pos 8192)
              (pos 528)
              (pos 536)
              (neg 30014)
              (pos 0)
              (neg 1000)
              world
          else aborted))
    × (cfi_allgatherv env vectors desc
          (pos 5)
          (neg 30014)
          column
          (pos 528)
          (pos 536)
          (neg 30014)
          (neg 1000)
          world
        ≡ (if contiguous env.build desc && contiguous env.build column
            then c_allgatherv env vectors
                (pos 4096)
                (pos 5)
                (neg 30014)
                (pos 8192)
                (pos 528)
                (pos 536)
                (neg 30014)
                (neg 1000)
                world
            else aborted))
    × (cfi_scatterv env vectors desc
          (pos 512)
          (pos 520)
          (neg 30014)
          column
          (pos 5)
          (neg 30014)
          (pos 0)
          (neg 1000)
          world
        ≡ (if contiguous env.build desc && contiguous env.build column
            then c_scatterv env vectors
                (pos 4096)
                (pos 512)
                (pos 520)
                (neg 30014)
                (pos 8192)
                (pos 5)
                (neg 30014)
                (pos 0)
                (neg 1000)
                world
            else aborted))
    × (cfi_alltoallv env vectors desc
          (pos 512)
          (pos 520)
          (neg 30014)
          column
          (pos 528)
          (pos 536)
          (neg 30014)
          (neg 1000)
          world
        ≡ (if contiguous env.build desc && contiguous env.build column
            then c_alltoallv env vectors
                (pos 4096)
                (pos 512)
                (pos 520)
                (neg 30014)
                (pos 8192)
                (pos 528)
                (pos 536)
                (neg 30014)
                (neg 1000)
                world
            else aborted))
vector_collectives-Flat_example =
    vector_collectives-Flat env vectors desc column (pos 5) (pos 512) (pos 520) (neg 30014) (pos 5)
      (pos 528) (pos 536) (neg 30014) (pos 0) (neg 1000) world
