-- ===== src/Transfer/Collectives/Tests.antt =====
-- Runs of source/mpi_coll.c with two buffers, one contiguous and one not.
use vapaa.Prelude.{ℤ, eq_ℤ, if◌then◌else◌, some, arith, ◌≡◌, refl, true, false, pos, neg}
use vapaa.Handles.{type_f2c}
use vapaa.Handles.DatatypeNames.{vapaa_datatype, datatype_names, names_before}
use vapaa.Cfi.Shapes.{basic}
use vapaa.Run.{done}
use vapaa.Mpi.Sample.{World, view, sample, handle_lib}
use vapaa.Transfer.{Env}
use vapaa.Transfer.Exchange.{IsSide}
use vapaa.Transfer.Collectives.{reduce, cfi_reduce, allreduce, cfi_allreduce}
use vapaa.Transfer.Guard.{reductions-refuse}
use vapaa.Handles.{op_f2c, op_is_builtin, type_is_builtin}
use vapaa.Handles.OpNames.{vapaa_op, op_names, builtin_ops}
use vapaa.Handles.DatatypeNames.{builtin_names}
use vapaa.Mpi.Sample.{error_laws}
use vapaa.Errors.Names.{err_op, vapaa_error}
use vapaa.Cfi.{Desc, Build, mpi_name, cfi_types}
use vapaa.Cfi.Section.{IsSection}
use vapaa.Cfi.Indexed.{cfi_to_mpi_type}
use vapaa.Cfi.Tests.{build, desc, world, section, enough}
use vapaa.Transfer.Tests.{config, env, named}

-- A contiguous buffer for the other side.
abbrev flat_build : Build
flat_build = record build {
  is_contiguous = λ d. if eq_ℤ d.base_addr (pos 8192) then pos 1 else pos 0;
}

abbrev pub mixed : Env World
mixed = record env { build = flat_build }

abbrev pub flat : Desc
flat = record desc { base_addr = pos 8192 }

flat-IsSection : IsSection flat
flat-IsSection = record {
  rank_pos = section.rank_pos;
  rank_small = section.rank_small;
  extents = section.extents;
  each_bounded = section.each_bounded;
  bounded = section.bounded;
}

element_mixed : view world (cfi_to_mpi_type sample flat_build (pos 8)) ≡ some (basic 8)
unfolding cfi_to_mpi_type vapaa_datatype mpi_name cfi_types
element_mixed = refl

abbrev pub stype : ℤ
stype = type_f2c handle_lib config (neg 30014)

pub scattered-IsSide : IsSide mixed view desc 5 stype world
scattered-IsSide = record {
  section = section;
  element = element_mixed;
  named = named;
  enough = enough;
  element_small = omega arith;
  total_small = omega arith;
}

pub flat-IsSide : IsSide mixed view flat 5 stype world
flat-IsSide = record {
  section = flat-IsSection;
  element = element_mixed;
  named = named;
  enough = enough;
  element_small = omega arith;
  total_small = omega arith;
}

-- An operator of the user's, handle 77, on MPI_DOUBLE.
user_op : op_is_builtin handle_lib (op_f2c handle_lib (pos 77)) ≡ false
unfolding op_is_builtin op_f2c vapaa_op op_names builtin_ops
user_op = refl

double_builtin : type_is_builtin handle_lib config stype ≡ true
unfolding type_is_builtin type_f2c vapaa_datatype datatype_names builtin_names names_before
double_builtin = refl

reductions-refuse_example :
    (reduce env (pos 64) (pos 128) (pos 5) (neg 30014) (pos 77) (pos 0) (neg 1000) world
      ≡ done (vapaa_error err_op) world)
    × (cfi_reduce env desc flat (pos 5) (neg 30014) (pos 77) (pos 0) (neg 1000) world
        ≡ done (vapaa_error err_op) world)
    × (allreduce env (pos 64) (pos 128) (pos 5) (neg 30014) (pos 77) (neg 1000) world
        ≡ done (vapaa_error err_op) world)
    × (cfi_allreduce env desc flat (pos 5) (neg 30014) (pos 77) (neg 1000) world
        ≡ done (vapaa_error err_op) world)
reductions-refuse_example =
    reductions-refuse env error_laws (neg 30014) (pos 77) user_op double_builtin (pos 64) (pos 128)
      (pos 5) (pos 0) (neg 1000) desc flat world
