-- ===== src/Convert/Tests.antt =====
-- The conversions of source/convert_constants.h with the values of one MPI library.
use vapaa.Prelude.{◌≡◌, ℤ, pos, neg, arith}
use vapaa.Convert.{
  ThreadLevel, single, funneled, serialized, multiple, Comparison, ident, congruent, similar,
  unequal, ConstantLib,
}

abbrev pub thread : ThreadLevel → ℤ
thread single = pos 10
thread funneled = pos 20
thread serialized = pos 30
thread multiple = pos 40

abbrev pub comparison : Comparison → ℤ
comparison ident = pos 11
comparison congruent = pos 22
comparison similar = pos 33
comparison unequal = pos 44

abbrev pub constants : ConstantLib
constants = record {
  proc_null = neg 1;
  thread = thread;
  comparison = comparison;
  attribute = λ k. pos 7;
}

pub comparisons_differ : (r s : Comparison) → comparison r ≡ comparison s → r ≡ s
comparisons_differ r s h = ground arith
