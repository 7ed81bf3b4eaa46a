-- ===== src/Convert/Levels.antt =====
-- The comparison results of source/convert_constants.h translate there and back.
use vapaa.Prelude.{◌≡◌, refl, false, some, eq_ℤ, eq_ℤ-refl, eq_ℤ-false}
use vapaa.Convert.{
  ident, congruent, similar, unequal, Comparison, vapaa_comparison, ConstantLib, compare_result_f2c,
  compare_result_c2f,
}

module _ (lib : ConstantLib) where
  open lib use {thread, comparison}

  -- The values of mpi.h for the comparison results differ.
  module _ (differ : (r s : Comparison) → comparison r ≡ comparison s → r ≡ s) where
    comparison_other : (r s : Comparison) → (r ≡ s → ⊥) → eq_ℤ (comparison r) (comparison s) ≡ false
    comparison_other r s h = eq_ℤ-false (comparison r) (comparison s) (λ e. h (differ r s e))

    -- Each result of a comparison goes from Fortran's number to that of mpi.h and back, without an
    -- abort.
    pub compare_result_round_trip :
        (r : Comparison)
        → (compare_result_f2c lib (vapaa_comparison r) ≡ some (comparison r))
          × (compare_result_c2f lib (comparison r) ≡ some (vapaa_comparison r))
    unfolding compare_result_f2c compare_result_c2f vapaa_comparison
    compare_result_round_trip ident = (
      refl,
      rw (
        comparison_other ident unequal (λ e. cc e),
        comparison_other ident similar (λ e. cc e),
        comparison_other ident congruent (λ e. cc e),
        eq_ℤ-refl (comparison ident),
      ),
    )
    compare_result_round_trip congruent = (
      refl,
      rw (
        comparison_other congruent unequal (λ e. cc e),
        comparison_other congruent similar (λ e. cc e),
        eq_ℤ-refl (comparison congruent),
      ),
    )
    compare_result_round_trip similar =
        (refl, rw (comparison_other similar unequal (λ e. cc e), eq_ℤ-refl (comparison similar)))
    compare_result_round_trip unequal = (refl, rw (eq_ℤ-refl (comparison unequal)))
