-- ===== src/Handles/RoundTrip.antt =====
-- Datatype and operator handles survive the translation of source/convert_handles.h both ways.
use vapaa.Prelude.{
  ◌≡◌, refl, sym, ap, ◌∙◌, true, false, List, Option, none, some, inl, inr, ℤ, eq_ℤ, eq_ℤ-refl,
  eq_ℤ→eq, first, listed, first_unique, first_passes, first-listed, first-none, Option-cases,
}
use vapaa.Handles.DatatypeNames.{
  DatatypeName, datatype_null, Config, vapaa_datatype, datatype_names,
}
use vapaa.Handles.OpNames.{OpName, op_null, vapaa_op, op_names}
use vapaa.Handles.{HandleLib, type_f2c, type_c2f, op_f2c}

-- The build with every optional datatype.
abbrev full : Config
full = record { integer16 = true; real2 = true; real16 = true; complex4 = true; complex32 = true }

abbrev search_type : ℤ → Option DatatypeName
search_type v = first (λ d. eq_ℤ v (vapaa_datatype d)) (datatype_names full)

search_vapaa_datatype : (d : DatatypeName) → search_type (vapaa_datatype d) ≡ some d
unfolding vapaa_datatype datatype_names
search_vapaa_datatype datatype_null = refl
search_vapaa_datatype _ = refl

pub vapaa_datatype_injective : (d e : DatatypeName) → vapaa_datatype d ≡ vapaa_datatype e → d ≡ e
vapaa_datatype_injective d e h =
    cc (search_vapaa_datatype d, search_vapaa_datatype e, ap search_type h)

abbrev search_op : ℤ → Option OpName
search_op v = first (λ o. eq_ℤ v (vapaa_op o)) op_names

search_vapaa_op : (o : OpName) → search_op (vapaa_op o) ≡ some o
unfolding vapaa_op op_names
search_vapaa_op op_null = refl
search_vapaa_op _ = refl

module _ (lib : HandleLib) (cfg : Config) where
  open lib use {datatype, mpi_type_f2c, mpi_type_c2f}

  -- Fortran's number of a datatype that the build has goes to the constant of mpi.h.
  pub type_f2c-listed :
      (d : DatatypeName)
      → listed vapaa_datatype d (datatype_names cfg) ≡ true
      → type_f2c lib cfg (vapaa_datatype d) ≡ datatype d
  unfolding type_f2c
  type_f2c-listed d h = rw (
    first_unique (λ e. eq_ℤ (vapaa_datatype d) (vapaa_datatype e)) vapaa_datatype d
        (datatype_names cfg) vapaa_datatype_injective
        (λ e p. sym (vapaa_datatype_injective d e (eq_ℤ→eq _ _ p))) (eq_ℤ-refl (vapaa_datatype d))
        h,
    type_f2c,
  )

  abbrev names : List DatatypeName
  names = datatype_names cfg

  abbrev search_c : ℤ → Option DatatypeName
  search_c t = first (λ d. eq_ℤ t (datatype d)) names

  type_c2f_found :
      (t : ℤ) (d : DatatypeName)
      → search_c t ≡ some d
      → type_f2c lib cfg (type_c2f lib cfg t) ≡ type_f2c lib cfg (vapaa_datatype d)
  unfolding type_c2f
  type_c2f_found t d e = ap (type_f2c lib cfg) (rw (e, type_c2f))

  kept : (t : ℤ) → search_c t ≡ none → type_c2f lib cfg t ≡ mpi_type_c2f t
  unfolding type_c2f
  kept t e = rw (e, type_c2f)

  passed_on :
      (f : ℤ)
      → ((d : DatatypeName) → eq_ℤ f (vapaa_datatype d) ≡ false)
      → type_f2c lib cfg f ≡ mpi_type_f2c f
  unfolding type_f2c
  passed_on f free = rw (first-none (λ d. eq_ℤ f (vapaa_datatype d)) names free, type_f2c)

  type_c2f_other :
      (t : ℤ)
      → search_c t ≡ none
      → ((d : DatatypeName) → eq_ℤ (mpi_type_c2f t) (vapaa_datatype d) ≡ false)
      → type_f2c lib cfg (type_c2f lib cfg t) ≡ mpi_type_f2c (mpi_type_c2f t)
  type_c2f_other t e free = ap (type_f2c lib cfg) (kept t e) ∙ passed_on (mpi_type_c2f t) free

  -- Every C handle survives the way to Fortran and back, where MPI_Type_c2f and MPI_Type_f2c do so
  -- and give no handle a number that Vapaa reserves. Two names of one handle do no harm.
  pub type_f2c-type_c2f :
      (t : ℤ)
      → mpi_type_f2c (mpi_type_c2f t) ≡ t
      → ((d : DatatypeName) → eq_ℤ (mpi_type_c2f t) (vapaa_datatype d) ≡ false)
      → type_f2c lib cfg (type_c2f lib cfg t) ≡ t
  type_f2c-type_c2f t back free = elim (Option-cases (search_c t)) [
    | inr (d, e) ↦
        type_c2f_found t d e
        ∙ type_f2c-listed d (first-listed (λ x. eq_ℤ t (datatype x)) vapaa_datatype names e)
        ∙ sym (eq_ℤ→eq t (datatype d) (first_passes (λ x. eq_ℤ t (datatype x)) names e))
    | inl e ↦ type_c2f_other t e free ∙ back
  ]

-- Fortran's number of an operator goes to the constant of mpi.h.
op_f2c-vapaa_op : (lib : HandleLib) (o : OpName) → op_f2c lib (vapaa_op o) ≡ lib.op o
unfolding op_f2c
op_f2c-vapaa_op lib o = rw (search_vapaa_op o, op_f2c)
