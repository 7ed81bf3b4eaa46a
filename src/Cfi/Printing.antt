-- ===== src/Cfi/Printing.antt =====
-- What the printing helpers of source/cfi_util.c write to stdout. How printf prints a number or an
-- address is given.
mod Tests
use vapaa.Prelude.{
  ◌≡◌, refl, ap, ℕ, zero, suc, ◌+◌, ◌≤◌, arith, Bool, if◌then◌else◌, ℤ, pos, eq_ℤ, first, Option,
  none, some, List, [], ◌∷◌, ◌++◌, length, length-append,
}
use vapaa.Errors.Names.{ErrorClass, success, err_intern}
use vapaa.Run.{Run, ◌>>=◌, pure}
use vapaa.Mpi.{Mpi, Iov}
use vapaa.Cfi.{Desc, Build}
use vapaa.Cfi.Indexed.{create_mpix_iov}
use vapaa.Debug.{Text, codes, take, snprintf}

-- The types that `VAPAA_CFI_GET_TYPE_NAME` has names for.
pub data NamedType : Type 0 where
  signed_char short int long long_long size_t int8_t int16_t int32_t int64_t intmax_t intptr_t
        ptrdiff_t float double long_double float_complex double_complex long_double_complex bool
        char cptr struct_type other_type :
      NamedType

-- Its tests, in order.
unfoldable pub named_types : List NamedType
named_types =
    signed_char ∷ short ∷ int ∷ long ∷ long_long ∷ size_t ∷ int8_t ∷ int16_t ∷ int32_t ∷ int64_t
    ∷ intmax_t ∷ intptr_t ∷ ptrdiff_t ∷ float ∷ double ∷ long_double ∷ float_complex
    ∷ double_complex ∷ long_double_complex ∷ bool ∷ char ∷ cptr ∷ struct_type ∷ other_type ∷ []

unfoldable pub name_text : NamedType → Text
name_text signed_char = codes "signed char"
name_text short = codes "short"
name_text int = codes "int"
name_text long = codes "long"
name_text long_long = codes "long long"
name_text size_t = codes "size_t"
name_text int8_t = codes "int8_t"
name_text int16_t = codes "int16_t"
name_text int32_t = codes "int32_t"
name_text int64_t = codes "int64_t"
name_text intmax_t = codes "intmax_t"
name_text intptr_t = codes "intptr_t"
name_text ptrdiff_t = codes "ptrdiff_t"
name_text float = codes "float"
name_text double = codes "double"
name_text long_double = codes "long double"
name_text float_complex = codes "float _Complex"
name_text double_complex = codes "double _Complex"
name_text long_double_complex = codes "long double _Complex"
name_text bool = codes "Bool"
name_text char = codes "char"
name_text cptr = codes "cptr"
name_text struct_type = codes "struct"
name_text other_type = codes "other"

name_text-short : (t : NamedType) → length (name_text t) ≤ 31
unfolding name_text
name_text-short signed_char = omega arith
name_text-short short = omega arith
name_text-short int = omega arith
name_text-short long = omega arith
name_text-short long_long = omega arith
name_text-short size_t = omega arith
name_text-short int8_t = omega arith
name_text-short int16_t = omega arith
name_text-short int32_t = omega arith
name_text-short int64_t = omega arith
name_text-short intmax_t = omega arith
name_text-short intptr_t = omega arith
name_text-short ptrdiff_t = omega arith
name_text-short float = omega arith
name_text-short double = omega arith
name_text-short long_double = omega arith
name_text-short float_complex = omega arith
name_text-short double_complex = omega arith
name_text-short long_double_complex = omega arith
name_text-short bool = omega arith
name_text-short char = omega arith
name_text-short cptr = omega arith
name_text-short struct_type = omega arith
name_text-short other_type = omega arith

take-all : (n : ℕ) (xs : Text) → length xs ≤ n → take n xs ≡ xs
unfolding take
take-all zero [] h = refl
take-all (suc n) [] h = refl
take-all zero (x ∷ xs) h = absurd (omega arith)
take-all (suc n) (x ∷ xs) h = ap (λ (t : Text). x ∷ t) (take-all n xs (omega arith))

-- The compiler's codes, and printf's conversions: `decimal` is %d, %ld, %zd and %zu.
pub record PrintLib : Type 0 where
  pub type_code : NamedType → ℤ
  pub attribute_pointer : ℤ
  pub attribute_allocatable : ℤ
  pub attribute_other : ℤ
  pub decimal : ℤ → Text
  -- %8d and %p.
  pub decimal8 : ℤ → Text
  pub address : ℤ → Text

module _ (printing : PrintLib) where
  open printing use {
    type_code, attribute_pointer, attribute_allocatable, attribute_other, decimal, decimal8,
    address,
  }

  -- What the formats of `VAPAA_CFI_GET_TYPE_NAME` come to for a code.
  unfoldable pub type_text : ℤ → Text
  unfolding named_types name_text
  type_text type = elim (first (λ t. eq_ℤ type (type_code t)) named_types) [
    | none ↦ codes "unknown (" ++ (decimal8 type ++ codes ")")
    | some t ↦ name_text t
  ]

  -- `VAPAA_CFI_GET_TYPE_NAME`, into a buffer of 32.
  unfoldable pub get_type_name : ℤ → Text
  unfolding type_text snprintf
  get_type_name type = snprintf 32 (type_text type)

  -- `VAPAA_CFI_GET_TYPE_ATTRIBUTE`.
  unfoldable pub get_type_attribute : ℤ → Text
  unfolding snprintf
  get_type_attribute attribute =
      if eq_ℤ attribute attribute_pointer
      then snprintf 32 (codes "data pointer")
      else if eq_ℤ attribute attribute_allocatable
      then snprintf 32 (codes "allocatable")
      else if eq_ℤ attribute attribute_other
      then snprintf 32 (codes "nonallocatable nonpointer")
      else snprintf 32 (codes "unknown CFI type attribute")

  -- A loop over the dimensions from i, with `left` rounds left.
  unfoldable pub print_each : (value : ℕ → ℤ) (left i : ℕ) → Text
  print_each value zero i = []
  print_each value (suc left) i = decimal (value i) ++ (codes "," ++ print_each value left (suc i))

  -- One line of a dimension's field.
  unfoldable pub print_field : (heading : Text) (value : ℕ → ℤ) (rank : ℕ) → Text
  unfolding print_each
  print_field heading value rank = heading ++ (print_each value rank 0 ++ codes "\n")

  -- `VAPAA_CFI_PRINT_INFO`: attribute is a field that only it reads.
  unfoldable pub print_info : (build : Build) (desc : Desc) (attribute : ℤ) → Text
  unfolding get_type_name get_type_attribute print_field
  print_info build desc attribute =
      codes "base_addr  = "
      ++ (address desc.base_addr
          ++ (codes " = "
              ++ (decimal desc.base_addr
                  ++ (codes "\nelem_len   = "
                      ++ (decimal (pos desc.elem_len)
                          ++ (codes "\nrank       = "
                              ++ (decimal (pos desc.rank)
                                  ++ (codes "\ncontiguous = "
                                      ++ ((if eq_ℤ (build.is_contiguous desc) (pos 0)
                                            then codes "false"
                                            else codes "true")
                                          ++ (codes "\ntype is "
                                              ++ (get_type_name desc.cfi_type
                                                  ++ (codes "\nattribute is "
                                                      ++ (get_type_attribute attribute
                                                          ++ (codes "\n" ++ elim desc.rank [
                                                            | zero ↦ []
                                                            | suc r ↦
                                                              print_field
                                                              (codes "dim.lowerbound = ")
                                                              (λ i. (desc.dim i).lower_bound)
                                                              desc.rank
                                                              ++ (print_field
                                                              (codes "dim.extent     = ")
                                                              (λ i. (desc.dim i).extent) desc.rank
                                                              ++ print_field
                                                              (codes "dim.sm         = ")
                                                              (λ i. (desc.dim i).sm) desc.rank)
                                                          ]))))))))))))))

  -- The loop over the segments of a datatype, from i.
  unfoldable pub print_segments : (i : ℕ) → List Iov → Text
  print_segments i [] = []
  print_segments i (v ∷ rest) =
      codes "iov["
      ++ (decimal (pos i)
          ++ (codes "] = { .iov_base = "
              ++ (address v.iov_base
                  ++ (codes " = "
                      ++ (decimal v.iov_base
                          ++ (codes " .iov_len = "
                              ++ (decimal v.iov_len
                                  ++ (codes " }\n" ++ print_segments (suc i) rest))))))))

  module _ {W : Type 0} (mpi : Mpi W) (build : Build) where
    -- `VAPAA_MPIDT_PRINT_INFO`: what it returns and what it prints. Its warning is left out.
    unfoldable pub mpidt_print_info : ℤ → W → Run W (ℤ × Text)
    unfolding create_mpix_iov print_segments
    mpidt_print_info dt =
        if build.has_iov
        then (do
          (iovs, bytes) ← create_mpix_iov mpi build dt
          pure (mpi.errors.error success, print_segments 0 iovs))
        else pure (mpi.errors.error err_intern, [])

  type_text-short : ((n : ℤ) → length (decimal8 n) ≤ 11) → (type : ℤ) → length (type_text type) ≤ 31
  unfolding type_text
  type_text-short narrow type = go (first (λ t. eq_ℤ type (type_code t)) named_types)
    where
      go :
          (found : Option NamedType)
          → length (elim found [
            | none ↦ codes "unknown (" ++ (decimal8 type ++ codes ")")
            | some t ↦ name_text t
          ])
            ≤ 31
      go none = omega (
        arith,
        length-append (codes "unknown (") (decimal8 type ++ codes ")"),
        length-append (decimal8 type) (codes ")"),
        narrow type,
      )
      go (some t) = name_text-short t

  -- A name and its null byte have room in the 32 bytes of the buffer: it holds the whole name, whatever
  -- the code of the type is. An int has at most eleven characters.
  get_type_name-whole :
      ((n : ℤ) → length (decimal8 n) ≤ 11) → (type : ℤ) → get_type_name type ≡ type_text type
  unfolding get_type_name
  get_type_name-whole narrow type = take-all 31 (type_text type) (type_text-short narrow type)
