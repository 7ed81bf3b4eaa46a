-- ===== src/Cfi/Printing/Tests.antt =====
-- A section printed, with the formats of single digits.
use vapaa.Prelude.{◌≡◌, refl, ◌+◌, ℤ, pos, negsuc, [], ◌∷◌, ◌++◌}
use vapaa.Cfi.{Desc}
use vapaa.Cfi.Tests.{build}
use vapaa.Cfi.Printing.{PrintLib, NamedType, print_info}
use vapaa.Debug.{Text, codes}

abbrev digit : ℤ → Text
digit (pos n) = (48 + n) ∷ []
digit (negsuc n) = 45 ∷ (49 + n) ∷ []

abbrev code : NamedType → ℤ
code NamedType.double = pos 8
code _ = pos 9

abbrev printing : PrintLib
printing = record {
  type_code = code;
  attribute_pointer = pos 0;
  attribute_allocatable = pos 1;
  attribute_other = pos 2;
  decimal = digit;
  decimal8 = digit;
  address = λ a. codes "0x" ++ digit a;
}

abbrev row : Desc
row = record {
  base_addr = pos 4;
  elem_len = 8;
  rank = 2;
  cfi_type = pos 8;
  dim = λ i. record { lower_bound = pos 1; extent = pos (3 + i); sm = pos 8 };
}

printed :
    print_info printing (record build { is_contiguous = λ d. pos 0 }) row (pos 2)
    ≡ codes
        "base_addr  = 0x4 = 4\nelem_len   = 8\nrank       = 2\ncontiguous = false\ntype is double\nattribute is nonallocatable nonpointer\ndim.lowerbound = 1,1,\ndim.extent     = 3,4,\ndim.sm         = 8,8,\n"
unfolding print_info
printed = refl
