-- ===== src/Handles/OpNames.antt =====
-- The reduction operators of `C_MPI_OP_F2C` (source/convert_handles.h) and of
-- `C_MPI_OP_IS_BUILTIN` (source/detect_builtins.h), with the numbers that Vapaa gives them.
use vapaa.Prelude.{List, [], ◌∷◌, ℤ, neg}

pub data OpName : Type 0 where
  op_null max min sum prod maxloc minloc band bor bxor land lor lxor replace no_op : OpName

unfoldable pub vapaa_op : OpName → ℤ
vapaa_op op_null = neg 16
vapaa_op max = neg 40000
vapaa_op min = neg 40001
vapaa_op sum = neg 40002
vapaa_op prod = neg 40003
vapaa_op maxloc = neg 40004
vapaa_op minloc = neg 40005
vapaa_op band = neg 40006
vapaa_op bor = neg 40007
vapaa_op bxor = neg 40008
vapaa_op land = neg 40009
vapaa_op lor = neg 40010
vapaa_op lxor = neg 40011
vapaa_op replace = neg 40012
vapaa_op no_op = neg 40013

-- The cases of `C_MPI_OP_F2C`, in order.
unfoldable pub op_names : List OpName
op_names =
    op_null ∷ max ∷ min ∷ sum ∷ prod ∷ maxloc ∷ minloc ∷ band ∷ bor ∷ bxor ∷ land ∷ lor ∷ lxor
    ∷ replace ∷ no_op ∷ []

-- The cases of `C_MPI_OP_IS_BUILTIN`, in order.
unfoldable pub builtin_ops : List OpName
builtin_ops = max ∷ min ∷ sum ∷ prod ∷ maxloc ∷ minloc ∷ band ∷ bor ∷ bxor ∷ land ∷ lor ∷ lxor ∷ []
