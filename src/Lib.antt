-- ===== src/Lib.antt =====
-- Vapaa: the Fortran 2018 bindings of MPI, implemented on the C interface of whatever MPI library is
-- there. The Fortran modules of source/*.F90 declare the procedures of mpi_f08 and call the C functions
-- in source/*.c, which translate Fortran's constants and handles into those of the C library, replace
-- sentinel addresses, turn array sections that are not contiguous into derived datatypes, call the C
-- library, and translate its return code. This library is about the C functions.
--
-- Modules, and the files they model:
-- - Prelude (Tests, Int, Lists, Table, Bits): shared names. Int has C's signed integers; Table the search
--   that ladders of if and switches make.
-- - Constants: source/vapaa_constants.h. Each VAPAA_MPI_X is vapaa_x.
-- - Convert, Convert.Levels: source/convert_constants.h. C_MPI_X_F2C is x_f2c.
-- - Handles (DatatypeNames, OpNames, RoundTrip): source/convert_handles.h, source/detect_builtins.h.
--   C_MPI_TYPE_F2C is type_f2c, C_MPI_TYPE_C2F is type_c2f, and so on.
-- - Errors (Names, RoundTrip): source/mpi_error.c and C_MPI_RC_FIX. C_MPI_ERROR_CODE_C2F is
--   error_code_c2f, C_MPI_ERROR_CODE_F2C is error_code_f2c.
-- - Sentinels: source/detect_sentinels.c, source/detect_sentinels.h.
-- - Run: what a call comes to. It is done with a value and a state, or aborted by a failed
--   VAPAA_Assert, or at fault by reading outside an array.
-- - Debug (Formats, Prints, Stops): source/debug.c and VAPAA_Assert of source/debug.h. Debug alone has
--   what is written to stderr, and shows what a failed assertion comes to. Formats has the formats of
--   fprintf there.
-- - Mpi, Mpi.Laws: the datatype calls of the C library and malloc, which the code is given, and what
--   the MPI standard says of them. Mpi.Sample is a small library in which all of that holds.
-- - Cfi: source/cfi_util.c. Loops has its loop nests, Indexed VAPAA_CFI_CREATE_INDEXED, Create
--   VAPAA_CFI_CREATE_DATATYPE. Elements says where the elements of a section lie, in Fortran's array
--   element order; Fill, Section and Nests hold the loops against that; Shapes, Select, Choice and
--   Datatype the datatypes; Refusal is about the counts that are refused, Quiet about
--   what is left alone. Addresses, Derived and
--   DerivedType are about input types that are derived. Printing has the printing helpers.
-- - Transfer: source/mpi_p2p.c and source/mpi_coll.c. C_MPI_X is x or c_x and CFI_MPI_X is cfi_x.
--   Collectives has those with two buffers, Vectors those with a count for each rank, PointToPoint
--   and Probes the rest of source/mpi_p2p.c with source/mpi_request.c and source/mpi_status.c,
--   Requests the calls on arrays of requests. Sections, Exchange, Gathers, and Starting of PointToPoint
--   say what is sent of a section, Once, Gathers.Once and Shims how often, Guard and Packing what is
--   refused, Flat how the two entry points of a function compare, Reports what becomes of statuses, Both what
--   MPI_Sendrecv does with two sections, and Sessions what sequences of transfers leave behind. Effects
--   has the rule for what a shim comes to, from what its call of the library does. Mail says what
--   messages are, Mail.Ends what one process sends or stores, Mail.Delivery what comes of a send and
--   a receive, Mail.Later of a receive that is started and waited for, Mail.Broadcast of a broadcast,
--   and Mail.Swap of MPI_Sendrecv.
-- - Statuses: the status objects of source/convert_handles.h.
-- - Files: source/mpi_file.c. Access has the calls that read and write, Modes the access modes, Sizes
--   the size of a file.
-- - Objects: Comms is source/mpi_comm.c, Groups source/mpi_group.c, Infos source/mpi_info.c, Types
--   source/mpi_datatype.c and source/mpi_op.c, Names source/mpi_attr.c, Ends source/mpi_core.c, Texts
--   MPI_Error_string of source/mpi_error.c; C_MPI_X is c_x. Laws says what the library does with
--   communicators, Numbers what Fortran's numbers then stand for, Lives is about programs that make and
--   free communicators, and Lengths about MPI_Info_get_string.
-- - Queries, Queries.Answers: MPI_Init_thread and MPI_Query_thread of source/mpi_core.c, the comparisons
--   of source/mpi_comm.c and source/mpi_group.c.
-- A section is described by IsSection of Cfi.Section: one to fourteen dimensions, and extents and
-- products of the first extents that an int holds. What the MPI library does is a hypothesis of each
-- theorem that needs it: TypeLaws, ErrorLaws, CommLaws, MessageLaws, MailLaws, LaterLaws, CastLaws,
-- SwapLaws, ClockLaws, InfoLaws, Told, ToldBoth, and the conditions on the calls that the theorem names.
--
-- State is passed explicitly: the library's state W is a parameter, as are its calls. Pointers to
-- results become values in the result. Integers do not wrap unless the code narrows them, which is
-- to_int; the bounds in the theorems (products of extents, and count times element length, below 2^31)
-- keep the rest in range. All loops are bounded by numbers known when they start, so they are
-- recursions on those numbers, but for the wait of VAPAA_Assert_fail, which runs on fuel: a call of the
-- clock for each moment of a second, and one more, is enough (Debug.Stops).
--
-- Not modelled: the Fortran modules; messages on stderr outside source/debug.c, with the
-- PMPI_Comm_rank that VAPAA_Warning calls for them; and writes beyond the arrays that
-- VAPAA_CFI_CREATE_INDEXED asks memory for, which the theorems' conditions exclude. Strings and
-- arrays that a function only passes on are addresses; what the library writes there is part of its
-- state W. free() of the temporary arrays is left out: memory that is asked for is there or not, as
-- the library's malloc says.
pub mod Prelude
pub mod Constants
pub mod Convert
pub mod Handles
pub mod Errors
pub mod Run
pub mod Mpi
pub mod Sentinels
pub mod Cfi
pub mod Debug
pub mod Transfer
pub mod Queries
pub mod Files
pub mod Statuses
pub mod Objects
