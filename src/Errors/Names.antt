-- ===== src/Errors/Names.antt =====
-- The error classes of MPI, the numbers that source/vapaa_constants.h gives them, and the order of
-- the two ladders of source/mpi_error.c.
use vapaa.Prelude.{Bool, List, [], ◌∷◌, ℤ, pos, when}

-- The constants of mpi.h, without their prefix MPI_.
pub data ErrorClass : Type 0 where
  success err_buffer err_count err_type err_tag err_comm err_rank err_request err_root : ErrorClass
  err_group err_op err_topology err_dims err_arg err_unknown err_truncate err_other : ErrorClass
  err_intern err_pending err_in_status err_access err_amode err_assert err_bad_file : ErrorClass
  err_base err_conversion err_disp err_dup_datarep err_file_exists err_file_in_use : ErrorClass
  err_file err_info_key err_info_nokey err_info_value err_info err_io err_keyval : ErrorClass
  err_locktype err_name err_no_mem err_not_same err_no_space err_no_such_file err_port : ErrorClass
  err_proc_aborted err_quota err_read_only err_rma_attach err_rma_conflict err_rma_range :
      ErrorClass
  err_rma_shared err_rma_sync err_rma_flavor err_service err_session err_size err_spawn : ErrorClass
  err_unsupported_datarep err_unsupported_operation err_value_too_large err_win : ErrorClass
  t_err_cannot_init t_err_not_accessible t_err_not_initialized t_err_not_supported : ErrorClass
  t_err_memory t_err_invalid t_err_invalid_index t_err_invalid_item t_err_invalid_session :
      ErrorClass
  t_err_invalid_handle t_err_invalid_name t_err_out_of_handles t_err_out_of_sessions : ErrorClass
  t_err_cvar_set_not_now t_err_cvar_set_never t_err_pvar_no_write t_err_pvar_no_startstop :
      ErrorClass
  t_err_pvar_no_atomic err_lastcode : ErrorClass

-- The constant VAPAA_MPI_X.
unfoldable pub vapaa_error : ErrorClass → ℤ
vapaa_error success = pos 0
vapaa_error err_buffer = pos 1
vapaa_error err_count = pos 2
vapaa_error err_type = pos 3
vapaa_error err_tag = pos 4
vapaa_error err_comm = pos 5
vapaa_error err_rank = pos 6
vapaa_error err_request = pos 7
vapaa_error err_root = pos 8
vapaa_error err_group = pos 9
vapaa_error err_op = pos 10
vapaa_error err_topology = pos 11
vapaa_error err_dims = pos 12
vapaa_error err_arg = pos 13
vapaa_error err_unknown = pos 14
vapaa_error err_truncate = pos 15
vapaa_error err_other = pos 16
vapaa_error err_intern = pos 17
vapaa_error err_pending = pos 18
vapaa_error err_in_status = pos 19
vapaa_error err_access = pos 20
vapaa_error err_amode = pos 21
vapaa_error err_assert = pos 22
vapaa_error err_bad_file = pos 23
vapaa_error err_base = pos 24
vapaa_error err_conversion = pos 25
vapaa_error err_disp = pos 26
vapaa_error err_dup_datarep = pos 27
vapaa_error err_file_exists = pos 28
vapaa_error err_file_in_use = pos 29
vapaa_error err_file = pos 30
vapaa_error err_info_key = pos 31
vapaa_error err_info_nokey = pos 32
vapaa_error err_info_value = pos 33
vapaa_error err_info = pos 34
vapaa_error err_io = pos 35
vapaa_error err_keyval = pos 36
vapaa_error err_locktype = pos 37
vapaa_error err_name = pos 38
vapaa_error err_no_mem = pos 39
vapaa_error err_not_same = pos 40
vapaa_error err_no_space = pos 41
vapaa_error err_no_such_file = pos 42
vapaa_error err_port = pos 43
vapaa_error err_proc_aborted = pos 44
vapaa_error err_quota = pos 45
vapaa_error err_read_only = pos 46
vapaa_error err_rma_attach = pos 47
vapaa_error err_rma_conflict = pos 48
vapaa_error err_rma_range = pos 49
vapaa_error err_rma_shared = pos 50
vapaa_error err_rma_sync = pos 51
vapaa_error err_rma_flavor = pos 52
vapaa_error err_service = pos 53
vapaa_error err_session = pos 54
vapaa_error err_size = pos 55
vapaa_error err_spawn = pos 56
vapaa_error err_unsupported_datarep = pos 57
vapaa_error err_unsupported_operation = pos 58
vapaa_error err_value_too_large = pos 59
vapaa_error err_win = pos 60
vapaa_error t_err_cannot_init = pos 61
vapaa_error t_err_not_accessible = pos 62
vapaa_error t_err_not_initialized = pos 63
vapaa_error t_err_not_supported = pos 64
vapaa_error t_err_memory = pos 65
vapaa_error t_err_invalid = pos 66
vapaa_error t_err_invalid_index = pos 67
vapaa_error t_err_invalid_item = pos 68
vapaa_error t_err_invalid_session = pos 69
vapaa_error t_err_invalid_handle = pos 70
vapaa_error t_err_invalid_name = pos 71
vapaa_error t_err_out_of_handles = pos 72
vapaa_error t_err_out_of_sessions = pos 73
vapaa_error t_err_cvar_set_not_now = pos 74
vapaa_error t_err_cvar_set_never = pos 75
vapaa_error t_err_pvar_no_write = pos 76
vapaa_error t_err_pvar_no_startstop = pos 77
vapaa_error t_err_pvar_no_atomic = pos 78
vapaa_error err_lastcode = pos 79

-- The tests of `C_MPI_ERROR_CODE_C2F` and of `C_MPI_ERROR_CODE_F2C`, in order. `version4` is
-- MPI_VERSION >= 4; the test of MPI_T_ERR_NOT_ACCESSIBLE is commented out in both.
unfoldable pub error_ladder : Bool → List ErrorClass
error_ladder version4 =
    success
    ∷ err_buffer
    ∷ err_count
    ∷ err_type
    ∷ err_tag
    ∷ err_comm
    ∷ err_rank
    ∷ err_request
    ∷ err_root
    ∷ err_group
    ∷ err_op
    ∷ err_topology
    ∷ err_dims
    ∷ err_arg
    ∷ err_unknown
    ∷ err_truncate
    ∷ err_other
    ∷ err_intern
    ∷ err_pending
    ∷ err_in_status
    ∷ err_access
    ∷ err_amode
    ∷ err_assert
    ∷ err_bad_file
    ∷ err_base
    ∷ err_conversion
    ∷ err_disp
    ∷ err_dup_datarep
    ∷ err_file_exists
    ∷ err_file_in_use
    ∷ err_file
    ∷ err_info_key
    ∷ err_info_nokey
    ∷ err_info_value
    ∷ err_info
    ∷ err_io
    ∷ err_keyval
    ∷ err_locktype
    ∷ err_name
    ∷ err_no_mem
    ∷ err_not_same
    ∷ err_no_space
    ∷ err_no_such_file
    ∷ err_port
    ∷ when version4 err_proc_aborted (
        err_quota
        ∷ err_read_only
        ∷ err_rma_attach
        ∷ err_rma_conflict
        ∷ err_rma_range
        ∷ err_rma_shared
        ∷ err_rma_sync
        ∷ err_rma_flavor
        ∷ err_service
        ∷ when version4 err_session (
            err_size
            ∷ err_spawn
            ∷ err_unsupported_datarep
            ∷ err_unsupported_operation
            ∷ when version4 err_value_too_large (
                err_win
                ∷ t_err_cannot_init
                ∷ t_err_not_initialized
                ∷ when version4 t_err_not_supported (
                    t_err_memory ∷ t_err_invalid ∷ t_err_invalid_index ∷ t_err_invalid_item
                    ∷ t_err_invalid_session ∷ t_err_invalid_handle ∷ t_err_invalid_name
                    ∷ t_err_out_of_handles ∷ t_err_out_of_sessions ∷ t_err_cvar_set_not_now
                    ∷ t_err_cvar_set_never ∷ t_err_pvar_no_write ∷ t_err_pvar_no_startstop
                    ∷ t_err_pvar_no_atomic ∷ err_lastcode ∷ []))))
