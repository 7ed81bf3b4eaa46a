-- ===== src/Constants.antt =====
-- The constants of source/vapaa_constants.h that the other modules test against. Each name drops
-- the prefix VAPAA_MPI_ for vapaa_.
use vapaa.Prelude.{ℤ, neg}

abbrev pub vapaa_comm_world : ℤ
vapaa_comm_world = neg 1000

abbrev pub vapaa_comm_self : ℤ
vapaa_comm_self = neg 100

abbrev pub vapaa_comm_null : ℤ
vapaa_comm_null = neg 10

abbrev pub vapaa_file_null : ℤ
vapaa_file_null = neg 12

abbrev pub vapaa_group_null : ℤ
vapaa_group_null = neg 13

abbrev pub vapaa_info_null : ℤ
vapaa_info_null = neg 14

abbrev pub vapaa_message_null : ℤ
vapaa_message_null = neg 15

abbrev pub vapaa_message_no_proc : ℤ
vapaa_message_no_proc = neg 150

abbrev pub vapaa_request_null : ℤ
vapaa_request_null = neg 17

abbrev pub vapaa_win_null : ℤ
vapaa_win_null = neg 18

abbrev pub vapaa_proc_null : ℤ
vapaa_proc_null = neg 19
