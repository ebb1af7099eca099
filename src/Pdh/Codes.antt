-- ===== src/Pdh/Codes.antt =====
-- The status codes of the performance data helper (pdh.go).
use win_perf_counters.Prelude.{ℕ}

abbrev pub error_success : ℕ
error_success = 0

abbrev pub error_failure : ℕ
error_failure = 1

abbrev pub error_invalid_function : ℕ
error_invalid_function = 1

abbrev pub pdh_cstatus_valid_data : ℕ
pdh_cstatus_valid_data = 0x00000000

abbrev pub pdh_cstatus_new_data : ℕ
pdh_cstatus_new_data = 0x00000001

abbrev pub pdh_cstatus_no_machine : ℕ
pdh_cstatus_no_machine = 0x800007D0

abbrev pub pdh_cstatus_no_instance : ℕ
pdh_cstatus_no_instance = 0x800007D1

abbrev pub pdh_more_data : ℕ
pdh_more_data = 0x800007D2

abbrev pub pdh_cstatus_item_not_validated : ℕ
pdh_cstatus_item_not_validated = 0x800007D3

abbrev pub pdh_retry : ℕ
pdh_retry = 0x800007D4

abbrev pub pdh_no_data : ℕ
pdh_no_data = 0x800007D5

abbrev pub pdh_calc_negative_denominator : ℕ
pdh_calc_negative_denominator = 0x800007D6

abbrev pub pdh_calc_negative_timebase : ℕ
pdh_calc_negative_timebase = 0x800007D7

abbrev pub pdh_calc_negative_value : ℕ
pdh_calc_negative_value = 0x800007D8

abbrev pub pdh_dialog_cancelled : ℕ
pdh_dialog_cancelled = 0x800007D9

abbrev pub pdh_end_of_log_file : ℕ
pdh_end_of_log_file = 0x800007DA

abbrev pub pdh_async_query_timeout : ℕ
pdh_async_query_timeout = 0x800007DB

abbrev pub pdh_cannot_set_default_realtime_datasource : ℕ
pdh_cannot_set_default_realtime_datasource = 0x800007DC

abbrev pub pdh_cstatus_no_object : ℕ
pdh_cstatus_no_object = 0xC0000BB8

abbrev pub pdh_cstatus_no_counter : ℕ
pdh_cstatus_no_counter = 0xC0000BB9

abbrev pub pdh_cstatus_invalid_data : ℕ
pdh_cstatus_invalid_data = 0xC0000BBA

abbrev pub pdh_memory_allocation_failure : ℕ
pdh_memory_allocation_failure = 0xC0000BBB

abbrev pub pdh_invalid_handle : ℕ
pdh_invalid_handle = 0xC0000BBC

abbrev pub pdh_invalid_argument : ℕ
pdh_invalid_argument = 0xC0000BBD

abbrev pub pdh_function_not_found : ℕ
pdh_function_not_found = 0xC0000BBE

abbrev pub pdh_cstatus_no_countername : ℕ
pdh_cstatus_no_countername = 0xC0000BBF

abbrev pub pdh_cstatus_bad_countername : ℕ
pdh_cstatus_bad_countername = 0xC0000BC0

abbrev pub pdh_invalid_buffer : ℕ
pdh_invalid_buffer = 0xC0000BC1

abbrev pub pdh_insufficient_buffer : ℕ
pdh_insufficient_buffer = 0xC0000BC2

abbrev pub pdh_cannot_connect_machine : ℕ
pdh_cannot_connect_machine = 0xC0000BC3

abbrev pub pdh_invalid_path : ℕ
pdh_invalid_path = 0xC0000BC4

abbrev pub pdh_invalid_instance : ℕ
pdh_invalid_instance = 0xC0000BC5

abbrev pub pdh_invalid_data : ℕ
pdh_invalid_data = 0xC0000BC6

abbrev pub pdh_no_dialog_data : ℕ
pdh_no_dialog_data = 0xC0000BC7

abbrev pub pdh_cannot_read_name_strings : ℕ
pdh_cannot_read_name_strings = 0xC0000BC8

abbrev pub pdh_log_file_create_error : ℕ
pdh_log_file_create_error = 0xC0000BC9

abbrev pub pdh_log_file_open_error : ℕ
pdh_log_file_open_error = 0xC0000BCA

abbrev pub pdh_log_type_not_found : ℕ
pdh_log_type_not_found = 0xC0000BCB

abbrev pub pdh_no_more_data : ℕ
pdh_no_more_data = 0xC0000BCC

abbrev pub pdh_entry_not_in_log_file : ℕ
pdh_entry_not_in_log_file = 0xC0000BCD

abbrev pub pdh_data_source_is_log_file : ℕ
pdh_data_source_is_log_file = 0xC0000BCE

abbrev pub pdh_data_source_is_real_time : ℕ
pdh_data_source_is_real_time = 0xC0000BCF

abbrev pub pdh_unable_read_log_header : ℕ
pdh_unable_read_log_header = 0xC0000BD0

abbrev pub pdh_file_not_found : ℕ
pdh_file_not_found = 0xC0000BD1

abbrev pub pdh_file_already_exists : ℕ
pdh_file_already_exists = 0xC0000BD2

abbrev pub pdh_not_implemented : ℕ
pdh_not_implemented = 0xC0000BD3

abbrev pub pdh_string_not_found : ℕ
pdh_string_not_found = 0xC0000BD4

abbrev pub pdh_unable_map_name_files : ℕ
pdh_unable_map_name_files = 0x80000BD5

abbrev pub pdh_unknown_log_format : ℕ
pdh_unknown_log_format = 0xC0000BD6

abbrev pub pdh_unknown_logsvc_command : ℕ
pdh_unknown_logsvc_command = 0xC0000BD7

abbrev pub pdh_logsvc_query_not_found : ℕ
pdh_logsvc_query_not_found = 0xC0000BD8

abbrev pub pdh_logsvc_not_opened : ℕ
pdh_logsvc_not_opened = 0xC0000BD9

abbrev pub pdh_wbem_error : ℕ
pdh_wbem_error = 0xC0000BDA

abbrev pub pdh_access_denied : ℕ
pdh_access_denied = 0xC0000BDB

abbrev pub pdh_log_file_too_small : ℕ
pdh_log_file_too_small = 0xC0000BDC

abbrev pub pdh_invalid_datasource : ℕ
pdh_invalid_datasource = 0xC0000BDD

abbrev pub pdh_invalid_sqldb : ℕ
pdh_invalid_sqldb = 0xC0000BDE

abbrev pub pdh_no_counters : ℕ
pdh_no_counters = 0xC0000BDF

abbrev pub pdh_sql_alloc_failed : ℕ
pdh_sql_alloc_failed = 0xC0000BE0

abbrev pub pdh_sql_alloccon_failed : ℕ
pdh_sql_alloccon_failed = 0xC0000BE1

abbrev pub pdh_sql_exec_direct_failed : ℕ
pdh_sql_exec_direct_failed = 0xC0000BE2

abbrev pub pdh_sql_fetch_failed : ℕ
pdh_sql_fetch_failed = 0xC0000BE3

abbrev pub pdh_sql_rowcount_failed : ℕ
pdh_sql_rowcount_failed = 0xC0000BE4

abbrev pub pdh_sql_more_results_failed : ℕ
pdh_sql_more_results_failed = 0xC0000BE5

abbrev pub pdh_sql_connect_failed : ℕ
pdh_sql_connect_failed = 0xC0000BE6

abbrev pub pdh_sql_bind_failed : ℕ
pdh_sql_bind_failed = 0xC0000BE7

abbrev pub pdh_cannot_connect_wmi_server : ℕ
pdh_cannot_connect_wmi_server = 0xC0000BE8

abbrev pub pdh_pla_collection_already_running : ℕ
pdh_pla_collection_already_running = 0xC0000BE9

abbrev pub pdh_pla_error_schedule_overlap : ℕ
pdh_pla_error_schedule_overlap = 0xC0000BEA

abbrev pub pdh_pla_collection_not_found : ℕ
pdh_pla_collection_not_found = 0xC0000BEB

abbrev pub pdh_pla_error_schedule_elapsed : ℕ
pdh_pla_error_schedule_elapsed = 0xC0000BEC

abbrev pub pdh_pla_error_nostart : ℕ
pdh_pla_error_nostart = 0xC0000BED

abbrev pub pdh_pla_error_already_exists : ℕ
pdh_pla_error_already_exists = 0xC0000BEE

abbrev pub pdh_pla_error_type_mismatch : ℕ
pdh_pla_error_type_mismatch = 0xC0000BEF

abbrev pub pdh_pla_error_filepath : ℕ
pdh_pla_error_filepath = 0xC0000BF0

abbrev pub pdh_pla_service_error : ℕ
pdh_pla_service_error = 0xC0000BF1

abbrev pub pdh_pla_validation_error : ℕ
pdh_pla_validation_error = 0xC0000BF2

abbrev pub pdh_pla_validation_warning : ℕ
pdh_pla_validation_warning = 0x80000BF3

abbrev pub pdh_pla_error_name_too_long : ℕ
pdh_pla_error_name_too_long = 0xC0000BF4

abbrev pub pdh_invalid_sql_log_format : ℕ
pdh_invalid_sql_log_format = 0xC0000BF5

abbrev pub pdh_counter_already_in_query : ℕ
pdh_counter_already_in_query = 0xC0000BF6

abbrev pub pdh_binary_log_corrupt : ℕ
pdh_binary_log_corrupt = 0xC0000BF7

abbrev pub pdh_log_sample_too_small : ℕ
pdh_log_sample_too_small = 0xC0000BF8

abbrev pub pdh_os_later_version : ℕ
pdh_os_later_version = 0xC0000BF9

abbrev pub pdh_os_earlier_version : ℕ
pdh_os_earlier_version = 0xC0000BFA

abbrev pub pdh_incorrect_append_time : ℕ
pdh_incorrect_append_time = 0xC0000BFB

abbrev pub pdh_unmatched_append_counter : ℕ
pdh_unmatched_append_counter = 0xC0000BFC

abbrev pub pdh_sql_alter_detail_failed : ℕ
pdh_sql_alter_detail_failed = 0xC0000BFD

abbrev pub pdh_query_perf_data_timeout : ℕ
pdh_query_perf_data_timeout = 0xC0000BFE
