-- ===== src/Pdh/Table.antt =====
-- The names of the status codes, `pdhErrors` (pdh.go).
use win_perf_counters.Pdh.Codes.{
  pdh_access_denied, pdh_async_query_timeout, pdh_binary_log_corrupt, pdh_calc_negative_denominator,
  pdh_calc_negative_timebase, pdh_calc_negative_value, pdh_cannot_connect_machine,
  pdh_cannot_connect_wmi_server, pdh_cannot_read_name_strings,
  pdh_cannot_set_default_realtime_datasource, pdh_counter_already_in_query,
  pdh_cstatus_bad_countername, pdh_cstatus_invalid_data, pdh_cstatus_item_not_validated,
  pdh_cstatus_new_data, pdh_cstatus_no_counter, pdh_cstatus_no_countername, pdh_cstatus_no_instance,
  pdh_cstatus_no_machine, pdh_cstatus_no_object, pdh_cstatus_valid_data,
  pdh_data_source_is_log_file, pdh_data_source_is_real_time, pdh_dialog_cancelled,
  pdh_end_of_log_file, pdh_entry_not_in_log_file, pdh_file_already_exists, pdh_file_not_found,
  pdh_function_not_found, pdh_incorrect_append_time, pdh_insufficient_buffer, pdh_invalid_argument,
  pdh_invalid_buffer, pdh_invalid_data, pdh_invalid_datasource, pdh_invalid_handle,
  pdh_invalid_instance, pdh_invalid_path, pdh_invalid_sql_log_format, pdh_invalid_sqldb,
  pdh_log_file_create_error, pdh_log_file_open_error, pdh_log_file_too_small,
  pdh_log_sample_too_small, pdh_log_type_not_found, pdh_logsvc_not_opened,
  pdh_logsvc_query_not_found, pdh_memory_allocation_failure, pdh_more_data, pdh_no_counters,
  pdh_no_data, pdh_no_dialog_data, pdh_no_more_data, pdh_not_implemented, pdh_os_earlier_version,
  pdh_os_later_version, pdh_pla_collection_already_running, pdh_pla_collection_not_found,
  pdh_pla_error_already_exists, pdh_pla_error_filepath, pdh_pla_error_name_too_long,
  pdh_pla_error_nostart, pdh_pla_error_schedule_elapsed, pdh_pla_error_schedule_overlap,
  pdh_pla_error_type_mismatch, pdh_pla_service_error, pdh_pla_validation_error,
  pdh_pla_validation_warning, pdh_query_perf_data_timeout, pdh_retry, pdh_sql_alloc_failed,
  pdh_sql_alloccon_failed, pdh_sql_alter_detail_failed, pdh_sql_bind_failed, pdh_sql_connect_failed,
  pdh_sql_exec_direct_failed, pdh_sql_fetch_failed, pdh_sql_more_results_failed,
  pdh_sql_rowcount_failed, pdh_string_not_found, pdh_unable_map_name_files,
  pdh_unable_read_log_header, pdh_unknown_log_format, pdh_unknown_logsvc_command,
  pdh_unmatched_append_counter, pdh_wbem_error,
}
use win_perf_counters.Prelude.{ℕ, List, [], ◌∷◌, ◌==◌, if◌then◌else◌}
use win_perf_counters.Text.{Text, codes}

-- The map as the list of its entries.
unfoldable pub pdh_errors : List (ℕ × Text)
pdh_errors =
    (pdh_cstatus_valid_data, codes "PDH_CSTATUS_VALID_DATA")
    ∷ (pdh_cstatus_new_data, codes "PDH_CSTATUS_NEW_DATA")
    ∷ (pdh_cstatus_no_machine, codes "PDH_CSTATUS_NO_MACHINE")
    ∷ (pdh_cstatus_no_instance, codes "PDH_CSTATUS_NO_INSTANCE")
    ∷ (pdh_more_data, codes "PDH_MORE_DATA")
    ∷ (pdh_cstatus_item_not_validated, codes "PDH_CSTATUS_ITEM_NOT_VALIDATED")
    ∷ (pdh_retry, codes "PDH_RETRY")
    ∷ (pdh_no_data, codes "PDH_NO_DATA")
    ∷ (pdh_calc_negative_denominator, codes "PDH_CALC_NEGATIVE_DENOMINATOR")
    ∷ (pdh_calc_negative_timebase, codes "PDH_CALC_NEGATIVE_TIMEBASE")
    ∷ (pdh_calc_negative_value, codes "PDH_CALC_NEGATIVE_VALUE")
    ∷ (pdh_dialog_cancelled, codes "PDH_DIALOG_CANCELLED")
    ∷ (pdh_end_of_log_file, codes "PDH_END_OF_LOG_FILE")
    ∷ (pdh_async_query_timeout, codes "PDH_ASYNC_QUERY_TIMEOUT")
    ∷ (
      pdh_cannot_set_default_realtime_datasource,
      codes "PDH_CANNOT_SET_DEFAULT_REALTIME_DATASOURCE",
    )
    ∷ (pdh_cstatus_no_object, codes "PDH_CSTATUS_NO_OBJECT")
    ∷ (pdh_cstatus_no_counter, codes "PDH_CSTATUS_NO_COUNTER")
    ∷ (pdh_cstatus_invalid_data, codes "PDH_CSTATUS_INVALID_DATA")
    ∷ (pdh_memory_allocation_failure, codes "PDH_MEMORY_ALLOCATION_FAILURE")
    ∷ (pdh_invalid_handle, codes "PDH_INVALID_HANDLE")
    ∷ (pdh_invalid_argument, codes "PDH_INVALID_ARGUMENT")
    ∷ (pdh_function_not_found, codes "PDH_FUNCTION_NOT_FOUND")
    ∷ (pdh_cstatus_no_countername, codes "PDH_CSTATUS_NO_COUNTERNAME")
    ∷ (pdh_cstatus_bad_countername, codes "PDH_CSTATUS_BAD_COUNTERNAME")
    ∷ (pdh_invalid_buffer, codes "PDH_INVALID_BUFFER")
    ∷ (pdh_insufficient_buffer, codes "PDH_INSUFFICIENT_BUFFER")
    ∷ (pdh_cannot_connect_machine, codes "PDH_CANNOT_CONNECT_MACHINE")
    ∷ (pdh_invalid_path, codes "PDH_INVALID_PATH")
    ∷ (pdh_invalid_instance, codes "PDH_INVALID_INSTANCE")
    ∷ (pdh_invalid_data, codes "PDH_INVALID_DATA")
    ∷ (pdh_no_dialog_data, codes "PDH_NO_DIALOG_DATA")
    ∷ (pdh_cannot_read_name_strings, codes "PDH_CANNOT_READ_NAME_STRINGS")
    ∷ (pdh_log_file_create_error, codes "PDH_LOG_FILE_CREATE_ERROR")
    ∷ (pdh_log_file_open_error, codes "PDH_LOG_FILE_OPEN_ERROR")
    ∷ (pdh_log_type_not_found, codes "PDH_LOG_TYPE_NOT_FOUND")
    ∷ (pdh_no_more_data, codes "PDH_NO_MORE_DATA")
    ∷ (pdh_entry_not_in_log_file, codes "PDH_ENTRY_NOT_IN_LOG_FILE")
    ∷ (pdh_data_source_is_log_file, codes "PDH_DATA_SOURCE_IS_LOG_FILE")
    ∷ (pdh_data_source_is_real_time, codes "PDH_DATA_SOURCE_IS_REAL_TIME")
    ∷ (pdh_unable_read_log_header, codes "PDH_UNABLE_READ_LOG_HEADER")
    ∷ (pdh_file_not_found, codes "PDH_FILE_NOT_FOUND")
    ∷ (pdh_file_already_exists, codes "PDH_FILE_ALREADY_EXISTS")
    ∷ (pdh_not_implemented, codes "PDH_NOT_IMPLEMENTED")
    ∷ (pdh_string_not_found, codes "PDH_STRING_NOT_FOUND")
    ∷ (pdh_unable_map_name_files, codes "PDH_UNABLE_MAP_NAME_FILES")
    ∷ (pdh_unknown_log_format, codes "PDH_UNKNOWN_LOG_FORMAT")
    ∷ (pdh_unknown_logsvc_command, codes "PDH_UNKNOWN_LOGSVC_COMMAND")
    ∷ (pdh_logsvc_query_not_found, codes "PDH_LOGSVC_QUERY_NOT_FOUND")
    ∷ (pdh_logsvc_not_opened, codes "PDH_LOGSVC_NOT_OPENED")
    ∷ (pdh_wbem_error, codes "PDH_WBEM_ERROR")
    ∷ (pdh_access_denied, codes "PDH_ACCESS_DENIED")
    ∷ (pdh_log_file_too_small, codes "PDH_LOG_FILE_TOO_SMALL")
    ∷ (pdh_invalid_datasource, codes "PDH_INVALID_DATASOURCE")
    ∷ (pdh_invalid_sqldb, codes "PDH_INVALID_SQLDB")
    ∷ (pdh_no_counters, codes "PDH_NO_COUNTERS")
    ∷ (pdh_sql_alloc_failed, codes "PDH_SQL_ALLOC_FAILED")
    ∷ (pdh_sql_alloccon_failed, codes "PDH_SQL_ALLOCCON_FAILED")
    ∷ (pdh_sql_exec_direct_failed, codes "PDH_SQL_EXEC_DIRECT_FAILED")
    ∷ (pdh_sql_fetch_failed, codes "PDH_SQL_FETCH_FAILED")
    ∷ (pdh_sql_rowcount_failed, codes "PDH_SQL_ROWCOUNT_FAILED")
    ∷ (pdh_sql_more_results_failed, codes "PDH_SQL_MORE_RESULTS_FAILED")
    ∷ (pdh_sql_connect_failed, codes "PDH_SQL_CONNECT_FAILED")
    ∷ (pdh_sql_bind_failed, codes "PDH_SQL_BIND_FAILED")
    ∷ (pdh_cannot_connect_wmi_server, codes "PDH_CANNOT_CONNECT_WMI_SERVER")
    ∷ (pdh_pla_collection_already_running, codes "PDH_PLA_COLLECTION_ALREADY_RUNNING")
    ∷ (pdh_pla_error_schedule_overlap, codes "PDH_PLA_ERROR_SCHEDULE_OVERLAP")
    ∷ (pdh_pla_collection_not_found, codes "PDH_PLA_COLLECTION_NOT_FOUND")
    ∷ (pdh_pla_error_schedule_elapsed, codes "PDH_PLA_ERROR_SCHEDULE_ELAPSED")
    ∷ (pdh_pla_error_nostart, codes "PDH_PLA_ERROR_NOSTART")
    ∷ (pdh_pla_error_already_exists, codes "PDH_PLA_ERROR_ALREADY_EXISTS")
    ∷ (pdh_pla_error_type_mismatch, codes "PDH_PLA_ERROR_TYPE_MISMATCH")
    ∷ (pdh_pla_error_filepath, codes "PDH_PLA_ERROR_FILEPATH")
    ∷ (pdh_pla_service_error, codes "PDH_PLA_SERVICE_ERROR")
    ∷ (pdh_pla_validation_error, codes "PDH_PLA_VALIDATION_ERROR")
    ∷ (pdh_pla_validation_warning, codes "PDH_PLA_VALIDATION_WARNING")
    ∷ (pdh_pla_error_name_too_long, codes "PDH_PLA_ERROR_NAME_TOO_LONG")
    ∷ (pdh_invalid_sql_log_format, codes "PDH_INVALID_SQL_LOG_FORMAT")
    ∷ (pdh_counter_already_in_query, codes "PDH_COUNTER_ALREADY_IN_QUERY")
    ∷ (pdh_binary_log_corrupt, codes "PDH_BINARY_LOG_CORRUPT")
    ∷ (pdh_log_sample_too_small, codes "PDH_LOG_SAMPLE_TOO_SMALL")
    ∷ (pdh_os_later_version, codes "PDH_OS_LATER_VERSION")
    ∷ (pdh_os_earlier_version, codes "PDH_OS_EARLIER_VERSION")
    ∷ (pdh_incorrect_append_time, codes "PDH_INCORRECT_APPEND_TIME")
    ∷ (pdh_unmatched_append_counter, codes "PDH_UNMATCHED_APPEND_COUNTER")
    ∷ (pdh_sql_alter_detail_failed, codes "PDH_SQL_ALTER_DETAIL_FAILED")
    ∷ (pdh_query_perf_data_timeout, codes "PDH_QUERY_PERF_DATA_TIMEOUT")
    ∷ []

-- `pdhErrors[code]`: the empty string for a code that is not a key.
unfoldable pub error_name : List (ℕ × Text) → ℕ → Text
error_name [] code = []
error_name ((c, name) ∷ table) code = if c == code then name else error_name table code
