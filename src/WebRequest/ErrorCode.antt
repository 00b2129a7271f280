-- ===== src/WebRequest/ErrorCode.antt =====
-- The error codes that answers are made from: `papugaErrorToErrorCode` and `errorCodeToHttpStatus`
-- of src/webrequest/webRequestUtils.cpp. The types list the codes that the two switches name; the
-- enumerations themselves are declared outside the repository, so each has a case for other values.
use strus_bindings.Base.{ℕ, ◌≤◌, ◌≡◌, ◌≢◌, ◌⊎◌, refl, arith}

pub data PapugaError : Type 0 where
  ok logic_error no_mem_error type_error encoding_error buffer_overflow_error : PapugaError
  out_of_range_error nof_args_error missing_self invalid_access unexpected_eof not_implemented :
      PapugaError
  value_undefined mixed_construction duplicate_definition syntax_error uncaught_exception :
      PapugaError
  execution_order atomic_value_expected structure_expected not_allowed iterator_failed : PapugaError
  addressed_item_not_found host_object_error ambiguous_reference max_recursion_depth_reached :
      PapugaError
  complexity_of_problem invalid_request attribute_not_atomic unknown_content_type : PapugaError
  unknown_schema missing_structure_description delegate_request_failed : PapugaError
  service_implementation_error : PapugaError
  other_papuga : ℕ → PapugaError

pub data ErrorCode : Type 0 where
  unknown errno out_of_mem data_corruption mutex_lock_failed logic_error uncaught_exception :
      ErrorCode
  availability not_allowed protocol_error platform_incompatibility platform_requirements syntax :
      ErrorCode
  not_found ioerror version_mismatch invalid_argument invalid_regex invalid_operation : ErrorCode
  invalid_file_path invalid_request load_module_failed not_implemented : ErrorCode
  incomplete_initialization incomplete_definition incomplete_configuration duplicate_definition :
      ErrorCode
  binding_language_error unknown_identifier operation_order value_out_of_range : ErrorCode
  max_limit_reached buffer_overflow max_nof_items_exceeded max_recursion_depht : ErrorCode
  refused_due_to_complexity runtime_error incomplete_request incomplete_result unexpected_eof :
      ErrorCode
  hidden_error input_format encoding request_resolve_error not_acceptable : ErrorCode
  delegate_request_failed service_shutdown service_temporarily_unavailable : ErrorCode
  service_need_exclusive_access : ErrorCode
  other_code : ℕ → ErrorCode

unfoldable pub papuga_error_to_error_code : PapugaError → ErrorCode
papuga_error_to_error_code PapugaError.ok = ErrorCode.unknown
papuga_error_to_error_code PapugaError.logic_error = ErrorCode.logic_error
papuga_error_to_error_code PapugaError.no_mem_error = ErrorCode.out_of_mem
papuga_error_to_error_code PapugaError.type_error = ErrorCode.binding_language_error
papuga_error_to_error_code PapugaError.encoding_error = ErrorCode.encoding
papuga_error_to_error_code PapugaError.buffer_overflow_error = ErrorCode.buffer_overflow
papuga_error_to_error_code PapugaError.out_of_range_error = ErrorCode.value_out_of_range
papuga_error_to_error_code PapugaError.nof_args_error = ErrorCode.max_nof_items_exceeded
papuga_error_to_error_code PapugaError.missing_self = ErrorCode.binding_language_error
papuga_error_to_error_code PapugaError.invalid_access = ErrorCode.binding_language_error
papuga_error_to_error_code PapugaError.unexpected_eof = ErrorCode.unexpected_eof
papuga_error_to_error_code PapugaError.not_implemented = ErrorCode.not_implemented
papuga_error_to_error_code PapugaError.value_undefined = ErrorCode.incomplete_definition
papuga_error_to_error_code PapugaError.mixed_construction = ErrorCode.binding_language_error
papuga_error_to_error_code PapugaError.duplicate_definition = ErrorCode.duplicate_definition
papuga_error_to_error_code PapugaError.syntax_error = ErrorCode.input_format
papuga_error_to_error_code PapugaError.uncaught_exception = ErrorCode.uncaught_exception
papuga_error_to_error_code PapugaError.execution_order = ErrorCode.logic_error
papuga_error_to_error_code PapugaError.atomic_value_expected = ErrorCode.binding_language_error
papuga_error_to_error_code PapugaError.structure_expected = ErrorCode.binding_language_error
papuga_error_to_error_code PapugaError.not_allowed = ErrorCode.not_allowed
papuga_error_to_error_code PapugaError.iterator_failed = ErrorCode.hidden_error
papuga_error_to_error_code PapugaError.addressed_item_not_found = ErrorCode.request_resolve_error
papuga_error_to_error_code PapugaError.host_object_error = ErrorCode.hidden_error
papuga_error_to_error_code PapugaError.ambiguous_reference = ErrorCode.binding_language_error
papuga_error_to_error_code PapugaError.max_recursion_depth_reached = ErrorCode.max_recursion_depht
papuga_error_to_error_code PapugaError.complexity_of_problem = ErrorCode.refused_due_to_complexity
papuga_error_to_error_code PapugaError.invalid_request = ErrorCode.invalid_request
papuga_error_to_error_code PapugaError.attribute_not_atomic = ErrorCode.invalid_request
papuga_error_to_error_code PapugaError.unknown_content_type = ErrorCode.invalid_request
papuga_error_to_error_code PapugaError.unknown_schema = ErrorCode.invalid_request
papuga_error_to_error_code PapugaError.missing_structure_description = ErrorCode.logic_error
papuga_error_to_error_code PapugaError.delegate_request_failed = ErrorCode.invalid_request
papuga_error_to_error_code PapugaError.service_implementation_error = ErrorCode.logic_error
papuga_error_to_error_code (PapugaError.other_papuga n) = ErrorCode.unknown

unfoldable pub error_code_to_http_status : ErrorCode → ℕ
error_code_to_http_status ErrorCode.unknown = 200
error_code_to_http_status ErrorCode.errno = 500
error_code_to_http_status ErrorCode.out_of_mem = 500
error_code_to_http_status ErrorCode.data_corruption = 500
error_code_to_http_status ErrorCode.mutex_lock_failed = 500
error_code_to_http_status ErrorCode.logic_error = 500
error_code_to_http_status ErrorCode.uncaught_exception = 500
error_code_to_http_status ErrorCode.availability = 503
error_code_to_http_status ErrorCode.not_allowed = 400
error_code_to_http_status ErrorCode.protocol_error = 400
error_code_to_http_status ErrorCode.platform_incompatibility = 500
error_code_to_http_status ErrorCode.platform_requirements = 500
error_code_to_http_status ErrorCode.syntax = 400
error_code_to_http_status ErrorCode.not_found = 500
error_code_to_http_status ErrorCode.ioerror = 500
error_code_to_http_status ErrorCode.version_mismatch = 500
error_code_to_http_status ErrorCode.invalid_argument = 500
error_code_to_http_status ErrorCode.invalid_regex = 500
error_code_to_http_status ErrorCode.invalid_operation = 500
error_code_to_http_status ErrorCode.invalid_file_path = 500
error_code_to_http_status ErrorCode.invalid_request = 400
error_code_to_http_status ErrorCode.load_module_failed = 500
error_code_to_http_status ErrorCode.not_implemented = 500
error_code_to_http_status ErrorCode.incomplete_initialization = 500
error_code_to_http_status ErrorCode.incomplete_definition = 500
error_code_to_http_status ErrorCode.incomplete_configuration = 500
error_code_to_http_status ErrorCode.duplicate_definition = 500
error_code_to_http_status ErrorCode.binding_language_error = 500
error_code_to_http_status ErrorCode.unknown_identifier = 400
error_code_to_http_status ErrorCode.operation_order = 500
error_code_to_http_status ErrorCode.value_out_of_range = 500
error_code_to_http_status ErrorCode.max_limit_reached = 500
error_code_to_http_status ErrorCode.buffer_overflow = 500
error_code_to_http_status ErrorCode.max_nof_items_exceeded = 500
error_code_to_http_status ErrorCode.max_recursion_depht = 500
error_code_to_http_status ErrorCode.refused_due_to_complexity = 400
error_code_to_http_status ErrorCode.runtime_error = 500
error_code_to_http_status ErrorCode.incomplete_request = 400
error_code_to_http_status ErrorCode.incomplete_result = 500
error_code_to_http_status ErrorCode.unexpected_eof = 400
error_code_to_http_status ErrorCode.hidden_error = 500
error_code_to_http_status ErrorCode.input_format = 400
error_code_to_http_status ErrorCode.encoding = 400
error_code_to_http_status ErrorCode.request_resolve_error = 404
error_code_to_http_status ErrorCode.not_acceptable = 406
error_code_to_http_status ErrorCode.delegate_request_failed = 500
error_code_to_http_status ErrorCode.service_shutdown = 503
error_code_to_http_status ErrorCode.service_temporarily_unavailable = 503
error_code_to_http_status ErrorCode.service_need_exclusive_access = 503
error_code_to_http_status (ErrorCode.other_code n) = 500

is_success :
    (e : ErrorCode) → (error_code_to_http_status e ≡ 200) ⊎ (400 ≤ error_code_to_http_status e)
unfolding error_code_to_http_status
is_success ErrorCode.unknown = ground arith
is_success _ = ground arith

-- A papuga error that the switch names leads to a status of the classes 4xx and 5xx, except
-- `papuga_Ok`, which leads to 200.
pub papuga_error_status :
    (e : PapugaError)
    → ((n : ℕ) → e ≢ PapugaError.other_papuga n)
    → ((e ≡ PapugaError.ok) × (error_code_to_http_status (papuga_error_to_error_code e) ≡ 200))
      ⊎ ((e ≢ PapugaError.ok)
          × (400 ≤ error_code_to_http_status (papuga_error_to_error_code e))
          × (error_code_to_http_status (papuga_error_to_error_code e) ≤ 503))
unfolding papuga_error_to_error_code error_code_to_http_status
papuga_error_status PapugaError.ok h = ground arith
papuga_error_status (PapugaError.other_papuga n) h = absurd (h n refl)
papuga_error_status _ h = ground arith
