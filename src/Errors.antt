-- ===== src/Errors.antt =====
-- core/errors.py: the domain errors, with their status and code, and the other exceptions that the
-- modelled code raises. An error keeps its class and message; the diagnostic `details` are dropped.
use ai_cat_controller.Base.{ℕ, String}

pub data ErrorClass : Type 0 where
  ai_cat_error authentication_error adapter_not_implemented device_unavailable : ErrorClass
  resource_not_found action_conflict action_timeout command_not_allowed : ErrorClass

unfoldable pub status_code : ErrorClass → ℕ
status_code ErrorClass.ai_cat_error = 500
status_code ErrorClass.authentication_error = 401
status_code ErrorClass.adapter_not_implemented = 501
status_code ErrorClass.device_unavailable = 503
status_code ErrorClass.resource_not_found = 404
status_code ErrorClass.action_conflict = 409
status_code ErrorClass.action_timeout = 504
status_code ErrorClass.command_not_allowed = 501

unfoldable pub error_code : ErrorClass → String
error_code ErrorClass.ai_cat_error = "ai_cat_error"
error_code ErrorClass.authentication_error = "authentication_failed"
error_code ErrorClass.adapter_not_implemented = "adapter_not_implemented"
error_code ErrorClass.device_unavailable = "device_unavailable"
error_code ErrorClass.resource_not_found = "resource_not_found"
error_code ErrorClass.action_conflict = "action_conflict"
error_code ErrorClass.action_timeout = "action_timeout"
error_code ErrorClass.command_not_allowed = "command_not_allowed"

-- What a call may raise: an `AiCatError`, or one of Python's and SQLite's own exceptions.
pub data Exception : Type 0 where
  ai_cat : ErrorClass → String → Exception
  value_error : String → Exception
  os_error : String → Exception
  controller_api_error local_speech_error : String → Exception
  key_error index_error type_error attribute_error integrity_error cancelled timeout : Exception
