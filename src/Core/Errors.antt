-- ===== src/Core/Errors.antt =====
-- src/proteo_runtime/core/errors.py: the exception classes, their stable codes, and the details that
-- the runtime reads back from an exception that it has caught.
use proteo_runtime.Prelude.{ℕ, String, Bool, true, false, Option, none, some}
use proteo_runtime.Prelude.Result.{Result}

-- The subclasses of `AgentRuntimeError`. `output_validation` is `_OutputValidationError` of the
-- tools module, a subclass of `ToolExecutionError`.
pub data ErrorClass : Type 0 where
  agent_runtime authentication runtime_unavailable capability configuration structured_output
        tool_denied tool_execution output_validation context_limit context_policy runtime_timeout
        interrupted cancellation retry_exhausted security_policy session_busy session_mismatch
        session_not_found observability transport :
      ErrorClass

-- The class attribute `default_code`.
unfoldable pub default_code : ErrorClass → String
default_code agent_runtime = "runtime_error"
default_code authentication = "authentication_error"
default_code runtime_unavailable = "runtime_unavailable"
default_code capability = "capability_error"
default_code configuration = "configuration_error"
default_code structured_output = "structured_output_error"
default_code tool_denied = "tool_denied"
default_code tool_execution = "tool_execution_error"
default_code output_validation = "tool_execution_error"
default_code context_limit = "context_limit_error"
default_code context_policy = "context_policy_error"
default_code runtime_timeout = "runtime_timeout"
default_code interrupted = "interrupted"
default_code cancellation = "cancelled"
default_code retry_exhausted = "retry_exhausted"
default_code security_policy = "security_policy_error"
default_code session_busy = "session_busy"
default_code session_mismatch = "session_mismatch"
default_code session_not_found = "session_not_found"
default_code observability = "observability_error"
default_code transport = "transport_error"

-- The entry "attempts" of `details`, by what `int` makes of it: a natural or a negative number, a
-- `ValueError` ("x") or a `TypeError` (None, a list). The runtime itself writes natural numbers.
pub data AttemptsEntry : Type 0 where
  absent : AttemptsEntry
  counted : ℕ → AttemptsEntry
  negative not_a_number not_convertible : AttemptsEntry

-- The entries of `details` that the runtime reads; `path` is that of a `ConfigurationError`.
pub record Details : Type 0 where
  pub attempts : AttemptsEntry
  pub timed_out : Bool
  pub path : Option String

abbrev pub no_details : Details
no_details = record { attempts = absent; timed_out = false; path = none }

pub record AgentRuntimeError : Type 0 where
  pub class : ErrorClass
  pub code : String
  pub details : Details

-- The attributes that the runtime reads of an exception of foreign code: `code`, and whether `details`
-- is a mapping (a missing one counts as the empty mapping), with its entries.
pub record Foreign : Type 0 where
  pub code : Option String
  pub has_mapping : Bool
  pub details : Details

abbrev pub no_attributes : Foreign
no_attributes = record { code = none; has_mapping = true; details = no_details }

-- What a Python function of the runtime may raise; a class without a constructor of its own is an
-- `other_error`.
pub data Exc : Type 0 where
  agent : AgentRuntimeError → Exc
  cancelled_error : Exc
  timeout_error : Exc
  value_error : Exc
  type_error : Exc
  other_error : Foreign → Exc

abbrev pub Py {ℓ} : Type ℓ → Type ℓ
Py = Result Exc

-- An exception of Python itself: an `AttributeError`, an `OverflowError`.
abbrev pub plain_error : Exc
plain_error = other_error no_attributes

-- A new error of a class, with the code of the class.
unfoldable pub error : ErrorClass → Exc
unfolding default_code
error c = agent (record { class = c; code = default_code c; details = no_details })

unfoldable pub error_at : ErrorClass → String → Exc
unfolding default_code
error_at c path =
    agent (record {
      class = c;
      code = default_code c;
      details = record no_details { path = some path };
    })
