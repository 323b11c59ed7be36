-- ===== src/Tools/Types.antt =====
-- tools/__init__.py: the public records of host-managed tools and the validation that their
-- `__post_init__` methods make. Floats are the bits of a double.
use proteo_runtime.Prelude.{
  ℕ, String, Bool, true, false, not, ◌&&◌, ◌||◌, Option, none, some, List, [], ◌∷◌, leb, nat_beq,
  length, any, if◌then◌else◌, ◌==◌, string_eq,
}
use proteo_runtime.Prelude.Result.{ok, raise, raise_if, ◌>>=◌, ◌>>◌}
use proteo_runtime.Prelude.Text.{codes, is_blank, is_empty}
use proteo_runtime.Core.Errors.{Py, value_error}
use proteo_runtime.Tools.Values.{
  Value, none_value, Render, freeze, thaw, is_finite, le_zero, dict_value, entry, str_key,
  str_value, end,
}

pub data SideEffect : Type 0 where
  none_effect read write destructive : SideEffect

pub data ApprovalRequirement : Type 0 where
  never always for_side_effects : ApprovalRequirement

pub data ApprovalDecision : Type 0 where
  approve deny : ApprovalDecision

pub data ToolFailurePolicy : Type 0 where
  return_error raise_error : ToolFailurePolicy

pub record ToolDefinition : Type 0 where
  pub name : String
  pub description : String
  pub input_schema : Value
  pub output_schema : Value
  pub permission : String
  pub side_effect : SideEffect
  pub idempotent : Bool
  pub approval : ApprovalRequirement
  pub timeout_seconds : Option ℕ

pub record ToolRequest : Type 0 where
  pub invocation_id : String
  pub call_id : String
  pub name : String
  pub arguments : Value
  pub session_id : Option String
  pub task_id : Option String
  pub turn_id : Option String

pub record ApprovalRequest : Type 0 where
  pub invocation_id : String
  pub call_id : String
  pub tool_name : String
  pub permission : String
  pub side_effect : SideEffect
  pub arguments : Value

pub record ToolResult : Type 0 where
  pub invocation_id : String
  pub call_id : String
  pub tool_name : String
  pub success : Bool
  pub output : Value
  pub error_code : Option String
  pub attempts : ℕ
  pub denied : Bool
  pub timed_out : Bool

-- _NAME_RE: a letter or underscore, then at most 63 letters, digits, underscores or dashes.
is_letter : ℕ → Bool
is_letter c = (leb b'A' c && leb c b'Z') || (leb b'a' c && leb c b'z')

unfoldable pub is_name_start : ℕ → Bool
unfolding is_letter
is_name_start c = is_letter c || nat_beq c b'_'

unfoldable pub is_name_part : ℕ → Bool
unfolding is_name_start
is_name_part c = is_name_start c || (leb b'0' c && leb c b'9') || nat_beq c b'-'

unfoldable pub is_name : List ℕ → Bool
unfolding is_name_start is_name_part
is_name [] = false
is_name (c ∷ cs) = is_name_start c && leb (length cs) 63 && not (any (λ d. not (is_name_part d)) cs)

bad_timeout : Option ℕ → Bool
bad_timeout none = false
bad_timeout (some t) = not (is_finite t) || le_zero t

-- An exception of the guarded block becomes a `ValueError`.
unfoldable pub as_value_error {ℓ} : {A : Type ℓ} → Py A → Py A
as_value_error (ok a) = ok a
as_value_error (raise e) = raise value_error

-- `ToolDefinition(...)`. `check_schema` is that of `Draft202012Validator`: whether it accepts.
unfoldable pub new_tool_definition : Render → (Value → Bool) → ToolDefinition → Py ToolDefinition
unfolding bad_timeout as_value_error
new_tool_definition r check_schema d = do
  raise_if (not (is_name (codes d.name))) value_error
  raise_if (is_blank d.description || is_blank d.permission) value_error
  raise_if (bad_timeout d.timeout_seconds) value_error
  input_schema ← as_value_error (freeze r d.input_schema)
  output_schema ← as_value_error (freeze r d.output_schema)
  raise_if (not (check_schema (thaw r input_schema))) value_error
  raise_if (not (check_schema (thaw r output_schema))) value_error
  ok (record d { input_schema = input_schema; output_schema = output_schema })

-- `as_provider_dict`
unfoldable pub as_provider_dict : Render → ToolDefinition → Value
as_provider_dict r d = dict_value (
    entry (str_key "name") (str_value d.name) (
      entry (str_key "description") (str_value d.description) (
        entry (str_key "inputSchema") (thaw r d.input_schema)
          (entry (str_key "outputSchema") (thaw r d.output_schema) end))))

unfoldable pub new_tool_request : Render → ToolRequest → Py ToolRequest
new_tool_request r q = do
  raise_if (is_empty q.invocation_id || is_empty q.call_id || is_empty q.name) value_error
  arguments ← freeze r q.arguments
  ok (record q { arguments = arguments })

-- `ApprovalRequest(...)`; the side effect of a definition is a member of its enum.
unfoldable pub new_approval_request : Render → ApprovalRequest → Py ApprovalRequest
new_approval_request r q = do
  arguments ← freeze r q.arguments
  ok (record q { arguments = arguments })

freeze_output : Render → Value → Py Value
freeze_output r none_value = ok none_value
freeze_output r v = freeze r v

-- `attempts` is a natural number, so its test of the sign is met.
unfoldable pub new_tool_result : Render → ToolResult → Py ToolResult
unfolding freeze_output
new_tool_result r t = do output ← freeze_output r t.output; ok (record t { output = output })

-- `ToolRetryPolicy(max_attempts)`
unfoldable pub new_retry_policy : ℕ → Py ℕ
new_retry_policy n = do raise_if (not (leb 1 n && leb n 3)) value_error; ok n

-- `ToolPermissionPolicy(allowed)`, a set of names; `allows` is membership.
unfoldable pub new_permission_policy : List String → Py (List String)
new_permission_policy allowed = do raise_if (any is_blank allowed) value_error; ok allowed

unfoldable pub allows : List String → String → Bool
allows [] permission = false
allows (p ∷ ps) permission = if p == permission then true else allows ps permission
