-- ===== src/Tests/Samples.antt =====
-- A tool with side effects that fails once and then answers, and an executor that may retry it.
use proteo_runtime.Prelude.{true, false, none, some, List, [], ◌∷◌}
use proteo_runtime.Prelude.Result.{ok, raise}
use proteo_runtime.Core.Errors.{timeout_error}
use proteo_runtime.Tools.Values.{
  Value, str_value, dict_value, proxy_value, entry, str_key, end, Render, int_value, list_value,
  cons, nil,
}
use proteo_runtime.Tools.Types.{
  write, for_side_effects, approve, return_error, ToolDefinition, ToolRequest, ApprovalRequest,
}
use proteo_runtime.Tools.Registry.{
  Body, InputModel, TypeAdapter, ParameterKind, Pydantic, Function, Binding, Tool, decorated,
}
use proteo_runtime.Tools.Executor.{Answer, decided, Authority, State}

abbrev pub render : Render
render = record { dumps = λ v. ""; str = λ n. "" }

abbrev pub note : ToolDefinition
note = record {
  name = "write_note";
  description = "Writes a note";
  input_schema = dict_value end;
  output_schema = dict_value end;
  permission = "notes.write";
  side_effect = write;
  idempotent = true;
  approval = for_side_effects;
  timeout_seconds = none;
}

-- Times out on the first call, answers on every later one.
abbrev pub flaky : Body
flaky [] call = raise timeout_error
flaky (c ∷ cs) call = ok (str_value "written")

abbrev pub any_model : InputModel
any_model = record {
  model_validate = λ v. some v;
  model_dump = λ v. ok v;
  model_json_schema = dict_value end;
}

abbrev pub any_adapter : TypeAdapter
any_adapter = record { convert = λ v. some v; json_schema = some (dict_value end) }

abbrev pub note_binding : Binding
note_binding = record {
  definition = note;
  function = flaky;
  input_model = any_model;
  output_adapter = any_adapter;
}

abbrev pub always_approve : List ApprovalRequest → Answer
always_approve asked = decided approve

-- 0x403e000000000000 is 30.0 and 0x404e000000000000 is 60.0.
abbrev pub authority : Authority
authority = record {
  snapshot = ("write_note", note_binding) ∷ [];
  permission_policy = "notes.write" ∷ [];
  approval_handler = some always_approve;
  max_attempts = 2;
  failure_policy = return_error;
  timeout_seconds = 0x403e000000000000;
  approval_timeout_seconds = 0x404e000000000000;
  event_sink = none;
  render = render;
}

abbrev pub request : ToolRequest
request = record {
  invocation_id = "turn-1";
  call_id = "call-1";
  name = "write_note";
  arguments = proxy_value (entry (str_key "text") (str_value "hello") end);
  session_id = none;
  task_id = some "task-1";
  turn_id = some "turn-1";
}

abbrev pub new_state : State
new_state = record { sequence = 0; events = []; calls = []; asked = [] }

abbrev pub pydantic : Pydantic
pydantic = record {
  create_model = λ name parameters. some any_model;
  type_adapter = λ annotation. some any_adapter;
  check_schema = λ schema. true;
}

abbrev pub note_function : Function
note_function = record {
  is_coroutine = true;
  hints_resolve = true;
  parameters =
      record { name = "text"; kind = ParameterKind.positional_or_keyword; annotation = some 0 }
      ∷ [];
  return_annotation = some 0;
  body = flaky;
  tool_definition = some note;
  tool_input_model = some any_model;
  tool_output_adapter = some any_adapter;
}

abbrev pub note_tool : Tool
note_tool = decorated note_function

abbrev pub nested : Value
nested =
    dict_value (
      entry (str_key "tags") (list_value (cons (str_value "a") (cons (int_value false 3) nil))) end)
