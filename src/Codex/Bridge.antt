-- ===== src/Codex/Bridge.antt =====
-- providers/codex/experimental.py, `CodexToolBridge`: a request of the provider becomes a request of a
-- tool executor. Parameters of a request are a JSON object; a request runs without another between its
-- steps, and waits where it awaits the owner of its call.
use proteo_runtime.Prelude.{
  ℕ, String, Bool, true, false, not, ◌&&◌, ◌||◌, nat_beq, Option, none, some, List, [], ◌==◌,
  string_eq, if◌then◌else◌,
}
use proteo_runtime.Prelude.Result.{ok, raise}
use proteo_runtime.Prelude.Text.{is_empty}
use proteo_runtime.Core.Errors.{Py}
use proteo_runtime.Tools.Values.{
  Value, none_value, bool_value, int_value, float_value, str_value, dict_value, proxy_value,
  list_value, tuple_value, set_value, frozenset_value, nil, Entries, end, entry, str_key, other_key,
  Render, thaw,
}
use proteo_runtime.Tools.Types.{ToolRequest, ToolResult, new_tool_request}
use proteo_runtime.Tools.Executor.{Authority, State}
use proteo_runtime.Tools.Dedup.{Calls, execute}

-- `json.loads`, none if it raises, `json.dumps` and `str`.
pub record Json : Type 0 where
  pub loads : String → Option Value
  pub dumps : Value → String
  pub str : Value → String

-- `params.get(key, default)`
unfoldable pub get_or : String → Value → Entries → Value
get_or k default end = default
get_or k default (entry (str_key j) v es) = if j == k then v else get_or k default es
get_or k default (entry (other_key n) v es) = get_or k default es

-- `_optional_string`
unfoldable pub optional_string : Value → Option String
optional_string (str_value s) = if is_empty s then none else some s
optional_string _ = none

-- The truth of a JSON value.
is_truthy : Value → Bool
is_truthy none_value = false
is_truthy (bool_value b) = b
is_truthy (int_value negative n) = not (nat_beq n 0)
is_truthy (float_value bits) = not (nat_beq bits 0) && not (nat_beq bits 0x8000000000000000)
is_truthy (str_value s) = not (is_empty s)
is_truthy (dict_value end) = false
is_truthy (proxy_value end) = false
is_truthy (list_value nil) = false
is_truthy (tuple_value nil) = false
is_truthy (set_value nil) = false
is_truthy (frozenset_value nil) = false
is_truthy _ = true

text_of : Json → Value → String
text_of j (str_value s) = s
text_of j v = j.str v

-- One bridge; `executor` refers to a tool executor, `pending` holds the futures it waits for.
pub record Bridge : Type 0 where
  pub executor : ℕ
  pub thread_id : Option String
  pub turn_id : Option String
  pub invocation_id : Option String
  pub session_id : Option String
  pub task_id : Option String
  pub pending : List ℕ

unfoldable pub or_keep : Option String → Option String → Option String
or_keep none old = old
or_keep (some new) old = some new

-- `bind`
unfoldable pub bind :
    String → String → Option String → Option String → Option String → Bridge → Bridge
unfolding or_keep
bind thread turn invocation session task b = record b {
  thread_id = some thread;
  turn_id = some turn;
  invocation_id = or_keep invocation b.invocation_id;
  session_id = or_keep session b.session_id;
  task_id = or_keep task b.task_id;
}

-- `unbind`; the futures that it cancels are those of `pending`.
unfoldable pub unbind : Bridge → Bridge
unbind b = record {
  executor = b.executor;
  thread_id = none;
  turn_id = none;
  invocation_id = none;
  session_id = none;
  task_id = none;
  pending = [];
}

unfoldable pub thread_of : Entries → Option String
thread_of params = optional_string (get_or "threadId" (get_or "thread_id" none_value params) params)

unfoldable pub turn_of : Entries → Option String
turn_of params = optional_string (get_or "turnId" (get_or "turn_id" none_value params) params)

unfoldable pub invocation_of : Entries → Option String
invocation_of params =
    optional_string (get_or "invocationId" (get_or "invocation_id" none_value params) params)

-- Equality of identifiers that may be missing.
unfoldable pub same_id : Option String → Option String → Bool
same_id none none = true
same_id none (some b) = false
same_id (some a) none = false
same_id (some a) (some b) = a == b

-- `if own and given and own != given`; an identifier of a bridge may be the empty text.
differs : Option String → Option String → Bool
differs (some own) (some given) = not (is_empty own) && not (own == given)
differs _ _ = false

claims_invocation : Option String → Option String → Bool
claims_invocation own none = false
claims_invocation own (some given) = same_id own (some given)

is_missing : Option String → Bool
is_missing none = true
is_missing (some s) = false

-- `matches`
unfoldable pub matches : Bridge → Entries → Bool
unfolding differs claims_invocation is_missing
matches b params =
    if claims_invocation b.invocation_id (invocation_of params)
    then true
    else if differs b.thread_id (thread_of params)
    then false
    else if differs b.turn_id (turn_of params)
    then false
    else is_missing b.thread_id || same_id (thread_of params) b.thread_id

-- A reply to the provider: the refusal of a native request, or the success and the text of a tool reply.
pub data Reply : Type 0 where
  decline : Reply
  content : Bool → String → Reply

-- `_dynamic_response`
unfoldable pub dynamic_response : Json → Bool → String → String → Reply
dynamic_response j success code message = content success (
    j.dumps (
      dict_value (
        entry (str_key "success") (bool_value success) (
          entry (str_key "errorCode") (str_value code)
            (entry (str_key "message") (str_value message) end)))))

incoming_invocation : Json → Entries → String
unfolding is_truthy text_of
incoming_invocation j params =
    let incoming = get_or "invocationId" (get_or "invocation_id" none_value params) params in
    text_of j (
      if is_truthy incoming
      then incoming
      else get_or "turnId" (get_or "threadId" (str_value "") params) params)

-- `str(self.invocation_id or incoming_invocation or ...)`
chosen_invocation : Json → Entries → Option String → String
unfolding incoming_invocation
chosen_invocation j params none = incoming_invocation j params
chosen_invocation j params (some own) = if is_empty own then incoming_invocation j params else own

read_arguments : Json → Value → Option Value
read_arguments j (str_value s) = j.loads s
read_arguments j v = some v

is_mapping : Option Value → Option Value
is_mapping (some (dict_value es)) = some (dict_value es)
is_mapping (some (proxy_value es)) = some (proxy_value es)
is_mapping _ = none

checked_request :
    Render → Bridge → Entries → String → String → String → Option Value → Option ToolRequest
checked_request r b params invocation call name none = none
checked_request r b params invocation call name (some arguments) =
    elim (new_tool_request r (record {
      invocation_id = invocation;
      call_id = call;
      name = name;
      arguments = arguments;
      session_id = b.session_id;
      task_id = b.task_id;
      turn_id = turn_of params;
    })) [ ok q ↦ some q | raise e ↦ none ]

-- The request that a bridge makes of the parameters; none where it replies "invalid tool request". The
-- test for empty identifiers is made again by `ToolRequest`, with the same reply.
unfoldable pub tool_request : Json → Render → Bridge → Entries → Option ToolRequest
unfolding chosen_invocation read_arguments is_mapping checked_request text_of
tool_request j r b params =
    checked_request r b params (chosen_invocation j params b.invocation_id)
      (text_of j (
        get_or "callId"
          (get_or "call_id" (get_or "itemId" (get_or "id" (str_value "") params) params) params)
          params))
      (text_of j
        (get_or "name" (get_or "tool" (get_or "toolName" (str_value "") params) params) params))
      (is_mapping (read_arguments j (get_or "arguments" (dict_value end) params)))

error_entry : Option String → Entries
error_entry none = end
error_entry (some code) =
    if is_empty code then end else entry (str_key "errorCode") (str_value code) end

-- The reply to the end of an execution; none while it waits.
unfoldable pub reply_of : Json → Render → Option (Py ToolResult) → Option Reply
unfolding error_entry
reply_of j r none = none
reply_of j r (some (raise e)) =
    some (dynamic_response j false "tool_execution_error" "tool execution failed")
reply_of j r (some (ok result)) = some (
    content result.success (
      j.dumps (
        dict_value (
          entry (str_key "success") (bool_value result.success)
            (entry (str_key "output") (thaw r result.output) (error_entry result.error_code))))))

-- The state of one tool executor.
pub record Member : Type 0 where
  pub authority : Authority
  pub state : State
  pub calls : Calls

unfoldable pub run_request : Json → Member → Option ToolRequest → Option Reply × Member
run_request j m none =
    (some (dynamic_response j false "tool_execution_error" "invalid tool request"), m)
run_request j m (some q) =
    let (r, s, c) = execute m.authority q m.state m.calls in
    (reply_of j m.authority.render r, record m { state = s; calls = c })

-- `__call__`, of the method `item/tool/call`
unfoldable pub call_bridge : Json → Bridge → Entries → Member → Option Reply × Member
call_bridge j b params m =
    if matches b params
    then run_request j m (tool_request j m.authority.render b params)
    else (some (dynamic_response j false "tool_denied" "unknown tool request route"), m)
