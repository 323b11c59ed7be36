-- ===== src/Codex/Turns.antt =====
-- providers/codex/_runner.py and core/usage.py: what the SDK reports of a turn, its usage and its result.
-- A record holds what `getattr` finds on an SDK object; none is a missing attribute.
use proteo_runtime.Prelude.{
  ℕ, String, Bool, ◌||◌, Option, none, some, List, [], ◌∷◌, map, ◌==◌, string_eq, if◌then◌else◌,
}
use proteo_runtime.Prelude.Dict.{Dict}
use proteo_runtime.Prelude.Text.{concat, is_empty}

-- The token usage of the SDK, behind `last` and the aliases of its fields.
pub record SdkUsage : Type 0 where
  pub input_tokens : Option ℕ
  pub output_tokens : Option ℕ
  pub total_tokens : Option ℕ
  pub cached_input_tokens : Option ℕ
  pub reasoning_tokens : Option ℕ
  pub cache_write_input_tokens : Option ℕ
  pub model_context_window : Option ℕ

pub record RuntimeUsage : Type 0 where
  pub input_tokens : Option ℕ
  pub cached_input_tokens : Option ℕ
  pub output_tokens : Option ℕ
  pub reasoning_tokens : Option ℕ
  pub total_tokens : Option ℕ
  pub duration_ms : Option ℕ
  pub turn_count : ℕ
  pub tool_call_count : ℕ
  pub retry_count : ℕ
  pub raw : Dict String ℕ

-- `{key: item for key, item in raw.items() if item is not None}`
present : String → Option ℕ → Dict String ℕ → Dict String ℕ
present key none rest = rest
present key (some n) rest = (key, n) ∷ rest

-- `usage_from_sdk`; every attribute of None is missing.
unfoldable pub usage_from_sdk : Option SdkUsage → Option ℕ → RuntimeUsage
unfolding present
usage_from_sdk none duration = record {
  input_tokens = none;
  cached_input_tokens = none;
  output_tokens = none;
  reasoning_tokens = none;
  total_tokens = none;
  duration_ms = duration;
  turn_count = 1;
  tool_call_count = 0;
  retry_count = 0;
  raw = [];
}
usage_from_sdk (some u) duration = record {
  input_tokens = u.input_tokens;
  cached_input_tokens = u.cached_input_tokens;
  output_tokens = u.output_tokens;
  reasoning_tokens = u.reasoning_tokens;
  total_tokens = u.total_tokens;
  duration_ms = duration;
  turn_count = 1;
  tool_call_count = 0;
  retry_count = 0;
  raw =
      present "cache_write_input_tokens" u.cache_write_input_tokens
        (present "model_context_window" u.model_context_window []);
}

-- An item of a turn, behind `root`: its type, its direct text and the texts of its contents.
pub record Item : Type 0 where
  pub type : String
  pub text : Option String
  pub content : List (Option String)

-- `if text:`
text_or_empty : Option String → String
text_or_empty none = ""
text_or_empty (some t) = t

-- `_item_text`
unfoldable pub item_text : Item → String
unfolding text_or_empty
item_text item =
    if is_empty (text_or_empty item.text)
    then concat (map text_or_empty item.content)
    else text_or_empty item.text

unfoldable pub is_agent_message : Item → Bool
is_agent_message item = (item.type == "agentMessage") || (item.type == "agent_message")

-- The texts of the agent messages, in order.
unfoldable pub message_texts : List Item → List String
message_texts [] = []
message_texts (item ∷ items) =
    let rest = message_texts items in if is_agent_message item then item_text item ∷ rest else rest

-- The turn that a `turn/completed` notification carries.
pub record SdkTurn : Type 0 where
  pub id : Option String
  pub status : Option String
  pub items : List Item
  pub duration_ms : Option ℕ

-- A notification of the stream, by its method.
pub data Notification : Type 0 where
  turn_started : Option String → Notification
  agent_message_delta : Option String → Notification
  item_completed : Option Item → Notification
  token_usage_updated : Option SdkUsage → Notification
  turn_completed : SdkTurn → Notification
  other_method : Notification

pub record RuntimeResult : Type 0 where
  pub output : String
  pub usage : RuntimeUsage
  pub model : String
  pub profile : String
  pub reasoning_effort : String
  pub session_id : Option String
  pub turn_id : Option String
  pub raw : Option (Dict String String)
  pub task_id : Option String

-- `enum_value(...) or "completed"`
unfoldable pub status_of : SdkTurn → String
unfolding text_or_empty
status_of t = if is_empty (text_or_empty t.status) then "completed" else text_or_empty t.status

-- `"".join(texts) or "".join(self.deltas)`
unfoldable pub output_text : List Item → List String → String
output_text items deltas =
    if is_empty (concat (message_texts items)) then concat deltas else concat (message_texts items)

-- `getattr(turn, "id", getattr(self.handle, "id", default))`
unfoldable pub id_of : Option String → Option String → String → String
id_of (some id) handle default = id
id_of none (some id) default = id
id_of none none default = default

-- `value or None`
unfoldable pub or_none : String → Option String
or_none s = if is_empty s then none else some s
