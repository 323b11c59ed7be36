-- ===== src/Core/Input.antt =====
-- src/proteo_runtime/core/input.py and core/task.py: messages, inputs, and the inputs that a task accepts;
-- `serialize_input` of providers/codex/_mapping.py.
use Prim.Native.Char.{code}
use Prim.Native.String.{String}
use proteo_runtime.Prelude.{
  Bool, true, false, not, ◌&&◌, Option, none, some, List, [], ◌∷◌, if◌then◌else◌,
}
use proteo_runtime.Prelude.Result.{ok, raise_if, ◌>>=◌, ◌>>◌}
use proteo_runtime.Prelude.Text.{concat, is_empty, is_space}
use proteo_runtime.Core.Errors.{Py, error, context_policy, value_error}

pub data Role : Type 0 where
  system user assistant tool : Role

-- A message; `content` holds the texts of its blocks.
pub record RuntimeMessage : Type 0 where
  pub role : Role
  pub content : List String

unfoldable pub is_nil : {A : Type 0} → List A → Bool
is_nil [] = true
is_nil (x ∷ xs) = false

-- `RuntimeMessage(role, content)`
unfoldable pub new_message : Role → List String → Py RuntimeMessage
new_message role content = do
  raise_if (is_nil content) value_error
  ok (record { role = role; content = content })

-- `RuntimeInput(messages)`
unfoldable pub new_input : List RuntimeMessage → Py (List RuntimeMessage)
new_input messages = do raise_if (is_nil messages) value_error; ok messages

-- A text, or a `RuntimeInput` by its messages.
pub data Input : Type 0 where
  text_input : String → Input
  messages_input : List RuntimeMessage → Input

-- `from_value`
unfoldable pub from_value : Input → Py (List RuntimeMessage)
from_value (text_input s) = do message ← new_message user (s ∷ []); new_input (message ∷ [])
from_value (messages_input messages) = ok messages

is_user : Role → Bool
is_user user = true
is_user _ = false

unfoldable pub only_users : List RuntimeMessage → Bool
unfolding is_user
only_users [] = true
only_users (m ∷ ms) = if is_user m.role then only_users ms else false

-- `validate_task_input`
unfoldable pub validate_task_input : Input → Py (List RuntimeMessage)
validate_task_input (text_input s) = from_value (text_input s)
validate_task_input (messages_input messages) = do
  raise_if (not (only_users messages)) (error context_policy)
  ok messages

-- `str.strip`
strip_left : String → String
strip_left String.[] = ""
strip_left (String.◌∷◌ c s) = if is_space (code c) then strip_left s else String.◌∷◌ c s

strip_right : String → String
strip_right String.[] = ""
strip_right (String.◌∷◌ c s) =
    let rest = strip_right s in if is_empty rest && is_space (code c) then "" else String.◌∷◌ c rest

unfoldable pub strip : String → String
unfolding strip_left strip_right
strip s = strip_left (strip_right s)

role_name : Role → String
role_name system = "system"
role_name user = "user"
role_name assistant = "assistant"
role_name tool = "tool"

-- `separator.join(parts)`
unfoldable pub join : String → List String → String
join separator [] = ""
join separator (s ∷ []) = s
join separator (s ∷ t ∷ ss) = concat (s ∷ separator ∷ join separator (t ∷ ss) ∷ [])

is_system : Role → Bool
is_system system = true
is_system _ = false

system_texts : List RuntimeMessage → List String
unfolding is_system
system_texts [] = []
system_texts (m ∷ ms) =
    let rest = system_texts ms in if is_system m.role then concat m.content ∷ rest else rest

transcript : List RuntimeMessage → List String
unfolding is_system role_name
transcript [] = []
transcript (m ∷ ms) =
    let rest = transcript ms in
    if is_system m.role
    then rest
    else concat ("[" ∷ role_name m.role ∷ "]\n" ∷ concat m.content ∷ []) ∷ rest

or_none : String → Option String
or_none s = if is_empty s then none else some s

-- `serialize_input`: the prompt and the system instructions.
unfoldable pub serialize_input : Input → Py (String × Option String)
unfolding system_texts transcript or_none
serialize_input input = do
  messages ← from_value input
  raise_if (is_empty (strip (join "\n\n" (transcript messages)))) value_error
  ok (
    strip (join "\n\n" (transcript messages)),
    or_none (strip (join "\n\n" (system_texts messages))),
  )
