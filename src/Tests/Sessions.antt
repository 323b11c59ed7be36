-- ===== src/Tests/Sessions.antt =====
-- The theorems on the turns of a session, at a hybrid session that is given an instruction.
use proteo_runtime.Prelude.{String, false, refl, Option, none, some, List, [], ◌∷◌, string_eq}
use proteo_runtime.Core.Input.{RuntimeMessage, system, user, messages_input, from_value}
use proteo_runtime.Core.Invocation.{InvocationConfig, overrides, override_model, override_effort}
use proteo_runtime.Codex.Session.{
  Session, SessionHandle, is_usable, all_roles, is_system_or_user, begin_session_turn,
}
use proteo_runtime.Codex.Session.Admission.{
  permits, Admitted, Attempted, begin_session_turn-Attempted,
}

abbrev blank : InvocationConfig
blank = record {
  model = none;
  reasoning_effort = none;
  include_raw = none;
  timeout_seconds = none;
  metadata = [];
}

abbrev session : Session
session = record {
  model = "gpt-5";
  effort = "low";
  context_policy = "hybrid";
  config = blank;
  busy = false;
  active = false;
  interrupts = 0;
  closed_handles = 0;
  archived = false;
  deleted = false;
  generation = 2;
  workspace_removed = false;
}

abbrev current : SessionHandle
current = record { closed = false; generation = 2 }

abbrev spoken : List RuntimeMessage
spoken =
    record { role = system; content = "Be brief." ∷ [] }
    ∷ record { role = user; content = "Hi" ∷ [] }
    ∷ []

abbrev keeps_model : Option InvocationConfig
keeps_model = some (record blank { model = some "gpt-5" })

unfoldable admitted : Admitted current session (messages_input spoken) keeps_model
unfolding from_value is_usable permits all_roles is_system_or_user overrides override_model
    override_effort
admitted = record {
  messages = spoken;
  read = refl;
  usable = refl;
  unlocked = refl;
  permitted = refl;
  same_model = refl;
  same_effort = refl;
}

abbrev prompt : String
prompt = "[system]\nBe brief.\n\n[user]\nHi"

begin_session_turn-Attempted_example :
    Attempted current session
      (messages_input spoken)
      keeps_model
      (begin_session_turn current (messages_input spoken) keeps_model none session)
begin_session_turn-Attempted_example =
    begin_session_turn-Attempted current (messages_input spoken) keeps_model none session
