-- ===== src/Tests/Routing.antt =====
-- The theorems on provider requests, at a mux with one bridge to an executor that writes notes.
use proteo_runtime.Prelude.{
  ℕ, ◌≡◌, ◌≢◌, refl, if◌then◌else◌, any, nat_beq, none, some, [], string_eq,
}
use proteo_runtime.Prelude.Dict.{values}
use proteo_runtime.Prelude.Text.{is_empty}
use proteo_runtime.Tools.Values.{dict_value, str_value, entry, end, str_key, Entries}
use proteo_runtime.Tools.Dedup.{no_calls, key_eq}
use proteo_runtime.Codex.Bridge.{Json, Bridge, unbind, thread_of, turn_of, optional_string, get_or}
use proteo_runtime.Codex.Mux.{Hub, register_route, unregister_route, route, call_mux, close_mux}
use proteo_runtime.Codex.Mux.Routes.{route-register_route, route-unregister_route, close_mux-routes}
use proteo_runtime.Codex.Mux.Isolation.{Isolated, call_mux-Isolated}
use proteo_runtime.Tests.Samples.{authority, new_state}

abbrev json : Json
json = record { loads = λ s. some (dict_value end); dumps = λ v. "{}"; str = λ v. "?" }

abbrev bridge : Bridge
bridge = record {
  executor = 4;
  thread_id = none;
  turn_id = none;
  invocation_id = none;
  session_id = none;
  task_id = none;
  pending = [];
}

abbrev empty_hub : Hub
empty_hub = record {
  routes = [];
  bridges = λ n. bridge;
  members = λ n. record { authority = authority; state = new_state; calls = no_calls };
  fresh = 0;
}

abbrev hub : Hub
hub = register_route 2 "thread-1" "turn-1" (some "turn-1") (some "task-1") none empty_hub

abbrev params : Entries
params = entry (str_key "threadId") (str_value "thread-1") (
    entry (str_key "turnId") (str_value "turn-1") (
      entry (str_key "callId") (str_value "call-1")
        (entry (str_key "name") (str_value "write_note") end)))

call_mux-Isolated_example :
    Isolated json params
      (route hub params)
      hub
      (call_mux json "item/tool/call" (some (dict_value params)) hub).1
call_mux-Isolated_example = call_mux-Isolated json "item/tool/call" params hub

names_thread : thread_of params ≡ some "thread-1"
unfolding thread_of optional_string get_or is_empty
names_thread = refl

names_turn : turn_of params ≡ some "turn-1"
unfolding turn_of optional_string get_or is_empty
names_turn = refl

route-register_route_example : route hub params ≡ some 2
route-register_route_example =
    route-register_route 2 "thread-1" "turn-1" (some "turn-1") (some "task-1") none empty_hub params
      names_thread names_turn

route-unregister_route_example : route (unregister_route 2 hub) params ≢ some 2
route-unregister_route_example = route-unregister_route 2 hub params

close_mux-routes_example :
    ((close_mux hub).routes ≡ [])
    × ((n : ℕ)
        → (close_mux hub).bridges n
          ≡ (if any (nat_beq n) (values hub.routes) then unbind (hub.bridges n) else hub.bridges n))
close_mux-routes_example = close_mux-routes hub
