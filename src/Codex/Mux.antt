-- ===== src/Codex/Mux.antt =====
-- providers/codex/experimental.py, `CodexToolMux`: the routes from threads and turns to bridges. Bridges
-- and executors are shared by reference. A request that waits keeps a future among those of its bridge.
pub mod Routes
pub mod Isolation
use proteo_runtime.Prelude.{
  ℕ, suc, ◌+◌, String, Bool, true, false, not, ◌&&◌, nat_beq, Option, none, some, List, [], ◌∷◌,
  map, ◌==◌, string_eq, if◌then◌else◌,
}
use proteo_runtime.Prelude.Dict.{Dict, lookup, insert, values}
use proteo_runtime.Tools.Values.{Value, dict_value, proxy_value, Entries}
use proteo_runtime.Tools.Dedup.{key_eq, end_invocation}
use proteo_runtime.Codex.Bridge.{
  Json, Bridge, bind, unbind, thread_of, turn_of, invocation_of, same_id, Reply, decline,
  dynamic_response, Member, call_bridge,
}

-- A thread and a turn.
abbrev pub RouteKey : Type 0
RouteKey = String × String

pub record Hub : Type 0 where
  pub routes : Dict RouteKey ℕ
  pub bridges : ℕ → Bridge
  pub members : ℕ → Member
  pub fresh : ℕ

unfoldable pub put_bridge : ℕ → Bridge → Hub → Hub
put_bridge n b h = record h { bridges = λ m. if nat_beq n m then b else h.bridges m }

unfoldable pub put_member : ℕ → Member → Hub → Hub
put_member n e h = record h { members = λ m. if nat_beq n m then e else h.members m }

-- `register`
unfoldable pub register_route :
    ℕ → String → String → Option String → Option String → Option String → Hub → Hub
register_route n thread turn invocation task session h =
    let bound = put_bridge n (bind thread turn invocation session task (h.bridges n)) h in
    record bound { routes = (let key : RouteKey = (thread, turn) in insert key n bound.routes) }

-- The routes that lead to another bridge.
unfoldable pub without : ℕ → Dict RouteKey ℕ → Dict RouteKey ℕ
without n [] = []
without n ((key, m) ∷ rest) =
    let others = without n rest in if nat_beq n m then others else (key, m) ∷ others

-- `unregister`
unfoldable pub unregister_route : ℕ → Hub → Hub
unregister_route n h =
    put_bridge n (unbind (h.bridges n)) (record h { routes = without n h.routes })

-- The bridge of a request without thread and turn, by its invocation.
unfoldable pub by_invocation : (ℕ → Bridge) → Option String → List ℕ → Option ℕ
by_invocation bridges none ns = none
by_invocation bridges (some i) [] = none
by_invocation bridges (some i) (n ∷ ns) =
    if same_id (bridges n).invocation_id (some i) then some n else by_invocation bridges (some i) ns

unfoldable pub or_empty : Option String → String
or_empty none = ""
or_empty (some s) = s

unfoldable pub fall_back : Hub → Entries → Option String → Option String → Option ℕ → Option ℕ
fall_back h params thread turn (some n) = some n
fall_back h params none none none = by_invocation h.bridges (invocation_of params) (values h.routes)
fall_back h params thread turn none = none

-- The bridge that a request is routed to.
unfoldable pub route : Hub → Entries → Option ℕ
unfolding or_empty fall_back
route h params =
    let key : RouteKey = (or_empty (thread_of params), or_empty (turn_of params)) in
    fall_back h params (thread_of params) (turn_of params) (lookup key h.routes)

-- A future that waits stays among those of its bridge.
unfoldable pub keep_pending : ℕ → Option Reply → Hub → Hub
keep_pending n (some reply) h = h
keep_pending n none h =
    let b = h.bridges n in
    record (put_bridge n (record b { pending = h.fresh ∷ b.pending }) h) { fresh = h.fresh + 1 }

unfoldable pub dispatch_to : Json → Entries → Option ℕ → Hub → Option Reply × Hub
dispatch_to j params none h =
    (some (dynamic_response j false "tool_denied" "unknown tool request route"), h)
dispatch_to j params (some n) h =
    let b = h.bridges n in
    let (reply, e) = call_bridge j b params (h.members b.executor) in
    (reply, keep_pending n reply (put_member b.executor e h))

unfoldable pub route_params : Json → Option Value → Hub → Option Reply × Hub
route_params j (some (dict_value params)) h = dispatch_to j params (route h params) h
route_params j (some (proxy_value params)) h = dispatch_to j params (route h params) h
route_params j _ h = (some (dynamic_response j false "tool_denied" "invalid tool request"), h)

-- `__call__`
unfoldable pub call_mux : Json → String → Option Value → Hub → Option Reply × Hub
unfolding route_params
call_mux j method params h =
    if method == "item/tool/call" then route_params j params h else (some decline, h)

end_member : Option String → Member → Member
end_member none e = e
end_member (some i) e = if i == "" then e else record e { calls = end_invocation i e.calls }

-- One round of `close`.
unfoldable pub close_bridge : ℕ → Hub → Hub
unfolding end_member
close_bridge n h =
    let b = h.bridges n in
    unregister_route n (put_member b.executor (end_member b.invocation_id (h.members b.executor)) h)

unfoldable pub close_bridges : List ℕ → Hub → Hub
close_bridges [] h = h
close_bridges (n ∷ ns) h = close_bridges ns (close_bridge n h)

-- `close`
unfoldable pub close_mux : Hub → Hub
close_mux h = close_bridges (values h.routes) h
