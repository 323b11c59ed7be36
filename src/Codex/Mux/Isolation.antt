-- ===== src/Codex/Mux/Isolation.antt =====
-- What a provider request may touch through a mux (providers/codex/experimental.py).
use proteo_runtime.Prelude.{
  ℕ, String, ◌≡◌, ◌≢◌, refl, sym, ap, ◌∙◌, nat_beq, nat_beq_iff, Option, none, some, ◌==◌,
  string_eq, arith, inl, inr, Bool-cases,
}
use proteo_runtime.Tools.Values.{dict_value, Entries}
use proteo_runtime.Tools.Types.{ToolRequest}
use proteo_runtime.Tools.Executor.Guards.{CallsAuthorised}
use proteo_runtime.Tools.Dedup.Guarded.{execute-CallsAuthorised}
use proteo_runtime.Codex.Bridge.{
  Json, Bridge, Reply, matches, tool_request, Member, run_request, call_bridge,
}
use proteo_runtime.Codex.Mux.{
  Hub, put_bridge, put_member, keep_pending, dispatch_to, route, route_params, call_mux,
}

-- What a request may do to a member: nothing, or the authorised calls of the request that its bridge
-- has made of the parameters.
pub data Reached (j : Json) (b : Bridge) (params : Entries) (before after : Member) : Type 0 where
  untouched : after ≡ before → Reached j b params before after
  ran :
      (q : ToolRequest)
      → tool_request j before.authority.render b params ≡ some q
      → after.authority ≡ before.authority
      → CallsAuthorised before.authority q before.state after.state
      → Reached j b params before after

run_request-Reached :
    (j : Json) (b : Bridge) (params : Entries) (e : Member) (o : Option ToolRequest)
    → tool_request j e.authority.render b params ≡ o
    → Reached j b params e (run_request j e o).1
unfolding run_request
run_request-Reached j b params e none h = untouched refl
run_request-Reached j b params e (some q) h =
    ran q h refl (execute-CallsAuthorised e.authority q e.state e.calls)

call_bridge-Reached :
    (j : Json) (b : Bridge) (params : Entries) (e : Member)
    → Reached j b params e (call_bridge j b params e).1
unfolding call_bridge
call_bridge-Reached j b params e = elim (Bool-cases (matches b params)) [
  | inl hit ↦ rw hit (run_request-Reached j b params e _ refl)
  | inr miss ↦ rw miss (untouched refl)
]

-- What a request may do to the members of a hub, by the bridge that it is routed to.
pub data Isolated (j : Json) (params : Entries) (o : Option ℕ) (h h' : Hub) : Type 0 where
  refused : h' ≡ h → Isolated j params o h h'
  routed :
      (n : ℕ)
      → o ≡ some n
      → Reached j
          (h.bridges n)
          params
          (h.members (h.bridges n).executor)
          (h'.members (h.bridges n).executor)
      → ((k : ℕ) → k ≢ (h.bridges n).executor → h'.members k ≡ h.members k)
      → Isolated j params o h h'

keep_pending-members :
    (n : ℕ) (o : Option Reply) (h : Hub) → (keep_pending n o h).members ≡ h.members
unfolding keep_pending put_bridge
keep_pending-members n none h = refl
keep_pending-members n (some reply) h = refl

put_member_self : (n : ℕ) (e : Member) (h : Hub) → (put_member n e h).members n ≡ e
unfolding put_member
put_member_self n e h = ground (arith, nat_beq_iff n n)

put_member_other :
    (n k : ℕ) (e : Member) (h : Hub) → k ≢ n → (put_member n e h).members k ≡ h.members k
unfolding put_member
put_member_other n k e h other = elim (Bool-cases (nat_beq n k)) [
  | inl same ↦ absurd (other (sym ((nat_beq_iff n k).0 same)))
  | inr apart ↦ rw apart
]

dispatch_to-Isolated :
    (j : Json) (params : Entries) (o : Option ℕ) (h : Hub)
    → Isolated j params o h (dispatch_to j params o h).1
unfolding dispatch_to
dispatch_to-Isolated j params none h = refused refl
dispatch_to-Isolated j params (some n) h =
    let b = h.bridges n in
    let x = call_bridge j b params (h.members b.executor) in
    let kept = keep_pending-members n x.0 (put_member b.executor x.1 h) in
    routed n refl
      (rw (kept, put_member_self b.executor x.1 h)
        (call_bridge-Reached j b params (h.members b.executor)))
      (λ k other. ap (λ (m : ℕ → Member). m k) kept ∙ put_member_other b.executor k x.1 h other)

-- A request of the provider touches at most one executor: that of the bridge to which its thread and turn
-- are routed. There every call that it makes of a bound function is authorised for the request that this
-- bridge has made of the parameters; all other executors are unchanged, and all are without a route.
pub call_mux-Isolated :
    (j : Json) (method : String) (params : Entries) (h : Hub)
    → Isolated j params (route h params) h (call_mux j method (some (dict_value params)) h).1
unfolding call_mux route_params
call_mux-Isolated j method params h = elim (Bool-cases (method == "item/tool/call")) [
  | inl tool ↦ rw tool (dispatch_to-Isolated j params (route h params) h)
  | inr native ↦ rw native (refused refl)
]
