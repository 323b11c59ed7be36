-- ===== src/Tools/Executor/Attempts.antt =====
-- How often a request may call the bound function (tools/__init__.py, the attempt loop).
use proteo_runtime.Prelude.{
  ℕ, zero, suc, ◌+◌, ◌≤◌, String, Bool, true, false, not, ◌&&◌, ltb, Option, none, some, List, [],
  ◌∷◌, length, length-append, arith, if◌then◌else◌, string_eq, Bool-cases, inl, inr,
}
use proteo_runtime.Prelude.Dict.{lookup}
use proteo_runtime.Prelude.Result.{ok, raise}
use proteo_runtime.Core.Errors.{Py, Exc, plain_error}
use proteo_runtime.Core.Events.{RuntimeEventKind}
use proteo_runtime.Core.Effects.{Method, pure, throw, lift, continue, ◌>>=◌}
use proteo_runtime.Tools.Values.{Value}
use proteo_runtime.Tools.Types.{
  ApprovalDecision, approve, deny, ToolDefinition, ToolRequest, ApprovalRequest, ToolResult, allows,
}
use proteo_runtime.Tools.Registry.{Call, Binding}
use proteo_runtime.Tools.Executor.{
  Authority, State, Answer, Payload, Outcome, emit, emit_terminal, emit_request, requires_approval,
  ask, request_approval, approval, call_function, timeout_of, try_attempt, Handled, propagate,
  terminal, failed, handle, Attempt, returned, errored, recover, settle_attempt, run_attempt,
  exhausted, schedule, next_round, attempts_loop, refuse, run_approved, run_decided, run_permitted,
  run_validated, run_arguments, run_bound, execute_owner,
}

-- The method makes at most `n` calls of bound functions.
record Adds {A : Type 0} (n : ℕ) (m : Method State A) : Type 0 where
  at : (s : State) → length (m s).1.calls ≤ length s.calls + n

module _ {A : Type 0} where
  Adds-pure : (x : A) → Adds 0 (pure x)
  unfolding pure
  Adds-pure x = record { at = λ s. omega arith }

  Adds-throw : (e : Exc) → Adds 0 (throw {A = A} e)
  unfolding throw
  Adds-throw e = record { at = λ s. omega arith }

  Adds-lift : (r : Py A) → Adds 0 (lift r)
  unfolding lift
  Adds-lift r = record { at = λ s. omega arith }

  Adds-more : {n : ℕ} (k : ℕ) (m : Method State A) → Adds n m → n ≤ k → Adds k m
  Adds-more k m h le = record { at = λ s. omega (arith, h.at s, le) }

  Adds-if :
      {n : ℕ} (b : Bool) (m m' : Method State A)
      → Adds n m
      → Adds n m'
      → Adds n (if b then m else m')
  Adds-if true m m' h k = h
  Adds-if false m m' h k = k

module _ {A B : Type 0} {k : ℕ} where
  continue-Adds :
      (r : Py A) (f : A → Method State B) (t : State)
      → ((x : A) → Adds k (f x))
      → length (continue r f t).1.calls ≤ length t.calls + k
  continue-Adds (ok x) f t h = (h x).at t
  continue-Adds (raise e) f t h = omega arith

  Adds-bind :
      {n : ℕ} (m : Method State A) (f : A → Method State B)
      → Adds n m
      → ((x : A) → Adds k (f x))
      → Adds (n + k) (m >>= f)
  unfolding ◌>>=◌
  Adds-bind m f h g = record { at = λ s. omega (arith, h.at s, continue-Adds (m s).0 f (m s).1 g) }

  -- A first part that makes no call.
  Adds-after :
      (m : Method State A) (f : A → Method State B)
      → Adds 0 m
      → ((x : A) → Adds k (f x))
      → Adds k (m >>= f)
  Adds-after m f h g = Adds-more k _ (Adds-bind m f h g) (omega arith)

ruleset adds_rules = (Adds-pure, Adds-throw, Adds-lift, Adds-after)

module _ (a : Authority) (q : ToolRequest) where
  emit-Adds :
      (kind : RuntimeEventKind) (d : Option ToolDefinition) (n : ℕ) (o : Outcome) (p : Payload)
      → Adds 0 (emit a kind q d n o p)
  unfolding emit
  emit-Adds kind d n o p = record { at = λ s. omega arith }

  emit_terminal-Adds :
      (d : Option ToolDefinition) (kind : RuntimeEventKind) (n : ℕ) (code : String) (x y : Bool)
      → Adds 0 (emit_terminal a q d kind n code x y)
  unfolding emit_terminal
  emit_terminal-Adds d kind n code x y = emit-Adds kind d n _ _

  ask-Adds : (r : ApprovalRequest) (h : List ApprovalRequest → Answer) → Adds 0 (ask r h)
  unfolding ask
  ask-Adds r h = record { at = λ s. omega arith }

  refuse-Adds :
      (d : ToolDefinition) (kind : RuntimeEventKind) (code : String) (x : Bool) (e : Exc)
      → Adds 0 (refuse a q d kind code x e)
  unfolding refuse
  refuse-Adds d kind code x e = search (adds_rules, emit_terminal-Adds)

  module _ (b : Binding) (v : Value) where
    call_function-Adds : Adds 1 (call_function a b v)
    unfolding call_function
    call_function-Adds = record {
      at = λ s. omega (arith, length-append {0} s.calls (call_of ∷ []));
    }
      where
        call_of : Call
        call_of = record {
          tool = b.definition.name;
          arguments = v;
          timeout = timeout_of a b.definition;
        }

    try_attempt-Adds : (n : ℕ) → Adds 1 (try_attempt a q b v n)
    unfolding try_attempt
    try_attempt-Adds n =
        Adds-bind {k = 0} _ _ call_function-Adds λ output. search (adds_rules, emit-Adds)

    recover-Adds : (n : ℕ) (h : Handled) → Adds 0 (recover a q b n h)
    unfolding recover
    recover-Adds n (propagate e) = search adds_rules
    recover-Adds n (terminal e) = search (adds_rules, emit_terminal-Adds)
    recover-Adds n (failed e) = search adds_rules

    settle_attempt-Adds : (n : ℕ) (r : Py ToolResult) → Adds 0 (settle_attempt a q b n r)
    unfolding settle_attempt
    settle_attempt-Adds n (ok result) = search adds_rules
    settle_attempt-Adds n (raise e) = recover-Adds n (handle e)

    run_attempt-Adds : (n : ℕ) → Adds 1 (run_attempt a q b v n)
    unfolding run_attempt
    run_attempt-Adds n = record {
      at = λ s. omega (
        arith,
        (try_attempt-Adds n).at s,
        (settle_attempt-Adds n (try_attempt a q b v n s).0).at (try_attempt a q b v n s).1,
      );
    }

    schedule-Adds : (n : ℕ) → Adds 0 (schedule a q b n)
    unfolding schedule
    schedule-Adds n = Adds-if (ltb n a.max_attempts) _ _ (emit-Adds _ _ n _ _) (Adds-pure tt)

    next_round-Adds :
        {n : ℕ} (again : Exc → Method State ToolResult) (r : Attempt)
        → ((e : Exc) → Adds n (again e))
        → Adds n (next_round again r)
    unfolding next_round
    next_round-Adds {n} again (returned result) ih = Adds-more n _ (Adds-pure result) (omega arith)
    next_round-Adds again (errored e) ih = ih e

    attempts_loop-Adds : (left n : ℕ) (e : Exc) → Adds left (attempts_loop a q b v left n e)
    unfolding attempts_loop exhausted
    attempts_loop-Adds zero n e = search (adds_rules, emit_terminal-Adds)
    attempts_loop-Adds (suc left) n e = Adds-after _ _ (emit-Adds _ _ n _ _) λ _.
        Adds-more (suc left) _
          (Adds-bind _ _ (run_attempt-Adds n) λ r.
            next_round-Adds _ r
              λ e'. Adds-after _ _ (schedule-Adds n) (λ _. attempts_loop-Adds left (n + 1) e'))
          (omega arith)

-- The attempts that a binding is granted: those of the retry policy if its tool is idempotent, else one.
abbrev pub attempts_granted : Authority → Option Binding → ℕ
attempts_granted a none = 0
attempts_granted a (some b) = if b.definition.idempotent then a.max_attempts else 1

module _ (a : Authority) (q : ToolRequest) (b : Binding) (v : Value) where
  run_approved-Adds : Adds (attempts_granted a (some b)) (run_approved a q b v)
  unfolding run_approved
  run_approved-Adds = elim (Bool-cases (ltb 1 a.max_attempts && not b.definition.idempotent)) [
    | inl unsafe ↦ rw unsafe (Adds-more _ _ (refuse-Adds a q _ _ _ _ _) (omega arith))
    | inr safe ↦
        rw safe
          (Adds-more _ _ (attempts_loop-Adds a q b v a.max_attempts 1 plain_error) (ground arith))
  ]

  run_decided-Adds :
      (d : ApprovalDecision) → Adds (attempts_granted a (some b)) (run_decided a q b v d)
  unfolding run_decided
  run_decided-Adds approve = run_approved-Adds
  run_decided-Adds deny = Adds-more _ _ (refuse-Adds a q _ _ _ _ _) (omega arith)

  request_approval-Adds :
      (o : Option (List ApprovalRequest → Answer)) → Adds 0 (request_approval a q b v o)
  unfolding request_approval lift pure
  request_approval-Adds none = record { at = λ s. omega arith }
  request_approval-Adds (some h) =
      Adds-after _ _ (record { at = λ s. omega arith })
        λ x. Adds-after _ _ (record { at = λ s. omega arith }) (λ r. ask-Adds a q r h)

  run_validated-Adds : Adds (attempts_granted a (some b)) (run_validated a q b v)
  unfolding run_validated run_permitted approval
  run_validated-Adds =
      Adds-if (allows a.permission_policy b.definition.permission) _ _
        (Adds-if (requires_approval b.definition) _ _
          (Adds-after _ _ (emit-Adds a q _ _ _ _ _) λ _.
            Adds-after _ _ (request_approval-Adds a.approval_handler)
              λ d. Adds-after _ _ (emit-Adds a q _ _ _ _ _) λ _. run_decided-Adds d)
          run_approved-Adds)
        (Adds-more _ _ (refuse-Adds a q _ _ _ _ _) (omega arith))

run_arguments-Adds :
    (a : Authority) (q : ToolRequest) (b : Binding) (o : Option Value)
    → Adds (attempts_granted a (some b)) (run_arguments a q b o)
unfolding run_arguments
run_arguments-Adds a q b none =
    Adds-after _ _ (emit-Adds a q _ _ _ _ _)
      λ _. Adds-more _ _ (refuse-Adds a q _ _ _ _ _) (omega arith)
run_arguments-Adds a q b (some v) = run_validated-Adds a q b v

run_bound-Adds :
    (a : Authority) (q : ToolRequest) (o : Option Binding)
    → Adds (attempts_granted a o) (run_bound a q o)
unfolding run_bound emit_request
run_bound-Adds a q none = search (adds_rules, emit-Adds, emit_terminal-Adds)
run_bound-Adds a q (some b) =
    Adds-after _ _ (emit-Adds a q _ _ _ _ _) λ _. run_arguments-Adds a q b _

-- A request calls the bound function at most once, or as often as the retry policy says if the tool is
-- idempotent, and never for an unknown tool, whatever the function, the handler and the sink do.
pub execute_owner_attempts :
    (a : Authority) (q : ToolRequest) (s : State)
    → length (execute_owner a q s).1.calls
      ≤ length s.calls + attempts_granted a (lookup q.name a.snapshot)
unfolding execute_owner
execute_owner_attempts a q s = (run_bound-Adds a q (lookup q.name a.snapshot)).at s
