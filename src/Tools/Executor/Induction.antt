-- ===== src/Tools/Executor/Induction.antt =====
-- An induction rule for the owner pipeline of tools/__init__.py: a relation that every event, every
-- question to the approval handler and every authorised call keeps is kept by `execute_owner`.
use proteo_runtime.Prelude.{
  ℕ, zero, suc, ◌+◌, ◌<◌, String, ◌≡◌, refl, ap, sym, ◌∙◌, Bool, true, not, ◌&&◌, ltb, Option, none,
  some, List, [], ◌∷◌, ◌++◌, arith, string_eq,
}
use proteo_runtime.Prelude.Dict.{lookup}
use proteo_runtime.Prelude.Result.{ok, raise, >>=-eq-ok}
use proteo_runtime.Core.Errors.{Py, Exc, plain_error}
use proteo_runtime.Core.Events.{RuntimeEventKind}
use proteo_runtime.Core.Effects.{Method, pure, lift, Related, Keeps}
use proteo_runtime.Core.Effects.Rules.{
  Keeps-pure, Keeps-bind, Keeps-bind_of, Keeps-if, keeps_rules, bind-returned,
}
use proteo_runtime.Tools.Values.{Value, Render, freeze, thaw}
use proteo_runtime.Tools.Types.{
  ApprovalDecision, approve, deny, ToolDefinition, ToolRequest, ApprovalRequest,
  new_approval_request, ToolResult, allows,
}
use proteo_runtime.Tools.Registry.{Binding}
use proteo_runtime.Tools.Executor.{
  Authority, State, Answer, decided, not_a_decision, handler_timeout, handler_raised,
  handler_cancelled, caller_cancelled, Payload, Outcome, emit, emit_terminal, emit_request,
  requires_approval, read_answer, ask, request_approval, approval, call_function, try_attempt,
  Handled, propagate, terminal, failed, handle, Attempt, returned, errored, recover, settle_attempt,
  run_attempt, exhausted, schedule, next_round, attempts_loop, refuse, run_approved, run_decided,
  run_permitted, run_validated, run_arguments, run_bound, execute_owner,
}

-- The handler was there, was asked for this tool and the frozen dump of these arguments, and approved.
pub record Approved (a : Authority) (q : ToolRequest) (b : Binding) (v : Value) : Type 0 where
  pub handler : List ApprovalRequest → Answer
  pub before : List ApprovalRequest
  pub dumped : Value
  pub shown : Value
  pub present : a.approval_handler ≡ some handler
  pub dump : b.input_model.model_dump v ≡ ok dumped
  pub is_safe : freeze a.render dumped ≡ ok shown
  pub approves :
      handler (
        before
        ++ record {
          invocation_id = q.invocation_id;
          call_id = q.call_id;
          tool_name = b.definition.name;
          permission = b.definition.permission;
          side_effect = b.definition.side_effect;
          arguments = shown;
        }
          ∷ [])
      ≡ decided approve

-- What the pipeline owes before it calls the function bound in `b` on `v`.
pub record Authorised (a : Authority) (q : ToolRequest) (b : Binding) (v : Value) : Type 0 where
  pub bound : lookup q.name a.snapshot ≡ some b
  pub valid : b.input_model.model_validate (thaw a.render q.arguments) ≡ some v
  pub permitted : allows a.permission_policy b.definition.permission ≡ true
  pub approved : requires_approval b.definition ≡ true → Approved a q b v
  pub retry_safe : 1 < a.max_attempts → b.definition.idempotent ≡ true

read_answer-approve : (x : Answer) → read_answer x ≡ ok approve → x ≡ decided approve
unfolding read_answer
read_answer-approve (decided approve) h = refl
read_answer-approve (decided deny) h = absurd (cc)
read_answer-approve not_a_decision h = absurd (cc)
read_answer-approve handler_timeout h = absurd (cc)
read_answer-approve handler_raised h = absurd (cc)
read_answer-approve handler_cancelled h = absurd (cc)
read_answer-approve caller_cancelled h = absurd (cc)

new_approval_request-ok :
    (r : Render) (q p : ApprovalRequest)
    → new_approval_request r q ≡ ok p
    → (x : Value) × (freeze r q.arguments ≡ ok x) × (p ≡ record q { arguments = x })
unfolding new_approval_request
new_approval_request-ok r q p h =
    let (x, frozen, same) = >>=-eq-ok (freeze r q.arguments) _ h in (x, frozen, cc)

request_approval-approve :
    (a : Authority) (q : ToolRequest) (b : Binding) (v : Value)
    (o : Option (List ApprovalRequest → Answer)) (s : State)
    → a.approval_handler ≡ o
    → (request_approval a q b v o s).0 ≡ ok approve
    → Approved a q b v
unfolding request_approval pure lift ask
request_approval-approve a q b v none s present e = absurd (cc)
request_approval-approve a q b v (some h) s present e =
    let (dumped, dump, rest) = bind-returned (lift (b.input_model.model_dump v)) _ s approve e in
    let (r, built, asks) =
      bind-returned _ (λ (r : ApprovalRequest). ask r h) s approve
        (ap (λ (x : Py ApprovalDecision × State). x.0) (sym rest) ∙ e) in
    let (shown, is_safe, same) = new_approval_request-ok a.render _ r built in
    let decision : read_answer (h (s.asked ++ r ∷ [])) ≡ ok approve =
      ap (λ (x : Py ApprovalDecision × State). x.0) (sym asks)
      ∙ ap (λ (x : Py ApprovalDecision × State). x.0) (sym rest)
      ∙ e in
    record {
      handler = h;
      before = s.asked;
      dumped = dumped;
      shown = shown;
      present = present;
      dump = dump;
      is_safe = is_safe;
      approves =
          ap (λ (x : ApprovalRequest). h (s.asked ++ x ∷ [])) (sym same)
          ∙ read_answer-approve (h (s.asked ++ r ∷ [])) decision;
    }

approval-approve :
    (a : Authority) (q : ToolRequest) (b : Binding) (v : Value) (s : State)
    → (approval a q b v s).0 ≡ ok approve
    → Approved a q b v
unfolding approval
approval-approve a q b v s e = request_approval-approve a q b v a.approval_handler s refl e

-- A relation that every event, every question to the handler and every authorised call keeps.
pub record Kept (R : State → State → Type 0) (a : Authority) (q : ToolRequest) : Type 0 where
  pub related : Related R
  pub emits :
      (kind : RuntimeEventKind) (d : Option ToolDefinition) (n : ℕ) (o : Outcome) (p : Payload)
      → Keeps R (emit a kind q d n o p)
  pub asks : (r : ApprovalRequest) (h : List ApprovalRequest → Answer) → Keeps R (ask r h)
  pub runs : (b : Binding) (v : Value) → Authorised a q b v → Keeps R (call_function a b v)

module _ {R : State → State → Type 0} {a : Authority} {q : ToolRequest} (k : Kept R a q) where
  emit_terminal-Keeps :
      (d : Option ToolDefinition) (kind : RuntimeEventKind) (n : ℕ) (code : String) (x y : Bool)
      → Keeps R (emit_terminal a q d kind n code x y)
  unfolding emit_terminal
  emit_terminal-Keeps d kind n code x y = k.emits kind d n _ _

  refuse-Keeps :
      (d : ToolDefinition) (kind : RuntimeEventKind) (code : String) (x : Bool) (e : Exc)
      → Keeps R (refuse a q d kind code x e)
  unfolding refuse
  refuse-Keeps d kind code x e = search (keeps_rules, emit_terminal-Keeps, k.related)

  module _ (b : Binding) (v : Value) (auth : Authorised a q b v) where
    try_attempt-Keeps : (n : ℕ) → Keeps R (try_attempt a q b v n)
    unfolding try_attempt
    try_attempt-Keeps n =
        Keeps-bind _ _ k.related (k.runs b v auth)
          λ output. search (keeps_rules, k.emits, k.related)

    recover-Keeps : (n : ℕ) (h : Handled) → Keeps R (recover a q b n h)
    unfolding recover
    recover-Keeps n (propagate e) = search (keeps_rules, k.related)
    recover-Keeps n (terminal e) = search (keeps_rules, emit_terminal-Keeps, k.related)
    recover-Keeps n (failed e) = search (keeps_rules, k.related)

    settle_attempt-Keeps : (n : ℕ) (r : Py ToolResult) → Keeps R (settle_attempt a q b n r)
    unfolding settle_attempt
    settle_attempt-Keeps n (ok result) = search (keeps_rules, k.related)
    settle_attempt-Keeps n (raise e) = recover-Keeps n (handle e)

    run_attempt-Keeps : (n : ℕ) → Keeps R (run_attempt a q b v n)
    unfolding run_attempt
    run_attempt-Keeps n = record {
      at = λ s.
          k.related.then_to s _ _ ((try_attempt-Keeps n).at s)
            ((settle_attempt-Keeps n (try_attempt a q b v n s).0).at (try_attempt a q b v n s).1);
    }

    exhausted-Keeps : (e : Exc) → Keeps R (exhausted a q b e)
    unfolding exhausted
    exhausted-Keeps e = search (keeps_rules, emit_terminal-Keeps, k.related)

    schedule-Keeps : (n : ℕ) → Keeps R (schedule a q b n)
    unfolding schedule
    schedule-Keeps n =
        Keeps-if (ltb n a.max_attempts) _ _ (λ _. k.emits _ _ n _ _) (λ _. Keeps-pure k.related tt)

    next_round-Keeps :
        (again : Exc → Method State ToolResult) (r : Attempt)
        → ((e : Exc) → Keeps R (again e))
        → Keeps R (next_round again r)
    unfolding next_round
    next_round-Keeps again (returned result) ih = Keeps-pure k.related result
    next_round-Keeps again (errored e) ih = ih e

    attempts_loop-Keeps : (left n : ℕ) (e : Exc) → Keeps R (attempts_loop a q b v left n e)
    unfolding attempts_loop
    attempts_loop-Keeps zero n e = exhausted-Keeps e
    attempts_loop-Keeps (suc left) n e = Keeps-bind _ _ k.related (k.emits _ _ n _ _) λ _.
        Keeps-bind _ _ k.related (run_attempt-Keeps n) λ r. next_round-Keeps _ r λ e'.
          Keeps-bind _ _ k.related (schedule-Keeps n) (λ _. attempts_loop-Keeps left (n + 1) e')

  -- What is settled when the handler has been passed.
  module _ (b : Binding) (v : Value) (bound : lookup q.name a.snapshot ≡ some b)
      (valid : b.input_model.model_validate (thaw a.render q.arguments) ≡ some v) where
    run_approved-Keeps :
        allows a.permission_policy b.definition.permission ≡ true
        → (requires_approval b.definition ≡ true → Approved a q b v)
        → Keeps R (run_approved a q b v)
    unfolding run_approved
    run_approved-Keeps permitted approved =
        Keeps-if (ltb 1 a.max_attempts && not b.definition.idempotent) _ _
          (λ _. refuse-Keeps _ _ _ _ _)
          λ safe.
            attempts_loop-Keeps b v
              (record {
                bound = bound;
                valid = valid;
                permitted = permitted;
                approved = approved;
                retry_safe = λ many. ground arith;
              })
              a.max_attempts 1 plain_error

    run_decided-Keeps :
        allows a.permission_policy b.definition.permission ≡ true
        → (d : ApprovalDecision) → (d ≡ approve → Approved a q b v)
        → Keeps R (run_decided a q b v d)
    unfolding run_decided
    run_decided-Keeps permitted approve approved = run_approved-Keeps permitted (λ _. approved refl)
    run_decided-Keeps permitted deny approved = refuse-Keeps _ _ _ _ _

    request_approval-Keeps :
        (o : Option (List ApprovalRequest → Answer)) → Keeps R (request_approval a q b v o)
    unfolding request_approval
    request_approval-Keeps none = Keeps-pure k.related deny
    request_approval-Keeps (some h) = search (keeps_rules, k.asks, k.related)

    run_permitted-Keeps :
        allows a.permission_policy b.definition.permission ≡ true → Keeps R (run_permitted a q b v)
    unfolding run_permitted
    run_permitted-Keeps permitted =
        Keeps-if (requires_approval b.definition) _ _
          (λ _. Keeps-bind _ _ k.related (k.emits _ _ _ _ _) λ _.
            Keeps-bind_of _ _ k.related approval-Keeps λ d s e.
              Keeps-bind _ _ k.related (k.emits _ _ _ _ _) λ _.
                run_decided-Keeps permitted d λ yes_it_is.
                  approval-approve a q b v s (e ∙ ap (λ (x : ApprovalDecision). ok x) yes_it_is))
          (λ free. run_approved-Keeps permitted (λ needed. absurd (ground arith)))
      where
        approval-Keeps : Keeps R (approval a q b v)
        approval-Keeps = unfold approval in request_approval-Keeps a.approval_handler

    run_validated-Keeps : Keeps R (run_validated a q b v)
    unfolding run_validated
    run_validated-Keeps =
        Keeps-if (allows a.permission_policy b.definition.permission) _ _
          (λ permitted. run_permitted-Keeps permitted) (λ _. refuse-Keeps _ _ _ _ _)

  run_arguments-Keeps :
      (b : Binding) (o : Option Value)
      → lookup q.name a.snapshot ≡ some b
      → b.input_model.model_validate (thaw a.render q.arguments) ≡ o
      → Keeps R (run_arguments a q b o)
  unfolding run_arguments
  run_arguments-Keeps b none bound valid =
      Keeps-bind _ _ k.related (k.emits _ _ _ _ _) (λ _. refuse-Keeps _ _ _ _ _)
  run_arguments-Keeps b (some v) bound valid = run_validated-Keeps b v bound valid

  run_bound-Keeps : (o : Option Binding) → lookup q.name a.snapshot ≡ o → Keeps R (run_bound a q o)
  unfolding run_bound emit_request
  run_bound-Keeps none bound = search (keeps_rules, emit_terminal-Keeps, k.emits, k.related)
  run_bound-Keeps (some b) bound =
      Keeps-bind _ _ k.related (k.emits _ _ _ _ _) λ _. run_arguments-Keeps b _ bound refl

  pub execute_owner-Keeps : Keeps R (execute_owner a q)
  unfolding execute_owner
  execute_owner-Keeps = run_bound-Keeps (lookup q.name a.snapshot) refl
