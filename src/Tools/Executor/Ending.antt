-- ===== src/Tools/Executor/Ending.antt =====
-- The terminal events of the owner pipeline of tools/__init__.py, from one attempt to the whole request.
use proteo_runtime.Prelude.{
  ℕ, zero, suc, ◌+◌, ◌≡◌, refl, not, ◌&&◌, ltb, Option, none, some, arith, string_eq,
}
use proteo_runtime.Prelude.Dict.{lookup}
use proteo_runtime.Prelude.Result.{ok, raise}
use proteo_runtime.Core.Errors.{
  Py, Exc, agent, cancelled_error, timeout_error, value_error, type_error, other_error, plain_error,
  ErrorClass, AgentRuntimeError, output_validation, tool_execution,
}
use proteo_runtime.Core.Effects.{Method, pure, throw, lift, continue, ◌>>=◌}
use proteo_runtime.Tools.Values.{Value, thaw}
use proteo_runtime.Tools.Types.{ApprovalDecision, approve, deny, ToolRequest, ToolResult, allows}
use proteo_runtime.Tools.Registry.{Binding}
use proteo_runtime.Tools.Executor.{
  Authority, State, emit_terminal, emit_request, requires_approval, approval, call_function,
  try_attempt, Handled, propagate, terminal, failed, handle, handle_class, Attempt, returned,
  errored, recover, settle_attempt, run_attempt, exhausted, schedule, next_round, attempts_loop,
  run_approved, run_decided, run_permitted, run_validated, run_arguments, run_bound, execute_owner,
  tool_error,
}
use proteo_runtime.Tools.Executor.Asking.{IsJson, Quiet-if, Quiet-pure, request_approval-Quiet}
use proteo_runtime.Tools.Executor.Terminals.{
  terminals, weight, owed, owed-raise, Ends, Quiet, Closes, Ends-after, Ends-if, Ends-throw,
  emit-Quiet, emit-Closes, refuse-Ends,
}

-- What the `except` clauses make of an exception keeps the count right.
abbrev Fits : Handled → Type 0
Fits (propagate e) = weight e ≡ 0
Fits (terminal e) = weight e ≡ 1
Fits (failed e) = weight e ≡ 1

handle_class-Fits : (e : AgentRuntimeError) (c : ErrorClass) → Fits (handle_class e c)
unfolding handle_class tool_error
handle_class-Fits e output_validation = refl
handle_class-Fits e tool_execution = refl
handle_class-Fits e _ = refl

handle-Fits : (e : Exc) → Fits (handle e)
unfolding handle tool_error
handle-Fits timeout_error = refl
handle-Fits cancelled_error = refl
handle-Fits (agent e) = handle_class-Fits e e.class
handle-Fits value_error = refl
handle-Fits type_error = refl
handle-Fits (other_error f) = refl

-- The `try` body: a terminal event exactly if it returns.
abbrev gained : Py ToolResult → ℕ
gained (ok r) = 1
gained (raise e) = 0

record Completes (m : Method State ToolResult) : Type 0 where
  at : (s : State) → terminals (m s).1.events ≡ terminals s.events + gained (m s).0

-- No event at all, whatever is raised.
record Still {A : Type 0} (m : Method State A) : Type 0 where
  at : (s : State) → terminals (m s).1.events ≡ terminals s.events

continue-Completes :
    {A : Type 0} (r : Py A) (f : A → Method State ToolResult) (t : State)
    → ((x : A) → Completes (f x))
    → terminals (continue r f t).1.events ≡ terminals t.events + gained (continue r f t).0
continue-Completes (ok x) f t h = (h x).at t
continue-Completes (raise e) f t h = omega arith

Completes-after :
    {A : Type 0} (m : Method State A) (f : A → Method State ToolResult)
    → Still m
    → ((x : A) → Completes (f x))
    → Completes (m >>= f)
unfolding ◌>>=◌
Completes-after m f still h = record {
  at = λ s. omega (arith, still.at s, continue-Completes (m s).0 f (m s).1 h);
}

Still-lift : {A : Type 0} (r : Py A) → Still (lift r)
unfolding lift
Still-lift r = record { at = λ s. refl }

-- The end of one attempt.
abbrev settled : Py Attempt → ℕ
settled (ok (returned r)) = 1
settled (ok (errored e)) = 0
settled (raise e) = weight e

abbrev Fair : Py Attempt → Type 0
Fair (ok (errored e)) = weight e ≡ 1
Fair _ = Unit {0}

record Settles (m : Method State Attempt) : Type 0 where
  at :
      (s : State) → (terminals (m s).1.events ≡ terminals s.events + settled (m s).0) × Fair (m s).0

Settles-throw :
    (m : Method State (Unit {0})) (e : Exc) → Closes m → weight e ≡ 1 → Settles (m >>= λ _. throw e)
unfolding ◌>>=◌
Settles-throw m e closes w = record {
  at = λ s. let (one, fine) = closes.at s in rw fine (omega (arith, one, w), tt);
}

module _ (a : Authority) (q : ToolRequest) (silent : a.event_sink ≡ none) where
  module _ (b : Binding) (v : Value) where
    call_function-Still : Still (call_function a b v)
    unfolding call_function
    call_function-Still = record { at = λ s. refl }

    completed-Completes :
        (m : Method State (Unit {0})) (r : ToolResult) → Closes m → Completes (m >>= λ _. pure r)
    unfolding ◌>>=◌
    completed-Completes m r closes = record {
      at = λ s. let (one, fine) = closes.at s in rw fine (omega (arith, one));
    }

    try_attempt-Completes : (n : ℕ) → Completes (try_attempt a q b v n)
    unfolding try_attempt
    try_attempt-Completes n = Completes-after _ _ call_function-Still λ output.
        Completes-after _ _ (Still-lift _) λ frozen. Completes-after _ _ (Still-lift _) λ result.
          Completes-after _ _ (Still-lift _)
            λ dumped. completed-Completes _ result (emit-Closes a q silent _ _ n _ _ refl)

    recover-Settles : (n : ℕ) (h : Handled) → Fits h → Settles (recover a q b n h)
    unfolding recover emit_terminal pure throw
    recover-Settles n (propagate e) fits = record { at = λ s. (omega arith, tt) }
    recover-Settles n (terminal e) fits =
        Settles-throw _ e (emit-Closes a q silent _ (some b.definition) n _ _ refl) fits
    recover-Settles n (failed e) fits = record { at = λ s. (omega arith, fits) }

    settle_attempt-settled :
        (n : ℕ) (r : Py ToolResult) (t : State)
        → (terminals (settle_attempt a q b n r t).1.events + gained r
            ≡ terminals t.events + settled (settle_attempt a q b n r t).0)
          × Fair (settle_attempt a q b n r t).0
    unfolding settle_attempt pure
    settle_attempt-settled n (ok result) t = (refl, tt)
    settle_attempt-settled n (raise e) t =
        let (count, fair) = (recover-Settles n (handle e) (handle-Fits e)).at t in
        (omega (arith, count), fair)

    run_attempt-Settles : (n : ℕ) → Settles (run_attempt a q b v n)
    unfolding run_attempt
    run_attempt-Settles n = record {
      at = λ s.
          let before = (try_attempt-Completes n).at s in
          let (count, fair) =
            settle_attempt-settled n (try_attempt a q b v n s).0 (try_attempt a q b v n s).1 in
          (omega (arith, before, count), fair);
    }

    exhausted-Ends : (e : Exc) → weight e ≡ 1 → Ends (exhausted a q b e)
    unfolding exhausted emit_terminal tool_error
    exhausted-Ends e w =
        Ends-throw _ _ (emit-Closes a q silent _ (some b.definition) a.max_attempts _ _ refl)
          (ground arith)

    schedule-Quiet : (n : ℕ) → Quiet (schedule a q b n)
    unfolding schedule
    schedule-Quiet n =
        Quiet-if (ltb n a.max_attempts) _ _ (emit-Quiet a q silent _ _ n _ _ refl) (Quiet-pure tt)

    continue-next_round :
        (r : Py Attempt) (again : Exc → Method State ToolResult) (n : ℕ) (t : State)
        → terminals t.events ≡ n + settled r
        → Fair r
        → ((e : Exc) → weight e ≡ 1 → Ends (again e))
        → terminals (continue r (next_round again) t).1.events
          ≡ n + owed (continue r (next_round again) t).0
    unfolding next_round pure
    continue-next_round (ok (returned r)) again n t h fair ih = h
    continue-next_round (ok (errored e)) again n t h fair ih = omega (arith, (ih e fair).at t)
    continue-next_round (raise e) again n t h fair ih = omega (arith, h, owed-raise e)

    Ends-round :
        (m : Method State Attempt) (again : Exc → Method State ToolResult)
        → Settles m
        → ((e : Exc) → weight e ≡ 1 → Ends (again e))
        → Ends (m >>= next_round again)
    unfolding ◌>>=◌
    Ends-round m again settles ih = record {
      at = λ s.
          let (count, fair) = settles.at s in
          continue-next_round (m s).0 again (terminals s.events) (m s).1 count fair ih;
    }

    attempts_loop-Ends :
        (left n : ℕ) (e : Exc) → weight e ≡ 1 → Ends (attempts_loop a q b v left n e)
    unfolding attempts_loop
    attempts_loop-Ends zero n e w = exhausted-Ends e w
    attempts_loop-Ends (suc left) n e w = Ends-after _ _ (emit-Quiet a q silent _ _ n _ _ refl) λ _.
        Ends-round _ _ (run_attempt-Settles n)
          λ e' w'. Ends-after _ _ (schedule-Quiet n) (λ _. attempts_loop-Ends left (n + 1) e' w')

    run_approved-Ends : Ends (run_approved a q b v)
    unfolding run_approved tool_error
    run_approved-Ends =
        Ends-if (ltb 1 a.max_attempts && not b.definition.idempotent) _ _
          (refuse-Ends a q silent _ _ _ _ _ refl refl)
          (attempts_loop-Ends a.max_attempts 1 plain_error refl)

    run_decided-Ends : (d : ApprovalDecision) → Ends (run_decided a q b v d)
    unfolding run_decided tool_error
    run_decided-Ends approve = run_approved-Ends
    run_decided-Ends deny = refuse-Ends a q silent _ _ _ _ _ refl refl

    run_validated-Ends : IsJson a b v → Ends (run_validated a q b v)
    unfolding run_validated run_permitted approval tool_error
    run_validated-Ends json =
        Ends-if (allows a.permission_policy b.definition.permission) _ _
          (Ends-if (requires_approval b.definition) _ _
            (Ends-after _ _ (emit-Quiet a q silent _ _ _ _ _ refl) λ _.
              Ends-after _ _ (request_approval-Quiet a q b v a.approval_handler json)
                λ d. Ends-after _ _ (emit-Quiet a q silent _ _ _ _ _ refl) λ _. run_decided-Ends d)
            run_approved-Ends)
          (refuse-Ends a q silent _ _ _ _ _ refl refl)

  run_arguments-Ends :
      (b : Binding) (o : Option Value)
      → ((v : Value) → o ≡ some v → IsJson a b v)
      → Ends (run_arguments a q b o)
  unfolding run_arguments tool_error
  run_arguments-Ends b none json =
      Ends-after _ _ (emit-Quiet a q silent _ _ _ _ _ refl)
        λ _. refuse-Ends a q silent _ _ _ _ _ refl refl
  run_arguments-Ends b (some v) json = run_validated-Ends b v (json v refl)

  run_bound-Ends :
      (o : Option Binding)
      → ((b : Binding) (v : Value)
          → o ≡ some b
          → b.input_model.model_validate (thaw a.render q.arguments) ≡ some v
          → IsJson a b v)
      → Ends (run_bound a q o)
  unfolding run_bound emit_request emit_terminal tool_error
  run_bound-Ends none json =
      Ends-after _ _ (emit-Quiet a q silent _ _ _ _ _ refl)
        λ _. Ends-throw _ _ (emit-Closes a q silent _ none 0 _ _ refl) refl
  run_bound-Ends (some b) json =
      Ends-after _ _ (emit-Quiet a q silent _ _ _ _ _ refl)
        λ _. run_arguments-Ends b _ (λ v. json b v refl)

-- Without an event sink, and where the dump of the arguments that the tool accepts from the request can
-- be frozen for an approval request, a request leaves exactly one terminal event (completed, failed or
-- denied) more in the log than it found, on every path of success and error, and none if it ends in a
-- cancellation.
pub terminals-execute_owner :
    (a : Authority) (q : ToolRequest) (s : State)
    → a.event_sink ≡ none
    → ((b : Binding) (v : Value)
        → lookup q.name a.snapshot ≡ some b
        → b.input_model.model_validate (thaw a.render q.arguments) ≡ some v
        → IsJson a b v)
    → terminals (execute_owner a q s).1.events ≡ terminals s.events + owed (execute_owner a q s).0
unfolding execute_owner
terminals-execute_owner a q s silent json =
    (run_bound-Ends a q silent (lookup q.name a.snapshot) json).at s
