-- ===== src/Tools/Executor/Asking.antt =====
-- The wait for an approval of tools/__init__.py adds no terminal event (`_approval`).
use proteo_runtime.Prelude.{
  ◌≡◌, refl, Bool, true, false, Option, none, some, List, [], ◌∷◌, ◌++◌, if◌then◌else◌, string_eq,
}
use proteo_runtime.Prelude.Result.{ok}
use proteo_runtime.Core.Errors.{Py}
use proteo_runtime.Core.Effects.{Method, pure, lift, ◌>>=◌}
use proteo_runtime.Tools.Values.{Value, Render, freeze}
use proteo_runtime.Tools.Types.{deny, ToolRequest, ApprovalRequest, new_approval_request}
use proteo_runtime.Tools.Registry.{Binding}
use proteo_runtime.Tools.Executor.{
  Authority, State, Answer, decided, not_a_decision, handler_timeout, handler_raised,
  handler_cancelled, caller_cancelled, read_answer, ask, request_approval,
}
use proteo_runtime.Tools.Executor.Terminals.{Quiet, Calm}

pub Quiet-if :
    {A : Type 0} (b : Bool) (m n : Method State A) → Quiet m → Quiet n → Quiet (if b then m else n)
Quiet-if true m n h k = h
Quiet-if false m n h k = k

pub Quiet-pure : {A : Type 0} (x : A) → Quiet (pure x)
unfolding pure
Quiet-pure x = record { at = λ s. (refl, tt) }

read_answer-Calm : (x : Answer) → Calm (read_answer x)
unfolding read_answer
read_answer-Calm (decided d) = tt
read_answer-Calm caller_cancelled = refl
read_answer-Calm not_a_decision = tt
read_answer-Calm handler_timeout = tt
read_answer-Calm handler_raised = tt
read_answer-Calm handler_cancelled = tt

pub ask-Quiet : (r : ApprovalRequest) (h : List ApprovalRequest → Answer) → Quiet (ask r h)
unfolding ask
ask-Quiet r h = record { at = λ s. (refl, read_answer-Calm (h (s.asked ++ r ∷ []))) }

pub lift-Quiet :
    {A B : Type 0} (r : Py A) (x : A) (f : A → Method State B)
    → r ≡ ok x
    → Quiet (f x)
    → Quiet (lift r >>= f)
unfolding lift ◌>>=◌
lift-Quiet r x f e h = rw e (record { at = h.at })

-- The arguments `v` have a dump that an approval request can freeze.
pub record IsJson (a : Authority) (b : Binding) (v : Value) : Type 0 where
  pub dumped : Value
  pub shown : Value
  pub dump : b.input_model.model_dump v ≡ ok dumped
  pub is_safe : freeze a.render dumped ≡ ok shown

new_approval_request-accepted :
    (r : Render) (q : ApprovalRequest) (x : Value)
    → freeze r q.arguments ≡ ok x
    → new_approval_request r q ≡ ok (record q { arguments = x })
unfolding new_approval_request
new_approval_request-accepted r q x h = rw h refl

pub request_approval-Quiet :
    (a : Authority) (q : ToolRequest) (b : Binding) (v : Value)
    (o : Option (List ApprovalRequest → Answer))
    → IsJson a b v
    → Quiet (request_approval a q b v o)
unfolding request_approval
request_approval-Quiet a q b v none json = Quiet-pure deny
request_approval-Quiet a q b v (some h) json = lift-Quiet _ json.dumped _ json.dump (
    lift-Quiet _ _ _ (new_approval_request-accepted a.render _ json.shown json.is_safe)
      (ask-Quiet _ h))
