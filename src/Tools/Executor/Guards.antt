-- ===== src/Tools/Executor/Guards.antt =====
-- The guards of the calls that the owner pipeline makes (tools/__init__.py).
use mathlib.Core.List.{append-nil, append_assoc}
use proteo_runtime.Prelude.{
  ℕ, ◌≡◌, refl, sym, ap, ◌∙◌, Option, List, [], ◌∷◌, ◌++◌, All, All-append,
}
use proteo_runtime.Core.Events.{RuntimeEventKind}
use proteo_runtime.Core.Effects.{Related, Keeps}
use proteo_runtime.Tools.Values.{Value}
use proteo_runtime.Tools.Types.{ToolDefinition, ToolRequest, ApprovalRequest}
use proteo_runtime.Tools.Registry.{Call, Binding}
use proteo_runtime.Tools.Executor.{
  Authority, State, Answer, Payload, Outcome, emit, ask, call_function, timeout_of, execute_owner,
}
use proteo_runtime.Tools.Executor.Induction.{Authorised, Kept, execute_owner-Keeps}

-- The call is of an authorised binding, on its validated arguments, under its timeout.
pub record IsAuthorised (a : Authority) (q : ToolRequest) (c : Call) : Type 0 where
  pub binding : Binding
  pub validated : Value
  pub authorised : Authorised a q binding validated
  pub exact : c ≡ record {
    tool = binding.definition.name;
    arguments = validated;
    timeout = timeout_of a binding.definition;
  }

-- The calls made between two states, all authorised.
pub record CallsAuthorised (a : Authority) (q : ToolRequest) (s t : State) : Type 0 where
  pub made : List Call
  pub extended : t.calls ≡ s.calls ++ made
  pub all_authorised : All (IsAuthorised a q) made

module _ (a : Authority) (q : ToolRequest) where
  no_call : (s t : State) → t.calls ≡ s.calls → CallsAuthorised a q s t
  no_call s t e = record { made = []; extended = e ∙ sym (append-nil s.calls); all_authorised = tt }

  pub CallsAuthorised-Related : Related (CallsAuthorised a q)
  CallsAuthorised-Related = record {
    same = λ s. no_call s s refl;
    then_to = λ s t u h k. record {
      made = h.made ++ k.made;
      extended =
          k.extended
          ∙ ap (λ (cs : List Call). cs ++ k.made) h.extended
          ∙ append_assoc s.calls h.made k.made;
      all_authorised =
          All-append (IsAuthorised a q) h.made k.made h.all_authorised k.all_authorised;
    };
  }

  emit-CallsAuthorised :
      (kind : RuntimeEventKind) (d : Option ToolDefinition) (n : ℕ) (o : Outcome) (p : Payload)
      → Keeps (CallsAuthorised a q) (emit a kind q d n o p)
  unfolding emit
  emit-CallsAuthorised kind d n o p = record { at = λ s. no_call s _ refl }

  ask-CallsAuthorised :
      (r : ApprovalRequest) (h : List ApprovalRequest → Answer)
      → Keeps (CallsAuthorised a q) (ask r h)
  unfolding ask
  ask-CallsAuthorised r h = record { at = λ s. no_call s _ refl }

  call_function-CallsAuthorised :
      (b : Binding) (v : Value)
      → Authorised a q b v
      → Keeps (CallsAuthorised a q) (call_function a b v)
  unfolding call_function
  call_function-CallsAuthorised b v auth = record {
    at = λ s. record {
      made =
          record { tool = b.definition.name; arguments = v; timeout = timeout_of a b.definition }
          ∷ [];
      extended = refl;
      all_authorised = (record { binding = b; validated = v; authorised = auth; exact = refl }, tt);
    };
  }

-- Every call that a request makes of a bound function is authorised: the tool is the registered one of
-- the request's name, its input model accepted the arguments, the permission policy allows its
-- permission, the handler approved exactly this request if the definition requires approval, and the
-- tool is idempotent if the retry policy allows more than one attempt.
pub execute_owner_calls :
    (a : Authority) (q : ToolRequest) (s : State) → CallsAuthorised a q s (execute_owner a q s).1
execute_owner_calls a q s = (execute_owner-Keeps kept).at s
  where
    kept : Kept (CallsAuthorised a q) a q
    kept = record {
      related = CallsAuthorised-Related a q;
      emits = emit-CallsAuthorised a q;
      asks = ask-CallsAuthorised a q;
      runs = call_function-CallsAuthorised a q;
    }
