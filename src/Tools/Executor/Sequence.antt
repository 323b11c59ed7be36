-- ===== src/Tools/Executor/Sequence.antt =====
-- The numbering of the events of a request (tools/__init__.py, `_emit`).
use mathlib.Core.List.{append-nil, append_assoc}
use proteo_runtime.Prelude.{
  ℕ, ◌+◌, ◌≡◌, refl, sym, ap, subst, ◌∙◌, Option, List, [], ◌∷◌, ◌++◌, length, length-append, arith,
}
use proteo_runtime.Core.Events.{RuntimeEventKind}
use proteo_runtime.Core.Effects.{Related, Keeps}
use proteo_runtime.Tools.Values.{Value}
use proteo_runtime.Tools.Types.{ToolDefinition, ToolRequest, ApprovalRequest}
use proteo_runtime.Tools.Registry.{Binding}
use proteo_runtime.Tools.Executor.{
  Authority, State, Answer, Payload, Outcome, ToolEvent, tool_event, emit, ask, call_function,
  execute_owner,
}
use proteo_runtime.Tools.Executor.Induction.{Authorised, Kept, execute_owner-Keeps}

-- Numbered n + 1, n + 2, … and carrying the identifiers of the request.
abbrev pub IsNumbered : ToolRequest → ℕ → List ToolEvent → Type 0
IsNumbered q n [] = Unit {0}
IsNumbered q n (e ∷ es) =
    (e.sequence ≡ n + 1)
    × (e.invocation_id ≡ q.invocation_id)
    × (e.call_id ≡ q.call_id)
    × IsNumbered q (n + 1) es

pub record EventsNumbered (q : ToolRequest) (s t : State) : Type 0 where
  pub emitted : List ToolEvent
  pub extended : t.events ≡ s.events ++ emitted
  pub numbered : IsNumbered q s.sequence emitted
  pub counted : t.sequence ≡ s.sequence + length emitted

IsNumbered-append :
    (q : ToolRequest) (n m : ℕ) (es fs : List ToolEvent)
    → IsNumbered q n es
    → m ≡ n + length es
    → IsNumbered q m fs
    → IsNumbered q n (es ++ fs)
IsNumbered-append q n m [] fs h e k =
    let same : m ≡ n = omega arith in subst (λ (x : ℕ). IsNumbered q x fs) same k
IsNumbered-append q n m (x ∷ es) fs (a, b, c, rest) e k =
    (a, b, c, IsNumbered-append q (n + 1) m es fs rest (omega arith) k)

module _ (a : Authority) (q : ToolRequest) where
  no_event : (s t : State) → t.events ≡ s.events → t.sequence ≡ s.sequence → EventsNumbered q s t
  no_event s t e n = record {
    emitted = [];
    extended = e ∙ sym (append-nil s.events);
    numbered = tt;
    counted = omega arith;
  }

  EventsNumbered-Related : Related (EventsNumbered q)
  EventsNumbered-Related = record {
    same = λ s. no_event s s refl refl;
    then_to = λ s t u h k. record {
      emitted = h.emitted ++ k.emitted;
      extended =
          k.extended
          ∙ ap (λ (es : List ToolEvent). es ++ k.emitted) h.extended
          ∙ append_assoc s.events h.emitted k.emitted;
      numbered =
          IsNumbered-append q s.sequence t.sequence h.emitted k.emitted h.numbered h.counted
            k.numbered;
      counted = omega (arith, h.counted, k.counted, length-append {0} h.emitted k.emitted);
    };
  }

  emit-EventsNumbered :
      (kind : RuntimeEventKind) (d : Option ToolDefinition) (n : ℕ) (o : Outcome) (p : Payload)
      → Keeps (EventsNumbered q) (emit a kind q d n o p)
  unfolding emit tool_event
  emit-EventsNumbered kind d n o p = record {
    at = λ s. record {
      emitted = tool_event (s.sequence + 1) kind q d n o p ∷ [];
      extended = refl;
      numbered = (refl, refl, refl, tt);
      counted = refl;
    };
  }

  ask-EventsNumbered :
      (r : ApprovalRequest) (h : List ApprovalRequest → Answer) → Keeps (EventsNumbered q) (ask r h)
  unfolding ask
  ask-EventsNumbered r h = record { at = λ s. no_event s _ refl refl }

  call_function-EventsNumbered :
      (b : Binding) (v : Value)
      → Authorised a q b v
      → Keeps (EventsNumbered q) (call_function a b v)
  unfolding call_function
  call_function-EventsNumbered b v auth = record { at = λ s. no_event s _ refl refl }

-- Whatever a request does and however it ends, it only appends events, numbers them upwards from the
-- counter without a gap, leaves the counter at the last number, and puts the invocation and call
-- identifiers of the request on each.
pub execute_owner_events :
    (a : Authority) (q : ToolRequest) (s : State) → EventsNumbered q s (execute_owner a q s).1
execute_owner_events a q s = (execute_owner-Keeps kept).at s
  where
    kept : Kept (EventsNumbered q) a q
    kept = record {
      related = EventsNumbered-Related a q;
      emits = emit-EventsNumbered a q;
      asks = ask-EventsNumbered a q;
      runs = call_function-EventsNumbered a q;
    }
