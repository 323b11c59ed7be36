-- ===== src/Tools/Executor/Terminals.antt =====
-- The terminal events of a request in the event log (tools/__init__.py): what each step adds.
use proteo_runtime.Prelude.{
  ℕ, ◌+◌, String, ◌≡◌, refl, Bool, true, false, Option, none, some, List, [], ◌∷◌, ◌++◌, arith,
  if◌then◌else◌, string_eq,
}
use proteo_runtime.Prelude.Result.{ok, raise}
use proteo_runtime.Core.Errors.{Py, Exc, cancelled_error}
use proteo_runtime.Core.Events.{RuntimeEventKind}
use proteo_runtime.Core.Effects.{Method, throw, continue, ◌>>=◌}
use proteo_runtime.Tools.Types.{ToolDefinition, ToolRequest, ToolResult}
use proteo_runtime.Tools.Executor.{
  Authority, State, Payload, Outcome, ToolEvent, tool_event, emit, emit_terminal, refuse,
}

abbrev pub is_terminal : RuntimeEventKind → ℕ
is_terminal RuntimeEventKind.tool_completed = 1
is_terminal RuntimeEventKind.tool_failed = 1
is_terminal RuntimeEventKind.tool_denied = 1
is_terminal _ = 0

abbrev pub terminals : List ToolEvent → ℕ
terminals [] = 0
terminals (e ∷ es) = is_terminal e.kind + terminals es

pub terminals-snoc :
    (es : List ToolEvent) (e : ToolEvent)
    → terminals (es ++ e ∷ []) ≡ terminals es + is_terminal e.kind
terminals-snoc [] e = omega arith
terminals-snoc (x ∷ es) e = omega (arith, terminals-snoc es e)

-- The terminal events that an outcome owes: none if it is the cancellation of the caller.
abbrev pub weight : Exc → ℕ
weight cancelled_error = 0
weight _ = 1

abbrev pub owed : Py ToolResult → ℕ
owed (ok r) = 1
owed (raise cancelled_error) = 0
owed (raise _) = 1

pub owed-raise : (e : Exc) → owed (raise e) ≡ weight e
owed-raise cancelled_error = refl
owed-raise _ = refl

pub record Ends (m : Method State ToolResult) : Type 0 where
  pub at : (s : State) → terminals (m s).1.events ≡ terminals s.events + owed (m s).0

-- No terminal event, and no exception but a cancellation.
abbrev pub Calm {ℓ} : {A : Type ℓ} → Py A → Type 0
Calm (ok x) = Unit {0}
Calm (raise e) = weight e ≡ 0

pub record Quiet {A : Type 0} (m : Method State A) : Type 0 where
  pub at : (s : State) → (terminals (m s).1.events ≡ terminals s.events) × Calm (m s).0

-- One terminal event, and no exception.
pub record Closes (m : Method State (Unit {0})) : Type 0 where
  pub at : (s : State) → (terminals (m s).1.events ≡ terminals s.events + 1) × ((m s).0 ≡ ok tt)

continue-Ends :
    {A : Type 0} (r : Py A) (f : A → Method State ToolResult) (t : State)
    → Calm r
    → ((x : A) → Ends (f x))
    → terminals (continue r f t).1.events ≡ terminals t.events + owed (continue r f t).0
continue-Ends (ok x) f t c h = (h x).at t
continue-Ends (raise e) f t c h = omega (arith, owed-raise e, c)

pub Ends-after :
    {A : Type 0} (m : Method State A) (f : A → Method State ToolResult)
    → Quiet m
    → ((x : A) → Ends (f x))
    → Ends (m >>= f)
unfolding ◌>>=◌
Ends-after m f quiet h = record {
  at = λ s.
      let (still, calm) = quiet.at s in
      omega (arith, still, continue-Ends (m s).0 f (m s).1 calm h);
}

pub Ends-if :
    (b : Bool) (m n : Method State ToolResult) → Ends m → Ends n → Ends (if b then m else n)
Ends-if true m n h k = h
Ends-if false m n h k = k

pub Ends-throw :
    (m : Method State (Unit {0})) (e : Exc) → Closes m → weight e ≡ 1 → Ends (m >>= λ _. throw e)
unfolding ◌>>=◌
Ends-throw m e closes w = record {
  at = λ s. let (one, fine) = closes.at s in rw fine (omega (arith, one, owed-raise e, w));
}

module _ (a : Authority) (q : ToolRequest) (silent : a.event_sink ≡ none) where
  pub emit-Quiet :
      (kind : RuntimeEventKind) (d : Option ToolDefinition) (n : ℕ) (o : Outcome) (p : Payload)
      → is_terminal kind ≡ 0
      → Quiet (emit a kind q d n o p)
  unfolding emit tool_event
  emit-Quiet kind d n o p h = record {
    at = λ s. (
      omega (arith, terminals-snoc s.events (tool_event (s.sequence + 1) kind q d n o p), h),
      rw silent tt,
    );
  }

  pub emit-Closes :
      (kind : RuntimeEventKind) (d : Option ToolDefinition) (n : ℕ) (o : Outcome) (p : Payload)
      → is_terminal kind ≡ 1
      → Closes (emit a kind q d n o p)
  unfolding emit tool_event
  emit-Closes kind d n o p h = record {
    at = λ s. (
      omega (arith, terminals-snoc s.events (tool_event (s.sequence + 1) kind q d n o p), h),
      rw silent,
    );
  }

  pub refuse-Ends :
      (d : ToolDefinition) (kind : RuntimeEventKind) (code : String) (x : Bool) (e : Exc)
      → is_terminal kind ≡ 1
      → weight e ≡ 1
      → Ends (refuse a q d kind code x e)
  unfolding refuse emit_terminal
  refuse-Ends d kind code x e h w = Ends-throw _ e (emit-Closes kind (some d) 0 _ _ h) w
