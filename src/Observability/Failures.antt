-- ===== src/Observability/Failures.antt =====
-- observability/bus.py: the bindings and the state of a `RuntimeEventBus`, and its record of failures. A
-- delivery keeps the event and the payload mode: the projection that an observer is shown is a function
-- of the two, and is left out.
use proteo_runtime.Prelude.{
  ℕ, String, Bool, true, false, not, ◌&&◌, Option, none, some, List, [], ◌∷◌, ◌++◌, ◌==◌, nat_eq,
  string_eq, nat_beq, any, if◌then◌else◌,
}
use proteo_runtime.Prelude.Dict.{Dict}
use proteo_runtime.Prelude.Text.{concat}
use proteo_runtime.Core.Errors.{Py}
use proteo_runtime.Core.Events.{RuntimeEventKind}

pub data PayloadMode : Type 0 where
  disabled metadata_only redacted full : PayloadMode

pub data Health : Type 0 where
  health_disabled healthy degraded : Health

-- The entries of a diagnostic that the bus reads back.
pub record Diagnostic : Type 0 where
  pub code : String
  pub observer : String
  pub invocation_id : Option String

pub record EventResult : Type 0 where
  pub diagnostics : List Diagnostic
  pub observability_status : Health

pub record Event : Type 0 where
  pub kind : RuntimeEventKind
  pub event_id : String
  pub runtime : String
  pub invocation_id : Option String
  pub result : Option EventResult

-- `_FailureKind`
pub data FailureKind : Type 0 where
  dispatch flush_kind close_kind : FailureKind

pub record Delivery : Type 0 where
  pub observer : ℕ
  pub mode : PayloadMode
  pub event : Event

-- An observer and its payload mode. `id` is the identity of the object; what its methods end in,
-- a timeout included, may depend on all deliveries so far.
pub record Binding : Type 0 where
  pub id : ℕ
  pub class_name : String
  pub mode : PayloadMode
  pub on_event : List Delivery → Py (Unit {0})
  pub flush : List Delivery → Py (Unit {0})
  pub close : List Delivery → Py (Unit {0})

-- `ObservabilityConfig`
pub record Config : Type 0 where
  pub observers : List Binding
  pub strict : Bool

abbrev pub FailureKey : Type 0
FailureKey = ℕ × Option String

abbrev pub option_beq : Option String → Option String → Bool
option_beq none none = true
option_beq none (some b) = false
option_beq (some a) none = false
option_beq (some a) (some b) = a == b

-- The fields of the bus, what has been delivered, and the calls of `flush` and `close` of observers.
pub record Bus : Type 0 where
  pub status : Health
  pub locks : Dict String (Unit {0})
  pub seen : List String
  pub diagnostics : List Diagnostic
  pub failures : List (FailureKey × Diagnostic)
  pub closed : Bool
  pub delivered : List Delivery
  pub called : List (ℕ × FailureKind)

unfoldable pub is_disabled : PayloadMode → Bool
is_disabled disabled = true
is_disabled _ = false

-- `RuntimeEventBus(config)`
unfoldable pub new_bus : Config → Bus
unfolding is_disabled
new_bus c = record {
  status =
      (if any (λ (o : Binding). not (is_disabled o.mode)) c.observers
        then healthy
        else health_disabled);
  locks = [];
  seen = [];
  diagnostics = [];
  failures = [];
  closed = false;
  delivered = [];
  called = [];
}

unfoldable pub find_failure : FailureKey → List (FailureKey × Diagnostic) → Option Diagnostic
find_failure (n, i) [] = none
find_failure (n, i) (((m, j), d) ∷ rest) =
    if nat_beq m n && option_beq j i then some d else find_failure (n, i) rest

kind_name : FailureKind → String
kind_name dispatch = "dispatch"
kind_name flush_kind = "flush"
kind_name close_kind = "close"

-- `invocation if kind is DISPATCH else kind.value`
failure_scope : FailureKind → Option String → Option String
unfolding kind_name
failure_scope dispatch invocation = invocation
failure_scope flush_kind invocation = some "flush"
failure_scope close_kind invocation = some "close"

unfoldable pub file_failure : FailureKey → Diagnostic → Option Diagnostic → Bus → Bus
file_failure key d (some old) b = b
file_failure key d none b = record b {
  diagnostics = b.diagnostics ++ d ∷ [];
  failures = (key, d) ∷ b.failures;
}

-- `_record_failure`
unfoldable pub record_failure : Binding → FailureKind → Option String → Bus → Bus
unfolding kind_name failure_scope file_failure
record_failure o kind invocation b =
    let key : FailureKey = (o.id, failure_scope kind invocation) in
    file_failure key
      (record {
        code = concat ("observability." ∷ kind_name kind ∷ "_failed" ∷ []);
        observer = o.class_name;
        invocation_id = invocation;
      })
      (find_failure key b.failures) (record b { status = degraded })
