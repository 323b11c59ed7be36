-- ===== src/Observability/Bus.antt =====
-- observability/bus.py, `RuntimeEventBus`: dispatch, deduplication, flush and close. What stands under
-- the lock of an invocation is one step.
pub mod Dispatch
pub mod Emit
pub mod Repeat
pub mod Close
use proteo_runtime.Prelude.{
  ℕ, String, Bool, true, false, not, ◌&&◌, ◌||◌, Option, none, some, List, [], ◌∷◌, ◌++◌, ◌==◌, ◌≡◌,
  ◌↔◌, Eq, nat_eq, string_eq, nat_beq, nat_beq_iff, eq_iff, arith, any, if◌then◌else◌,
}
use proteo_runtime.Prelude.Dict.{Dict, lookup, insert, has_key, remove}
use proteo_runtime.Prelude.Result.{ok, raise}
use proteo_runtime.Prelude.Text.{concat, is_empty}
use proteo_runtime.Core.Errors.{Py, Exc, cancelled_error, error, observability}
use proteo_runtime.Core.Events.{RuntimeEventKind}
use proteo_runtime.Core.Effects.{Method, pure, throw, ◌>>=◌, ◌>>◌}
use proteo_runtime.Observability.Failures.{
  Binding, Bus, Config, Delivery, Diagnostic, Event, EventResult, FailureKey, FailureKind, Health,
  PayloadMode, close_kind, degraded, disabled, dispatch, file_failure, find_failure, flush_kind,
  full, health_disabled, healthy, is_disabled, metadata_only, new_bus, option_beq, record_failure,
  redacted,
}

-- How a dispatch ends: an observer failed or not, or the caller was cancelled.
unfoldable pub after_call :
    Binding → FailureKind → Option String → Bool → Py (Unit {0}) → Method Bus Bool
after_call o kind invocation failed (ok u) b = (ok failed, b)
after_call o kind invocation failed (raise cancelled_error) b = (raise cancelled_error, b)
after_call o kind invocation failed (raise _) b = (ok true, record_failure o kind invocation b)

-- One turn of the loop over the bindings.
unfoldable pub deliver : Event → Bool → Binding → Method Bus Bool
unfolding is_disabled
deliver e failed o b =
    if is_disabled o.mode
    then (ok failed, b)
    else let delivered = b.delivered ++ record { observer = o.id; mode = o.mode; event = e } ∷ [] in
      after_call o dispatch e.invocation_id failed (o.on_event delivered)
        (record b { delivered = delivered })

-- `for binding in self.config.observers`: whether a dispatch has failed.
unfoldable pub deliver_all : Event → List Binding → Bool → Method Bus Bool
deliver_all e [] failed = pure failed
deliver_all e (o ∷ os) failed = do now ← deliver e failed o; deliver_all e os now

-- `item.details.get("invocation_id") in {None, event.invocation_id}`
in_scope : Option String → Diagnostic → Bool
in_scope invocation d = option_beq d.invocation_id none || option_beq d.invocation_id invocation

same_diagnostic : Diagnostic → Diagnostic → Bool
same_diagnostic d x = (x.code == d.code) && option_beq x.invocation_id d.invocation_id

-- The scoped diagnostics that a result does not have yet.
missing : Option String → List Diagnostic → List Diagnostic → List Diagnostic
unfolding in_scope same_diagnostic
missing invocation existing [] = []
missing invocation existing (d ∷ ds) =
    let rest = missing invocation existing ds in
    if in_scope invocation d && not (any (same_diagnostic d) existing) then d ∷ rest else rest

enriched : Event → Bus → Option EventResult → Event
unfolding missing
enriched e b none = e
enriched e b (some r) = record e {
  result = some (record {
    diagnostics = r.diagnostics ++ missing e.invocation_id r.diagnostics b.diagnostics;
    observability_status = b.status;
  });
}

-- `_enrich_terminal`
unfoldable pub enrich_terminal : Event → Bus → Event
unfolding enriched
enrich_terminal e b = enriched e b e.result

abbrev pub is_terminal_kind : RuntimeEventKind → Bool
is_terminal_kind RuntimeEventKind.invocation_completed = true
is_terminal_kind RuntimeEventKind.invocation_failed = true
is_terminal_kind RuntimeEventKind.cancelled = true
is_terminal_kind RuntimeEventKind.interrupted = true
is_terminal_kind _ = false

text_of : Option String → String
text_of none = ""
text_of (some s) = s

-- `event.invocation_id or f"runtime:{event.runtime!s}"`
unfoldable pub lock_key : Event → String
unfolding text_of
lock_key e =
    if is_empty (text_of e.invocation_id)
    then concat ("runtime:" ∷ e.runtime ∷ [])
    else text_of e.invocation_id

unfoldable pub event_key : Event → String
event_key e = concat (lock_key e ∷ ":" ∷ e.event_id ∷ [])

-- `if strict_failure is not None and self.config.strict: raise`, else the enriched event.
unfoldable pub conclude_dispatch : Config → Event → Bool → Method Bus Event
conclude_dispatch c e failed b =
    if failed && c.strict then (raise (error observability), b) else (ok (enrich_terminal e b), b)

-- The `try` body of `emit`.
unfoldable pub dispatch_event : Config → Event → Method Bus Event
dispatch_event c e b =
    if any (λ k. k == event_key e) b.seen
    then (ok e, b)
    else (deliver_all e c.observers false >>= conclude_dispatch c e)
        (record b { seen = event_key e ∷ b.seen })

-- The `finally` clause of `emit`.
unfoldable pub release_lock : Event → Bus → Bus
release_lock e b =
    if is_terminal_kind e.kind then record b { locks = remove (lock_key e) b.locks } else b

unfoldable pub take_lock : Event → Bus → Bus
take_lock e b =
    if has_key (lock_key e) b.locks then b else record b { locks = insert (lock_key e) tt b.locks }

-- `emit`
unfoldable pub emit_to_bus : Config → Event → Method Bus Event
emit_to_bus c e b =
    if b.closed
    then (ok e, b)
    else let (r, t) = dispatch_event c e (take_lock e b) in (r, release_lock e t)

-- `getattr(binding.observer, method)()`; the method goes with the kind of a failure.
lifecycle_outcome : FailureKind → Binding → List Delivery → Py (Unit {0})
lifecycle_outcome close_kind o delivered = o.close delivered
lifecycle_outcome _ o delivered = o.flush delivered

unfoldable pub call_lifecycle : FailureKind → Bool → Binding → Method Bus Bool
unfolding is_disabled lifecycle_outcome
call_lifecycle kind failed o b =
    if is_disabled o.mode
    then (ok failed, b)
    else after_call o kind none failed (lifecycle_outcome kind o b.delivered)
        (record b { called = b.called ++ (o.id, kind) ∷ [] })

unfoldable pub call_all : FailureKind → List Binding → Bool → Method Bus Bool
call_all kind [] failed = pure failed
call_all kind (o ∷ os) failed = do now ← call_lifecycle kind failed o; call_all kind os now

-- `_lifecycle`
unfoldable pub lifecycle : Config → FailureKind → Method Bus (Unit {0})
lifecycle c kind = do
  failed ← call_all kind c.observers false
  if failed && c.strict then throw (error observability) else pure tt

-- `flush`
unfoldable pub flush : Config → Method Bus (Unit {0})
flush c = lifecycle c flush_kind

-- The end of `close`: the error of `close` before that of `flush`, and nothing unless strict.
unfoldable pub close_outcome : Config → Py (Unit {0}) → Py (Unit {0}) → Py (Unit {0})
close_outcome c flushed (raise cancelled_error) = raise cancelled_error
close_outcome c flushed (ok u) = if c.strict then flushed else ok tt
close_outcome c flushed (raise e) = if c.strict then raise e else ok tt

unfoldable pub close_flushed : Config → Py (Unit {0}) → Method Bus (Unit {0})
close_flushed c (raise cancelled_error) b = (raise cancelled_error, b)
close_flushed c flushed b =
    let (r, t) = lifecycle c close_kind b in (close_outcome c flushed r, record t { closed = true })

-- `close`
unfoldable pub close : Config → Method Bus (Unit {0})
close c b = if b.closed then (ok tt, b) else let (r, t) = flush c b in close_flushed c r t
