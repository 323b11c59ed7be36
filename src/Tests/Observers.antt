-- ===== src/Tests/Observers.antt =====
-- The theorems on the event bus, at an observer that fails and one that does not.
use proteo_runtime.Prelude.{
  ◌≡◌, refl, ◌≢◌, ◌⊎◌, true, false, none, some, [], ◌∷◌, ◌++◌, string_eq, ◌==◌, any,
}
use proteo_runtime.Prelude.Result.{ok, raise}
use proteo_runtime.Prelude.Dict.{has_key, insert, remove}
use proteo_runtime.Prelude.Text.{is_empty, concat}
use proteo_runtime.Core.Errors.{timeout_error, cancelled_error}
use proteo_runtime.Core.Events.{RuntimeEventKind}
use proteo_runtime.Core.Effects.{◌>>=◌, pure}
use proteo_runtime.Observability.Failures.{
  Event, Binding, Config, new_bus, metadata_only, disabled, full, record_failure, file_failure,
  find_failure, is_disabled,
}
use proteo_runtime.Observability.Bus.{
  emit_to_bus, dispatch_event, deliver_all, deliver, after_call, conclude_dispatch, release_lock,
  take_lock, lock_key, event_key, enrich_terminal, close, close_flushed, flush, lifecycle, call_all,
  call_lifecycle, close_outcome,
}
use proteo_runtime.Observability.Bus.Dispatch.{deliveries}
use proteo_runtime.Observability.Bus.Emit.{emit_to_bus-deliveries, emit_to_bus-lenient}
use proteo_runtime.Observability.Bus.Close.{close_again}
use proteo_runtime.Observability.Bus.Repeat.{emit_again}

abbrev slow : Binding
slow = record {
  id = 1;
  class_name = "SlowObserver";
  mode = metadata_only;
  on_event = λ shown. raise timeout_error;
  flush = λ shown. ok tt;
  close = λ shown. ok tt;
}

abbrev quick : Binding
quick = record slow { id = 2; class_name = "QuickObserver"; mode = full; on_event = λ shown. ok tt }

abbrev off : Binding
off = record slow { id = 3; mode = disabled }

abbrev config : Config
config = record { observers = slow ∷ off ∷ quick ∷ []; strict = false }

abbrev completed : Event
completed = record {
  kind = RuntimeEventKind.invocation_completed;
  event_id = "inv-1:3";
  runtime = "codex";
  invocation_id = some "inv-1";
  result = none;
}

unseen : any (λ k. k == event_key completed) (new_bus config).seen ≡ false
unfolding new_bus
unseen = refl

starts_open : (new_bus config).closed ≡ false
unfolding new_bus
starts_open = refl

emit_returns : (emit_to_bus config completed (new_bus config)).0 ≡ ok completed
unfolding emit_to_bus new_bus dispatch_event deliver_all deliver after_call record_failure
    file_failure find_failure conclude_dispatch release_lock take_lock is_disabled lock_key
    event_key enrich_terminal ◌>>=◌ pure has_key insert remove is_empty concat
emit_returns = refl

not_cancelled : (emit_to_bus config completed (new_bus config)).0 ≢ raise cancelled_error
not_cancelled h = let returned = emit_returns in absurd (cc)

emit_to_bus-deliveries_example :
    (emit_to_bus config completed (new_bus config)).1.delivered
    ≡ (new_bus config).delivered ++ deliveries completed (slow ∷ off ∷ quick ∷ [])
emit_to_bus-deliveries_example =
    emit_to_bus-deliveries config completed (new_bus config) starts_open unseen not_cancelled

emit_to_bus-lenient_example :
    ((emit_to_bus config completed (new_bus config)).0 ≡ raise cancelled_error)
    ⊎ ((x : Event) × ((emit_to_bus config completed (new_bus config)).0 ≡ ok x))
emit_to_bus-lenient_example = emit_to_bus-lenient config completed (new_bus config) refl

emit_again_example :
    ((emit_to_bus config completed (emit_to_bus config completed (new_bus config)).1).0
      ≡ ok completed)
    × ((emit_to_bus config completed (emit_to_bus config completed (new_bus config)).1).1.delivered
        ≡ (emit_to_bus config completed (new_bus config)).1.delivered)
emit_again_example = emit_again config completed (new_bus config)

close_returns : (close config (new_bus config)).0 ≡ ok tt
unfolding close new_bus close_flushed flush lifecycle call_all call_lifecycle close_outcome
    after_call is_disabled ◌>>=◌ pure
close_returns = refl

close_alive : (close config (new_bus config)).0 ≢ raise cancelled_error
close_alive h = let returned = close_returns in absurd (cc)

close_again_example :
    ((close config (new_bus config)).1.closed ≡ true)
    × (close config (close config (new_bus config)).1 ≡ (ok tt, (close config (new_bus config)).1))
close_again_example = close_again config (new_bus config) close_alive
