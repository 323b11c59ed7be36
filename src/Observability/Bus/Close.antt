-- ===== src/Observability/Bus/Close.antt =====
-- Closing a bus (observability/bus.py, `close`).
use proteo_runtime.Prelude.{◌≡◌, refl, ap, ◌∙◌, ◌≢◌, true, false, Bool-cases, inl, inr}
use proteo_runtime.Prelude.Result.{ok, raise}
use proteo_runtime.Core.Errors.{
  Py, agent, cancelled_error, timeout_error, value_error, type_error, other_error,
}
use proteo_runtime.Observability.Failures.{Config, Bus}
use proteo_runtime.Observability.Bus.{flush, close_flushed, close}

close_flushed-closed :
    (c : Config) (r : Py (Unit {0})) (t : Bus)
    → (close_flushed c r t).0 ≢ raise cancelled_error
    → (close_flushed c r t).1.closed ≡ true
unfolding close_flushed
close_flushed-closed c (ok u) t alive = refl
close_flushed-closed c (raise cancelled_error) t alive = absurd (alive refl)
close_flushed-closed c (raise (agent e)) t alive = refl
close_flushed-closed c (raise timeout_error) t alive = refl
close_flushed-closed c (raise value_error) t alive = refl
close_flushed-closed c (raise type_error) t alive = refl
close_flushed-closed c (raise (other_error f)) t alive = refl

close-open :
    (c : Config) (b : Bus)
    → b.closed ≡ false
    → close c b ≡ close_flushed c (flush c b).0 (flush c b).1
unfolding close
close-open c b open_bus = simp open_bus

close-shut : (c : Config) (b : Bus) → b.closed ≡ true → close c b ≡ (ok tt, b)
unfolding close
close-shut c b shut = simp shut

-- A `close` that was not cancelled, even one that raises, closes the bus for good: another `close` returns
-- and leaves the bus as it is, with no further call of an observer's `flush` or `close` and no failure.
pub close_again :
    (c : Config) (b : Bus)
    → (close c b).0 ≢ raise cancelled_error
    → ((close c b).1.closed ≡ true) × (close c (close c b).1 ≡ (ok tt, (close c b).1))
close_again c b alive = elim (Bool-cases b.closed) [
  | inl shut ↦ rw (close-shut c b shut, close-shut c b shut) (shut, refl)
  | inr open_bus ↦
      let done : (close c b).1.closed ≡ true =
        ap (λ (x : Py (Unit {0}) × Bus). x.1.closed) (close-open c b open_bus)
        ∙ close_flushed-closed c (flush c b).0 (flush c b).1
            (λ e. alive (ap (λ (x : Py (Unit {0}) × Bus). x.0) (close-open c b open_bus) ∙ e)) in
      (done, close-shut c (close c b).1 done)
]
