-- ===== src/Observability/Bus/Dispatch.antt =====
-- The loop of `RuntimeEventBus.emit` over the bindings (observability/bus.py).
use mathlib.Core.List.{append-nil, append_assoc}
use proteo_runtime.Prelude.{
  String, ◌≡◌, refl, sym, ap, ◌∙◌, ◌⊎◌, inl, inr, Bool, true, Option, none, some, List, [], ◌∷◌,
  ◌++◌, string_eq, Bool-cases, if◌then◌else◌,
}
use proteo_runtime.Prelude.Result.{ok, raise}
use proteo_runtime.Core.Errors.{
  Py, Exc, agent, cancelled_error, timeout_error, value_error, type_error, other_error,
}
use proteo_runtime.Core.Effects.{Method, pure, ◌>>=◌}
use proteo_runtime.Observability.Failures.{
  Event, Binding, Bus, Delivery, FailureKind, dispatch, is_disabled, find_failure, record_failure,
  file_failure, FailureKey, Diagnostic,
}
use proteo_runtime.Observability.Bus.{after_call, deliver, deliver_all}

-- What the observers that are not disabled are shown, in the order of their bindings.
abbrev pub deliveries : Event → List Binding → List Delivery
deliveries e [] = []
deliveries e (o ∷ os) =
    let rest = deliveries e os in
    if is_disabled o.mode then rest else record { observer = o.id; mode = o.mode; event = e } ∷ rest

file_failure-delivered :
    (key : FailureKey) (d : Diagnostic) (old : Option Diagnostic) (b : Bus)
    → (file_failure key d old b).delivered ≡ b.delivered
unfolding file_failure
file_failure-delivered key d none b = refl
file_failure-delivered key d (some old) b = refl

record_failure-delivered :
    (o : Binding) (k : FailureKind) (i : Option String) (b : Bus)
    → (record_failure o k i b).delivered ≡ b.delivered
unfolding record_failure
record_failure-delivered o k i b = file_failure-delivered _ _ (find_failure _ b.failures) _

-- Either the caller was cancelled, or the call is done.
after_call-cases :
    (o : Binding) (k : FailureKind) (i : Option String) (failed : Bool) (r : Py (Unit {0}))
    (b : Bus)
    → ((after_call o k i failed r b).0 ≡ raise cancelled_error)
      ⊎ ((now : Bool) × ((after_call o k i failed r b).0 ≡ ok now)
          × ((after_call o k i failed r b).1.delivered ≡ b.delivered))
unfolding after_call
after_call-cases o k i failed (ok u) b = inr (failed, refl, refl)
after_call-cases o k i failed (raise cancelled_error) b = inl refl
after_call-cases o k i failed (raise (agent e)) b =
    inr (true, refl, record_failure-delivered o k i b)
after_call-cases o k i failed (raise timeout_error) b =
    inr (true, refl, record_failure-delivered o k i b)
after_call-cases o k i failed (raise value_error) b =
    inr (true, refl, record_failure-delivered o k i b)
after_call-cases o k i failed (raise type_error) b =
    inr (true, refl, record_failure-delivered o k i b)
after_call-cases o k i failed (raise (other_error f)) b =
    inr (true, refl, record_failure-delivered o k i b)

pub bind-inl :
    {A B : Type 0} (m : Method Bus A) (f : A → Method Bus B) (b : Bus) (e : Exc)
    → (m b).0 ≡ raise e
    → (m >>= f) b ≡ (raise e, (m b).1)
unfolding ◌>>=◌
bind-inl m f b e h = rw h

pub bind-inr :
    {A B : Type 0} (m : Method Bus A) (f : A → Method Bus B) (b : Bus) (a : A)
    → (m b).0 ≡ ok a
    → (m >>= f) b ≡ f a (m b).1
unfolding ◌>>=◌
bind-inr m f b a h = rw h

-- The loop reaches every binding unless the caller is cancelled.
pub record Served (e : Event) (os : List Binding) (b : Bus) (x : Py Bool × Bus) : Type 0 where
  pub now : Bool
  pub returned : x.0 ≡ ok now
  pub shown : x.1.delivered ≡ b.delivered ++ deliveries e os

deliver-cases :
    (e : Event) (failed : Bool) (o : Binding) (b : Bus)
    → ((deliver e failed o b).0 ≡ raise cancelled_error)
      ⊎ Served e (o ∷ []) b (deliver e failed o b)
unfolding deliver
deliver-cases e failed o b = elim (Bool-cases (is_disabled o.mode)) [
  | inl off ↦ rw off (
      inr (record { now = failed; returned = refl; shown = rw off (sym (append-nil b.delivered)) }))
  | inr on ↦
      let delivered = b.delivered ++ record { observer = o.id; mode = o.mode; event = e } ∷ [] in
      rw on
        (elim (after_call-cases o dispatch e.invocation_id failed (o.on_event delivered)
          (record b { delivered = delivered })) [
            | inl stopped ↦ inl stopped
            | inr (now, returned, same) ↦
                inr (record { now = now; returned = returned; shown = rw on same })
          ])
]

deliveries-split :
    (e : Event) (o : Binding) (os : List Binding)
    → deliveries e (o ∷ os) ≡ deliveries e (o ∷ []) ++ deliveries e os
deliveries-split e o os = elim (Bool-cases (is_disabled o.mode)) [
  | inl off ↦ rw off
  | inr on ↦ rw on
]

pub deliver_all-cases :
    (e : Event) (os : List Binding) (failed : Bool) (b : Bus)
    → ((deliver_all e os failed b).0 ≡ raise cancelled_error)
      ⊎ Served e os b (deliver_all e os failed b)
unfolding deliver_all pure
deliver_all-cases e [] failed b =
    inr (record { now = failed; returned = refl; shown = sym (append-nil b.delivered) })
deliver_all-cases e (o ∷ os) failed b = elim (deliver-cases e failed o b) [
  | inl stopped ↦
      inl (
        ap (λ (x : Py Bool × Bus). x.0) (bind-inl (deliver e failed o) _ b cancelled_error stopped))
  | inr one ↦
      rw (bind-inr (deliver e failed o) (λ now. deliver_all e os now) b one.now one.returned)
        (elim (deliver_all-cases e os one.now (deliver e failed o b).1) [
          | inl stopped ↦ inl stopped
          | inr rest ↦ inr (record {
            now = rest.now;
            returned = rest.returned;
            shown =
                rest.shown
                ∙ ap (λ (ds : List Delivery). ds ++ deliveries e os) one.shown
                ∙ append_assoc b.delivered (deliveries e (o ∷ [])) (deliveries e os)
                ∙ ap (λ (ds : List Delivery). b.delivered ++ ds) (sym (deliveries-split e o os));
          })
        ])
]
