-- ===== src/Observability/Bus/Repeat.antt =====
-- A repeated event (observability/bus.py, `emit`).
use proteo_runtime.Prelude.{
  String, ◌≡◌, refl, ap, ◌∙◌, inl, inr, Bool, true, false, ◌&&◌, Option, none, some, List, [], ◌∷◌,
  ◌++◌, ◌==◌, string_eq, beq_refl, any, Bool-cases,
}
use proteo_runtime.Prelude.Result.{ok, raise}
use proteo_runtime.Core.Errors.{
  Py, agent, cancelled_error, timeout_error, value_error, type_error, other_error,
}
use proteo_runtime.Core.Effects.{Related, Keeps}
use proteo_runtime.Core.Effects.Rules.{Keeps-pure, Keeps-bind}
use proteo_runtime.Observability.Failures.{
  Event, degraded, Binding, Config, Bus, FailureKind, dispatch, is_disabled, find_failure,
  record_failure, file_failure, FailureKey, Diagnostic,
}
use proteo_runtime.Observability.Bus.{
  after_call, deliver, deliver_all, event_key, conclude_dispatch, dispatch_event, release_lock,
  take_lock, emit_to_bus,
}
use proteo_runtime.Observability.Bus.Emit.{take_lock-SameBus, release_lock-SameBus, emit-dispatch}

-- The events that a bus has seen, and whether it is closed.
record SameNotes (b t : Bus) : Type 0 where
  kept_seen : t.seen ≡ b.seen
  kept_closed : t.closed ≡ b.closed

SameNotes-Related : Related SameNotes
SameNotes-Related = record {
  same = λ b. record { kept_seen = refl; kept_closed = refl };
  then_to = λ b t u h k. record {
    kept_seen = k.kept_seen ∙ h.kept_seen;
    kept_closed = k.kept_closed ∙ h.kept_closed;
  };
}

file_failure-SameNotes :
    (key : FailureKey) (d : Diagnostic) (old : Option Diagnostic) (b : Bus)
    → SameNotes b (file_failure key d old (record b { status = degraded }))
unfolding file_failure
file_failure-SameNotes key d none b = record { kept_seen = refl; kept_closed = refl }
file_failure-SameNotes key d (some old) b = record { kept_seen = refl; kept_closed = refl }

record_failure-SameNotes :
    (o : Binding) (k : FailureKind) (i : Option String) (b : Bus)
    → SameNotes b (record_failure o k i b)
unfolding record_failure
record_failure-SameNotes o k i b = file_failure-SameNotes _ _ (find_failure _ b.failures) b

after_call-SameNotes :
    (o : Binding) (k : FailureKind) (i : Option String) (failed : Bool) (r : Py (Unit {0}))
    (b : Bus)
    → SameNotes b (after_call o k i failed r b).1
unfolding after_call
after_call-SameNotes o k i failed (ok u) b = SameNotes-Related.same b
after_call-SameNotes o k i failed (raise cancelled_error) b = SameNotes-Related.same b
after_call-SameNotes o k i failed (raise (agent e)) b = record_failure-SameNotes o k i b
after_call-SameNotes o k i failed (raise timeout_error) b = record_failure-SameNotes o k i b
after_call-SameNotes o k i failed (raise value_error) b = record_failure-SameNotes o k i b
after_call-SameNotes o k i failed (raise type_error) b = record_failure-SameNotes o k i b
after_call-SameNotes o k i failed (raise (other_error f)) b = record_failure-SameNotes o k i b

deliver-SameNotes : (e : Event) (failed : Bool) (o : Binding) → Keeps SameNotes (deliver e failed o)
unfolding deliver
deliver-SameNotes e failed o = record {
  at = λ b. elim (Bool-cases (is_disabled o.mode)) [
    | inl off ↦ rw off (SameNotes-Related.same b)
    | inr on ↦
        let t = record b {
          delivered = b.delivered ++ record { observer = o.id; mode = o.mode; event = e } ∷ [];
        } in
        let h = after_call-SameNotes o dispatch e.invocation_id failed (o.on_event t.delivered) t in
        rw on (record { kept_seen = h.kept_seen; kept_closed = h.kept_closed })
  ];
}

deliver_all-SameNotes :
    (e : Event) (os : List Binding) (failed : Bool) → Keeps SameNotes (deliver_all e os failed)
unfolding deliver_all
deliver_all-SameNotes e [] failed = Keeps-pure SameNotes-Related failed
deliver_all-SameNotes e (o ∷ os) failed =
    Keeps-bind _ _ SameNotes-Related (deliver-SameNotes e failed o)
      λ now. deliver_all-SameNotes e os now

conclude_dispatch-SameNotes :
    (c : Config) (e : Event) (failed : Bool) → Keeps SameNotes (conclude_dispatch c e failed)
unfolding conclude_dispatch
conclude_dispatch-SameNotes c e failed = record {
  at = λ b. elim (Bool-cases (failed && c.strict)) [
    | inl fatal ↦ rw fatal (SameNotes-Related.same b)
    | inr fine ↦ rw fine (SameNotes-Related.same b)
  ];
}

-- Whatever a dispatch ends in, the event is seen then, and an open bus stays open.
dispatch_event-seen :
    (c : Config) (e : Event) (b : Bus)
    → (any (λ k. k == event_key e) (dispatch_event c e b).1.seen ≡ true)
      × ((dispatch_event c e b).1.closed ≡ b.closed)
unfolding dispatch_event
dispatch_event-seen c e b = elim (Bool-cases (any (λ k. k == event_key e) b.seen)) [
  | inl old ↦ rw old (old, refl)
  | inr new ↦
      let s = record b { seen = event_key e ∷ b.seen } in
      let h =
        (Keeps-bind (deliver_all e c.observers false) (conclude_dispatch c e) SameNotes-Related
            (deliver_all-SameNotes e c.observers false) (λ f. conclude_dispatch-SameNotes c e f)).at
          s in
      let noted : any (λ k. k == event_key e) s.seen ≡ true = rw (beq_refl (event_key e)) in
      rw new (
        ap (λ (ks : List String). any (λ k. k == event_key e) ks) h.kept_seen ∙ noted,
        h.kept_closed,
      )
]

dispatch_event-old :
    (c : Config) (e : Event) (b : Bus)
    → any (λ k. k == event_key e) b.seen ≡ true
    → dispatch_event c e b ≡ (ok e, b)
unfolding dispatch_event
dispatch_event-old c e b old = simp old

emit-old :
    (c : Config) (e : Event) (b : Bus)
    → b.closed ≡ false
    → any (λ k. k == event_key e) b.seen ≡ true
    → ((emit_to_bus c e b).0 ≡ ok e) × ((emit_to_bus c e b).1.delivered ≡ b.delivered)
emit-old c e b open_bus old =
    let t = take_lock e b in
    let taken = take_lock-SameBus e b in
    let still : any (λ k. k == event_key e) t.seen ≡ true =
      ap (λ (ks : List String). any (λ k. k == event_key e) ks) taken.same_seen ∙ old in
    rw (emit-dispatch c e b open_bus, dispatch_event-old c e t still)
      (refl, (release_lock-SameBus e t).same_delivered ∙ taken.same_delivered)

emit-closed : (c : Config) (e : Event) (b : Bus) → b.closed ≡ true → emit_to_bus c e b ≡ (ok e, b)
unfolding emit_to_bus
emit-closed c e b shut = simp shut

-- An event that has been emitted once, whatever that ended in, is returned as it is when it is emitted
-- again, and no observer is shown it a second time.
pub emit_again :
    (c : Config) (e : Event) (b : Bus)
    → ((emit_to_bus c e (emit_to_bus c e b).1).0 ≡ ok e)
      × ((emit_to_bus c e (emit_to_bus c e b).1).1.delivered ≡ (emit_to_bus c e b).1.delivered)
emit_again c e b = elim (Bool-cases b.closed) [
  | inl shut ↦ rw (emit-closed c e b shut, emit-closed c e b shut) (refl, refl)
  | inr open_bus ↦
      let t = take_lock e b in
      let u = (dispatch_event c e t).1 in
      let taken = take_lock-SameBus e b in
      let freed = release_lock-SameBus e u in
      let (seen, closed) = dispatch_event-seen c e t in
      rw (emit-dispatch c e b open_bus) (
        emit-old c e (release_lock e u) (freed.same_closed ∙ closed ∙ taken.same_closed ∙ open_bus)
          (ap (λ (ks : List String). any (λ k. k == event_key e) ks) freed.same_seen ∙ seen))
]
