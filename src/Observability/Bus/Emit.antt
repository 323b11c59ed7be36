-- ===== src/Observability/Bus/Emit.antt =====
-- What `RuntimeEventBus.emit` delivers, when it raises, and what a repeated event does
-- (observability/bus.py).
use proteo_runtime.Prelude.{
  String, ◌≡◌, refl, ◌≢◌, ap, ◌∙◌, ◌⊎◌, inl, inr, Bool, true, false, ◌&&◌, List, ◌∷◌, ◌++◌, ◌==◌,
  string_eq, any, Bool-cases,
}
use proteo_runtime.Prelude.Dict.{has_key}
use proteo_runtime.Prelude.Result.{ok, raise}
use proteo_runtime.Core.Errors.{Py, cancelled_error}
use proteo_runtime.Observability.Failures.{Event, Config, Bus, Delivery}
use proteo_runtime.Observability.Bus.{
  deliver_all, enrich_terminal, event_key, lock_key, is_terminal_kind, conclude_dispatch,
  dispatch_event, release_lock, take_lock, emit_to_bus,
}
use proteo_runtime.Observability.Bus.Dispatch.{deliveries, bind-inl, bind-inr, deliver_all-cases}

-- The lock of an invocation is no part of what the bus shows.
pub record SameBus (b t : Bus) : Type 0 where
  pub same_delivered : t.delivered ≡ b.delivered
  pub same_seen : t.seen ≡ b.seen
  pub same_closed : t.closed ≡ b.closed

pub take_lock-SameBus : (e : Event) (b : Bus) → SameBus b (take_lock e b)
unfolding take_lock
take_lock-SameBus e b = elim (Bool-cases (has_key (lock_key e) b.locks)) [
  | inl held ↦ rw held (record { same_delivered = refl; same_seen = refl; same_closed = refl })
  | inr free ↦ rw free (record { same_delivered = refl; same_seen = refl; same_closed = refl })
]

pub release_lock-SameBus : (e : Event) (b : Bus) → SameBus b (release_lock e b)
unfolding release_lock
release_lock-SameBus e b = elim (Bool-cases (is_terminal_kind e.kind)) [
  | inl last ↦ rw last (record { same_delivered = refl; same_seen = refl; same_closed = refl })
  | inr more ↦ rw more (record { same_delivered = refl; same_seen = refl; same_closed = refl })
]

conclude_dispatch-delivered :
    (c : Config) (e : Event) (failed : Bool) (b : Bus) → (conclude_dispatch c e failed b).1 ≡ b
unfolding conclude_dispatch
conclude_dispatch-delivered c e failed b = elim (Bool-cases (failed && c.strict)) [
  | inl fatal ↦ rw fatal
  | inr fine ↦ rw fine
]

conclude_dispatch-lenient :
    (c : Config) (e : Event) (failed : Bool) (b : Bus)
    → c.strict ≡ false
    → (conclude_dispatch c e failed b).0 ≡ ok (enrich_terminal e b)
unfolding conclude_dispatch
conclude_dispatch-lenient c e true b lenient = rw lenient
conclude_dispatch-lenient c e false b lenient = refl

-- How a new event leaves an open bus: cancelled, or shown to all observers.
dispatch_event-cases :
    (c : Config) (e : Event) (b : Bus)
    → any (λ k. k == event_key e) b.seen ≡ false
    → ((dispatch_event c e b).0 ≡ raise cancelled_error)
      ⊎ (((dispatch_event c e b).1.delivered ≡ b.delivered ++ deliveries e c.observers)
          × (c.strict ≡ false → (x : Event) × ((dispatch_event c e b).0 ≡ ok x)))
unfolding dispatch_event
dispatch_event-cases c e b new =
    let s = record b { seen = event_key e ∷ b.seen } in
    let m = deliver_all e c.observers false in
    rw new (elim (deliver_all-cases e c.observers false s) [
      | inl stopped ↦ inl (
          ap (λ (x : Py Event × Bus). x.0)
            (bind-inl m (conclude_dispatch c e) s cancelled_error stopped))
      | inr all ↦ rw (bind-inr m (conclude_dispatch c e) s all.now all.returned) (
          inr (
            ap (λ (x : Bus). x.delivered) (conclude_dispatch-delivered c e all.now (m s).1)
                ∙ all.shown,
            λ lenient.
                (enrich_terminal e (m s).1, conclude_dispatch-lenient c e all.now (m s).1 lenient),
          ))
    ])

pub emit-dispatch :
    (c : Config) (e : Event) (b : Bus)
    → b.closed ≡ false
    → emit_to_bus c e b ≡ (
      (dispatch_event c e (take_lock e b)).0,
      release_lock e (dispatch_event c e (take_lock e b)).1,
    )
unfolding emit_to_bus
emit-dispatch c e b open_bus = simp open_bus

-- An event that an open bus has not seen is shown, unless the caller is cancelled, to every observer that
-- is not disabled, once and in the order of the bindings, whichever of them fail and whether or not the
-- bus is strict.
pub emit_to_bus-deliveries :
    (c : Config) (e : Event) (b : Bus)
    → b.closed ≡ false
    → any (λ k. k == event_key e) b.seen ≡ false
    → (emit_to_bus c e b).0 ≢ raise cancelled_error
    → (emit_to_bus c e b).1.delivered ≡ b.delivered ++ deliveries e c.observers
emit_to_bus-deliveries c e b open_bus new alive =
    let t = take_lock e b in
    let taken = take_lock-SameBus e b in
    let fresh : any (λ k. k == event_key e) t.seen ≡ false =
      ap (λ (ks : List String). any (λ k. k == event_key e) ks) taken.same_seen ∙ new in
    elim (dispatch_event-cases c e t fresh) [
      | inl stopped ↦
          absurd (alive (ap (λ (x : Py Event × Bus). x.0) (emit-dispatch c e b open_bus) ∙ stopped))
      | inr (shown, lenient) ↦
          ap (λ (x : Py Event × Bus). x.1.delivered) (emit-dispatch c e b open_bus)
          ∙ (release_lock-SameBus e (dispatch_event c e t).1).same_delivered
          ∙ shown
          ∙ ap (λ (ds : List Delivery). ds ++ deliveries e c.observers) taken.same_delivered
    ]

-- A bus that is not strict lets no failure of an observer out: `emit` returns, unless the caller is
-- cancelled.
pub emit_to_bus-lenient :
    (c : Config) (e : Event) (b : Bus)
    → c.strict ≡ false
    → ((emit_to_bus c e b).0 ≡ raise cancelled_error)
      ⊎ ((x : Event) × ((emit_to_bus c e b).0 ≡ ok x))
unfolding emit_to_bus dispatch_event
emit_to_bus-lenient c e b lenient = elim (Bool-cases b.closed) [
  | inl shut ↦ inr (e, simp shut)
  | inr open_bus ↦ elim (Bool-cases (any (λ k. k == event_key e) (take_lock e b).seen)) [
    | inl old ↦ inr (e, simp (open_bus, old))
    | inr new ↦ simp open_bus (elim (dispatch_event-cases c e (take_lock e b) new) [
      | inl stopped ↦ inl stopped
      | inr (shown, fine) ↦ inr (fine lenient)
    ])
  ]
]
