-- ===== src/Codex/Runner/Ending.antt =====
-- The terminal events of a completed turn without an event sink (providers/codex/_runner.py).
use proteo_runtime.Prelude.{
  ℕ, ◌+◌, String, ◌≡◌, refl, ◌∙◌, inl, inr, Bool-cases, Bool, true, false, Option, none, some, List,
  [], ◌∷◌, ◌++◌, ◌==◌, string_eq, arith,
}
use proteo_runtime.Prelude.Result.{ok, raise}
use proteo_runtime.Core.Errors.{
  Py, Exc, agent, cancelled_error, timeout_error, value_error, type_error, other_error, error,
  interrupted,
}
use proteo_runtime.Core.Events.{RuntimeEventKind}
use proteo_runtime.Core.Effects.{Method, throw, ◌>>=◌, ◌>>◌}
use proteo_runtime.Codex.Turns.{RuntimeResult, SdkTurn}
use proteo_runtime.Codex.Publishing.{
  Metadata, Invocation, Turn, RuntimeEvent, turn_event, emit_event, publish, accept, send,
  yield_event, announce, retain,
}
use proteo_runtime.Codex.Runner.{modify, status_metadata, settle_status, conclude, events}

-- The events that end an invocation.
abbrev pub is_end : RuntimeEventKind → ℕ
is_end RuntimeEventKind.invocation_completed = 1
is_end RuntimeEventKind.invocation_failed = 1
is_end RuntimeEventKind.cancelled = 1
is_end _ = 0

abbrev pub ends : List RuntimeEvent → ℕ
ends [] = 0
ends (e ∷ es) = is_end e.kind + ends es

pub ends-snoc :
    (es : List RuntimeEvent) (e : RuntimeEvent) → ends (es ++ e ∷ []) ≡ ends es + is_end e.kind
ends-snoc [] e = omega arith
ends-snoc (x ∷ es) e = omega (arith, ends-snoc es e)

-- What remains after a completed turn: nothing raised, or an error of the runtime.
abbrev pub is_plain : Py (Unit {0}) → Bool
is_plain (ok u) = true
is_plain (raise (agent e)) = true
is_plain (raise _) = false

abbrev pub no_foreign : Option Exc → Bool
no_foreign none = true
no_foreign (some (agent e)) = true
no_foreign (some _) = false

pub bind-ok :
    {A B : Type 0} (m : Method Turn A) (f : A → Method Turn B) (s t : Turn) (a : A)
    → m s ≡ (ok a, t)
    → (m >>= f) s ≡ f a t
unfolding ◌>>=◌
bind-ok m f s t a h = rw h

pub bind-raise :
    {A B : Type 0} (m : Method Turn A) (f : A → Method Turn B) (s t : Turn) (e : Exc)
    → m s ≡ (raise e, t)
    → (m >>= f) s ≡ (raise e, t)
unfolding ◌>>=◌
bind-raise m f s t e h = rw h

pub modify-ok : (f : Turn → Turn) (s : Turn) → modify f s ≡ (ok tt, f s)
unfolding modify
modify-ok f s = refl

abbrev pub sent :
    Invocation → RuntimeEventKind → Metadata → Metadata → Option RuntimeResult → Turn → Turn
sent i kind m p r s =
    let e = turn_event i s kind m p r in
    record s {
      sequence = s.sequence + 1;
      published = s.published ++ e ∷ [];
      yielded = s.yielded ++ e ∷ [];
      result = retain r s.result;
    }

-- What the branches on the status of a turn leave: no end yet, and no error but those of the runtime.
pub record Judged (s : Turn) (x : Py (Unit {0}) × Turn) : Type 0 where
  pub returned : x.0 ≡ ok tt
  pub same_ends : ends x.1.published ≡ ends s.published
  pub same_status : x.1.terminal_status ≡ s.terminal_status
  pub own_error : no_foreign x.1.terminal_error ≡ true

-- What the end of a turn leaves: one end more.
pub record Ended (s : Turn) (x : Py (Unit {0}) × Turn) : Type 0 where
  pub plain : is_plain x.0 ≡ true
  pub one_end : ends x.1.published ≡ ends s.published + 1
  pub status_kept : x.1.terminal_status ≡ s.terminal_status

pub bind-returned :
    {A B : Type 0} (m : Method Turn A) (f : A → Method Turn B) (s : Turn) (a : A)
    → (m s).0 ≡ ok a
    → (m >>= f) s ≡ f a (m s).1
unfolding ◌>>=◌
bind-returned m f s a h = rw h

module _ (i : Invocation) (silent : i.event_sink ≡ none) where
  pub announce-silent :
      (kind : RuntimeEventKind) (m p : Metadata) (r : Option RuntimeResult) (s : Turn)
      → announce i kind m p r s ≡ (ok tt, sent i kind m p r s)
  unfolding announce emit_event publish send accept yield_event ◌>>=◌ turn_event
  announce-silent kind m p r s = rw silent

  pub ends-sent :
      (kind : RuntimeEventKind) (m p : Metadata) (r : Option RuntimeResult) (s : Turn)
      → ends (sent i kind m p r s).published ≡ ends s.published + is_end kind
  unfolding turn_event
  ends-sent kind m p r s = ends-snoc s.published (turn_event i s kind m p r)

  -- One event after a change of fields.
  pub modify-announce :
      (f : Turn → Turn) (kind : RuntimeEventKind) (m p : Metadata) (r : Option RuntimeResult)
      (s : Turn)
      → (modify f >> announce i kind m p r) s ≡ (ok tt, sent i kind m p r (f s))
  unfolding modify
  modify-announce f kind m p r s =
      bind-ok (modify f) (λ u. announce i kind m p r) s (f s) tt refl
      ∙ announce-silent kind m p r (f s)

  -- A branch that sets a field and announces one event of the turn.
  modify-announce-Judged :
      (f : Turn → Turn) (kind : RuntimeEventKind) (m : Metadata) (s : Turn)
      → is_end kind ≡ 0
      → (f s).published ≡ s.published
      → (f s).terminal_status ≡ s.terminal_status
      → no_foreign (f s).terminal_error ≡ true
      → Judged s ((modify f >> announce i kind m [] none) s)
  modify-announce-Judged f kind m s quiet events status fine =
      rw (modify-announce f kind m [] none s) (record {
        returned = refl;
        same_ends = rw (ends-sent kind m [] none (f s), quiet, events) (omega arith);
        same_status = status;
        own_error = fine;
      })

  pub settle_status-Judged :
      (t : SdkTurn) (status : String) (s : Turn)
      → s.terminal_error ≡ none
      → Judged s (settle_status i t status s)
  unfolding settle_status error
  settle_status-Judged t status s clean = elim (Bool-cases (status == "interrupted")) [
    | inl hit ↦
        let f : Turn → Turn = λ s. record s { terminal_error = some (error interrupted) } in
        let m = status_metadata status in
        let first = sent i RuntimeEventKind.turn_interrupted m [] none (f s) in
        rw
          (
            hit,
            bind-ok (modify f) _ s (f s) tt (modify-ok f s),
            bind-ok (announce i _ _ _ _) _ (f s) _ tt (announce-silent _ _ _ _ (f s)),
            announce-silent,
          )
          (record {
            returned = refl;
            same_ends = omega (
              arith,
              ends-sent RuntimeEventKind.interrupted m [] none first,
              ends-sent RuntimeEventKind.turn_interrupted m [] none (f s),
            );
            same_status = refl;
            own_error = refl;
          })
    | inr miss ↦ elim (Bool-cases (status == "completed")) [
      | inl done ↦ rw (miss, done) (modify-announce-Judged _ _ _ s refl refl refl (rw clean refl))
      | inr other ↦ rw (miss, other) (modify-announce-Judged _ _ _ s refl refl refl refl)
    ]
  ]

  pub conclude-Ended :
      (status : String) (o : Option Exc) (r : Option RuntimeResult) (s : Turn)
      → no_foreign o ≡ true
      → Ended s (conclude i status o r s)
  unfolding conclude throw
  conclude-Ended status none r s own = rw announce-silent (record {
    plain = refl;
    one_end = ends-sent RuntimeEventKind.invocation_completed (status_metadata status) [] r s;
    status_kept = refl;
  })
  conclude-Ended status (some (agent e)) r s own =
      rw (bind-ok (announce i _ _ _ _) _ s _ tt (announce-silent _ _ _ _ s)) (record {
        plain = refl;
        one_end = ends-sent RuntimeEventKind.invocation_failed (status_metadata status) [] none s;
        status_kept = refl;
      })
  conclude-Ended status (some cancelled_error) r s own = absurd (cc)
  conclude-Ended status (some timeout_error) r s own = absurd (cc)
  conclude-Ended status (some value_error) r s own = absurd (cc)
  conclude-Ended status (some type_error) r s own = absurd (cc)
  conclude-Ended status (some (other_error f)) r s own = absurd (cc)
