-- ===== src/Codex/Structured/Progress.antt =====
-- When structured output returns (providers/codex/_structured.py, `_events`).
use proteo_runtime.Prelude.{
  ℕ, suc, ◌+◌, String, ◌≡◌, refl, Bool, true, false, Option, none, some, List, [], ◌∷◌, ◌++◌,
  string_eq, arith, if◌then◌else◌,
}
use proteo_runtime.Prelude.Result.{ok, raise}
use proteo_runtime.Core.Errors.{Py}
use proteo_runtime.Core.Effects.{Method, pure, lift, ◌>>=◌}
use proteo_runtime.Tools.Values.{Value}
use proteo_runtime.Codex.Turns.{RuntimeResult}
use proteo_runtime.Codex.Publishing.{Metadata, RuntimeEvent, Turn, new_turn}
use proteo_runtime.Codex.Runner.{events}
use proteo_runtime.Codex.Runner.Results.{events-Settled}
use proteo_runtime.Codex.Validation.{Schema, valid, validate_output}
use proteo_runtime.Codex.Attempts.{
  Run, Host, StructuredEvent, Attempts, new_attempts, change, receive, publish_next, is_buffered,
  relay, relayed_event, stop_unsettled, drain,
}
use proteo_runtime.Codex.Structured.Tally.{Completed}
use proteo_runtime.Codex.Structured.Completion.{guard_attempts-Completed}
use proteo_runtime.Codex.Structured.{
  on_validation, on_turn, validation_loop, without_sink, try_attempts, guard_attempts,
}

abbrev Returns : {A : Type 0} → Method Attempts A → A → Type 0
Returns m a = (s : Attempts) → (m s).0 ≡ ok a

Returns-bind :
    {A B : Type 0} (m : Method Attempts A) (f : A → Method Attempts B) (a : A) (b : B)
    → Returns m a
    → Returns (f a) b
    → Returns (m >>= f) b
unfolding ◌>>=◌
Returns-bind m f a b h k s = rw (h s) (k (m s).1)

Returns-if :
    {A : Type 0} (b : Bool) (m k : Method Attempts A) (a : A)
    → Returns m a
    → Returns k a
    → Returns (if b then m else k) a
Returns-if true m k a p q = p
Returns-if false m k a p q = q

receive-ok :
    (r : Py StructuredEvent) (e : StructuredEvent) (s : Attempts)
    → r ≡ ok e
    → (receive r s).0 ≡ ok tt
unfolding receive
receive-ok (ok x) e s h = refl
receive-ok (raise x) e s h = absurd (cc)

change-Returns : (f : Attempts → Attempts) → Returns (change f) tt
unfolding change
change-Returns f s = refl

pure-Returns : {A : Type 0} (a : A) → Returns (pure a) a
unfolding pure
pure-Returns a s = refl

lift-Returns : (r : Py (Unit {0})) → r ≡ ok tt → Returns (lift r) tt
unfolding lift
lift-Returns r h s = h

stop-Returns :
    (h : Host) (r : Run) (o : Option String) (status : String)
    → o ≡ some status
    → Returns (stop_unsettled h r o) tt
unfolding stop_unsettled
stop-Returns h r (some x) status settled = pure-Returns tt
stop-Returns h r none status settled = absurd (cc)

-- A run whose turn completes is drained.
drain-Returns :
    (h : Host) (r : Run)
    → (events r.invocation r.notifications r.ending (new_turn r.invocation r.cleanup)).0 ≡ ok tt
    → Returns
        (drain h r)
        (events r.invocation r.notifications r.ending (new_turn r.invocation r.cleanup)).1
unfolding drain
drain-Returns h r fine =
    let (outcome, turn) =
      events r.invocation r.notifications r.ending (new_turn r.invocation r.cleanup) in
    let settled = events-Settled r.invocation r.notifications r.ending r.cleanup fine in
    Returns-bind _ _ tt turn (change-Returns _) (
      Returns-bind _ _ tt turn (stop-Returns h r turn.terminal_status "completed" settled.completed)
        (Returns-bind _ _ tt turn (change-Returns _)
          (Returns-bind _ _ tt turn (lift-Returns outcome fine) (pure-Returns turn))))

module _ (h : Host)
    (quiet : (sent : List StructuredEvent) → (e : StructuredEvent) × (h.dispatch sent ≡ ok e)) where
  publish_next-Returns : (event : ℕ → StructuredEvent) → Returns (publish_next h event) tt
  unfolding publish_next
  publish_next-Returns event s =
      let sent = s.published ++ event s.sequence ∷ [] in
      let (e, fine) = quiet sent in
      receive-ok (h.dispatch sent) e (record s { sequence = s.sequence + 1; published = sent }) fine

  relay-Returns : (attempt : ℕ) (es : List RuntimeEvent) → Returns (relay h attempt es) tt
  unfolding relay
  relay-Returns attempt [] = pure-Returns tt
  relay-Returns attempt (e ∷ es) =
      Returns-if (is_buffered e.kind) _ _ tt (relay-Returns attempt es) (
        Returns-bind _ _ tt tt (publish_next-Returns (relayed_event h attempt e))
          (relay-Returns attempt es))

  on_turn-Returns :
      (c : Schema) (max : ℕ) (raw : Bool) (r : Run) (next : Run → Method Attempts (Unit {0}))
      (turn : Turn) (o : Option RuntimeResult) (result : RuntimeResult) (value : Value)
      → o ≡ some result
      → validate_output c result.output ≡ valid value
      → Returns (on_turn h c max raw 1 r next turn o) tt
  unfolding on_turn on_validation
  on_turn-Returns c max raw r next turn none result value found fine = absurd (cc)
  on_turn-Returns c max raw r next turn (some x) result value found fine =
      let same : x ≡ result = cc in
      Returns-bind _ _ tt tt (change-Returns _) (
        Returns-bind _ _ tt tt (relay-Returns 1 turn.yielded)
          (rw (same, fine) (λ s. publish_next-Returns _ s)))

  validation_loop-Returns :
      (c : Schema) (max left : ℕ) (raw : Bool) (r : Run) (result : RuntimeResult) (value : Value)
      → (events r.invocation r.notifications r.ending (new_turn r.invocation r.cleanup)).0 ≡ ok tt
      → (events r.invocation r.notifications r.ending (new_turn r.invocation r.cleanup)).1.result
        ≡ some result
      → validate_output c result.output ≡ valid value
      → Returns (validation_loop h c max raw (suc left) 1 r) tt
  unfolding validation_loop
  validation_loop-Returns c max left raw r result value ended found fine =
      let turn =
        (events r.invocation r.notifications r.ending (new_turn r.invocation r.cleanup)).1 in
      Returns-bind _ _ turn tt (drain-Returns h r ended)
        (on_turn-Returns c max raw r _ turn turn.result result value found fine)

  returns :
      (c : Schema) (left : ℕ) (raw : Bool) (m : Metadata) (r : Run) (result : RuntimeResult)
      (value : Value)
      → (let q = without_sink r in
          (events q.invocation q.notifications q.ending (new_turn q.invocation q.cleanup)).0
          ≡ ok tt)
      → (let q = without_sink r in
          (events q.invocation q.notifications q.ending (new_turn q.invocation q.cleanup)).1.result
          ≡ some result)
      → validate_output c result.output ≡ valid value
      → (guard_attempts h c (suc left) raw m r new_attempts).0 ≡ ok tt
  unfolding guard_attempts try_attempts
  returns c left raw m r result value ended found fine =
      Returns-bind _ _ tt tt (publish_next-Returns _)
        (validation_loop-Returns c (suc left) left raw (without_sink r) result value ended found
          fine)
        new_attempts

  -- With a bus that accepts its events, and with at least one attempt, structured output whose first turn
  -- completes with an output that the schema accepts returns, and has then completed the invocation: one
  -- event, the last, carries a validated value of the last turn and the usage of all turns.
  pub guard_attempts-returns :
      (c : Schema) (left : ℕ) (raw : Bool) (m : Metadata) (r : Run) (result : RuntimeResult)
      (value : Value)
      → (let q = without_sink r in
          (events q.invocation q.notifications q.ending (new_turn q.invocation q.cleanup)).0
          ≡ ok tt)
      → (let q = without_sink r in
          (events q.invocation q.notifications q.ending (new_turn q.invocation q.cleanup)).1.result
          ≡ some result)
      → validate_output c result.output ≡ valid value
      → ((guard_attempts h c (suc left) raw m r new_attempts).0 ≡ ok tt)
        × Completed c new_attempts (guard_attempts h c (suc left) raw m r new_attempts).1
  guard_attempts-returns c left raw m r result value ended found fine =
      let back = returns c left raw m r result value ended found fine in
      (back, guard_attempts-Completed c h (suc left) raw m r (omega arith) back)
