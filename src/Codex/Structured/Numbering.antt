-- ===== src/Codex/Structured/Numbering.antt =====
-- The numbering of the events of structured output (providers/codex/_structured.py, `_events`).
use mathlib.Core.List.{append-nil, append_assoc}
use proteo_runtime.Prelude.{
  ℕ, zero, suc, ◌+◌, String, ◌≡◌, refl, sym, ap, subst, ◌∙◌, Bool, leb, Option, none, some, List,
  [], ◌∷◌, ◌++◌, string_eq, length, length-append, arith,
}
use proteo_runtime.Prelude.Result.{ok, raise}
use proteo_runtime.Core.Errors.{
  Py, agent, cancelled_error, timeout_error, value_error, type_error, other_error,
}
use proteo_runtime.Core.Events.{RuntimeEventKind}
use proteo_runtime.Core.Effects.{Method, Related, Keeps}
use proteo_runtime.Core.Effects.Rules.{keeps_rules, Keeps-pure, Keeps-throw, Keeps-bind, Keeps-if}
use proteo_runtime.Codex.Turns.{RuntimeResult}
use proteo_runtime.Codex.Publishing.{Metadata, RuntimeEvent, Turn}
use proteo_runtime.Codex.Validation.{Schema, Validation, valid, invalid, validate_output}
use proteo_runtime.Codex.Attempts.{
  Handle, Run, Host, StructuredEvent, Outcome, Attempts, new_attempts, change, receive,
  publish_next, logical_event, relayed_event, is_buffered, relay, interrupt_or_invalidate,
  stop_unsettled, drain,
}
use proteo_runtime.Codex.Structured.{
  start_retry, exhaust, try_again, on_validation, on_turn, validation_loop, leave, without_sink,
  try_attempts, guard_attempts,
}

-- Numbered n, n + 1, … and carrying the logical identifier.
abbrev pub IsNumbered : String → ℕ → List StructuredEvent → Type 0
IsNumbered id n [] = Unit {0}
IsNumbered id n (e ∷ es) = (e.sequence ≡ n) × (e.invocation_id ≡ id) × IsNumbered id (n + 1) es

pub record Numbered (id : String) (s t : Attempts) : Type 0 where
  pub sent : List StructuredEvent
  pub extended : t.published ≡ s.published ++ sent
  pub numbered : IsNumbered id s.sequence sent
  pub counted : t.sequence ≡ s.sequence + length sent

IsNumbered-append :
    (id : String) (n m : ℕ) (es fs : List StructuredEvent)
    → IsNumbered id n es
    → m ≡ n + length es
    → IsNumbered id m fs
    → IsNumbered id n (es ++ fs)
IsNumbered-append id n m [] fs h e k =
    let same : m ≡ n = omega arith in subst (λ (x : ℕ). IsNumbered id x fs) same k
IsNumbered-append id n m (x ∷ es) fs (a, b, rest) e k =
    (a, b, IsNumbered-append id (n + 1) m es fs rest (omega arith) k)

receive-sent :
    (r : Py StructuredEvent) (s : Attempts)
    → ((receive r s).1.published ≡ s.published) × ((receive r s).1.sequence ≡ s.sequence)
unfolding receive
receive-sent (ok e) s = (refl, refl)
receive-sent (raise x) s = (refl, refl)

module _ (h : Host) where
  abbrev Stays : {A : Type 0} → Method Attempts A → Type 0
  Stays m = Keeps (Numbered (h.uuid4 0)) m

  unsent :
      (s t : Attempts)
      → t.published ≡ s.published
      → t.sequence ≡ s.sequence
      → Numbered (h.uuid4 0) s t
  unsent s t e n = record {
    sent = [];
    extended = e ∙ sym (append-nil s.published);
    numbered = tt;
    counted = omega arith;
  }

  Numbered-Related : Related (Numbered (h.uuid4 0))
  Numbered-Related = record {
    same = λ s. unsent s s refl refl;
    then_to = λ s t u a b. record {
      sent = a.sent ++ b.sent;
      extended =
          b.extended
          ∙ ap (λ (x : List StructuredEvent). x ++ b.sent) a.extended
          ∙ append_assoc s.published a.sent b.sent;
      numbered =
          IsNumbered-append _ s.sequence t.sequence a.sent b.sent a.numbered a.counted b.numbered;
      counted = omega (arith, a.counted, b.counted, length-append {0} a.sent b.sent);
    };
  }

  publish_next-Numbered :
      (event : ℕ → StructuredEvent)
      → ((n : ℕ) → (event n).sequence ≡ n)
      → ((n : ℕ) → (event n).invocation_id ≡ h.uuid4 0)
      → Stays (publish_next h event)
  unfolding publish_next
  publish_next-Numbered event number id = record {
    at = λ s.
        let sent = s.published ++ event s.sequence ∷ [] in
        let (same, next) =
          receive-sent (h.dispatch sent)
            (record s { sequence = s.sequence + 1; published = sent }) in
        record {
          sent = event s.sequence ∷ [];
          extended = same;
          numbered = (number s.sequence, id s.sequence, tt);
          counted = next;
        };
  }

  logical-Numbered :
      (kind : RuntimeEventKind) (m : Metadata) (o : Outcome) (t : Option String)
      → Stays (publish_next h (logical_event h kind m o t))
  unfolding logical_event
  logical-Numbered kind m o t = publish_next-Numbered _ (λ n. refl) (λ n. refl)

  change-Numbered :
      (f : Attempts → Attempts)
      → ((s : Attempts) → (f s).published ≡ s.published)
      → ((s : Attempts) → (f s).sequence ≡ s.sequence)
      → Stays (change f)
  unfolding change
  change-Numbered f a b = record { at = λ s. unsent s (f s) (a s) (b s) }

  relay-Numbered : (attempt : ℕ) (es : List RuntimeEvent) → Stays (relay h attempt es)
  unfolding relay relayed_event
  relay-Numbered attempt [] = Keeps-pure Numbered-Related tt
  relay-Numbered attempt (e ∷ es) =
      Keeps-if (is_buffered e.kind) _ _ (λ hit. relay-Numbered attempt es)
        (λ miss.
          Keeps-bind _ _ Numbered-Related (publish_next-Numbered _ (λ n. refl) (λ n. refl))
            λ u. relay-Numbered attempt es)

  interrupt-Numbered : (r : Py (Unit {0})) → Stays (interrupt_or_invalidate h r)
  unfolding interrupt_or_invalidate
  interrupt-Numbered (ok u) = Keeps-pure Numbered-Related tt
  interrupt-Numbered (raise cancelled_error) = Keeps-throw Numbered-Related cancelled_error
  interrupt-Numbered (raise (agent e)) = search (keeps_rules, change-Numbered, Numbered-Related)
  interrupt-Numbered (raise timeout_error) = search (keeps_rules, change-Numbered, Numbered-Related)
  interrupt-Numbered (raise value_error) = search (keeps_rules, change-Numbered, Numbered-Related)
  interrupt-Numbered (raise type_error) = search (keeps_rules, change-Numbered, Numbered-Related)
  interrupt-Numbered (raise (other_error f)) =
      search (keeps_rules, change-Numbered, Numbered-Related)

  stop_unsettled-Numbered : (r : Run) (o : Option String) → Stays (stop_unsettled h r o)
  unfolding stop_unsettled
  stop_unsettled-Numbered r none = interrupt-Numbered r.invocation.interrupt_outcome
  stop_unsettled-Numbered r (some status) = Keeps-pure Numbered-Related tt

  drain-Numbered : (r : Run) → Stays (drain h r)
  unfolding drain
  drain-Numbered r =
      Keeps-bind _ _ Numbered-Related (change-Numbered _ (λ s. refl) (λ s. refl)) λ u.
        Keeps-bind _ _ Numbered-Related (stop_unsettled-Numbered r _)
          λ v. search (keeps_rules, change-Numbered, Numbered-Related)

  start_retry-Numbered :
      (thread : Option (ℕ → String → Py Handle)) (raw : Bool) (attempt : ℕ) (paths : List String)
      (r : Run)
      → Stays (start_retry h thread raw attempt paths r)
  unfolding start_retry
  start_retry-Numbered none raw attempt paths r = Keeps-throw Numbered-Related _
  start_retry-Numbered (some turn) raw attempt paths r =
      search (keeps_rules, change-Numbered, Numbered-Related)

  module _ (max : ℕ) (raw : Bool) (attempt : ℕ) (next : Run → Method Attempts (Unit {0})) where
    on_validation-Numbered :
        ((r : Run) → Stays (next r))
        → (result : RuntimeResult) (r : Run) (v : Validation)
        → Stays (on_validation h max raw attempt result r next v)
    unfolding on_validation exhaust try_again
    on_validation-Numbered rest result r (valid value) = record {
      at = λ s. (logical-Numbered _ _ _ _).at s;
    }
    on_validation-Numbered rest result r (invalid paths) =
        Keeps-bind _ _ Numbered-Related (logical-Numbered _ _ _ _) λ u.
          Keeps-if (leb max attempt) _ _
            (λ last.
              Keeps-bind _ _ Numbered-Related (logical-Numbered _ _ _ _)
                λ v. Keeps-throw Numbered-Related _)
            (λ more. Keeps-bind _ _ Numbered-Related (logical-Numbered _ _ _ _) λ v.
              Keeps-bind _ _ Numbered-Related (start_retry-Numbered h.thread raw attempt paths r)
                rest)

    on_turn-Numbered :
        ((r : Run) → Stays (next r))
        → (c : Schema) (r : Run) (turn : Turn) (o : Option RuntimeResult)
        → Stays (on_turn h c max raw attempt r next turn o)
    unfolding on_turn
    on_turn-Numbered rest c r turn none =
        Keeps-bind _ _ Numbered-Related (logical-Numbered _ _ _ _)
          λ u. Keeps-throw Numbered-Related _
    on_turn-Numbered rest c r turn (some result) =
        Keeps-bind _ _ Numbered-Related (change-Numbered _ (λ s. refl) (λ s. refl)) λ u.
          Keeps-bind _ _ Numbered-Related (relay-Numbered attempt turn.yielded)
            λ v. on_validation-Numbered rest result r (validate_output c result.output)

  validation_loop-Numbered :
      (c : Schema) (max : ℕ) (raw : Bool) (left attempt : ℕ) (r : Run)
      → Stays (validation_loop h c max raw left attempt r)
  unfolding validation_loop
  validation_loop-Numbered c max raw zero attempt r = Keeps-pure Numbered-Related tt
  validation_loop-Numbered c max raw (suc left) attempt r =
      Keeps-bind _ _ Numbered-Related (drain-Numbered r) λ turn.
        on_turn-Numbered max raw attempt _
          (λ retry. validation_loop-Numbered c max raw left (attempt + 1) retry) c r turn
          turn.result

  try_attempts-Numbered :
      (c : Schema) (max : ℕ) (raw : Bool) (m : Metadata) (r : Run)
      → Stays (try_attempts h c max raw m r)
  unfolding try_attempts
  try_attempts-Numbered c max raw m r =
      Keeps-bind _ _ Numbered-Related (logical-Numbered _ _ _ _)
        λ u. validation_loop-Numbered c max raw max 1 (without_sink r)

  -- However often the provider is asked again, whatever its turns end in and whatever the bus does, the
  -- events that structured output publishes are numbered without a gap from 0, across its turns, and carry
  -- one logical identifier.
  pub guard_attempts-Numbered :
      (c : Schema) (max : ℕ) (raw : Bool) (m : Metadata) (r : Run)
      → Numbered (h.uuid4 0) new_attempts (guard_attempts h c max raw m r new_attempts).1
  unfolding guard_attempts leave
  guard_attempts-Numbered c max raw m r =
      let a = (try_attempts-Numbered c max raw m r).at new_attempts in
      record { sent = a.sent; extended = a.extended; numbered = a.numbered; counted = a.counted }
