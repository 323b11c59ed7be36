-- ===== src/Codex/Structured/Completion.antt =====
-- What structured output returns (providers/codex/_structured.py, `_events`).
use proteo_runtime.Prelude.{
  ℕ, zero, suc, ◌+◌, ◌≤◌, ◌≡◌, ◌≢◌, refl, sym, ap, subst, ◌∙◌, Bool, true, false, leb, Option, none,
  some, List, [], ◌∷◌, ◌++◌, string_eq, length, length-append, arith, if◌then◌else◌,
}
use proteo_runtime.Prelude.Result.{ok}
use proteo_runtime.Core.Errors.{Py, Exc}
use proteo_runtime.Core.Events.{RuntimeEventKind}
use proteo_runtime.Core.Effects.{Method, throw, ◌>>=◌, Keeps}
use proteo_runtime.Core.Effects.Rules.{bind-returned}
use proteo_runtime.Tools.Values.{Value, str_value}
use proteo_runtime.Codex.Turns.{RuntimeUsage, RuntimeResult}
use proteo_runtime.Codex.Publishing.{Metadata, Turn}
use proteo_runtime.Codex.Validation.{
  Schema, Validation, valid, invalid, validate_output, aggregate_usage,
}
use proteo_runtime.Codex.Attempts.{
  Run, Host, Attempts, new_attempts, change, publish_next, logical_event, validated, relay, drain,
  no_result,
}
use proteo_runtime.Codex.Structured.{
  exhaust, try_again, on_validation, on_turn, validation_loop, leave, without_sink, try_attempts,
  guard_attempts, structured_error, structured_result, attempt_metadata,
}
use proteo_runtime.Codex.Structured.Tally.{
  Completed, Completed-after, Drained, usages_of, usages_of-snoc,
}
use proteo_runtime.Codex.Structured.Turns.{
  Apart, receive-same, logical-Apart, relay-Apart, start_retry-Apart, drain-Apart, drained_to,
  drain-Gives,
}

module _ (c : Schema) where
  -- A method that starts with the usages of the drained runs and returns has completed the invocation.
  abbrev Completes : Method Attempts (Unit {0}) → Type 0
  Completes m =
      (s : Attempts) → s.usages ≡ usages_of s.drained → (m s).0 ≡ ok tt → Completed c s (m s).1

  Completes-bind :
      {A : Type 0} (m : Method Attempts A) (f : A → Method Attempts (Unit {0}))
      → Keeps Apart m
      → ((a : A) → Completes (f a))
      → Completes (m >>= f)
  Completes-bind m f p q s tallied h =
      let (a, fine, same) = bind-returned m f s tt h in
      let returned = ap (λ (x : Py (Unit {0}) × Attempts). x.0) (sym same) ∙ h in
      rw same (
        Completed-after c s (m s).1 (f a (m s).1).1 (p.at s) (
          q a (m s).1 ((p.at s).same_usages ∙ tallied ∙ ap usages_of (sym (p.at s).same_drained))
            returned))

  Completes-if :
      (b : Bool) (m k : Method Attempts (Unit {0}))
      → (b ≡ true → Completes m)
      → (b ≡ false → Completes k)
      → Completes (if b then m else k)
  Completes-if true m k p q = p refl
  Completes-if false m k p q = q refl

  throw-returned :
      {A : Type 0} (m : Method Attempts A) (e : Exc) (s : Attempts)
      → ((m >>= λ u. throw e) s).0 ≢ ok tt
  unfolding throw
  throw-returned m e s h =
      let (a, fine, same) = bind-returned m _ s tt h in
      let clash = ap (λ (x : Py (Unit {0}) × Attempts). x.0) (sym same) ∙ h in absurd (cc)

  -- The terminal event, of usages that the turns have given.
  finish-Completed :
      (h : Host) (raw : Bool) (attempt : ℕ) (m : Metadata) (value : Value) (result : RuntimeResult)
      (t : Attempts)
      → validate_output c result.output ≡ valid value
      → Drained result t
      → Completed c t
          (publish_next h
            (logical_event h RuntimeEventKind.invocation_completed m
              (validated (structured_result raw value t.usages result))
              none)
            t).1
  unfolding publish_next logical_event structured_result
  finish-Completed h raw attempt m value result t fine d =
      let event =
        logical_event h RuntimeEventKind.invocation_completed m
          (validated (structured_result raw value t.usages result)) none in
      let sent = t.published ++ event t.sequence ∷ [] in
      let (published, used, turned, kept) =
        receive-same (h.dispatch sent) (record t { sequence = t.sequence + 1; published = sent }) in
      record {
        before = t.published;
        last = event t.sequence;
        result = structured_result raw value t.usages result;
        earlier = d.earlier;
        final = d.final;
        given = result;
        published_last = published;
        completing = refl;
        only = refl;
        carried = refl;
        last_turn = kept ∙ d.last_turn;
        gave = d.given;
        checked = fine;
        accounted = ap aggregate_usage (d.tallied ∙ ap usages_of (sym kept));
        tallied = used ∙ d.tallied ∙ ap usages_of (sym kept);
        counted = omega (arith, ap length used, turned);
      }

  -- A turn adds one to the turns, and its usage to the usages.
  drained-Completed :
      (s t u : Attempts) (x : RuntimeUsage) (turn : Turn)
      → Apart (drained_to turn s) t
      → Completed c (record t { usages = t.usages ++ x ∷ [] }) u
      → Completed c s u
  drained-Completed s t u x turn a k = record {
    before = k.before;
    last = k.last;
    result = k.result;
    earlier = k.earlier;
    final = k.final;
    given = k.given;
    last_turn = k.last_turn;
    gave = k.gave;
    tallied = k.tallied;
    published_last = k.published_last;
    completing = k.completing;
    only = k.only ∙ a.same_completions;
    carried = k.carried;
    checked = k.checked;
    accounted = k.accounted;
    counted = omega (
      arith,
      k.counted,
      a.same_turns,
      ap length a.same_usages,
      length-append {0} t.usages (x ∷ []),
    );
  }

  module _ (h : Host) (max : ℕ) (raw : Bool) (attempt : ℕ) where
    on_validation-Completes :
        (next : Run → Method Attempts (Unit {0})) (result : RuntimeResult) (r : Run)
        (v : Validation)
        → (leb max attempt ≡ false → (r : Run) → Completes (next r))
        → validate_output c result.output ≡ v
        → (s : Attempts) → Drained result s
        → (on_validation h max raw attempt result r next v s).0 ≡ ok tt
        → Completed c s (on_validation h max raw attempt result r next v s).1
    unfolding on_validation try_again exhaust
    on_validation-Completes next result r (valid value) rest fine =
        λ s d returned. finish-Completed h raw attempt _ value result s fine d
    on_validation-Completes next result r (invalid paths) rest fine = λ s d.
        Completes-bind _ _ (logical-Apart h _ _ _ _ refl)
          (λ u.
            Completes-if (leb max attempt) _ _ (λ last t e over. absurd (throw-returned _ _ t over))
              (λ more. Completes-bind _ _ (logical-Apart h _ _ _ _ refl) λ v.
                Completes-bind _ _ (start_retry-Apart h h.thread raw attempt paths r) (rest more)))
          s d.tallied

    on_turn-Completes :
        (next : Run → Method Attempts (Unit {0})) (r : Run) (turn : Turn) (o : Option RuntimeResult)
        → (leb max attempt ≡ false → (r : Run) → Completes (next r))
        → turn.result ≡ o
        → (s t : Attempts) → s.usages ≡ usages_of s.drained
        → Apart (drained_to turn s) t
        → (on_turn h c max raw attempt r next turn o t).0 ≡ ok tt
        → (x : RuntimeUsage) × Completed c
            (record t { usages = t.usages ++ x ∷ [] })
            (on_turn h c max raw attempt r next turn o t).1
    unfolding on_turn change ◌>>=◌
    on_turn-Completes next r turn none rest given s t tallied a returned = absurd (
        throw-returned
          (publish_next h (
            logical_event h RuntimeEventKind.invocation_failed
              (attempt_metadata attempt (("reason", str_value "missing_result") ∷ [])) no_result
              none))
          (structured_error attempt) t returned)
    on_turn-Completes next r turn (some result) rest given s t tallied a returned =
        let u = record t { usages = t.usages ++ result.usage ∷ [] } in
        let same = relay-Apart h attempt turn.yielded in
        let (v, fine, step) = bind-returned (relay h attempt turn.yielded) _ u tt returned in
        (
          result.usage,
          rw step (
              Completed-after c u (relay h attempt turn.yielded u).1 _ (same.at u) (
                on_validation-Completes next result r (validate_output c result.output) rest refl _
                  (record {
                    earlier = s.drained;
                    final = turn;
                    last_turn = (same.at u).same_drained ∙ a.same_drained;
                    given = given;
                    tallied =
                        (same.at u).same_usages
                        ∙ ap (λ (us : List RuntimeUsage). us ++ result.usage ∷ [])
                            (a.same_usages ∙ tallied)
                        ∙ sym (usages_of-snoc s.drained turn result given)
                        ∙ ap usages_of (sym ((same.at u).same_drained ∙ a.same_drained));
                  })
                  (ap (λ (x : Py (Unit {0}) × Attempts). x.0) (sym step) ∙ returned))),
        )

  validation_loop-Completes :
      (h : Host) (max : ℕ) (raw : Bool) (left attempt : ℕ) (r : Run)
      → attempt + left ≡ suc max
      → attempt ≤ max
      → Completes (validation_loop h c max raw left attempt r)
  unfolding validation_loop
  validation_loop-Completes h max raw zero attempt r bound some_left s tallied returned =
      absurd (omega (arith, bound, some_left))
  validation_loop-Completes h max raw (suc left) attempt r bound some_left s tallied returned =
      let next : Run → Method Attempts (Unit {0}) =
        λ retry. validation_loop h c max raw left (attempt + 1) retry in
      let (turn, fine, same) = bind-returned (drain h r) _ s tt returned in
      let t = (drain h r s).1 in
      let drained : Apart (drained_to turn s) t =
        subst (λ (turn : Turn). Apart (drained_to turn s) t) (sym (drain-Gives h r s turn fine))
          (drain-Apart h r s) in
      let (x, done) =
        on_turn-Completes h max raw attempt next r turn turn.result
          (λ more retry.
            validation_loop-Completes h max raw left (attempt + 1) retry (omega (arith, bound))
              (ground (arith, more)))
          refl s t tallied drained
          (ap (λ (x : Py (Unit {0}) × Attempts). x.0) (sym same) ∙ returned) in
      rw same (drained-Completed s t _ x turn drained done)

  -- Structured output that returns has published exactly one event that completes the invocation, as its
  -- last event. The turn of the last run that was drained has a result, and the result on the event holds
  -- the value to which the validation of the output of that turn by the schema has led. Its usage is the
  -- sum of the usages of the results of all drained turns, as many as runs were drained. At least one
  -- attempt is allowed.
  pub guard_attempts-Completed :
      (h : Host) (max : ℕ) (raw : Bool) (m : Metadata) (r : Run)
      → 1 ≤ max
      → (guard_attempts h c max raw m r new_attempts).0 ≡ ok tt
      → Completed c new_attempts (guard_attempts h c max raw m r new_attempts).1
  unfolding guard_attempts try_attempts leave
  guard_attempts-Completed h max raw m r allowed returned =
      let k =
        Completes-bind _ _ (logical-Apart h _ _ _ _ refl)
          (λ u. validation_loop-Completes h max raw max 1 (without_sink r) (omega arith) allowed)
          new_attempts refl returned in
      record {
        before = k.before;
        last = k.last;
        result = k.result;
        earlier = k.earlier;
        final = k.final;
        given = k.given;
        last_turn = k.last_turn;
        gave = k.gave;
        tallied = k.tallied;
        published_last = k.published_last;
        completing = k.completing;
        only = k.only;
        carried = k.carried;
        checked = k.checked;
        accounted = k.accounted;
        counted = k.counted;
      }
