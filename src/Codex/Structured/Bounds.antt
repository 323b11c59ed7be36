-- ===== src/Codex/Structured/Bounds.antt =====
-- How often structured output asks the provider (providers/codex/_structured.py, `_events`).
use proteo_runtime.Prelude.{
  ℕ, zero, suc, ◌+◌, ◌≤◌, ◌≡◌, refl, Bool, true, false, leb, Option, none, some, string_eq, arith,
  if◌then◌else◌, ◌++◌, [], ◌∷◌,
}
use proteo_runtime.Prelude.Result.{ok, raise}
use proteo_runtime.Core.Errors.{Py}
use proteo_runtime.Core.Effects.{Method, pure, throw, continue, ◌>>=◌, Keeps}
use proteo_runtime.Codex.Turns.{RuntimeResult}
use proteo_runtime.Codex.Publishing.{Metadata, Turn}
use proteo_runtime.Codex.Validation.{Schema, Validation, valid, invalid, validate_output}
use proteo_runtime.Codex.Attempts.{
  Run, Host, Attempts, new_attempts, change, publish_next, StructuredEvent, drain,
}
use proteo_runtime.Codex.Structured.{
  try_again, on_validation, on_turn, validation_loop, leave, without_sink, try_attempts,
  guard_attempts,
}
use proteo_runtime.Codex.Structured.Turns.{
  Apart, receive-same, logical-Apart, relay-Apart, start_retry-Apart, exhaust-Apart, drain-Apart,
}

-- The method drains at most n runs.
abbrev Drains : {A : Type 0} → ℕ → Method Attempts A → Type 0
Drains n m = (s : Attempts) → (m s).1.turns ≤ s.turns + n

Drains-none : {A : Type 0} (n : ℕ) (m : Method Attempts A) → Keeps Apart m → Drains n m
Drains-none n m h s = omega (arith, (h.at s).same_turns)

Drains-if :
    {A : Type 0} (n : ℕ) (b : Bool) (m k : Method Attempts A)
    → Drains n m
    → Drains n k
    → Drains n (if b then m else k)
Drains-if n true m k p q = p
Drains-if n false m k p q = q

Drains-bind :
    {A B : Type 0} (n : ℕ) (m : Method Attempts A) (f : A → Method Attempts B)
    → Keeps Apart m
    → ((a : A) → Drains n (f a))
    → Drains n (m >>= f)
unfolding ◌>>=◌
Drains-bind n m f p q s =
    let same = (p.at s).same_turns in
    let rest = continue-turns n (m s).0 f (m s).1 q in omega (arith, same, rest)
  where
    continue-turns :
        {A B : Type 0} (n : ℕ) (r : Py A) (f : A → Method Attempts B) (t : Attempts)
        → ((a : A) → Drains n (f a))
        → (continue r f t).1.turns ≤ t.turns + n
    continue-turns n (ok a) f t q = q a t
    continue-turns n (raise e) f t q = omega arith

module _ (h : Host) where
  publish_next-turns :
      (event : ℕ → StructuredEvent) (s : Attempts) → (publish_next h event s).1.turns ≡ s.turns
  unfolding publish_next
  publish_next-turns event s =
      let sent = s.published ++ event s.sequence ∷ [] in
      let (same, used, turned, kept) =
        receive-same (h.dispatch sent) (record s { sequence = s.sequence + 1; published = sent }) in
      turned

  module _ (max : ℕ) (raw : Bool) (n attempt : ℕ) (next : Run → Method Attempts (Unit {0})) where
    on_validation-Drains :
        ((r : Run) → Drains n (next r))
        → (result : RuntimeResult) (r : Run) (v : Validation)
        → Drains n (on_validation h max raw attempt result r next v)
    unfolding on_validation try_again
    on_validation-Drains rest result r (valid value) = λ s. omega (arith, publish_next-turns _ s)
    on_validation-Drains rest result r (invalid paths) =
        Drains-bind n _ _ (logical-Apart h _ _ _ _ refl) λ u.
          Drains-if n (leb max attempt) _ _ (Drains-none n _ (exhaust-Apart h attempt paths result))
            (Drains-bind n _ _ (logical-Apart h _ _ _ _ refl)
              λ v. Drains-bind n _ _ (start_retry-Apart h h.thread raw attempt paths r) rest)

    on_turn-Drains :
        ((r : Run) → Drains n (next r))
        → (c : Schema) (r : Run) (turn : Turn) (o : Option RuntimeResult)
        → Drains n (on_turn h c max raw attempt r next turn o)
    unfolding on_turn change ◌>>=◌ throw
    on_turn-Drains rest c r turn none =
        Drains-bind n _ _ (logical-Apart h _ _ _ _ refl) λ u s. omega arith
    on_turn-Drains rest c r turn (some result) = λ s.
        Drains-bind n _ _ (relay-Apart h attempt turn.yielded)
          (λ v. on_validation-Drains rest result r (validate_output c result.output))
          (record s { usages = s.usages ++ result.usage ∷ [] })

  drain-then :
      {B : Type 0} (n : ℕ) (r : Run) (f : Turn → Method Attempts B)
      → ((turn : Turn) → Drains n (f turn))
      → Drains (suc n) (drain h r >>= f)
  unfolding ◌>>=◌
  drain-then n r f rest s =
      let one = (drain-Apart h r s).same_turns in
      let more = after (drain h r s).0 (drain h r s).1 in omega (arith, one, more)
    where
      after : (o : Py Turn) (t : Attempts) → (continue o f t).1.turns ≤ t.turns + n
      after (ok turn) t = rest turn t
      after (raise e) t = omega arith

  validation_loop-Drains :
      (c : Schema) (max : ℕ) (raw : Bool) (left attempt : ℕ) (r : Run)
      → Drains left (validation_loop h c max raw left attempt r)
  unfolding validation_loop pure
  validation_loop-Drains c max raw zero attempt r = λ s. omega arith
  validation_loop-Drains c max raw (suc left) attempt r = drain-then left r _ λ turn.
      on_turn-Drains max raw left attempt _
        (λ retry. validation_loop-Drains c max raw left (attempt + 1) retry) c r turn turn.result

  try_attempts-Drains :
      (c : Schema) (max : ℕ) (raw : Bool) (m : Metadata) (r : Run)
      → Drains max (try_attempts h c max raw m r)
  unfolding try_attempts
  try_attempts-Drains c max raw m r =
      Drains-bind max _ _ (logical-Apart h _ _ _ _ refl)
        λ u. validation_loop-Drains c max raw max 1 (without_sink r)

  -- Whether it returns or raises, structured output drains at most `max_attempts` turns of the provider.
  pub guard_attempts-turns :
      (c : Schema) (max : ℕ) (raw : Bool) (m : Metadata) (r : Run)
      → (guard_attempts h c max raw m r new_attempts).1.turns ≤ max
  unfolding guard_attempts leave
  guard_attempts-turns c max raw m r = omega (arith, try_attempts-Drains c max raw m r new_attempts)
