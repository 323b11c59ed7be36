-- ===== src/Codex/Structured/Turns.antt =====
-- What the steps between two turns of structured output leave as it is (providers/codex/_structured.py).
use proteo_runtime.Prelude.{
  ℕ, ◌+◌, String, ◌≡◌, refl, ap, ◌∙◌, sym, Bool, true, false, Option, none, some, List, [], ◌∷◌,
  ◌++◌, string_eq, arith, if◌then◌else◌,
}
use proteo_runtime.Prelude.Result.{ok, raise}
use proteo_runtime.Core.Errors.{
  Py, agent, cancelled_error, timeout_error, value_error, type_error, other_error,
}
use proteo_runtime.Core.Events.{RuntimeEventKind}
use proteo_runtime.Core.Effects.{Method, pure, lift, ◌>>=◌, ◌>>◌, Related, Keeps}
use proteo_runtime.Core.Effects.Rules.{
  keeps_rules, Keeps-pure, Keeps-throw, Keeps-bind, Keeps-if, bind-returned,
}
use proteo_runtime.Codex.Turns.{RuntimeResult}
use proteo_runtime.Codex.Publishing.{Metadata, RuntimeEvent, Turn, new_turn}
use proteo_runtime.Codex.Runner.{events}
use proteo_runtime.Codex.Attempts.{
  Handle, Run, Host, StructuredEvent, Outcome, Attempts, change, receive, publish_next,
  logical_event, relayed_event, is_buffered, relay, interrupt_or_invalidate, stop_unsettled, drain,
}
use proteo_runtime.Codex.Structured.{start_retry, exhaust}

abbrev pub is_completed : RuntimeEventKind → Bool
is_completed RuntimeEventKind.invocation_completed = true
is_completed _ = false

-- How many events complete the invocation.
abbrev pub completions : List StructuredEvent → ℕ
completions [] = 0
completions (e ∷ es) = (if is_completed e.kind then 1 else 0) + completions es

pub completions-append :
    (xs ys : List StructuredEvent) → completions (xs ++ ys) ≡ completions xs + completions ys
completions-append [] ys = omega arith
completions-append (x ∷ xs) ys = omega (arith, completions-append xs ys)

-- No completion, no usage and no turn is added, and no run is drained.
pub record Apart (s t : Attempts) : Type 0 where
  pub same_completions : completions t.published ≡ completions s.published
  pub same_usages : t.usages ≡ s.usages
  pub same_turns : t.turns ≡ s.turns
  pub same_drained : t.drained ≡ s.drained

pub Apart-Related : Related Apart
Apart-Related = record {
  same = λ s. record {
    same_completions = refl;
    same_usages = refl;
    same_turns = refl;
    same_drained = refl;
  };
  then_to = λ s t u a b. record {
    same_completions = b.same_completions ∙ a.same_completions;
    same_usages = b.same_usages ∙ a.same_usages;
    same_turns = b.same_turns ∙ a.same_turns;
    same_drained = b.same_drained ∙ a.same_drained;
  };
}

pub receive-same :
    (r : Py StructuredEvent) (s : Attempts)
    → ((receive r s).1.published ≡ s.published)
      × ((receive r s).1.usages ≡ s.usages)
      × ((receive r s).1.turns ≡ s.turns)
      × ((receive r s).1.drained ≡ s.drained)
unfolding receive
receive-same (ok e) s = (refl, refl, refl, refl)
receive-same (raise x) s = (refl, refl, refl, refl)

is_buffered-completed : (k : RuntimeEventKind) → is_buffered k ≡ false → is_completed k ≡ false
unfolding is_buffered
is_buffered-completed RuntimeEventKind.invocation_completed h = absurd (cc)
is_buffered-completed _ h = refl

pub change-Apart :
    (f : Attempts → Attempts)
    → ((s : Attempts) → (f s).published ≡ s.published)
    → ((s : Attempts) → (f s).usages ≡ s.usages)
    → ((s : Attempts) → (f s).turns ≡ s.turns)
    → ((s : Attempts) → (f s).drained ≡ s.drained)
    → Keeps Apart (change f)
unfolding change
change-Apart f a b c d = record {
  at = λ s. record {
    same_completions = ap completions (a s);
    same_usages = b s;
    same_turns = c s;
    same_drained = d s;
  };
}

-- A run is drained: its turn is counted and kept.
abbrev pub drained_to : Turn → Attempts → Attempts
drained_to turn s = record s {
  active = true;
  turns = s.turns + 1;
  drained = s.drained ++ turn ∷ [];
}

module _ (h : Host) where
  pub publish_next-Apart :
      (event : ℕ → StructuredEvent)
      → ((n : ℕ) → is_completed (event n).kind ≡ false)
      → Keeps Apart (publish_next h event)
  unfolding publish_next
  publish_next-Apart event plain = record {
    at = λ s.
        let sent = s.published ++ event s.sequence ∷ [] in
        let (same, used, turned, kept) =
          receive-same (h.dispatch sent)
            (record s { sequence = s.sequence + 1; published = sent }) in
        let uncounted : completions (event s.sequence ∷ []) ≡ 0 = rw (plain s.sequence) refl in
        record {
          same_completions =
              ap completions same
              ∙ omega (arith, completions-append s.published (event s.sequence ∷ []), uncounted);
          same_usages = used;
          same_turns = turned;
          same_drained = kept;
        };
  }

  pub logical-Apart :
      (kind : RuntimeEventKind) (m : Metadata) (o : Outcome) (t : Option String)
      → is_completed kind ≡ false
      → Keeps Apart (publish_next h (logical_event h kind m o t))
  unfolding logical_event
  logical-Apart kind m o t plain = publish_next-Apart _ (λ n. plain)

  pub relay-Apart : (attempt : ℕ) (es : List RuntimeEvent) → Keeps Apart (relay h attempt es)
  unfolding relay relayed_event
  relay-Apart attempt [] = Keeps-pure Apart-Related tt
  relay-Apart attempt (e ∷ es) =
      Keeps-if (is_buffered e.kind) _ _ (λ hit. relay-Apart attempt es)
        (λ miss.
          Keeps-bind _ _ Apart-Related
            (publish_next-Apart _ (λ n. is_buffered-completed e.kind miss))
            λ u. relay-Apart attempt es)

  interrupt-Apart : (r : Py (Unit {0})) → Keeps Apart (interrupt_or_invalidate h r)
  unfolding interrupt_or_invalidate
  interrupt-Apart (ok u) = Keeps-pure Apart-Related tt
  interrupt-Apart (raise cancelled_error) = Keeps-throw Apart-Related cancelled_error
  interrupt-Apart (raise (agent e)) = search (keeps_rules, change-Apart, Apart-Related)
  interrupt-Apart (raise timeout_error) = search (keeps_rules, change-Apart, Apart-Related)
  interrupt-Apart (raise value_error) = search (keeps_rules, change-Apart, Apart-Related)
  interrupt-Apart (raise type_error) = search (keeps_rules, change-Apart, Apart-Related)
  interrupt-Apart (raise (other_error f)) = search (keeps_rules, change-Apart, Apart-Related)

  stop_unsettled-Apart : (r : Run) (o : Option String) → Keeps Apart (stop_unsettled h r o)
  unfolding stop_unsettled
  stop_unsettled-Apart r none = interrupt-Apart r.invocation.interrupt_outcome
  stop_unsettled-Apart r (some status) = Keeps-pure Apart-Related tt

  pub start_retry-Apart :
      (thread : Option (ℕ → String → Py Handle)) (raw : Bool) (attempt : ℕ) (paths : List String)
      (r : Run)
      → Keeps Apart (start_retry h thread raw attempt paths r)
  unfolding start_retry
  start_retry-Apart none raw attempt paths r = Keeps-throw Apart-Related _
  start_retry-Apart (some turn) raw attempt paths r =
      search (keeps_rules, change-Apart, Apart-Related)

  pub exhaust-Apart :
      (attempt : ℕ) (paths : List String) (result : RuntimeResult)
      → Keeps Apart (exhaust h attempt paths result)
  unfolding exhaust
  exhaust-Apart attempt paths result =
      Keeps-bind _ _ Apart-Related (logical-Apart _ _ _ _ refl) λ u. Keeps-throw Apart-Related _

  -- A drained run is one turn.
  pub drain-Apart :
      (r : Run) (s : Attempts)
      → Apart
          (drained_to
            (events r.invocation r.notifications r.ending (new_turn r.invocation r.cleanup)).1
            s)
          (drain h r s).1
  unfolding drain change ◌>>=◌
  drain-Apart r s =
      let (outcome, turn) =
        events r.invocation r.notifications r.ending (new_turn r.invocation r.cleanup) in
      let rest : Keeps Apart (do
        stop_unsettled h r turn.terminal_status
        change (λ s. record s { active = false; registered = false })
        lift outcome
        pure turn) =
        Keeps-bind _ _ Apart-Related (stop_unsettled-Apart r turn.terminal_status)
          λ v. search (keeps_rules, change-Apart, Apart-Related) in
      rest.at (drained_to turn s)

  -- What a method returns, if it returns.
  abbrev Gives : {A : Type 0} → Method Attempts A → A → Type 0
  Gives m a = (s : Attempts) (b : _) → (m s).0 ≡ ok b → b ≡ a

  Gives-bind :
      {A B : Type 0} (m : Method Attempts A) (f : A → Method Attempts B) (b : B)
      → ((a : A) → Gives (f a) b)
      → Gives (m >>= f) b
  Gives-bind m f b p s c h =
      let (a, fine, same) = bind-returned m f s c h in p a (m s).1 c (ap (λ x. x.0) (sym same) ∙ h)

  Gives-pure : {A : Type 0} (a : A) → Gives (pure a) a
  unfolding pure
  Gives-pure a s b h = cc

  -- What a drained run returns is the turn of its events.
  pub drain-Gives :
      (r : Run)
      → Gives
          (drain h r)
          (events r.invocation r.notifications r.ending (new_turn r.invocation r.cleanup)).1
  unfolding drain
  drain-Gives r =
      let (outcome, turn) =
        events r.invocation r.notifications r.ending (new_turn r.invocation r.cleanup) in
      Gives-bind _ _ turn λ a.
        Gives-bind _ _ turn λ b. Gives-bind _ _ turn λ c. Gives-bind _ _ turn λ d. Gives-pure turn
