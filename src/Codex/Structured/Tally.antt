-- ===== src/Codex/Structured/Tally.antt =====
-- What the end of structured output says of the drained turns and their usages
-- (providers/codex/_structured.py, `_events`).
use proteo_runtime.Prelude.{
  ◌+◌, ◌≡◌, refl, ap, ◌∙◌, none, some, List, [], ◌∷◌, ◌++◌, string_eq, length, arith, Option-cases,
  inl, inr,
}
use proteo_runtime.Core.Events.{RuntimeEventKind}
use proteo_runtime.Codex.Turns.{RuntimeUsage, RuntimeResult}
use proteo_runtime.Codex.Publishing.{Turn}
use proteo_runtime.Codex.Validation.{Schema, valid, validate_output, aggregate_usage}
use proteo_runtime.Codex.Attempts.{Attempts, StructuredEvent, StructuredResult, validated}
use proteo_runtime.Codex.Structured.Turns.{completions, Apart}

-- The usages of the turns that have a result.
abbrev pub usages_of : List Turn → List RuntimeUsage
usages_of [] = []
usages_of (turn ∷ turns) =
    let rest = usages_of turns in elim turn.result [ none ↦ rest | some r ↦ r.usage ∷ rest ]

pub usages_of-snoc :
    (turns : List Turn) (turn : Turn) (r : RuntimeResult)
    → turn.result ≡ some r
    → usages_of (turns ++ turn ∷ []) ≡ usages_of turns ++ r.usage ∷ []
usages_of-snoc [] turn r given = rw given refl
usages_of-snoc (t ∷ turns) turn r given = elim (Option-cases t.result) [
  | inl nothing ↦ rw nothing (usages_of-snoc turns turn r given)
  | inr (x, e) ↦
      rw e (ap (λ (us : List RuntimeUsage). x.usage ∷ us) (usages_of-snoc turns turn r given))
]

-- The last run that is drained has the result `r`, and the usages are those of the runs.
pub record Drained (r : RuntimeResult) (s : Attempts) : Type 0 where
  pub earlier : List Turn
  pub final : Turn
  pub last_turn : s.drained ≡ earlier ++ final ∷ []
  pub given : final.result ≡ some r
  pub tallied : s.usages ≡ usages_of s.drained

-- One event, the last, completes the invocation. It carries the value to which the validation of the
-- output of the last turn has led, and the usage of the results of all turns, each of which has one.
pub record Completed (c : Schema) (s t : Attempts) : Type 0 where
  pub before : List StructuredEvent
  pub last : StructuredEvent
  pub result : StructuredResult
  pub earlier : List Turn
  pub final : Turn
  pub given : RuntimeResult
  pub published_last : t.published ≡ before ++ last ∷ []
  pub completing : last.kind ≡ RuntimeEventKind.invocation_completed
  pub only : completions before ≡ completions s.published
  pub carried : last.result ≡ validated result
  pub last_turn : t.drained ≡ earlier ++ final ∷ []
  pub gave : final.result ≡ some given
  pub checked : validate_output c given.output ≡ valid result.value
  pub accounted : result.usage ≡ aggregate_usage (usages_of t.drained)
  pub tallied : t.usages ≡ usages_of t.drained
  pub counted : length t.usages + s.turns ≡ length s.usages + t.turns

-- The completion of a run counts from a state that differs in nothing that it counts.
pub Completed-after :
    (c : Schema) (s t u : Attempts) → Apart s t → Completed c t u → Completed c s u
Completed-after c s t u a k = record {
  before = k.before;
  last = k.last;
  result = k.result;
  earlier = k.earlier;
  final = k.final;
  given = k.given;
  last_turn = k.last_turn;
  gave = k.gave;
  tallied = k.tallied;
  published_last = k.published_last;
  completing = k.completing;
  only = k.only ∙ a.same_completions;
  carried = k.carried;
  checked = k.checked;
  accounted = k.accounted;
  counted = omega (arith, k.counted, a.same_turns, ap length a.same_usages);
}
