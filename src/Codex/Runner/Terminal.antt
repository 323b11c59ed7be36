-- ===== src/Codex/Runner/Terminal.antt =====
-- The terminal event of `events` (providers/codex/_runner.py), whatever the stream ends in.
use proteo_runtime.Prelude.{◌≡◌, none, string_eq}
use proteo_runtime.Core.Errors.{Py}
use proteo_runtime.Core.Effects.{continue}
use proteo_runtime.Codex.Publishing.{Invocation, Turn}
use proteo_runtime.Codex.Runner.{recover_stream, release, require_terminal}

module _ (i : Invocation) (silent : i.event_sink ≡ none) where
  -- What stands behind the loop.
  abbrev finish : Py (Unit {0}) × Turn → Py (Unit {0}) × Turn
  finish (r, t) =
      let (r', u) = recover_stream i r t in
      continue r' (λ x v. require_terminal i v.terminal_status v) (release u)
