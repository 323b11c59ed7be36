-- ===== src/Codex/Runner/Output.antt =====
-- The output of a turn without agent messages (providers/codex/_runner.py, `_result`).
use mathlib.Core.List.{append-nil, append_assoc}
use proteo_runtime.Prelude.{
  String, ◌≡◌, refl, sym, Bool, Option, none, some, List, [], ◌∷◌, ◌++◌, map, string_eq,
}
use proteo_runtime.Prelude.Text.{concat, is_empty}
use proteo_runtime.Prelude.Result.{ok, raise}
use proteo_runtime.Core.Errors.{Py, Exc}
use proteo_runtime.Core.Events.{RuntimeEventKind}
use proteo_runtime.Core.Effects.{pure, lift, continue, ◌>>=◌, ◌>>◌}
use proteo_runtime.Codex.Turns.{
  Notification, agent_message_delta, turn_completed, RuntimeResult, Item, SdkTurn, status_of,
  output_text, message_texts,
}
use proteo_runtime.Codex.Publishing.{Invocation, Turn, announce, new_turn, retain}
use proteo_runtime.Codex.Runner.{
  modify, adopted, delta_text, turn_result, status_metadata, started_metadata, settle_status,
  conclude, on_completed, on_notification, stream_loop, run_stream, recover_stream, release,
  require_terminal, try_stream, events,
}
use proteo_runtime.Codex.Runner.Ending.{
  bind-ok, bind-returned, modify-ok, sent, announce-silent, modify-announce,
}

-- The run went through, and its result has this output.
pub record Outputs (text : String) (x : Py (Unit {0}) × Turn) : Type 0 where
  pub returned : x.0 ≡ ok tt
  pub status : x.1.terminal_status ≡ some "completed"
  pub result : (r : RuntimeResult) × (x.1.result ≡ some r) × (r.output ≡ text)

abbrev pub deltas_then : List (Option String) → SdkTurn → List Notification
deltas_then ds t = map agent_message_delta ds ++ turn_completed t ∷ []

output_text-deltas :
    (items new : List Item) (deltas : List String)
    → items ≡ []
    → new ≡ []
    → output_text (adopted items new) deltas ≡ concat deltas
unfolding output_text message_texts adopted concat is_empty
output_text-deltas [] [] deltas empty bare = refl
output_text-deltas [] (x ∷ new) deltas empty bare = absurd (cc)
output_text-deltas (x ∷ items) new deltas empty bare = absurd (cc)

require_terminal-set :
    (i : Invocation) (o : Option String) (s : Turn) {status : String}
    → o ≡ some status
    → require_terminal i o s ≡ (ok tt, s)
unfolding require_terminal pure
require_terminal-set i none s set = absurd (cc)
require_terminal-set i (some status) s set = refl

-- What stands behind the loop keeps a result.
finish-Outputs :
    (i : Invocation) (text : String) (r : Py (Unit {0})) (t : Turn)
    → Outputs text (r, t)
    → Outputs text (
        continue
          (recover_stream i r t).0
          (λ x v. require_terminal i v.terminal_status v)
          (release (recover_stream i r t).1))
unfolding recover_stream release
finish-Outputs i text (ok x) t h =
    rw (require_terminal-set i t.terminal_status (release t) h.status)
      (record { returned = refl; status = h.status; result = h.result })
finish-Outputs i text (raise e) t h = let stopped = h.returned in absurd (cc)

module _ (i : Invocation) (silent : i.event_sink ≡ none) (t : SdkTurn) (bare : t.items ≡ [])
    (done : status_of t ≡ "completed") where
  conclude-clean :
      (status : String) (o : Option Exc) (r : Option RuntimeResult) (s : Turn)
      → o ≡ none
      → conclude i status o r s
        ≡ (ok tt, sent i RuntimeEventKind.invocation_completed (status_metadata status) [] r s)
  unfolding conclude
  conclude-clean status none r s clean = announce-silent i silent _ _ _ _ s
  conclude-clean status (some e) r s clean = absurd (cc)

  on_completed-Outputs :
      (s : Turn)
      → s.items ≡ []
      → s.terminal_error ≡ none
      → Outputs (concat s.deltas) (on_completed i t s)
  unfolding on_completed settle_status retain turn_result
  on_completed-Outputs s empty clean =
      let f : Turn → Turn =
        λ s. record s { items = adopted s.items t.items; terminal_status = some "completed" } in
      let g : Turn → Turn = λ s. record s { result = some (turn_result i s t) } in
      let u =
        sent i RuntimeEventKind.turn_completed (status_metadata "completed") [] none (g (f s)) in
      rw
        (
          done,
          bind-ok (modify f) _ s (f s) tt (modify-ok f s),
          bind-ok (modify g >> announce i _ _ _ _) _ (f s) u tt
              (modify-announce i silent g _ _ _ _ (f s)),
        )
        (rw (conclude-clean "completed" s.terminal_error u.result u clean) (record {
          returned = refl;
          status = refl;
          result =
              (turn_result i (f s) t, refl, output_text-deltas s.items t.items s.deltas empty bare);
        }))

  -- The loop over the deltas and the completed turn.
  stream_loop-Outputs :
      (ds : List (Option String)) (s : Turn)
      → s.items ≡ []
      → s.terminal_error ≡ none
      → Outputs
          (concat (s.deltas ++ map delta_text ds))
          (stream_loop i (deltas_then ds t) (ok tt) s)
  unfolding stream_loop on_notification lift
  stream_loop-Outputs [] s empty clean =
      let h = on_completed-Outputs s empty clean in
      rw (bind-returned (on_completed i t) (λ u. lift (ok tt)) s tt h.returned, append-nil s.deltas)
        (record { returned = refl; status = h.status; result = h.result })
  stream_loop-Outputs (d ∷ ds) s empty clean =
      let f : Turn → Turn = λ s. record s { deltas = s.deltas ++ delta_text d ∷ [] } in
      rw
        (
          bind-ok (on_notification i (agent_message_delta d)) _ s _ tt
              (modify-announce i silent f _ _ _ _ s),
          sym (append_assoc s.deltas (delta_text d ∷ []) (map delta_text ds)),
        )
        (stream_loop-Outputs ds _ empty clean)

  run_stream-Outputs :
      (ds : List (Option String)) (cleanup : Bool)
      → Outputs
          (concat (map delta_text ds))
          (run_stream i (deltas_then ds t) (ok tt) (new_turn i cleanup))
  unfolding run_stream new_turn retain
  run_stream-Outputs ds cleanup =
      let s = new_turn i cleanup in
      let first = sent i RuntimeEventKind.invocation_started (started_metadata i) [] none s in
      let second = sent i RuntimeEventKind.turn_started [] [] none first in
      rw
        (
          bind-ok (announce i _ _ _ _) _ s first tt (announce-silent i silent _ _ _ _ s),
          bind-ok (announce i _ _ _ _) _ first second tt (announce-silent i silent _ _ _ _ first),
        )
        (stream_loop-Outputs ds second refl refl)

  -- Without an event sink, a run over any text deltas and a completed turn, whose status is `completed` and
  -- which carries no items, returns with a result whose output is the deltas joined in their order.
  pub events-Outputs :
      (ds : List (Option String)) (cleanup : Bool)
      → Outputs
          (concat (map delta_text ds))
          (events i (deltas_then ds t) (ok tt) (new_turn i cleanup))
  unfolding events try_stream ◌>>=◌
  events-Outputs ds cleanup =
      let x = run_stream i (deltas_then ds t) (ok tt) (new_turn i cleanup) in
      finish-Outputs i (concat (map delta_text ds)) x.0 x.1 (run_stream-Outputs ds cleanup)
