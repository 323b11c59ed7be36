-- ===== src/Codex/Runner/Sequence.antt =====
-- The numbering of the events of a turn (providers/codex/_runner.py, `_emit` and `_publish`).
use mathlib.Core.List.{append-nil, append_assoc}
use proteo_runtime.Prelude.{
  ℕ, ◌+◌, String, ◌≡◌, refl, sym, ap, subst, ◌∙◌, Option, none, some, List, [], ◌∷◌, ◌++◌,
  string_eq, length, length-append, arith,
}
use proteo_runtime.Prelude.Result.{ok, raise}
use proteo_runtime.Core.Errors.{
  Py, Exc, agent, cancelled_error, timeout_error, value_error, type_error, other_error,
}
use proteo_runtime.Core.Events.{RuntimeEventKind}
use proteo_runtime.Core.Effects.{Method, ◌>>=◌, Related, Keeps, continue}
use proteo_runtime.Core.Effects.Rules.{keeps_rules, Keeps-pure, Keeps-throw, Keeps-lift, Keeps-bind}
use proteo_runtime.Codex.Turns.{
  Notification, turn_started, agent_message_delta, item_completed, token_usage_updated,
  turn_completed, other_method, RuntimeResult, SdkTurn, status_of,
}
use proteo_runtime.Codex.Publishing.{
  Metadata, Invocation, Turn, RuntimeEvent, turn_event, emit_event, publish, accept, send,
  yield_event, announce,
}
use proteo_runtime.Codex.Runner.{
  modify, settle_status, conclude, on_completed, on_notification, stream_loop, run_stream, suppress,
  interrupt, on_cancelled, fail_transport, fail_unsettled, on_error, recover_stream, release,
  require_terminal, try_stream, events,
}

-- Numbered n, n + 1, … and carrying the identifiers of the run.
abbrev pub IsStamped : Invocation → ℕ → List RuntimeEvent → Type 0
IsStamped i n [] = Unit {0}
IsStamped i n (e ∷ es) =
    (e.sequence ≡ n)
    × (e.invocation_id ≡ i.invocation_id)
    × (e.session_id ≡ i.session_id)
    × (e.task_id ≡ i.task_id)
    × IsStamped i (n + 1) es

pub record Stamped (i : Invocation) (s t : Turn) : Type 0 where
  pub sent : List RuntimeEvent
  pub extended : t.published ≡ s.published ++ sent
  pub stamped : IsStamped i s.sequence sent
  pub counted : t.sequence ≡ s.sequence + length sent

IsStamped-append :
    (i : Invocation) (n m : ℕ) (es fs : List RuntimeEvent)
    → IsStamped i n es
    → m ≡ n + length es
    → IsStamped i m fs
    → IsStamped i n (es ++ fs)
IsStamped-append i n m [] fs h e k =
    let same : m ≡ n = omega arith in subst (λ (x : ℕ). IsStamped i x fs) same k
IsStamped-append i n m (x ∷ es) fs (a, b, c, d, rest) e k =
    (a, b, c, d, IsStamped-append i (n + 1) m es fs rest (omega arith) k)

accept-keeps :
    (r : Py RuntimeEvent) (s : Turn)
    → ((accept r s).1.published ≡ s.published) × ((accept r s).1.sequence ≡ s.sequence)
unfolding accept
accept-keeps (ok e) s = (refl, refl)
accept-keeps (raise x) s = (refl, refl)

accept-yield_event-keeps :
    (r : Py RuntimeEvent) (s : Turn)
    → ((continue (accept r s).0 yield_event (accept r s).1).1.published ≡ s.published)
      × ((continue (accept r s).0 yield_event (accept r s).1).1.sequence ≡ s.sequence)
unfolding accept yield_event
accept-yield_event-keeps (ok e) s = (refl, refl)
accept-yield_event-keeps (raise x) s = (refl, refl)

module _ (i : Invocation) where
  unsent : (s t : Turn) → t.published ≡ s.published → t.sequence ≡ s.sequence → Stamped i s t
  unsent s t e n = record {
    sent = [];
    extended = e ∙ sym (append-nil s.published);
    stamped = tt;
    counted = omega arith;
  }

  Stamped-Related : Related (Stamped i)
  Stamped-Related = record {
    same = λ s. unsent s s refl refl;
    then_to = λ s t u h k. record {
      sent = h.sent ++ k.sent;
      extended =
          k.extended
          ∙ ap (λ (es : List RuntimeEvent). es ++ k.sent) h.extended
          ∙ append_assoc s.published h.sent k.sent;
      stamped =
          IsStamped-append i s.sequence t.sequence h.sent k.sent h.stamped h.counted k.stamped;
      counted = omega (arith, h.counted, k.counted, length-append {0} h.sent k.sent);
    };
  }

  -- An event that is numbered is also published, whatever the sink does.
  send-Stamped :
      (kind : RuntimeEventKind) (m p : Metadata) (r : Option RuntimeResult)
      → Keeps (Stamped i) (emit_event i kind m p r >>= λ e. publish i e)
  unfolding emit_event publish ◌>>=◌ turn_event
  send-Stamped kind m p r = record {
    at = λ s.
        let e = turn_event i s kind m p r in
        let sent = s.published ++ e ∷ [] in
        let (same, number) =
          accept-keeps (send i.event_sink sent e)
            (record s { sequence = s.sequence + 1; published = sent }) in
        record {
          sent = e ∷ [];
          extended = same;
          stamped = (refl, refl, refl, refl, tt);
          counted = number;
        };
  }

  announce-Stamped :
      (kind : RuntimeEventKind) (m p : Metadata) (r : Option RuntimeResult)
      → Keeps (Stamped i) (announce i kind m p r)
  unfolding announce emit_event publish ◌>>=◌ turn_event
  announce-Stamped kind m p r = record {
    at = λ s.
        let e = turn_event i s kind m p r in
        let sent = s.published ++ e ∷ [] in
        let (same, number) =
          accept-yield_event-keeps (send i.event_sink sent e)
            (record s { sequence = s.sequence + 1; published = sent }) in
        record {
          sent = e ∷ [];
          extended = same;
          stamped = (refl, refl, refl, refl, tt);
          counted = number;
        };
  }

  modify-Stamped :
      (f : Turn → Turn)
      → ((s : Turn) → (f s).published ≡ s.published)
      → ((s : Turn) → (f s).sequence ≡ s.sequence)
      → Keeps (Stamped i) (modify f)
  unfolding modify
  modify-Stamped f h k = record { at = λ s. unsent s (f s) (h s) (k s) }

  suppress-Stamped :
      {A : Type 0} (m : Method Turn A) → Keeps (Stamped i) m → Keeps (Stamped i) (suppress m)
  unfolding suppress
  suppress-Stamped m h = record { at = h.at }

  interrupt-Stamped : Keeps (Stamped i) (interrupt i)
  unfolding interrupt
  interrupt-Stamped = record { at = λ s. unsent s _ refl refl }

  -- A method that reads the state first.
  reading-Stamped :
      {A : Type 0} (f : Turn → Method Turn A)
      → ((s : Turn) → Keeps (Stamped i) (f s))
      → Keeps (Stamped i) (λ s. f s s)
  reading-Stamped f h = record { at = λ s. (h s).at s }

  conclude-Stamped :
      (status : String) (o : Option Exc) (r : Option RuntimeResult)
      → Keeps (Stamped i) (conclude i status o r)
  unfolding conclude
  conclude-Stamped status none r = announce-Stamped _ _ _ _
  conclude-Stamped status (some e) r = search (keeps_rules, announce-Stamped, Stamped-Related)

  settle_status-Stamped :
      (t : SdkTurn) (status : String) → Keeps (Stamped i) (settle_status i t status)
  unfolding settle_status
  settle_status-Stamped t status =
      search (keeps_rules, announce-Stamped, modify-Stamped, Stamped-Related)

  on_completed-Stamped : (t : SdkTurn) → Keeps (Stamped i) (on_completed i t)
  unfolding on_completed
  on_completed-Stamped t =
      Keeps-bind _ _ Stamped-Related (modify-Stamped _ (λ s. refl) (λ s. refl)) λ u.
        Keeps-bind _ _ Stamped-Related (settle_status-Stamped t (status_of t)) λ v.
          reading-Stamped (λ s. conclude i (status_of t) s.terminal_error s.result)
            (λ s. conclude-Stamped (status_of t) s.terminal_error s.result)

  on_notification-Stamped : (n : Notification) → Keeps (Stamped i) (on_notification i n)
  unfolding on_notification
  on_notification-Stamped (turn_started none) = Keeps-pure Stamped-Related tt
  on_notification-Stamped (turn_started (some id)) = modify-Stamped _ (λ s. refl) (λ s. refl)
  on_notification-Stamped (agent_message_delta delta) =
      search (keeps_rules, announce-Stamped, modify-Stamped, Stamped-Related)
  on_notification-Stamped (item_completed none) = Keeps-pure Stamped-Related tt
  on_notification-Stamped (item_completed (some item)) = modify-Stamped _ (λ s. refl) (λ s. refl)
  on_notification-Stamped (token_usage_updated u) =
      search (keeps_rules, announce-Stamped, modify-Stamped, Stamped-Related)
  on_notification-Stamped (turn_completed t) = on_completed-Stamped t
  on_notification-Stamped other_method = Keeps-pure Stamped-Related tt

  stream_loop-Stamped :
      (ns : List Notification) (ending : Py (Unit {0}))
      → Keeps (Stamped i) (stream_loop i ns ending)
  unfolding stream_loop
  stream_loop-Stamped [] ending = Keeps-lift Stamped-Related ending
  stream_loop-Stamped (n ∷ ns) ending =
      Keeps-bind _ _ Stamped-Related (on_notification-Stamped n) λ u. stream_loop-Stamped ns ending

  run_stream-Stamped :
      (ns : List Notification) (ending : Py (Unit {0})) → Keeps (Stamped i) (run_stream i ns ending)
  unfolding run_stream
  run_stream-Stamped ns ending =
      search (keeps_rules, announce-Stamped, stream_loop-Stamped, Stamped-Related)

  fail_transport-Stamped : (reason : String) → Keeps (Stamped i) (fail_transport i reason)
  unfolding fail_transport
  fail_transport-Stamped reason =
      search (keeps_rules, announce-Stamped, modify-Stamped, Stamped-Related)

  on_cancelled-Stamped : Keeps (Stamped i) (on_cancelled i)
  unfolding on_cancelled
  on_cancelled-Stamped =
      search (keeps_rules, suppress-Stamped, interrupt-Stamped, send-Stamped, Stamped-Related)

  fail_unsettled-Stamped : (o : Option String) → Keeps (Stamped i) (fail_unsettled i o)
  unfolding fail_unsettled
  fail_unsettled-Stamped none = announce-Stamped _ _ _ _
  fail_unsettled-Stamped (some status) = Keeps-pure Stamped-Related tt

  require_terminal-Stamped : (o : Option String) → Keeps (Stamped i) (require_terminal i o)
  unfolding require_terminal
  require_terminal-Stamped none = fail_transport-Stamped "missing_terminal"
  require_terminal-Stamped (some status) = Keeps-pure Stamped-Related tt

  on_error-Stamped : (e : Exc) → Keeps (Stamped i) (on_error i e)
  unfolding on_error
  on_error-Stamped cancelled_error = on_cancelled-Stamped
  on_error-Stamped (agent e) =
      Keeps-bind _ _ Stamped-Related
        (reading-Stamped (λ s. fail_unsettled i s.terminal_status)
          (λ s. fail_unsettled-Stamped s.terminal_status))
        λ u. Keeps-throw Stamped-Related (agent e)
  on_error-Stamped timeout_error = fail_transport-Stamped "transport"
  on_error-Stamped value_error = fail_transport-Stamped "transport"
  on_error-Stamped type_error = fail_transport-Stamped "transport"
  on_error-Stamped (other_error f) = fail_transport-Stamped "transport"

  recover_stream-Stamped : (r : Py (Unit {0})) → Keeps (Stamped i) (recover_stream i r)
  unfolding recover_stream
  recover_stream-Stamped (ok u) = record { at = λ s. Stamped-Related.same s }
  recover_stream-Stamped (raise e) = record { at = λ s. (on_error-Stamped e).at s }

  try_stream-Stamped :
      (ns : List Notification) (ending : Py (Unit {0})) → Keeps (Stamped i) (try_stream i ns ending)
  unfolding try_stream release
  try_stream-Stamped ns ending = record {
    at = λ s.
        let (r, t) = run_stream i ns ending s in
        let (r', u) = recover_stream i r t in
        Stamped-Related.then_to s u (release u)
          (Stamped-Related.then_to s t u ((run_stream-Stamped ns ending).at s)
            ((recover_stream-Stamped r).at t))
          (unsent u (release u) refl refl);
  }

  -- Whatever the stream, the sink and the interrupt do, and however the turn ends, it only appends to the
  -- published events, numbers them upwards from its counter without a gap, leaves the counter behind the
  -- last number, and puts the invocation, session and task identifiers of the run on each.
  pub events-Stamped :
      (ns : List Notification) (ending : Py (Unit {0})) (s : Turn)
      → Stamped i s (events i ns ending s).1
  unfolding events
  events-Stamped ns ending s =
      (Keeps-bind _ _ Stamped-Related (try_stream-Stamped ns ending) λ u.
          reading-Stamped (λ t. require_terminal i t.terminal_status)
            (λ t. require_terminal-Stamped t.terminal_status)).at
        s
