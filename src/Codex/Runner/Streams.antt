-- ===== src/Codex/Runner/Streams.antt =====
-- The terminal events of a whole stream without an event sink (providers/codex/_runner.py, `events`).
use proteo_runtime.Prelude.{
  ◌+◌, String, ◌≡◌, refl, ap, ◌∙◌, true, Option, none, some, List, [], ◌∷◌, string_eq, arith,
}
use proteo_runtime.Prelude.Result.{ok, raise}
use proteo_runtime.Core.Errors.{Py}
use proteo_runtime.Core.Events.{RuntimeEventKind}
use proteo_runtime.Core.Effects.{pure, lift, ◌>>=◌, ◌>>◌, continue}
use proteo_runtime.Codex.Turns.{
  Notification, turn_started, agent_message_delta, item_completed, token_usage_updated,
  turn_completed, other_method, SdkTurn, SdkUsage, Item, status_of,
}
use proteo_runtime.Codex.Publishing.{Metadata, Invocation, Turn, announce}
use proteo_runtime.Codex.Runner.{
  modify, adopted, settle_status, on_completed, on_notification, stream_loop, events,
}
use proteo_runtime.Codex.Runner.Ending.{
  is_end, ends, is_plain, bind-ok, bind-returned, modify-ok, ends-sent, modify-announce,
  settle_status-Judged, conclude-Ended,
}

-- A stream of one turn: its completion, if there is one, is the last that it reports.
abbrev pub IsTurn : List Notification → Py (Unit {0}) → Type 0
IsTurn [] ending = Unit {0}
IsTurn (turn_completed t ∷ ns) ending = (ns ≡ []) × (ending ≡ ok tt)
IsTurn (_ ∷ ns) ending = IsTurn ns ending

-- What a method that does not end the invocation leaves.
pub record Continues (s : Turn) (x : Py (Unit {0}) × Turn) : Type 0 where
  pub returned : x.0 ≡ ok tt
  pub same_ends : ends x.1.published ≡ ends s.published
  pub same_status : x.1.terminal_status ≡ s.terminal_status
  pub same_error : x.1.terminal_error ≡ s.terminal_error

-- What the loop over a stream leaves: it went through and nothing has ended, or a completed turn has ended
-- the invocation.
pub data Left (ending : Py (Unit {0})) (s : Turn) (x : Py (Unit {0}) × Turn) : Type 0 where
  unended :
      x.0 ≡ ending
      → ends x.1.published ≡ ends s.published
      → x.1.terminal_status ≡ none
      → Left ending s x
  ended :
      is_plain x.0 ≡ true
      → ends x.1.published ≡ ends s.published + 1
      → (status : String) → x.1.terminal_status ≡ some status
      → Left ending s x

pub Left-from :
    (ending : Py (Unit {0})) (s t : Turn) (x : Py (Unit {0}) × Turn)
    → ends t.published ≡ ends s.published
    → Left ending t x
    → Left ending s x
Left-from ending s t x same (unended a b c) = unended a (b ∙ same) c
Left-from ending s t x same (ended a b st c) = ended a (omega (arith, b, same)) st c

continue-done : (r : Py (Unit {0})) (u : Turn) → continue r (λ x. lift (ok tt)) u ≡ (r, u)
unfolding lift
continue-done (ok x) u = refl
continue-done (raise e) u = refl

module _ (i : Invocation) (silent : i.event_sink ≡ none) where
  modify-announce-Continues :
      (f : Turn → Turn) (kind : RuntimeEventKind) (m p : Metadata) (s : Turn)
      → is_end kind ≡ 0
      → (f s).published ≡ s.published
      → (f s).terminal_status ≡ s.terminal_status
      → (f s).terminal_error ≡ s.terminal_error
      → Continues s ((modify f >> announce i kind m p none) s)
  modify-announce-Continues f kind m p s quiet events status fault =
      rw (modify-announce i silent f kind m p none s) (record {
        returned = refl;
        same_ends = rw (ends-sent i silent kind m p none (f s), quiet, events) (omega arith);
        same_status = status;
        same_error = fault;
      })

  unchanged :
      (s t : Turn)
      → t.published ≡ s.published
      → t.terminal_status ≡ s.terminal_status
      → t.terminal_error ≡ s.terminal_error
      → Continues s (ok tt, t)
  unchanged s t events status fault = record {
    returned = refl;
    same_ends = ap ends events;
    same_status = status;
    same_error = fault;
  }

  on_completed-Ended :
      (t : SdkTurn) (s : Turn)
      → s.terminal_error ≡ none
      → (is_plain (on_completed i t s).0 ≡ true)
        × (ends (on_completed i t s).1.published ≡ ends s.published + 1)
        × ((on_completed i t s).1.terminal_status ≡ some (status_of t))
  unfolding on_completed
  on_completed-Ended t s clean =
      let f : Turn → Turn =
        λ s. record s { items = adopted s.items t.items; terminal_status = some (status_of t) } in
      let judged = settle_status-Judged i silent t (status_of t) (f s) clean in
      let u = (settle_status i t (status_of t) (f s)).1 in
      let ended =
        conclude-Ended i silent (status_of t) u.terminal_error u.result u judged.own_error in
      rw
        (
          bind-ok (modify f) _ s (f s) tt (modify-ok f s),
          bind-returned (settle_status i t (status_of t)) _ (f s) tt judged.returned,
        )
        (
          ended.plain,
          omega (arith, ended.one_end, judged.same_ends),
          ended.status_kept ∙ judged.same_status,
        )

  -- A notification that does not complete the turn.
  delta-Continues :
      (delta : Option String) (s : Turn)
      → Continues s (on_notification i (agent_message_delta delta) s)
  unfolding on_notification
  delta-Continues delta s = modify-announce-Continues _ _ _ _ s refl refl refl refl

  usage-Continues :
      (u : Option SdkUsage) (s : Turn) → Continues s (on_notification i (token_usage_updated u) s)
  unfolding on_notification
  usage-Continues u s = modify-announce-Continues _ _ _ _ s refl refl refl refl

  turn_id-Continues :
      (id : Option String) (s : Turn) → Continues s (on_notification i (turn_started id) s)
  unfolding on_notification pure modify
  turn_id-Continues none s = unchanged s s refl refl refl
  turn_id-Continues (some id) s = unchanged s _ refl refl refl

  item-Continues :
      (item : Option Item) (s : Turn) → Continues s (on_notification i (item_completed item) s)
  unfolding on_notification pure modify
  item-Continues none s = unchanged s s refl refl refl
  item-Continues (some item) s = unchanged s _ refl refl refl

  other-Continues : (s : Turn) → Continues s (on_notification i other_method s)
  unfolding on_notification pure
  other-Continues s = unchanged s s refl refl refl

  completed-Left :
      (t : SdkTurn) (ns : List Notification) (ending : Py (Unit {0})) (s : Turn)
      → s.terminal_error ≡ none
      → ns ≡ []
      → ending ≡ ok tt
      → Left ending s (stream_loop i (turn_completed t ∷ ns) ending s)
  unfolding stream_loop on_notification ◌>>=◌
  completed-Left t ns ending s clean last done =
      let (plain, one, status) = on_completed-Ended t s clean in
      rw (last, done, continue-done (on_completed i t s).0 (on_completed i t s).1)
        (ended plain one (status_of t) status)

  step-Left :
      (n : Notification) (ns : List Notification) (ending : Py (Unit {0})) (s : Turn)
      → Continues s (on_notification i n s)
      → Left ending (on_notification i n s).1 (stream_loop i ns ending (on_notification i n s).1)
      → Left ending s (stream_loop i (n ∷ ns) ending s)
  unfolding stream_loop
  step-Left n ns ending s h k =
      rw (bind-returned (on_notification i n) (λ u. stream_loop i ns ending) s tt h.returned)
        (Left-from ending s (on_notification i n s).1 _ h.same_ends k)

  pub stream_loop-Left :
      (ns : List Notification) (ending : Py (Unit {0})) (s : Turn)
      → s.terminal_status ≡ none
      → s.terminal_error ≡ none
      → IsTurn ns ending
      → Left ending s (stream_loop i ns ending s)
  unfolding stream_loop lift
  stream_loop-Left [] ending s open_turn clean turn = unended refl refl open_turn
  stream_loop-Left (turn_completed t ∷ ns) ending s open_turn clean (last, done) =
      completed-Left t ns ending s clean last done
  stream_loop-Left (turn_started id ∷ ns) ending s open_turn clean turn =
      let h = turn_id-Continues id s in
      step-Left _ ns ending s h
        (stream_loop-Left ns ending _ (h.same_status ∙ open_turn) (h.same_error ∙ clean) turn)
  stream_loop-Left (agent_message_delta delta ∷ ns) ending s open_turn clean turn =
      let h = delta-Continues delta s in
      step-Left _ ns ending s h
        (stream_loop-Left ns ending _ (h.same_status ∙ open_turn) (h.same_error ∙ clean) turn)
  stream_loop-Left (item_completed item ∷ ns) ending s open_turn clean turn =
      let h = item-Continues item s in
      step-Left _ ns ending s h
        (stream_loop-Left ns ending _ (h.same_status ∙ open_turn) (h.same_error ∙ clean) turn)
  stream_loop-Left (token_usage_updated u ∷ ns) ending s open_turn clean turn =
      let h = usage-Continues u s in
      step-Left _ ns ending s h
        (stream_loop-Left ns ending _ (h.same_status ∙ open_turn) (h.same_error ∙ clean) turn)
  stream_loop-Left (other_method ∷ ns) ending s open_turn clean turn =
      let h = other-Continues s in
      step-Left _ ns ending s h
        (stream_loop-Left ns ending _ (h.same_status ∙ open_turn) (h.same_error ∙ clean) turn)
