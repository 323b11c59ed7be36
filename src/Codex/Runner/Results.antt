-- ===== src/Codex/Runner/Results.antt =====
-- What a run that returns has set (providers/codex/_runner.py, `events`).
use proteo_runtime.Prelude.{
  String, ◌≡◌, refl, sym, ap, ◌∙◌, Bool, true, false, Option, none, some, List, [], ◌∷◌, string_eq,
}
use proteo_runtime.Prelude.Result.{ok, raise}
use proteo_runtime.Core.Errors.{Py}
use proteo_runtime.Core.Effects.Rules.{continue-returned}
use proteo_runtime.Core.Effects.{Method, pure, lift, ◌>>=◌, continue, Keeps}
use proteo_runtime.Codex.Turns.{
  Notification, turn_started, agent_message_delta, item_completed, token_usage_updated,
  turn_completed, other_method,
}
use proteo_runtime.Codex.Publishing.{Invocation, Turn, announce, new_turn}
use proteo_runtime.Codex.Runner.{
  modify, on_notification, stream_loop, run_stream, recover_stream, release, require_terminal,
  try_stream, events,
}
use proteo_runtime.Core.Effects.Rules.{Keeps-pure, Keeps-bind}
use proteo_runtime.Codex.Runner.Returned.{
  HasResult, Viewed, Viewed-Related, announce-Viewed, fail_transport-Never, on_error-Never, Sound,
  Sound-Viewed, on_completed-Sound,
}

-- The state that a completed turn has left: its result, no error, and nothing left to release.
pub record Settled (s : Turn) : Type 0 where
  pub completed : s.terminal_status ≡ some "completed"
  pub no_error : s.terminal_error ≡ none
  pub has_result : HasResult s
  pub finished : s.finished ≡ true
  pub released : s.cleanup ≡ false

Settled-release :
    (s : Turn) (status : String) → Sound s → s.terminal_status ≡ some status → Settled (release s)
unfolding release
Settled-release s status sound set =
    let (name, result) = sound.settled status set in
    record {
      completed = set ∙ ap some name;
      no_error = sound.clean;
      has_result = result;
      finished = refl;
      released = refl;
    }

module _ (i : Invocation) where
  modify-Viewed : (f : Turn → Turn) → ((s : Turn) → Viewed s (f s)) → Keeps Viewed (modify f)
  unfolding modify
  modify-Viewed f h = record { at = h }

  -- A change of fields that are no part of the outcome.
  unseen :
      (s t : Turn)
      → t.terminal_status ≡ s.terminal_status
      → t.terminal_error ≡ s.terminal_error
      → t.result ≡ s.result
      → t.finished ≡ s.finished
      → t.cleanup ≡ s.cleanup
      → Viewed s t
  unseen s t a b c d e = record {
    same_status = a;
    same_error = b;
    result_kept = λ h. let (x, has) = h in (x, c ∙ has);
    same_finished = d;
    same_cleanup = e;
  }

  on_notification-Sound :
      (n : Notification) (s : Turn)
      → (on_notification i n s).0 ≡ ok tt
      → Sound s
      → Sound (on_notification i n s).1
  unfolding on_notification
  on_notification-Sound (turn_started none) s returned sound =
      Sound-Viewed s _ ((Keeps-pure Viewed-Related tt).at s) sound
  on_notification-Sound (turn_started (some id)) s returned sound =
      Sound-Viewed s _ ((modify-Viewed _ (λ t. unseen t _ refl refl refl refl refl)).at s) sound
  on_notification-Sound (agent_message_delta delta) s returned sound =
      Sound-Viewed s _
        ((Keeps-bind _ _ Viewed-Related (modify-Viewed _ (λ t. unseen t _ refl refl refl refl refl))
            λ u. announce-Viewed i _ _ _ _).at
          s)
        sound
  on_notification-Sound (item_completed none) s returned sound =
      Sound-Viewed s _ ((Keeps-pure Viewed-Related tt).at s) sound
  on_notification-Sound (item_completed (some item)) s returned sound =
      Sound-Viewed s _ ((modify-Viewed _ (λ t. unseen t _ refl refl refl refl refl)).at s) sound
  on_notification-Sound (token_usage_updated u) s returned sound =
      Sound-Viewed s _
        ((Keeps-bind _ _ Viewed-Related (modify-Viewed _ (λ t. unseen t _ refl refl refl refl refl))
            λ u. announce-Viewed i _ _ _ _).at
          s)
        sound
  on_notification-Sound (turn_completed t) s returned sound = on_completed-Sound i t s returned
  on_notification-Sound other_method s returned sound =
      Sound-Viewed s _ ((Keeps-pure Viewed-Related tt).at s) sound

  bind-Sound :
      {A : Type 0} (m : Method Turn A) (f : A → Method Turn (Unit {0})) (s : Turn)
      → ((a : A) → (m s).0 ≡ ok a → Sound (m s).1)
      → ((a : A) (t : Turn) → (f a t).0 ≡ ok tt → Sound t → Sound (f a t).1)
      → ((m >>= f) s).0 ≡ ok tt
      → Sound ((m >>= f) s).1
  unfolding ◌>>=◌
  bind-Sound m f s first then_on returned =
      let (a, fine, same) = continue-returned (m s).0 f (m s).1 tt returned in
      rw same (
        then_on a (m s).1 (ap (λ (x : Py (Unit {0}) × Turn). x.0) (sym same) ∙ returned)
          (first a fine))

  stream_loop-Sound :
      (ns : List Notification) (ending : Py (Unit {0})) (s : Turn)
      → (stream_loop i ns ending s).0 ≡ ok tt
      → Sound s
      → Sound (stream_loop i ns ending s).1
  unfolding stream_loop lift
  stream_loop-Sound [] ending s returned sound = sound
  stream_loop-Sound (n ∷ ns) ending s returned sound =
      bind-Sound (on_notification i n) (λ u. stream_loop i ns ending) s
        (λ a fine. on_notification-Sound n s fine sound) (λ a t h. stream_loop-Sound ns ending t h)
        returned

  run_stream-Sound :
      (ns : List Notification) (ending : Py (Unit {0})) (s : Turn)
      → (run_stream i ns ending s).0 ≡ ok tt
      → Sound s
      → Sound (run_stream i ns ending s).1
  unfolding run_stream
  run_stream-Sound ns ending s returned sound =
      bind-Sound (announce i _ _ _ _) _ s
        (λ a fine. Sound-Viewed s _ ((announce-Viewed i _ _ _ _).at s) sound)
        (λ a t h kept.
          bind-Sound (announce i _ _ _ _) _ t
            (λ b fine. Sound-Viewed t _ ((announce-Viewed i _ _ _ _).at t) kept)
            (λ b u k more. stream_loop-Sound ns ending u k more) h)
        returned

  recover_stream-returned :
      (r : Py (Unit {0})) (s : Turn)
      → (recover_stream i r s).0 ≡ ok tt
      → (r ≡ ok tt) × (recover_stream i r s ≡ (ok tt, s))
  unfolding recover_stream
  recover_stream-returned (ok u) s h = (refl, refl)
  recover_stream-returned (raise e) s h = absurd ((on_error-Never i e).at s tt h)

  new_turn-Sound : (cleanup : Bool) → Sound (new_turn i cleanup)
  unfolding new_turn
  new_turn-Sound cleanup = record { clean = refl; settled = λ status set. absurd (cc) }

  require_terminal-returned :
      (o : Option String) (s : Turn)
      → (require_terminal i o s).0 ≡ ok tt
      → (status : String) × (o ≡ some status) × (require_terminal i o s ≡ (ok tt, s))
  unfolding require_terminal pure
  require_terminal-returned none s h =
      absurd ((fail_transport-Never i "missing_terminal").at s tt h)
  require_terminal-returned (some status) s h = (status, refl, refl)

  finish-Settled :
      (r : Py (Unit {0})) (t : Turn)
      → (r ≡ ok tt → Sound t)
      → (let (r', u) = recover_stream i r t in
          (continue r' (λ x v. require_terminal i v.terminal_status v) (release u)).0 ≡ ok tt)
      → (let (r', u) = recover_stream i r t in
          Settled (continue r' (λ x v. require_terminal i v.terminal_status v) (release u)).1)
  unfolding release
  finish-Settled r t sound returned =
      let (r', u) = recover_stream i r t in
      let require : Unit {0} → Method Turn (Unit {0}) =
        λ x v. require_terminal i v.terminal_status v in
      let (a, fine, same) = continue-returned r' require (release u) tt returned in
      let (went, kept) = recover_stream-returned r t fine in
      let (status, set, done) =
        require_terminal-returned (release u).terminal_status (release u)
          (ap (λ (x : Py (Unit {0}) × Turn). x.0) (sym same) ∙ returned) in
      let back : u ≡ t = ap (λ (x : Py (Unit {0}) × Turn). x.1) kept in
      rw (same, done) (Settled-release u status (rw back (sound went)) set)

  -- A run that returns, whatever its sink does, has seen the turn complete: its terminal status is
  -- `completed`, it has a result and no error, its `finished` event is set and its cleanup is no longer due.
  pub events-Settled :
      (ns : List Notification) (ending : Py (Unit {0})) (cleanup : Bool)
      → (events i ns ending (new_turn i cleanup)).0 ≡ ok tt
      → Settled (events i ns ending (new_turn i cleanup)).1
  unfolding events try_stream ◌>>=◌
  events-Settled ns ending cleanup returned =
      let s = new_turn i cleanup in
      finish-Settled (run_stream i ns ending s).0 (run_stream i ns ending s).1
        (λ fine. run_stream-Sound ns ending s fine (new_turn-Sound cleanup)) returned
