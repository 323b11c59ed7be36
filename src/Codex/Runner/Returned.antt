-- ===== src/Codex/Runner/Returned.antt =====
-- The outcome of a turn along the steps of a run (providers/codex/_runner.py): what each keeps, and what
-- a completed turn sets.
use proteo_runtime.Prelude.{
  ◌+◌, String, ◌≡◌, refl, ◌≢◌, sym, ap, ◌∙◌, inl, inr, Bool-cases, Option, none, some, [], ◌∷◌,
  ◌++◌, ◌==◌, string_eq, eq_iff,
}
use proteo_runtime.Prelude.Result.{ok, raise}
use proteo_runtime.Core.Errors.{
  Py, Exc, agent, cancelled_error, timeout_error, value_error, type_error, other_error, error,
  transport, interrupted, runtime_unavailable,
}
use proteo_runtime.Core.Events.{RuntimeEventKind}
use proteo_runtime.Core.Effects.Rules.{continue-returned}
use proteo_runtime.Core.Effects.{Method, throw, ◌>>=◌, continue, Related, Keeps}
use proteo_runtime.Codex.Turns.{RuntimeResult, SdkTurn, status_of}
use proteo_runtime.Codex.Publishing.{
  Metadata, Invocation, Turn, RuntimeEvent, turn_event, emit_event, publish, accept, send,
  yield_event, announce, retain,
}
use proteo_runtime.Codex.Runner.{
  modify, adopted, turn_result, settle_status, conclude, on_completed, on_cancelled, fail_transport,
  on_error,
}
use proteo_runtime.Core.Effects.Rules.{Keeps-bind}
use proteo_runtime.Codex.Runner.Ending.{bind-ok, modify-ok}

abbrev pub HasResult : Turn → Type 0
HasResult s = (x : RuntimeResult) × (s.result ≡ some x)

-- The outcome of the turn is kept: its status, its error, a result, and the `finally` clause.
pub record Viewed (s t : Turn) : Type 0 where
  pub same_status : t.terminal_status ≡ s.terminal_status
  pub same_error : t.terminal_error ≡ s.terminal_error
  pub result_kept : HasResult s → HasResult t
  pub same_finished : t.finished ≡ s.finished
  pub same_cleanup : t.cleanup ≡ s.cleanup

retain-some :
    (new old : Option RuntimeResult)
    → (x : RuntimeResult) × (old ≡ some x)
    → (y : RuntimeResult) × (retain new old ≡ some y)
unfolding retain
retain-some none old h = h
retain-some (some r) old h = (r, refl)

accept-Viewed :
    (r : Py RuntimeEvent) (s : Turn)
    → Viewed s (continue (accept r s).0 yield_event (accept r s).1).1
unfolding accept yield_event
accept-Viewed (ok e) s = record {
  same_status = refl;
  same_error = refl;
  result_kept = retain-some e.result s.result;
  same_finished = refl;
  same_cleanup = refl;
}
accept-Viewed (raise x) s = record {
  same_status = refl;
  same_error = refl;
  result_kept = λ h. h;
  same_finished = refl;
  same_cleanup = refl;
}

pub Viewed-Related : Related Viewed
Viewed-Related = record {
  same = λ s. record {
    same_status = refl;
    same_error = refl;
    result_kept = λ h. h;
    same_finished = refl;
    same_cleanup = refl;
  };
  then_to = λ s t u h k. record {
    same_status = k.same_status ∙ h.same_status;
    same_error = k.same_error ∙ h.same_error;
    result_kept = λ r. k.result_kept (h.result_kept r);
    same_finished = k.same_finished ∙ h.same_finished;
    same_cleanup = k.same_cleanup ∙ h.same_cleanup;
  };
}

pub record Never {A : Type 0} (m : Method Turn A) : Type 0 where
  pub at : (s : Turn) (a : A) → (m s).0 ≢ ok a

Never-throw : {A : Type 0} (e : Exc) → Never (throw {A = A} e)
unfolding throw
Never-throw e = record { at = λ s a h. absurd (cc) }

Never-bind :
    {A B : Type 0} (m : Method Turn A) (f : A → Method Turn B)
    → ((a : A) → Never (f a))
    → Never (m >>= f)
unfolding ◌>>=◌
Never-bind m f never = record {
  at = λ s b h.
      let (a, e, same) = continue-returned (m s).0 f (m s).1 b h in
      (never a).at (m s).1 b (ap (λ (x : Py _ × Turn). x.0) (sym same) ∙ h);
}

-- What the branches on a status leave, whether they return or raise.
record Judgement (status : String) (s v : Turn) : Type 0 where
  success : v.terminal_error ≡ none → (status ≡ "completed") × HasResult v
  status_same : v.terminal_status ≡ s.terminal_status

failed-Judgement :
    (status : String) (f : Turn → Turn) (s v : Turn) (e : Exc)
    → (f s).terminal_error ≡ some e
    → (f s).terminal_status ≡ s.terminal_status
    → Viewed (f s) v
    → Judgement status s v
failed-Judgement status f s v e raised same h = record {
  success = λ clean. let broken = h.same_error ∙ raised in absurd (cc);
  status_same = h.same_status ∙ same;
}

-- No error is set, and a status that is set is that of a completed turn with its result.
pub record Sound (s : Turn) : Type 0 where
  pub clean : s.terminal_error ≡ none
  pub settled :
      (status : String) → s.terminal_status ≡ some status → (status ≡ "completed") × HasResult s

pub Sound-Viewed : (s t : Turn) → Viewed s t → Sound s → Sound t
Sound-Viewed s t h sound = record {
  clean = h.same_error ∙ sound.clean;
  settled = λ status set.
      let (name, result) = sound.settled status (sym h.same_status ∙ set) in
      (name, h.result_kept result);
}

module _ (i : Invocation) where
  pub announce-Viewed :
      (kind : RuntimeEventKind) (m p : Metadata) (r : Option RuntimeResult)
      → Keeps Viewed (announce i kind m p r)
  unfolding announce emit_event publish ◌>>=◌
  announce-Viewed kind m p r = record {
    at = λ s.
        let e = turn_event i s kind m p r in
        let sent = s.published ++ e ∷ [] in
        let t = record s { sequence = s.sequence + 1; published = sent } in
        let h = accept-Viewed (send i.event_sink sent e) t in
        record {
          same_status = h.same_status;
          same_error = h.same_error;
          result_kept = h.result_kept;
          same_finished = h.same_finished;
          same_cleanup = h.same_cleanup;
        };
  }

  pub fail_transport-Never : (reason : String) → Never (fail_transport i reason)
  unfolding fail_transport
  fail_transport-Never reason =
      Never-bind _ _ λ u. Never-bind _ _ λ v. Never-throw (error transport)

  pub on_error-Never : (e : Exc) → Never (on_error i e)
  unfolding on_error on_cancelled
  on_error-Never cancelled_error =
      Never-bind _ _ λ u. Never-bind _ _ λ v. Never-throw cancelled_error
  on_error-Never (agent e) = Never-bind _ _ λ u. Never-throw (agent e)
  on_error-Never timeout_error = fail_transport-Never "transport"
  on_error-Never value_error = fail_transport-Never "transport"
  on_error-Never type_error = fail_transport-Never "transport"
  on_error-Never (other_error f) = fail_transport-Never "transport"

  settle_status-Judgement :
      (t : SdkTurn) (status : String) (s : Turn) → Judgement status s (settle_status i t status s).1
  unfolding settle_status
  settle_status-Judgement t status s = elim (Bool-cases (status == "interrupted")) [
    | inl hit ↦
        let f : Turn → Turn = λ s. record s { terminal_error = some (error interrupted) } in
        rw (hit, bind-ok (modify f) _ s (f s) tt (modify-ok f s))
          (failed-Judgement status f s _ (error interrupted) refl refl (
            (Keeps-bind _ _ Viewed-Related (announce-Viewed _ _ _ _)
                λ u. announce-Viewed _ _ _ _).at
              (f s)))
    | inr miss ↦ elim (Bool-cases (status == "completed")) [
      | inl done ↦
          let f : Turn → Turn = λ s. record s { result = some (turn_result i s t) } in
          rw (miss, done, bind-ok (modify f) _ s (f s) tt (modify-ok f s))
            (let h = (announce-Viewed _ _ _ _).at (f s) in
              record {
                success = λ clean.
                    ((eq_iff status "completed").0 done, h.result_kept (turn_result i s t, refl));
                status_same = h.same_status;
              })
      | inr other ↦
          let f : Turn → Turn =
            λ s. record s { terminal_error = some (error runtime_unavailable) } in
          rw (miss, other, bind-ok (modify f) _ s (f s) tt (modify-ok f s))
            (failed-Judgement status f s _ (error runtime_unavailable) refl refl
              ((announce-Viewed _ _ _ _).at (f s)))
    ]
  ]

  conclude-returned :
      (status : String) (o : Option Exc) (r : Option RuntimeResult) (s : Turn)
      → (conclude i status o r s).0 ≡ ok tt
      → (o ≡ none) × Viewed s (conclude i status o r s).1
  unfolding conclude
  conclude-returned status none r s h = (refl, (announce-Viewed _ _ _ _).at s)
  conclude-returned status (some e) r s h =
      absurd ((Never-bind (announce i _ _ _ _) _ λ u. Never-throw e).at s tt h)

  pub on_completed-Sound :
      (t : SdkTurn) (s : Turn) → (on_completed i t s).0 ≡ ok tt → Sound (on_completed i t s).1
  unfolding on_completed ◌>>=◌ modify
  on_completed-Sound t s returned =
      let f : Turn → Turn =
        λ s. record s { items = adopted s.items t.items; terminal_status = some (status_of t) } in
      let judged = settle_status-Judgement t (status_of t) (f s) in
      let u = (settle_status i t (status_of t) (f s)).1 in
      let (a, fine, same) =
        continue-returned (settle_status i t (status_of t) (f s)).0
          (λ x s. conclude i (status_of t) s.terminal_error s.result s) u tt returned in
      let (clean, viewed) =
        conclude-returned (status_of t) u.terminal_error u.result u
          (ap (λ (x : Py (Unit {0}) × Turn). x.0) (sym same) ∙ returned) in
      rw same (
        Sound-Viewed u _ viewed (record {
          clean = clean;
          settled = λ status set.
              let (name, result) = judged.success clean in
              let named = sym judged.status_same ∙ set in (cc (named, name), result);
        }))
