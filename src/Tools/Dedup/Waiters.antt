-- ===== src/Tools/Dedup/Waiters.antt =====
-- Requests of one executor interleaved (tools/__init__.py, `execute` and `end_invocation`): the futures
-- that requests await, and their owners.
use proteo_runtime.Prelude.{
  ℕ, ◌<◌, String, ◌≡◌, ◌≢◌, refl, ap, Bool, true, false, Option, none, some, List, [], ◌∷◌, ◌++◌,
  nat_beq, nat_beq_iff, arith, if◌then◌else◌, Bool-cases, inl, inr, ◌==◌, string_eq,
}
use proteo_runtime.Prelude.Dict.{Dict}
use proteo_runtime.Prelude.Result.{ok, raise, is_ok}
use proteo_runtime.Core.Errors.{Py, cancelled_error}
use proteo_runtime.Tools.Types.{
  ToolFailurePolicy, return_error, raise_error, ToolRequest, ToolResult,
}
use proteo_runtime.Tools.Dedup.{
  CallKey, key_eq, Future, pending, resolved, failed_with, cancelled, Calls, write, complete,
  complete_call, with_lock, new_owner, join_owner, claim, error_result, settle, settle_converted,
  cancel_all, end_invocation, no_calls,
}

-- The calls of an executor, and the owners whose pipelines run, with their futures.
pub record System : Type 0 where
  pub calls : Calls
  pub running : List (ToolRequest × ℕ)

abbrev pub is_running : ℕ → List (ToolRequest × ℕ) → Bool
is_running n [] = false
is_running n ((q, r) ∷ owners) = if nat_beq r n then true else is_running n owners

abbrev start : ToolRequest → List (ToolRequest × ℕ) → ℕ × Bool → List (ToolRequest × ℕ)
start q owners (n, true) = (q, n) ∷ owners
start q owners (n, false) = owners

-- Whether the owner can answer: under `RETURN_ERROR` an exception has to be converted.
abbrev pub is_answerable : ToolFailurePolicy → ToolRequest → Py ToolResult → Bool
is_answerable policy q (ok x) = true
is_answerable policy q (raise cancelled_error) = true
is_answerable raise_error q (raise _) = true
is_answerable return_error q (raise e) = is_ok (error_result q e)

-- A request claims its key, the pipeline of some owner ends in an outcome that it can answer, or an invocation ends.
pub data Step (policy : ToolFailurePolicy) : System → System → Type 0 where
  begins :
      (q : ToolRequest) (s : System)
      → Step policy s
          (record { calls = (claim q s.calls).1; running = start q s.running (claim q s.calls).0 })
  finishes :
      (c : Calls) (before after : List (ToolRequest × ℕ)) (q : ToolRequest) (n : ℕ)
      (r : Py ToolResult)
      → is_answerable policy q r ≡ true
      → Step policy
          (record { calls = c; running = before ++ (q, n) ∷ after })
          (record { calls = (settle policy q n r c).1; running = before ++ after })
  ends : (i : String) (s : System) → Step policy s (record s { calls = end_invocation i s.calls })

pub data Reach (policy : ToolFailurePolicy) (s : System) : System → Type 0 where
  here : Reach policy s s
  next : {t u : System} → Reach policy s t → Step policy t u → Reach policy s u

-- Every pending future has a running owner.
pub record NoOrphan (s : System) : Type 0 where
  pub owned :
      (n : ℕ) → n < s.calls.fresh → s.calls.futures n ≡ pending → is_running n s.running ≡ true

is_running-skip :
    (n m : ℕ) (q : ToolRequest) (before after : List (ToolRequest × ℕ))
    → is_running m (before ++ (q, n) ∷ after) ≡ true
    → n ≢ m
    → is_running m (before ++ after) ≡ true
is_running-skip n m q [] after h ne = ground (arith, nat_beq_iff n m, ne)
is_running-skip n m q ((p, k) ∷ before) after h ne = elim (Bool-cases (nat_beq k m)) [
  | inl hit ↦ rw hit
  | inr miss ↦ rw miss (is_running-skip n m q before after (rw miss at h) ne)
]

-- Where a completed store is pending, it was so before, and elsewhere than it was completed.
complete-pending :
    (futures : ℕ → Future) (n m : ℕ) (f : Future)
    → f ≢ pending
    → complete futures n f m ≡ pending
    → (futures m ≡ pending) × (n ≢ m)
unfolding complete write
complete-pending futures n m f done h = elim (Bool-cases (nat_beq n m)) [
  | inl hit ↦ absurd (at_itself (ap futures ((nat_beq_iff n m).0 hit)) hit)
  | inr miss ↦ (ground (arith, miss), λ e. ground (arith, miss, (nat_beq_iff n m).1 e))
]
  where
    at_itself : futures n ≡ futures m → nat_beq n m ≡ true → ⊥
    at_itself same hit = ground (arith, done)

settle_converted-pending :
    (n m : ℕ) (x : Py ToolResult) (c : Calls)
    → is_ok x ≡ true
    → (settle_converted n x c).1.futures m ≡ pending
    → (c.futures m ≡ pending) × (n ≢ m)
unfolding settle_converted complete_call
settle_converted-pending n m (ok x) c fine h =
    complete-pending c.futures n m (resolved x) (λ e. cc) h
settle_converted-pending n m (raise e) c fine h = absurd (cc)

settle-pending :
    (policy : ToolFailurePolicy) (q : ToolRequest) (n m : ℕ) (r : Py ToolResult) (c : Calls)
    → is_answerable policy q r ≡ true
    → (settle policy q n r c).1.futures m ≡ pending
    → (c.futures m ≡ pending) × (n ≢ m)
unfolding settle complete_call
settle-pending policy q n m (ok x) c can h = complete-pending c.futures n m (resolved x) (λ e. cc) h
settle-pending policy q n m (raise cancelled_error) c can h =
    complete-pending c.futures n m cancelled (λ e. cc) h
settle-pending return_error q n m (raise e) c can h =
    settle_converted-pending n m (error_result q e) c can h
settle-pending raise_error q n m (raise e) c can h =
    complete-pending c.futures n m (failed_with e) (λ p. cc) h

settle_converted-fresh :
    (n : ℕ) (x : Py ToolResult) (c : Calls) → (settle_converted n x c).1.fresh ≡ c.fresh
unfolding settle_converted complete_call
settle_converted-fresh n (ok x) c = refl
settle_converted-fresh n (raise e) c = refl

settle-fresh :
    (policy : ToolFailurePolicy) (q : ToolRequest) (n : ℕ) (r : Py ToolResult) (c : Calls)
    → (settle policy q n r c).1.fresh ≡ c.fresh
unfolding settle complete_call
settle-fresh policy q n (ok x) c = refl
settle-fresh policy q n (raise cancelled_error) c = refl
settle-fresh return_error q n (raise e) c = settle_converted-fresh n (error_result q e) c
settle-fresh raise_error q n (raise e) c = refl

complete-if :
    (b : Bool) (futures : ℕ → Future) (r m : ℕ)
    → (if b then complete futures r cancelled else futures) m ≡ pending
    → futures m ≡ pending
complete-if true futures r m h = (complete-pending futures r m cancelled (λ e. cc) h).0
complete-if false futures r m h = h

cancel_all-pending :
    (i : String) (table : Dict CallKey ℕ) (futures : ℕ → Future) (m : ℕ)
    → cancel_all i table futures m ≡ pending
    → futures m ≡ pending
unfolding cancel_all
cancel_all-pending i [] futures m h = h
cancel_all-pending i (((j, call), r) ∷ rest) futures m h =
    complete-if (j == i) futures r m (cancel_all-pending i rest _ m h)

join-NoOrphan :
    (q : ToolRequest) (c : Calls) (owners : List (ToolRequest × ℕ)) (key : CallKey) (o : Option ℕ)
    → NoOrphan (record { calls = c; running = owners })
    → NoOrphan
        (record { calls = (join_owner c key o).1; running = start q owners (join_owner c key o).0 })
unfolding join_owner new_owner write
join-NoOrphan q c owners key (some r) v = v
join-NoOrphan q c owners key none v = record {
  owned = λ n lt p. elim (Bool-cases (nat_beq c.fresh n)) [
    | inl new ↦ rw new
    | inr old ↦ rw old (v.owned n (ground arith) (rw old at p))
  ];
}

-- Whatever requests claim, end or are cancelled, in whatever order and with whatever outcomes that their
-- owners can answer, a future that is pending has an owner whose pipeline still runs.
pub Step-NoOrphan :
    {policy : ToolFailurePolicy} {s t : System} → Step policy s t → NoOrphan s → NoOrphan t
unfolding claim end_invocation
Step-NoOrphan (begins q s) v =
    join-NoOrphan q (record s.calls { locks = with_lock q.invocation_id s.calls.locks }) s.running _
      _ (record { owned = v.owned })
Step-NoOrphan {policy} (finishes c before after q n r can) v = record {
  owned = λ m lt p.
      let (was, other) = settle-pending policy q n m r c can p in
      is_running-skip n m q before after
        (v.owned m (omega (arith, settle-fresh policy q n r c)) was) other;
}
Step-NoOrphan (ends i s) v = record {
  owned = λ m lt p. v.owned m lt (cancel_all-pending i s.calls.table s.calls.futures m p);
}

abbrev pub idle : System
idle = record { calls = no_calls; running = [] }

NoOrphan-idle : NoOrphan idle
unfolding no_calls
NoOrphan-idle = record { owned = λ n lt p. absurd (omega arith) }

-- From a new executor, in every system that is reached while each exception that a pipeline ends in under
-- `RETURN_ERROR` can be converted to a result, every pending future has an owner whose pipeline still
-- runs: nobody waits for an answer that cannot come.
pub Reach-NoOrphan : {policy : ToolFailurePolicy} {s : System} → Reach policy idle s → NoOrphan s
Reach-NoOrphan here = NoOrphan-idle
Reach-NoOrphan (next r step) = Step-NoOrphan step (Reach-NoOrphan r)
