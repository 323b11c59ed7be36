-- ===== src/Tools/Dedup/Once.antt =====
-- A request that is sent again, and the first execution under each failure policy (tools/__init__.py,
-- `ToolExecutor.execute`).
use proteo_runtime.Prelude.{
  ℕ, String, Bool, ◌≡◌, refl, true, false, Option, none, some, [], ◌∷◌, ◌==◌, string_eq, beq_refl,
  arith, Bool-cases, inl, inr, ap, ◌∙◌,
}
use proteo_runtime.Prelude.Dict.{Dict, lookup, insert, has_key, lookup-insert_self}
use proteo_runtime.Prelude.Result.{ok, raise}
use proteo_runtime.Core.Errors.{Py, Exc, cancelled_error}
use proteo_runtime.Tools.Types.{
  ToolFailurePolicy, return_error, raise_error, ToolRequest, ToolResult,
}
use proteo_runtime.Tools.Executor.{Authority, State, execute_owner}
use proteo_runtime.Tools.Dedup.{
  CallKey, key_eq, pending, Calls, write, complete_call, with_lock, claim, error_result, settle,
  settle_converted, failed_with, await_future, execute, execute_claimed, join_owner,
}

has_key-insert_self : (k : String) (m : Dict String (Unit {0})) → has_key k (insert k tt m) ≡ true
unfolding has_key insert
has_key-insert_self k [] = rw (beq_refl k)
has_key-insert_self k ((j, u) ∷ m) = elim (Bool-cases (j == k)) [
  | inl same ↦ rw same (rw (beq_refl k))
  | inr other ↦ rw other (rw other (has_key-insert_self k m))
]

has_key-with_lock :
    (i : String) (locks : Dict String (Unit {0})) → has_key i (with_lock i locks) ≡ true
unfolding with_lock
has_key-with_lock i locks = elim (Bool-cases (has_key i locks)) [
  | inl there ↦ rw there there
  | inr absent ↦ rw absent (has_key-insert_self i locks)
]

abbrev pub key_of : ToolRequest → CallKey
key_of q = (q.invocation_id, q.call_id)

-- The request has a future that is done with the outcome `r`.
pub record IsSettled (q : ToolRequest) (c : Calls) (r : Py ToolResult) : Type 0 where
  pub reference : ℕ
  pub registered : lookup (key_of q) c.table ≡ some reference
  pub done : await_future (c.futures reference) ≡ some r
  pub locked : has_key q.invocation_id c.locks ≡ true

pub execute-IsSettled :
    (a : Authority) (q : ToolRequest) (s : State) (c : Calls) (r : Py ToolResult)
    → IsSettled q c r
    → execute a q s c ≡ (some r, s, c)
unfolding execute claim
execute-IsSettled a q s c r h =
    rw h.registered (rw h.locked (ap (λ (o : Option (Py ToolResult)). (o, s, c)) h.done))

-- Whether a request that ended in this outcome has completed its future and keeps its key: it returned,
-- or it passed on an exception of the pipeline, under `RAISE`, that is no cancellation.
abbrev pub is_kept : ToolFailurePolicy → Py ToolResult → Bool
is_kept policy (ok result) = true
is_kept policy (raise cancelled_error) = false
is_kept raise_error (raise _) = true
is_kept return_error (raise _) = false

-- What the futures, keys and locks are after a reply that is kept.
abbrev Replied : ℕ → Calls → Py ToolResult × Calls → Type 0
Replied n c (reply, d) =
    (await_future (d.futures n) ≡ some reply) × (d.table ≡ c.table) × (d.locks ≡ c.locks)

raised_reply :
    (q : ToolRequest) (n : ℕ) (e : Exc) (c : Calls)
    → c.futures n ≡ pending
    → Replied n c (raise e, complete_call c n (failed_with e))
unfolding await_future complete_call
raised_reply q n e c p = ground arith

converted_reply :
    (n : ℕ) (r : Py ToolResult) (c : Calls)
    → c.futures n ≡ pending
    → is_kept return_error (settle_converted n r c).0 ≡ true
    → Replied n c (settle_converted n r c)
unfolding settle_converted await_future complete_call
converted_reply n (ok result) c p kept = ground arith
converted_reply n (raise cancelled_error) c p kept = absurd (cc)
converted_reply n (raise _) c p kept = absurd (cc)

settle_reply :
    (policy : ToolFailurePolicy) (q : ToolRequest) (n : ℕ) (r : Py ToolResult) (c : Calls)
    → c.futures n ≡ pending
    → is_kept policy (settle policy q n r c).0 ≡ true
    → Replied n c (settle policy q n r c)
unfolding settle
settle_reply policy q n (ok result) c p kept = unfold await_future complete_call in ground arith
settle_reply policy q n (raise cancelled_error) c p kept = absurd (cc)
settle_reply raise_error q n (raise e) c p kept = raised_reply q n e c p
settle_reply return_error q n (raise e) c p kept = converted_reply n (error_result q e) c p kept

some_eq : {A : Type 0} {x y : A} → some x ≡ some y → x ≡ y
some_eq h = cc

owner_settles :
    (a : Authority) (q : ToolRequest) (n : ℕ) (s : State) (d : Calls) (r : Py ToolResult)
    → lookup (key_of q) d.table ≡ some n
    → d.futures n ≡ pending
    → has_key q.invocation_id d.locks ≡ true
    → (execute_claimed a q n true s d).0 ≡ some r
    → is_kept a.failure_policy r ≡ true
    → IsSettled q (execute_claimed a q n true s d).2 r
unfolding execute_claimed
owner_settles a q n s d r there p locked h ne =
    let outcome = (execute_owner a q s).0 in
    let same : (settle a.failure_policy q n outcome d).0 ≡ r = some_eq h in
    let (done, table, locks) =
      settle_reply a.failure_policy q n outcome d p (ap (is_kept a.failure_policy) same ∙ ne) in
    record {
      reference = n;
      registered = rw table there;
      done = done ∙ ap (λ (x : Py ToolResult). some x) same;
      locked = rw locks locked;
    }

join_settles :
    (a : Authority) (q : ToolRequest) (s : State) (c : Calls) (o : Option ℕ) (r : Py ToolResult)
    → lookup (key_of q) c.table ≡ o
    → has_key q.invocation_id c.locks ≡ true
    → let ((n, owner), d) = join_owner c (key_of q) o in
      (execute_claimed a q n owner s d).0 ≡ some r
      → is_kept a.failure_policy r ≡ true
      → IsSettled q (execute_claimed a q n owner s d).2 r
unfolding join_owner
join_settles a q s c none r there locked h ne =
    owner_settles a q c.fresh s _ r (lookup-insert_self (key_of q) c.fresh c.table)
      (unfold write in ground arith) locked h ne
join_settles a q s c (some n) r there locked h ne =
    unfold execute_claimed in
    record { reference = n; registered = there; done = h; locked = locked }

pub execute_settles :
    (a : Authority) (q : ToolRequest) (s : State) (c : Calls) (r : Py ToolResult)
    → (execute a q s c).0 ≡ some r
    → is_kept a.failure_policy r ≡ true
    → IsSettled q (execute a q s c).2 r
unfolding execute claim
execute_settles a q s c r h ne =
    join_settles a q s (record c { locks = with_lock q.invocation_id c.locks })
      (lookup (key_of q) c.table) r refl (has_key-with_lock q.invocation_id c.locks) h ne

-- What `RETURN_ERROR` makes of the outcome of the pipeline: a cancellation goes on to the caller, any
-- other exception is converted to an unsuccessful result, or to the exception of the conversion.
abbrev pub answered : ToolRequest → Py ToolResult → Py ToolResult
answered q (ok result) = ok result
answered q (raise cancelled_error) = raise cancelled_error
answered q (raise e) = error_result q e

settle_converted-reply : (n : ℕ) (r : Py ToolResult) (c : Calls) → (settle_converted n r c).0 ≡ r
unfolding settle_converted
settle_converted-reply n (ok result) c = refl
settle_converted-reply n (raise e) c = refl

settle-answered :
    (policy : ToolFailurePolicy) (q : ToolRequest) (n : ℕ) (r : Py ToolResult) (c : Calls)
    → policy ≡ return_error
    → (settle policy q n r c).0 ≡ answered q r
unfolding settle
settle-answered policy q n (ok result) c e = refl
settle-answered policy q n (raise cancelled_error) c e = refl
settle-answered return_error q n (raise x) c e = settle_converted-reply n (error_result q x) c
settle-answered raise_error q n (raise _) c e = absurd (cc)

pub execute_return_error :
    (a : Authority) (q : ToolRequest) (s : State) (c : Calls)
    → a.failure_policy ≡ return_error
    → lookup (q.invocation_id, q.call_id) c.table ≡ none
    → ((execute a q s c).0 ≡ some (answered q (execute_owner a q s).0))
      × ((execute a q s c).1 ≡ (execute_owner a q s).1)
unfolding execute claim join_owner
execute_return_error a q s c policy unknown = rw unknown (
  ap (λ (x : Py ToolResult). some x)
      (settle-answered a.failure_policy q c.fresh (execute_owner a q s).0 _ policy),
  refl,
)
