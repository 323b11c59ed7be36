-- ===== src/Tools/Dedup/Later.antt =====
-- A request that is sent again later (tools/__init__.py, `ToolExecutor.execute` and `end_invocation`).
use proteo_runtime.Prelude.{
  ℕ, ◌<◌, String, Bool, ◌≡◌, ◌≢◌, ◌⊎◌, refl, sym, eq_iff, nat_beq, nat_beq_iff, if◌then◌else◌, true,
  false, Option, none, some, [], ◌∷◌, ◌==◌, string_eq, arith, Bool-cases, inl, inr, ap, ◌∙◌,
}
use proteo_runtime.Prelude.Dict.{
  Dict, lookup, insert, remove, has_key, lookup-insert, lookup-remove,
}
use proteo_runtime.Prelude.Result.{ok, raise}
use proteo_runtime.Core.Errors.{Py, cancelled_error}
use proteo_runtime.Tools.Types.{
  ToolFailurePolicy, return_error, raise_error, ToolRequest, ToolResult,
}
use proteo_runtime.Tools.Executor.{Authority, State}
use proteo_runtime.Tools.Dedup.{
  CallKey, pair_beq_iff, key_eq, pending, Calls, write, complete_call, with_lock, claim,
  error_result, settle, settle_converted, Future, resolved, cancelled, complete, cancel_all,
  other_keys, end_invocation, new_owner, failed_with, await_future, execute, join_owner,
}
use proteo_runtime.Tools.Dedup.Numbered.{IsNumbered, execute-IsNumbered}
use proteo_runtime.Tools.Dedup.Once.{key_of, is_kept, IsSettled, execute-IsSettled, execute_settles}

-- What other requests do to the calls: any request claims its key, the owner of another key settles, and
-- another invocation ends.
pub data Later (q : ToolRequest) (c : Calls) : Calls → Type 0 where
  at_once : Later q c c
  then_claims : {d : Calls} (p : ToolRequest) → Later q c d → Later q c (claim p d).1
  then_settles :
      {d : Calls} (policy : ToolFailurePolicy) (p : ToolRequest) (n : ℕ) (x : Py ToolResult)
      → key_of p ≢ key_of q
      → Later q c d
      → Later q c (settle policy p n x d).1
  then_ends :
      {d : Calls} (i : String) → i ≢ q.invocation_id → Later q c d → Later q c (end_invocation i d)

-- The request has a future that is done with the outcome `r`, at a reference that is not given again.
record IsDone (q : ToolRequest) (c : Calls) (r : Py ToolResult) : Type 0 where
  settled : IsSettled q c r
  old : settled.reference < c.fresh

has_key-insert :
    (i j : String) (m : Dict String (Unit {0}))
    → has_key i m ≡ true
    → has_key i (insert j tt m) ≡ true
unfolding has_key insert
has_key-insert i j [] h = absurd (cc)
has_key-insert i j ((k, u) ∷ m) h = elim (Bool-cases (k == j)) [
  | inl same ↦ rw same (ground (arith, eq_iff k j, same, h))
  | inr other ↦ elim (Bool-cases (k == i)) [
    | inl hit ↦ rw (other, hit)
    | inr miss ↦ rw (other, miss) (has_key-insert i j m (rw miss at h))
  ]
]

has_key-with_other_lock :
    (i j : String) (m : Dict String (Unit {0}))
    → has_key i m ≡ true
    → has_key i (with_lock j m) ≡ true
unfolding with_lock
has_key-with_other_lock i j m h = elim (Bool-cases (has_key j m)) [
  | inl there ↦ rw there h
  | inr absent ↦ rw absent (has_key-insert i j m h)
]

complete-done :
    (futures : ℕ → Future) (n m : ℕ) (f : Future) (r : Py ToolResult) (k : Future)
    → futures n ≡ k
    → await_future (futures m) ≡ some r
    → await_future (complete futures n f m) ≡ some r
unfolding complete write await_future
complete-done futures n m f r (resolved x) e h = rw (e, complete) h
complete-done futures n m f r (failed_with x) e h = rw (e, complete) h
complete-done futures n m f r cancelled e h = rw (e, complete) h
complete-done futures n m f r pending e h = elim (Bool-cases (nat_beq n m)) [
  | inl hit ↦
      let waits = sym h ∙ ap await_future (sym (ap futures ((nat_beq_iff n m).0 hit)) ∙ e) in
      absurd (cc)
  | inr miss ↦ rw (e, complete) (rw miss h)
]

unequal : (k j : CallKey) → k ≢ j → (k == j) ≡ false
unequal k j other = elim (Bool-cases (k == j)) [
  | inl same ↦ absurd (other ((pair_beq_iff k j).0 same))
  | inr apart ↦ apart
]

join-IsDone :
    (q p : ToolRequest) (c : Calls) (o : Option ℕ) (r : Py ToolResult)
    → lookup (key_of p) c.table ≡ o
    → IsDone q c r
    → IsDone q (join_owner c (key_of p) o).1 r
unfolding join_owner
join-IsDone q p c (some n) r found h = h
join-IsDone q p c none r absent h =
    unfold new_owner write in
    record {
      settled = record {
        reference = h.settled.reference;
        registered =
            rw (lookup-insert (key_of p) (key_of q) c.fresh c.table)
              (registered (Bool-cases (key_of p == key_of q)));
        done = rw (apart (Bool-cases (nat_beq c.fresh h.settled.reference))) h.settled.done;
        locked = h.settled.locked;
      };
      old = ground (arith, h.old);
    }
  where
    registered :
        ((key_of p == key_of q) ≡ true) ⊎ ((key_of p == key_of q) ≡ false)
        → (if key_of p == key_of q then some c.fresh else lookup (key_of q) c.table)
          ≡ some h.settled.reference
    registered (inl same) =
        let clash =
          sym absent
          ∙ ap (λ (k : CallKey). lookup k c.table) ((pair_beq_iff (key_of p) (key_of q)).0 same)
          ∙ h.settled.registered in
        absurd (cc)
    registered (inr other) = rw other h.settled.registered

    apart :
        (nat_beq c.fresh h.settled.reference ≡ true) ⊎ (nat_beq c.fresh h.settled.reference ≡ false)
        → nat_beq c.fresh h.settled.reference ≡ false
    apart (inl same) = absurd (ground (arith, nat_beq_iff c.fresh h.settled.reference, h.old))
    apart (inr other) = other

complete_call-IsDone :
    (q : ToolRequest) (c : Calls) (r : Py ToolResult) (n : ℕ) (f : Future)
    → IsDone q c r
    → IsDone q (complete_call c n f) r
unfolding complete_call
complete_call-IsDone q c r n f h = record {
  settled = record {
    reference = h.settled.reference;
    registered = h.settled.registered;
    done = complete-done c.futures n h.settled.reference f r (c.futures n) refl h.settled.done;
    locked = h.settled.locked;
  };
  old = h.old;
}

removed-IsDone :
    (q : ToolRequest) (c : Calls) (r : Py ToolResult) (k : CallKey)
    → k ≢ key_of q
    → IsDone q c r
    → IsDone q (record c { table = remove k c.table }) r
removed-IsDone q c r k other h = record {
  settled = record {
    reference = h.settled.reference;
    registered =
        rw (lookup-remove k (key_of q) c.table)
          (rw (unequal k (key_of q) other) h.settled.registered);
    done = h.settled.done;
    locked = h.settled.locked;
  };
  old = h.old;
}

settle_converted-IsDone :
    (q : ToolRequest) (c : Calls) (r : Py ToolResult) (n : ℕ) (x : Py ToolResult)
    → IsDone q c r
    → IsDone q (settle_converted n x c).1 r
unfolding settle_converted
settle_converted-IsDone q c r n (ok x) h = complete_call-IsDone q c r n (resolved x) h
settle_converted-IsDone q c r n (raise e) h = h

settle-IsDone :
    (policy : ToolFailurePolicy) (q p : ToolRequest) (c : Calls) (r : Py ToolResult) (n : ℕ)
    (x : Py ToolResult)
    → key_of p ≢ key_of q
    → IsDone q c r
    → IsDone q (settle policy p n x c).1 r
unfolding settle
settle-IsDone policy q p c r n (ok x) other h = complete_call-IsDone q c r n (resolved x) h
settle-IsDone policy q p c r n (raise cancelled_error) other h =
    removed-IsDone q _ r (key_of p) other (complete_call-IsDone q c r n cancelled h)
settle-IsDone raise_error q p c r n (raise e) other h =
    complete_call-IsDone q c r n (failed_with e) h
settle-IsDone return_error q p c r n (raise e) other h =
    settle_converted-IsDone q c r n (error_result p e) h

has_key-remove :
    (i j : String) (m : Dict String (Unit {0}))
    → j ≢ i
    → has_key i m ≡ true
    → has_key i (remove j m) ≡ true
unfolding has_key remove
has_key-remove i j [] other h = absurd (cc)
has_key-remove i j ((k, u) ∷ m) other h =
    ground (arith, eq_iff k j, eq_iff k i, has_key-remove i j m other, other, h)

cancel_all-done :
    (i : String) (table : Dict CallKey ℕ) (futures : ℕ → Future) (m : ℕ) (r : Py ToolResult)
    → await_future (futures m) ≡ some r
    → await_future (cancel_all i table futures m) ≡ some r
unfolding cancel_all
cancel_all-done i [] futures m r h = h
cancel_all-done i (((j, call), n) ∷ rest) futures m r h =
    cancel_all-done i rest _ m r (one (j == i))
  where
    one :
        (b : Bool) → await_future ((if b then complete futures n cancelled else futures) m) ≡ some r
    one true = complete-done futures n m cancelled r (futures n) refl h
    one false = h

other_keys-lookup :
    (i j call : String) (table : Dict CallKey ℕ)
    → i ≢ j
    → lookup (j, call) (other_keys i table) ≡ lookup (j, call) table
unfolding other_keys lookup
other_keys-lookup i j call [] other = refl
other_keys-lookup i j call (((k, c), n) ∷ rest) other =
    ground
      (arith, eq_iff k i, eq_iff k j, eq_iff c call, other, other_keys-lookup i j call rest other)

end_invocation-IsDone :
    (q : ToolRequest) (c : Calls) (r : Py ToolResult) (i : String)
    → i ≢ q.invocation_id
    → IsDone q c r
    → IsDone q (end_invocation i c) r
unfolding end_invocation
end_invocation-IsDone q c r i other h = record {
  settled = record {
    reference = h.settled.reference;
    registered = other_keys-lookup i q.invocation_id q.call_id c.table other ∙ h.settled.registered;
    done = cancel_all-done i c.table c.futures h.settled.reference r h.settled.done;
    locked = has_key-remove q.invocation_id i c.locks other h.settled.locked;
  };
  old = h.old;
}

Later-IsDone :
    {q : ToolRequest} {c d : Calls} (r : Py ToolResult) → Later q c d → IsDone q c r → IsDone q d r
unfolding claim
Later-IsDone r at_once h = h
Later-IsDone {q} {c} r (then_claims {d} p later) h =
    let k = Later-IsDone r later h in
    join-IsDone q p (record d { locks = with_lock p.invocation_id d.locks })
      (lookup (key_of p) d.table) r refl
      (record {
        settled = record {
          reference = k.settled.reference;
          registered = k.settled.registered;
          done = k.settled.done;
          locked = has_key-with_other_lock q.invocation_id p.invocation_id d.locks k.settled.locked;
        };
        old = k.old;
      })
Later-IsDone {q} {c} r (then_settles {d} policy p n x other later) h =
    settle-IsDone policy q p d r n x other (Later-IsDone r later h)
Later-IsDone {q} {c} r (then_ends {d} i other later) h =
    end_invocation-IsDone q d r i other (Later-IsDone r later h)

-- Once a request has been executed and has returned, or under `RAISE` has raised an exception other than
-- a cancellation, the same request has the same outcome, result or exception, whatever events, calls and
-- approvals the executor has had since, and whatever requests have claimed their keys, owners of other
-- keys have settled and other invocations have ended. Sending it again then changes nothing: no call of
-- the tool, no question to the handler, no event. The first execution starts from calls whose registered
-- futures are numbered below the next one, as those of a new executor are.
pub execute_again :
    (a : Authority) (q : ToolRequest) (s s' : State) (c d : Calls) (r : Py ToolResult)
    → IsNumbered c
    → (execute a q s c).0 ≡ some r
    → is_kept a.failure_policy r ≡ true
    → Later q (execute a q s c).2 d
    → execute a q s' d ≡ (some r, s', d)
execute_again a q s s' c d r numbered h kept later =
    let settled = execute_settles a q s c r h kept in
    let old =
      (execute-IsNumbered a q s c numbered).below (key_of q) settled.reference settled.registered in
    execute-IsSettled a q s' d r
      (Later-IsDone r later (record { settled = settled; old = old })).settled
