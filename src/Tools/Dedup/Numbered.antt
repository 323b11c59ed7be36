-- ===== src/Tools/Dedup/Numbered.antt =====
-- The references of the futures of tools/__init__.py, `ToolExecutor.execute`: each is given once.
use proteo_runtime.Prelude.{
  ℕ, ◌+◌, ◌<◌, Bool, ◌≡◌, ◌⊎◌, sym, if◌then◌else◌, true, false, Option, none, some, ◌==◌, string_eq,
  arith, Bool-cases, inl, inr, ◌∙◌,
}
use proteo_runtime.Prelude.Dict.{lookup, lookup-insert, lookup-remove}
use proteo_runtime.Prelude.Result.{ok, raise}
use proteo_runtime.Core.Errors.{Py, cancelled_error}
use proteo_runtime.Tools.Types.{
  ToolFailurePolicy, return_error, raise_error, ToolRequest, ToolResult,
}
use proteo_runtime.Tools.Executor.{Authority, State, execute_owner}
use proteo_runtime.Tools.Dedup.{
  CallKey, key_eq, Calls, complete_call, with_lock, claim, error_result, settle, settle_converted,
  no_calls, new_owner, execute, execute_claimed, join_owner,
}
use proteo_runtime.Tools.Dedup.Once.{key_of}

-- The registered futures are below the reference of the next one.
pub record IsNumbered (c : Calls) : Type 0 where
  pub below : (k : CallKey) (n : ℕ) → lookup k c.table ≡ some n → n < c.fresh

some_injective : {m n : ℕ} → some m ≡ some n → m ≡ n
some_injective h = cc

pub IsNumbered-no_calls : IsNumbered no_calls
unfolding no_calls lookup
IsNumbered-no_calls = record { below = λ k n found. absurd (cc) }

join-IsNumbered :
    (c : Calls) (k : CallKey) (o : Option ℕ) → IsNumbered c → IsNumbered (join_owner c k o).1
unfolding join_owner new_owner
join-IsNumbered c k (some n) h = h
join-IsNumbered c k none h = record {
  below =
      λ j n found. at j n (Bool-cases (k == j)) (sym (lookup-insert k j c.fresh c.table) ∙ found);
}
  where
    at :
        (j : CallKey) (n : ℕ)
        → ((k == j) ≡ true) ⊎ ((k == j) ≡ false)
        → (if k == j then some c.fresh else lookup j c.table) ≡ some n
        → n < c.fresh + 1
    at j n (inl same) found =
        let e : c.fresh ≡ n = some_injective (rw same at found) in omega (arith, e)
    at j n (inr other) found = omega (arith, h.below j n (rw other at found))

settle_converted-IsNumbered :
    (n : ℕ) (x : Py ToolResult) (c : Calls) → IsNumbered c → IsNumbered (settle_converted n x c).1
unfolding settle_converted complete_call
settle_converted-IsNumbered n (ok x) c h = record { below = h.below }
settle_converted-IsNumbered n (raise e) c h = h

settle-IsNumbered :
    (policy : ToolFailurePolicy) (q : ToolRequest) (n : ℕ) (x : Py ToolResult) (c : Calls)
    → IsNumbered c
    → IsNumbered (settle policy q n x c).1
unfolding settle complete_call
settle-IsNumbered policy q n (ok x) c h = record { below = h.below }
settle-IsNumbered policy q n (raise cancelled_error) c h = record {
  below = λ k m found.
      h.below k m
        (kept k m (Bool-cases (key_of q == k)) (sym (lookup-remove (key_of q) k c.table) ∙ found));
}
  where
    kept :
        (k : CallKey) (m : ℕ)
        → ((key_of q == k) ≡ true) ⊎ ((key_of q == k) ≡ false)
        → (if key_of q == k then none else lookup k c.table) ≡ some m
        → lookup k c.table ≡ some m
    kept k m (inl same) found = let clash : none ≡ some m = rw same at found in absurd (cc)
    kept k m (inr other) found = rw other at found
settle-IsNumbered raise_error q n (raise e) c h = record { below = h.below }
settle-IsNumbered return_error q n (raise e) c h =
    settle_converted-IsNumbered n (error_result q e) c h

claimed-IsNumbered :
    (a : Authority) (q : ToolRequest) (n : ℕ) (owner : Bool) (s : State) (c : Calls)
    → IsNumbered c
    → IsNumbered (execute_claimed a q n owner s c).2
unfolding execute_claimed
claimed-IsNumbered a q n false s c h = h
claimed-IsNumbered a q n true s c h =
    settle-IsNumbered a.failure_policy q n (execute_owner a q s).0 c h

pub execute-IsNumbered :
    (a : Authority) (q : ToolRequest) (s : State) (c : Calls)
    → IsNumbered c
    → IsNumbered (execute a q s c).2
unfolding execute claim
execute-IsNumbered a q s c h =
    let locked = record c { locks = with_lock q.invocation_id c.locks } in
    let ((n, owner), d) = join_owner locked (key_of q) (lookup (key_of q) c.table) in
    claimed-IsNumbered a q n owner s d
      (join-IsNumbered locked (key_of q) (lookup (key_of q) c.table) (record { below = h.below }))
