-- ===== src/Tools/Dedup.antt =====
-- tools/__init__.py, `ToolExecutor.execute`, `end_invocation` and `_error_result`: one owner runs a
-- request, its duplicates await the owner's future. Futures live in a store and are shared by reference.
-- What stands between two awaits is one step.
pub mod Once
pub mod Numbered
pub mod Later
pub mod Waiters
pub mod Guarded
use proteo_runtime.Prelude.{
  ℕ, zero, suc, ◌+◌, String, ◌≡◌, ◌↔◌, Bool, true, false, ◌&&◌, Option, none, some, List, [], ◌∷◌,
  nat_beq, Eq, string_eq, eq_iff, ◌==◌, arith, if◌then◌else◌,
}
use proteo_runtime.Prelude.Dict.{Dict, lookup, insert, remove, has_key}
use proteo_runtime.Prelude.Result.{Result, ok, raise, ◌>>=◌}
use proteo_runtime.Core.Errors.{
  Py, Exc, agent, cancelled_error, value_error, type_error, other_error, plain_error,
  AgentRuntimeError, AttemptsEntry, absent, counted, negative, not_a_number, not_convertible,
  Details, no_details, ErrorClass, tool_denied,
}
use proteo_runtime.Tools.Values.{Value, dict_value, entry, str_key, str_value, end, proxy_value}
use proteo_runtime.Tools.Types.{
  ToolFailurePolicy, return_error, raise_error, ToolRequest, ToolResult,
}
use proteo_runtime.Tools.Executor.{Authority, State, execute_owner}

-- The key of a request in `_calls`: its invocation and its call.
abbrev pub CallKey : Type 0
CallKey = String × String

abbrev pub pair_beq : CallKey → CallKey → Bool
pair_beq (a, b) (c, d) = (a == c) && (b == d)

pub pair_beq_iff : (k j : CallKey) → (pair_beq k j ≡ true) ↔ (k ≡ j)
pair_beq_iff (a, b) (c, d) =
    (λ h. ground (arith, eq_iff a c, eq_iff b d), λ h. ground (arith, eq_iff a c, eq_iff b d))

instance abbrev pub key_eq : Eq CallKey
key_eq = record { beq = pair_beq; beq_iff = pair_beq_iff }

pub data Future : Type 0 where
  pending : Future
  resolved : ToolResult → Future
  failed_with : Exc → Future
  cancelled : Future

-- `_calls`, `_locks` and the futures; `fresh` is the reference of the next new future.
pub record Calls : Type 0 where
  pub table : Dict CallKey ℕ
  pub locks : Dict String (Unit {0})
  pub futures : ℕ → Future
  pub fresh : ℕ

-- An executor starts with no call.
unfoldable pub no_calls : Calls
no_calls = record { table = []; locks = []; futures = λ n. pending; fresh = 0 }

unfoldable pub write : (ℕ → Future) → ℕ → Future → ℕ → Future
write futures r f j = if nat_beq r j then f else futures j

-- `if not future.done(): future.set_…`
pub complete : (ℕ → Future) → ℕ → Future → ℕ → Future
unfolding write
complete futures r f = elim (futures r) [ pending ↦ write futures r f | _ ↦ futures ]

unfoldable pub complete_call : Calls → ℕ → Future → Calls
unfolding complete
complete_call c r f = record c { futures = complete c.futures r f }

-- `self._locks.setdefault(...)`
pub with_lock : String → Dict String (Unit {0}) → Dict String (Unit {0})
with_lock i locks = if has_key i locks then locks else insert i tt locks

pub new_owner : Calls → CallKey → (ℕ × Bool) × Calls
unfolding write
new_owner c key = (
  (c.fresh, true),
  record c {
    table = insert key c.fresh c.table;
    futures = write c.futures c.fresh pending;
    fresh = c.fresh + 1;
  },
)

pub join_owner : Calls → CallKey → Option ℕ → (ℕ × Bool) × Calls
unfolding new_owner
join_owner c key (some r) = ((r, false), c)
join_owner c key none = new_owner c key

-- The part of `execute` under the lock: the future of the key, and whether the caller owns it.
unfoldable pub claim : ToolRequest → Calls → (ℕ × Bool) × Calls
unfolding with_lock join_owner
claim q c =
    let key : CallKey = (q.invocation_id, q.call_id) in
    join_owner (record c { locks = with_lock q.invocation_id c.locks }) key (lookup key c.table)

-- What `_error_result` reads of an exception: `getattr(exc, "code", ...)`, the entries of
-- `getattr(exc, "details", {})`, which foreign code may fill with anything, and its class.
error_code : Exc → String
error_code (agent e) = e.code
error_code (other_error f) = elim f.code [ none ↦ "tool_execution_error" | some c ↦ c ]
error_code _ = "tool_execution_error"

error_details : Exc → Py Details
error_details (agent e) = ok e.details
error_details (other_error f) = if f.has_mapping then ok f.details else raise plain_error
error_details _ = ok no_details

-- `int(...)`, and the test of the sign by `ToolResult`.
read_attempts : AttemptsEntry → Py ℕ
read_attempts absent = ok 1
read_attempts (counted n) = ok n
read_attempts negative = raise value_error
read_attempts not_a_number = raise value_error
read_attempts not_convertible = raise type_error

is_denied : Exc → Bool
is_denied (agent e) = elim e.class [ tool_denied ↦ true | _ ↦ false ]
is_denied _ = false

-- `_error_result`, which raises where it cannot read the exception.
unfoldable pub error_result : ToolRequest → Exc → Py ToolResult
unfolding error_code error_details read_attempts is_denied
error_result q e = do
  details ← error_details e
  attempts ← read_attempts details.attempts
  ok (record {
    invocation_id = q.invocation_id;
    call_id = q.call_id;
    tool_name = q.name;
    success = false;
    output = proxy_value (entry (str_key "error") (str_value (error_code e)) end);
    error_code = some (error_code e);
    attempts = attempts;
    denied = is_denied e;
    timed_out = details.timed_out;
  })

-- An exception of `_error_result` leaves `execute` before the future is completed.
settle_converted : ℕ → Py ToolResult → Calls → Py ToolResult × Calls
settle_converted r (ok result) c = (ok result, complete_call c r (resolved result))
settle_converted r (raise e) c = (raise e, c)

settle_error : ToolFailurePolicy → ToolRequest → ℕ → Exc → Calls → Py ToolResult × Calls
unfolding settle_converted
settle_error raise_error q r e c = (raise e, complete_call c r (failed_with e))
settle_error return_error q r e c = settle_converted r (error_result q e) c

settle_raised : ToolFailurePolicy → ToolRequest → ℕ → Exc → Calls → Py ToolResult × Calls
unfolding settle_error
settle_raised policy q r cancelled_error c =
    let done = complete_call c r cancelled in
    (
      raise cancelled_error,
      record done {
        table = (let key : CallKey = (q.invocation_id, q.call_id) in remove key done.table);
      },
    )
settle_raised policy q r e c = settle_error policy q r e c

-- What the owner does when its pipeline has ended.
unfoldable pub settle :
    ToolFailurePolicy → ToolRequest → ℕ → Py ToolResult → Calls → Py ToolResult × Calls
unfolding settle_raised
settle policy q r (ok result) c = (ok result, complete_call c r (resolved result))
settle policy q r (raise e) c = settle_raised policy q r e c

-- `await asyncio.shield(future)`: none while the future is pending.
unfoldable pub await_future : Future → Option (Py ToolResult)
await_future pending = none
await_future (resolved result) = some (ok result)
await_future (failed_with e) = some (raise e)
await_future cancelled = some (raise cancelled_error)

-- A whole `execute` with no other request between its steps; none if it would wait for an owner.
unfoldable pub execute_claimed :
    Authority → ToolRequest → ℕ → Bool → State → Calls → Option (Py ToolResult) × State × Calls
execute_claimed a q r false s c = (await_future (c.futures r), s, c)
execute_claimed a q r true s c =
    let (outcome, t) = execute_owner a q s in
    let (answer, d) = settle a.failure_policy q r outcome c in (some answer, t, d)

unfoldable pub execute :
    Authority → ToolRequest → State → Calls → Option (Py ToolResult) × State × Calls
unfolding execute_claimed
execute a q s c = let ((r, owner), d) = claim q c in execute_claimed a q r owner s d

-- `end_invocation`: drops the keys of an invocation and cancels what is pending behind them.
pub cancel_all : String → Dict CallKey ℕ → (ℕ → Future) → ℕ → Future
unfolding complete
cancel_all i [] futures = futures
cancel_all i (((j, call), r) ∷ rest) futures =
    cancel_all i rest (if j == i then complete futures r cancelled else futures)

pub other_keys : String → Dict CallKey ℕ → Dict CallKey ℕ
other_keys i [] = []
other_keys i (((j, call), r) ∷ rest) =
    let others = other_keys i rest in if j == i then others else ((j, call), r) ∷ others

unfoldable pub end_invocation : String → Calls → Calls
unfolding cancel_all other_keys
end_invocation i c = record c {
  table = other_keys i c.table;
  futures = cancel_all i c.table c.futures;
  locks = remove i c.locks;
}
