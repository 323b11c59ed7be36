-- ===== src/Tools/Dedup/Guarded.antt =====
-- The guards of the calls of a deduplicated request (tools/__init__.py, `ToolExecutor.execute`).
use proteo_runtime.Prelude.{ℕ, Bool, true, false}
use proteo_runtime.Tools.Types.{ToolRequest}
use proteo_runtime.Tools.Executor.{Authority, State}
use proteo_runtime.Tools.Executor.Guards.{
  CallsAuthorised, CallsAuthorised-Related, execute_owner_calls,
}
use proteo_runtime.Tools.Dedup.{Calls, claim, execute, execute_claimed}

execute_claimed-CallsAuthorised :
    (a : Authority) (q : ToolRequest) (r : ℕ) (owner : Bool) (s : State) (c : Calls)
    → CallsAuthorised a q s (execute_claimed a q r owner s c).1
unfolding execute_claimed
execute_claimed-CallsAuthorised a q r false s c = (CallsAuthorised-Related a q).same s
execute_claimed-CallsAuthorised a q r true s c = execute_owner_calls a q s

-- Every call that `execute` makes of a bound function, as owner or as duplicate, is authorised.
pub execute-CallsAuthorised :
    (a : Authority) (q : ToolRequest) (s : State) (c : Calls)
    → CallsAuthorised a q s (execute a q s c).1
unfolding execute
execute-CallsAuthorised a q s c =
    let ((r, owner), d) = claim q c in execute_claimed-CallsAuthorised a q r owner s d
