-- ===== src/Lib.antt =====
-- Proteo Runtime: provider-neutral contracts for agents that call models and host-managed tools.
--
-- The program has a neutral core (src/proteo_runtime/core: errors, events, execution profiles), a
-- configuration that binds profiles to models (src/proteo_runtime/config), host-managed tools
-- (src/proteo_runtime/tools), an event bus (src/proteo_runtime/observability), and a provider that runs
-- turns of the Codex SDK (src/proteo_runtime/providers/codex). A provider receives a tool call from its
-- model and hands it to a `ToolExecutor`, which validates, authorises, approves, runs and records it; a
-- `TurnRun` turns the notifications of the SDK into numbered events and a result. Both send their
-- events to a sink, which is a `RuntimeEventBus` where the host asks for one.
--
-- Prelude: shared names, Python's `dict` and `str`, and `Result` for code that may raise. Core.Effects:
-- methods that change an object and may raise, which keep what was written before a raise; its child
-- Rules has the rules for relations that every step keeps.
--
-- Core.Errors, Core.Events and Core.Profiles model core/errors.py, core/events.py and core/profiles.py
-- with context.py and security.py: the classes and codes, the kinds of events, `ProfileSpec`, the
-- built-in table and the validators `validate_model_profile`, `validate_task_profile` and
-- `validate_session_profile`. Core.Profiles.Boundaries is about what those accept.
-- Config models config/models.py: `RuntimeConfigV1` with its validators (`new_runtime_config`,
-- `model_post_init`), `lookup` (here `lookup_mapping`) and `profile_spec`. Config.Lookups is
-- about accepted configurations.
--
-- Tools.* model tools/__init__.py. Tools.Values: `_freeze`, `_thaw`, `_json_safe`. Tools.Types: the
-- public records and their `__post_init__` (`new_...`). Tools.Registry: `runtime_tool` (`decorate`),
-- `_build_input_model`, `_schema_for`, `ToolRegistry` and `ToolSnapshot`. Tools.Effects and
-- Tools.Executor: `_execute_owner` in the order of the code (`run_bound` looks the tool up,
-- `run_arguments` validates, `run_validated` checks the permission, `run_permitted` and `run_decided`
-- the approval, `run_approved` the retry guard, `attempts_loop` the attempts, `exhausted` what stands
-- behind them). Tools.Dedup: `execute` (`claim`, `execute_owner`, `settle`), `end_invocation` and
-- `_error_result` over a store of futures; Once, Later and Numbered are about a request that is sent
-- again, Waiters about those who wait. Tools.Authority: the constructor, `__setattr__` and `clone`.
--
-- Three modules model providers/codex/_runner.py. Codex.Turns: what the SDK reports, `usage_from_sdk` and the
-- text of a result. Codex.Publishing: the state of a `TurnRun`, `_emit` and `_publish`. Codex.Runner:
-- `events`, its notifications, its `except` clauses and what stands behind the `try`.
--
-- Codex.Bridge and Codex.Mux model providers/codex/experimental.py: `CodexToolBridge` (`matches`, `call_bridge`
-- for `__call__`, with the request that it makes, `tool_request`) and `CodexToolMux` (`register_route`,
-- `unregister_route`, `call_mux`, `close_mux`) over a store of bridges and of executors.
-- Codex.Task models `_CodexTask` of providers/codex/runtime.py: what its turns and its `close` do between two
-- awaits (`begin_turn`, `start_turn`, `finish_turn`; `begin_close`, `stop_run`, `acquire_lock`, `tear_down`,
-- `cancel_close`). Codex.Task.Lifecycle has the step relation of their interleavings and what fits together in a
-- state; Turning, Ending and Coherence are about the steps, Closing and Late about the end of a task,
-- and Refinement about the lifecycle that core/task.py promises.
-- Codex.Validation, Codex.Attempts and Codex.Structured model providers/codex/_structured.py: the validation of
-- an output (`validate_output`), its feedback and `_aggregate_usage`; the state of `_events`, the events it
-- publishes and a drained run of Codex.Runner (`drain`); its attempts (`guard_attempts`, `validation_loop`,
-- `on_turn`, `on_validation`, `try_again`). The loop counts down the attempts that are left of
-- `max_attempts`, as the code's `range`.
-- Codex.Schema models `_normalize_sdk_schema` of the same file; its children have the strict form of a schema.
-- Codex.Session models `_CodexSession` of providers/codex/runtime.py: the state that the handles of a thread
-- share, the admission of a turn (`begin_session_turn`), `close`, `archive` and `delete`.
-- Core.Input models core/input.py, `validate_task_input` of core/task.py and `serialize_input` of
-- providers/codex/_mapping.py; Core.Invocation models `InvocationConfig` and its merge.
--
-- Observability.Failures and Observability.Bus model observability/bus.py: `_record_failure`, `emit`
-- (`emit_to_bus`: `take_lock`, `dispatch_event` with the loop `deliver_all`, `release_lock`),
-- `_enrich_terminal`, `_lifecycle`, `flush` and `close`. A delivery keeps the event and the mode.
-- Observability.Keys, Projection and Shown model what stands under the class: the keys that are hidden, with
-- `is_secret_key` of core/types.py, `_project_value`, `_project_metadata` and `_project_event`. `casefold`, the
-- substitution by a regular expression and the digest are parameters.
--
-- Loops: the attempts of a tool count down from `max_attempts`, which is the bound of the code's
-- `range`; the stream of a turn is the list of its notifications and what it ends in. No fuel is used.
-- Bound functions, approval handlers, event sinks and the SDK belong to the host: they are parameters
-- that may depend on what came before and may raise, and a timeout or a cancellation is one of their
-- outcomes. pydantic, jsonschema and `json.dumps` are parameters too. Doubles are their 64 bits.
--
-- Not modelled: texts of messages and retained causes, clock readings, the identity of the runtime on
-- an event, a consumer that abandons a stream, a cleanup of a turn that raises, the constructor that
-- `_project_event` runs again on its result, two dispatches of one invocation that wait for its lock,
-- and the components that read files, call exporters or drive SDK sessions (config/loader.py, the
-- exporters of observability, the rest of providers/codex, integrations, testing and cli). A turn of a
-- task or of a session is one of `ainvoke`.
pub mod Prelude
pub mod Core
pub mod Config
pub mod Tools
pub mod Observability
pub mod Codex
pub mod Tests
