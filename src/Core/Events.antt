-- ===== src/Core/Events.antt =====
-- src/proteo_runtime/core/events.py: the kinds of runtime events.
pub data RuntimeEventKind : Type 0 where
  runtime_started runtime_stopped invocation_started invocation_completed invocation_failed
        session_created session_resumed session_closed session_archived session_deleted
        session_migrated task_started task_closed turn_started turn_completed output_text_delta
        token_usage_updated tool_requested tool_started tool_completed tool_approval_requested
        tool_approval_resolved tool_denied tool_failed tool_retry_scheduled retry_scheduled
        validation_failed capability_rejected interrupted turn_interrupted turn_failed cancelled :
      RuntimeEventKind
