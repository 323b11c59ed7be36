-- ===== src/Tests/Tasks.antt =====
-- The theorems on tasks, at a task that is closed while a turn of it starts.
use proteo_runtime.Prelude.{◌≡◌, refl, sym, ap, ◌∙◌, true, false, none, [], string_eq}
use proteo_runtime.Prelude.Result.{ok}
use proteo_runtime.Prelude.Text.{is_empty, concat, is_space}
use proteo_runtime.Core.Input.{
  text_input, validate_task_input, from_value, new_message, is_nil, new_input, serialize_input,
  strip, join,
}
use proteo_runtime.Codex.Task.{
  is_open, closing, starting, TaskConfig, Task, new_task, prepare_turn, begin_turn, start_turn,
  begin_close, ensure_open, open_close, take_turn, is_free, validate_config,
}
use proteo_runtime.Codex.Task.Lifecycle.{
  turn_begins, turn_starts, close_begins, Steps, done, then_step, IsCoherent,
}
use proteo_runtime.Codex.Task.Coherence.{new_task-Steps}
use proteo_runtime.Codex.Task.Closing.{Closes, Steps-Closes}
use proteo_runtime.Codex.Task.Refinement.{Advance, Steps-Advance}
use proteo_runtime.Codex.Task.Late.{IsLate, Steps-IsLate}

abbrev config : TaskConfig
config = record {
  model = "gpt-5";
  effort = "low";
  config = record {
    model = none;
    reasoning_effort = none;
    include_raw = none;
    timeout_seconds = none;
    metadata = [];
  };
  has_tools = true;
}

abbrev begun : Task
begun = (begin_turn config (text_input "hello") none none new_task).1

abbrev ending : Task
ending = begin_close begun

abbrev late : Task
late = (start_turn config (ok tt) (ok tt) ending).1

begun-new_task : begun ≡ record new_task { holder = starting }
unfolding begin_turn take_turn new_task prepare_turn ensure_open is_free validate_config
    validate_task_input from_value new_message is_nil new_input serialize_input is_empty strip join
    concat is_space
begun-new_task = refl

ending-state : ending.state ≡ closing
unfolding begin_close new_task open_close
ending-state = ap (λ (t : Task). (begin_close t).state) begun-new_task

ending-holder : ending.holder ≡ starting
unfolding begin_close new_task open_close
ending-holder = ap (λ (t : Task). (begin_close t).holder) begun-new_task

ending-active : ending.active ≡ false
unfolding begin_close new_task open_close
ending-active = ap (λ (t : Task). (begin_close t).active) begun-new_task

ending-IsLate : IsLate ending
ending-IsLate = record {
  begun = λ e. let clash : closing ≡ is_open = sym ending-state ∙ e in absurd (cc);
  no_run = ending-active;
}

abbrev to_ending : Steps config new_task ending
to_ending = then_step (then_step done (turn_begins (text_input "hello") none none)) close_begins

new_task-Steps_example : IsCoherent ending
new_task-Steps_example = new_task-Steps config ending to_ending

Steps-Closes_example : Closes config ending
Steps-Closes_example = Steps-Closes config ending to_ending ending-state

Steps-IsLate_example : IsLate late
Steps-IsLate_example =
    Steps-IsLate config ending late (then_step done (turn_starts (ok tt) (ok tt) ending-holder))
      ending-IsLate

Steps-Advance_example : Advance ending late
Steps-Advance_example =
    Steps-Advance config ending late to_ending (turn_starts (ok tt) (ok tt) ending-holder)
