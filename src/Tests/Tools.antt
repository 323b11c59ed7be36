-- ===== src/Tests/Tools.antt =====
-- The theorems on values, the registry and the authority of an executor, at small inputs.
use proteo_runtime.Prelude.{◌≡◌, refl, true, false, none, List, [], ◌∷◌, string_eq}
use proteo_runtime.Prelude.Dict.{insert, has_key}
use proteo_runtime.Prelude.Result.{ok}
use proteo_runtime.Prelude.Text.{is_blank}
use proteo_runtime.Tools.Values.{
  Value, cons, nil, str_key, entry, end, str_value, int_value, proxy_value, tuple_value,
  has_other_key, freeze, thaw, is_finite, le_zero,
}
use proteo_runtime.Tools.Values.Laws.{is_frozen, freeze-is_frozen, freeze-thaw}
use proteo_runtime.Tools.Types.{
  raise_error, new_permission_policy, new_retry_policy, new_tool_definition, ToolDefinition,
  is_name,
}
use proteo_runtime.Tools.Registry.{Registry, bind_tool, register}
use proteo_runtime.Tools.Registry.Order.{Registered, register-Registered}
use proteo_runtime.Tools.Dedup.{no_calls}
use proteo_runtime.Tools.Authority.{
  Executor, new_executor, Assignment, set_failure_policy, set_sequence, set_permission_policy,
  clone,
}
use proteo_runtime.Tools.Authority.Frozen.{assign_all, assign_all-authority, clone-authority}
use proteo_runtime.Tests.Samples.{
  render, note, note_tool, note_binding, pydantic, authority, nested,
}

abbrev nested_frozen : Value
nested_frozen =
    proxy_value (
      entry (str_key "tags") (tuple_value (cons (str_value "a") (cons (int_value false 3) nil)))
        end)

freeze-nested : freeze render nested ≡ ok nested_frozen
unfolding freeze has_other_key
freeze-nested = refl

freeze-is_frozen_example : is_frozen nested_frozen ≡ true
freeze-is_frozen_example = freeze-is_frozen render nested nested_frozen freeze-nested

freeze-thaw_example : freeze render (thaw render nested_frozen) ≡ ok nested_frozen
freeze-thaw_example = freeze-thaw render nested nested_frozen freeze-nested

abbrev one_tool : Registry
one_tool = ("write_note", note_binding) ∷ []

register-note : register pydantic note_tool [] ≡ ok (note, one_tool)
unfolding register bind_tool has_key insert
register-note = refl

register-Registered_example : Registered pydantic note_tool [] note one_tool
register-Registered_example = register-Registered pydantic note_tool [] note one_tool register-note

note_accepted : (d : ToolDefinition) × (new_tool_definition render (λ v. true) note ≡ ok d)
unfolding new_tool_definition is_name is_blank freeze has_other_key
note_accepted =
    (record note { input_schema = proxy_value end; output_schema = proxy_value end }, refl)

abbrev frozen_executor : Executor
frozen_executor = record {
  authority = authority;
  log = 0;
  calls = no_calls;
  sequence = 0;
  frozen = true;
}

abbrev attack : List Assignment
attack = set_permission_policy ("admin" ∷ []) ∷ set_failure_policy raise_error ∷ set_sequence 9 ∷ []

assign_all-authority_example : (assign_all frozen_executor attack).authority ≡ authority
assign_all-authority_example = assign_all-authority frozen_executor attack refl (tt, (tt, (tt, tt)))

clone_frozen : clone frozen_executor none none true true 1 ≡ ok frozen_executor
unfolding clone new_executor new_permission_policy new_retry_policy is_blank is_finite le_zero
clone_frozen = refl

clone-authority_example :
    (frozen_executor.authority ≡ frozen_executor.authority)
    × (frozen_executor.frozen ≡ true)
    × (frozen_executor.calls ≡ no_calls)
    × (frozen_executor.sequence ≡ 0)
    × (frozen_executor.log ≡ frozen_executor.log)
clone-authority_example = clone-authority frozen_executor frozen_executor true true 1 clone_frozen
