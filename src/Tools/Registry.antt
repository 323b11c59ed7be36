-- ===== src/Tools/Registry.antt =====
-- tools/__init__.py: `_schema_for`, `_build_input_model`, `runtime_tool`, `ToolRegistry` and
-- `ToolSnapshot`. What `inspect` reports of a function is a record; pydantic and jsonschema are the
-- parameter `Pydantic`.
pub mod Order
use proteo_runtime.Prelude.{
  ℕ, String, Bool, true, false, not, ◌||◌, Option, none, some, List, [], ◌∷◌, map, if◌then◌else◌,
  string_eq, ◌≡◌,
}
use proteo_runtime.Prelude.Dict.{Dict, lookup, insert, has_key, values}
use proteo_runtime.Prelude.Result.{Result, ok, raise, raise_if, ◌>>=◌, ◌>>◌}
use proteo_runtime.Core.Errors.{Py, Exc, type_error, value_error}
use proteo_runtime.Tools.Values.{Value, Render}
use proteo_runtime.Tools.Types.{
  SideEffect, ApprovalRequirement, ToolDefinition, new_tool_definition, as_provider_dict,
}

-- One call of a bound function: its tool, its arguments and its timeout.
pub record Call : Type 0 where
  pub tool : String
  pub arguments : Value
  pub timeout : ℕ

-- What awaiting a bound function ends in; the call may depend on all calls before it.
abbrev pub Body : Type 0
Body = List Call → Call → Py Value

-- A pydantic model class for the arguments: `model_validate` (`none` when it raises),
-- `model_dump(mode="json")`, which may raise, and `model_json_schema()`.
pub record InputModel : Type 0 where
  pub model_validate : Value → Option Value
  pub model_dump : Value → Py Value
  pub model_json_schema : Value

-- A `TypeAdapter`: `validate_python` and then `dump_python(mode="json")`, and its schema.
pub record TypeAdapter : Type 0 where
  pub convert : Value → Option Value
  pub json_schema : Option Value

pub data ParameterKind : Type 0 where
  positional_only positional_or_keyword var_positional keyword_only var_keyword : ParameterKind

-- `annotation` is none where it is missing or `Any`.
pub record Parameter : Type 0 where
  pub name : String
  pub kind : ParameterKind
  pub annotation : Option ℕ

pub record Pydantic : Type 0 where
  pub create_model : String → List Parameter → Option InputModel
  pub type_adapter : ℕ → Option TypeAdapter
  pub check_schema : Value → Bool

-- A Python function, with the attributes that `runtime_tool` attaches.
pub record Function : Type 0 where
  pub is_coroutine : Bool
  pub hints_resolve : Bool
  pub parameters : List Parameter
  pub return_annotation : Option ℕ
  pub body : Body
  pub tool_definition : Option ToolDefinition
  pub tool_input_model : Option InputModel
  pub tool_output_adapter : Option TypeAdapter

pub record Binding : Type 0 where
  pub definition : ToolDefinition
  pub function : Body
  pub input_model : InputModel
  pub output_adapter : TypeAdapter

abbrev pub Registry : Type 0
Registry = Dict String Binding

or_type_error : {A : Type 0} → Option A → Py A
or_type_error none = raise type_error
or_type_error (some a) = ok a

checked_schema : Pydantic → Value → Py Value
checked_schema p schema = do raise_if (not (p.check_schema schema)) type_error; ok schema

-- `_schema_for`, on an annotation that is concrete.
schema_for : Pydantic → ℕ → Py Value
unfolding or_type_error checked_schema
schema_for p annotation = do
  adapter ← or_type_error (p.type_adapter annotation)
  schema ← or_type_error adapter.json_schema
  checked_schema p schema

is_variadic : ParameterKind → Bool
is_variadic ParameterKind.var_positional = true
is_variadic ParameterKind.var_keyword = true
is_variadic _ = false

is_positional_only : ParameterKind → Bool
is_positional_only ParameterKind.positional_only = true
is_positional_only _ = false

is_missing : Option ℕ → Bool
is_missing none = true
is_missing (some a) = false

check_parameters : List Parameter → Py (Unit {0})
unfolding is_variadic is_positional_only is_missing
check_parameters [] = ok tt
check_parameters (p ∷ ps) = do
  raise_if (is_variadic p.kind) type_error
  raise_if (is_positional_only p.kind) type_error
  raise_if (is_missing p.annotation) type_error
  check_parameters ps

build_input_model : Pydantic → Function → String → Py InputModel
unfolding check_parameters or_type_error
build_input_model p f name = do
  raise_if (not f.hints_resolve) type_error
  check_parameters f.parameters
  or_type_error (p.create_model name f.parameters)

-- The inner `decorate` of `runtime_tool`, with the metadata of the decorator in `d`.
unfoldable pub decorate : Render → Pydantic → ToolDefinition → Function → Py Function
unfolding build_input_model schema_for or_type_error
decorate r p d f = do
  raise_if (not f.is_coroutine) type_error
  raise_if (not f.hints_resolve) type_error
  annotation ← or_type_error f.return_annotation
  model ← build_input_model p f d.name
  output_schema ← schema_for p annotation
  definition ←
      new_tool_definition r p.check_schema
        (record d { input_schema = model.model_json_schema; output_schema = output_schema })
  adapter ← or_type_error (p.type_adapter annotation)
  ok (record f {
    tool_definition = some definition;
    tool_input_model = some model;
    tool_output_adapter = some adapter;
  })

-- The argument of `register`: a decorated function, or a definition and a callable.
pub data Tool : Type 0 where
  decorated : Function → Tool
  explicit : ToolDefinition → Option Function → Tool

decorated_binding :
    Function → Option ToolDefinition → Option InputModel → Option TypeAdapter → Py Binding
decorated_binding f (some d) (some m) (some a) =
    ok (record { definition = d; function = f.body; input_model = m; output_adapter = a })
decorated_binding f _ _ _ = raise type_error

explicit_binding : Pydantic → ToolDefinition → Option Function → Py Binding
unfolding build_input_model or_type_error
explicit_binding p d none = raise type_error
explicit_binding p d (some f) = do
  raise_if (not f.is_coroutine) type_error
  model ← build_input_model p f d.name
  annotation ← or_type_error f.return_annotation
  adapter ← or_type_error (p.type_adapter annotation)
  ok (record { definition = d; function = f.body; input_model = model; output_adapter = adapter })

unfoldable pub bind_tool : Pydantic → Tool → Py Binding
unfolding decorated_binding explicit_binding
bind_tool p (decorated f) =
    decorated_binding f f.tool_definition f.tool_input_model f.tool_output_adapter
bind_tool p (explicit d f) = explicit_binding p d f

-- The definition that `register` returns, and the registry that it leaves.
unfoldable pub register : Pydantic → Tool → Registry → Py (ToolDefinition × Registry)
register p tool bindings = do
  binding ← bind_tool p tool
  raise_if (has_key binding.definition.name bindings) value_error
  ok (binding.definition, insert binding.definition.name binding bindings)

-- `ToolRegistry.get` and `ToolSnapshot.get`. A snapshot copies the mapping, which no method of the
-- registry can then change: it is the mapping itself.
unfoldable pub get : String → Registry → Option ToolDefinition
get name bindings = elim (lookup name bindings) [ none ↦ none | some b ↦ some b.definition ]

unfoldable pub definitions : Registry → List ToolDefinition
definitions bindings = map (λ (b : Binding). b.definition) (values bindings)

unfoldable pub snapshot : Registry → Registry
snapshot bindings = bindings

unfoldable pub provider_definitions : Render → Registry → List Value
provider_definitions r bindings = map (as_provider_dict r) (definitions bindings)
