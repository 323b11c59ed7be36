-- ===== src/Tools/Registry/Order.antt =====
-- Registration order and names of a `ToolRegistry` (tools/__init__.py).
use proteo_runtime.Prelude.{
  String, ◌≡◌, refl, ◌≢◌, ap, subst, false, not, Option, none, some, List, [], ◌∷◌, ◌++◌, eq_iff,
  string_eq, arith, inl, inr, Bool-cases,
}
use proteo_runtime.Prelude.Dict.{
  lookup, insert, has_key, lookup-insert, lookup-insert_self, insert-fresh,
}
use proteo_runtime.Prelude.Result.{ok, raise, raise_if, ◌>>=◌, ◌>>◌, >>=-eq-ok}
use proteo_runtime.Core.Errors.{Py, value_error, type_error}
use proteo_runtime.Tools.Types.{ToolDefinition}
use proteo_runtime.Tools.Registry.{
  Pydantic, Tool, decorated, explicit, Body, Function, InputModel, TypeAdapter, Binding, Registry,
  or_type_error, build_input_model, decorated_binding, explicit_binding, bind_tool, register, get,
  definitions,
}

not_has_key : (k : String) (m : Registry) → has_key k m ≡ false → lookup k m ≡ none
unfolding has_key lookup
not_has_key k [] h = refl
not_has_key k ((j, b) ∷ m) h = ground (arith, not_has_key k m)

definitions-append :
    (m : Registry) (k : String) (b : Binding)
    → definitions (m ++ (k, b) ∷ []) ≡ definitions m ++ b.definition ∷ []
unfolding definitions
definitions-append [] k b = refl
definitions-append ((j, w) ∷ m) k b =
    ap (λ (ds : List ToolDefinition). w.definition ∷ ds) (definitions-append m k b)

-- What a caller hands to `register`: the definition and the function of the tool.
abbrev pub declared : Tool → Option ToolDefinition
declared (decorated f) = f.tool_definition
declared (explicit d f) = some d

abbrev pub declared_body : Tool → Option Body
declared_body (decorated f) = some f.body
declared_body (explicit d none) = none
declared_body (explicit d (some f)) = some f.body

-- A successful registration: the tool was bound, under its own definition and with its own function, and
-- the binding is stored last.
pub record Registered (p : Pydantic) (t : Tool) (before : Registry) (d : ToolDefinition)
    (after : Registry) : Type 0 where
  pub binding : Binding
  pub bound : bind_tool p t ≡ ok binding
  pub as_declared : declared t ≡ some d
  pub runs_declared : declared_body t ≡ some binding.function
  pub returned : binding.definition ≡ d
  pub stored : lookup d.name after ≡ some binding
  pub last : after ≡ before ++ (d.name, binding) ∷ []
  pub name_was_free : get d.name before ≡ none
  pub appended : definitions after ≡ definitions before ++ d ∷ []
  pub found : get d.name after ≡ some d
  pub others : (name : String) → name ≢ d.name → get name after ≡ get name before

decorated-declared :
    (f : Function) (d : Option ToolDefinition) (m : Option InputModel) (a : Option TypeAdapter)
    (b : Binding)
    → decorated_binding f d m a ≡ ok b
    → (d ≡ some b.definition) × (f.body ≡ b.function)
unfolding decorated_binding
decorated-declared f (some d) (some m) (some a) b h = (cc, cc)
decorated-declared f (some d) (some m) none b h = absurd (cc)
decorated-declared f (some d) none a b h = absurd (cc)
decorated-declared f none m a b h = absurd (cc)

-- What a chain returns, whatever its steps before the last return.
abbrev Yields : (Binding → Type 0) → Py Binding → Type 0
Yields P m = (b : Binding) → m ≡ ok b → P b

Yields-bind :
    {A : Type 0} (P : Binding → Type 0) (m : Py A) (f : A → Py Binding)
    → ((x : A) → Yields P (f x))
    → Yields P (m >>= f)
Yields-bind P m f h b e = let (x, fine, rest) = >>=-eq-ok m f e in h x b rest

bound-declared :
    (d : ToolDefinition) (f : Function) (m : InputModel) (a : TypeAdapter)
    → Yields
        (λ b. (d ≡ b.definition) × (some f.body ≡ some b.function))
        (ok (record { definition = d; function = f.body; input_model = m; output_adapter = a }))
bound-declared d f m a b h = (cc, cc)

explicit-declared :
    (p : Pydantic) (d : ToolDefinition) (o : Option Function) (b : Binding)
    → explicit_binding p d o ≡ ok b
    → (d ≡ b.definition) × (declared_body (explicit d o) ≡ some b.function)
unfolding explicit_binding
explicit-declared p d none b h = absurd (cc)
explicit-declared p d (some f) b h =
    let P : Binding → Type 0 = λ b. (d ≡ b.definition) × (some f.body ≡ some b.function) in
    Yields-bind P (raise_if (not f.is_coroutine) type_error) _
      (λ u. Yields-bind P (build_input_model p f d.name) _ λ model.
        Yields-bind P (or_type_error f.return_annotation) _ λ annotation.
          Yields-bind P (or_type_error (p.type_adapter annotation)) _
            (λ adapter. bound-declared d f model adapter))
      b h

bind_tool-declared :
    (p : Pydantic) (t : Tool) (b : Binding)
    → bind_tool p t ≡ ok b
    → (declared t ≡ some b.definition) × (declared_body t ≡ some b.function)
unfolding bind_tool
bind_tool-declared p (decorated f) b h =
    let (d, body) =
      decorated-declared f f.tool_definition f.tool_input_model f.tool_output_adapter b h in
    (d, ap (λ (x : Body). some x) body)
bind_tool-declared p (explicit d f) b h =
    let (e, body) = explicit-declared p d f b h in (ap (λ (x : ToolDefinition). some x) e, body)

Registered-insert :
    (p : Pydantic) (t : Tool) (before : Registry) (b : Binding)
    → bind_tool p t ≡ ok b
    → has_key b.definition.name before ≡ false
    → Registered p t before b.definition (insert b.definition.name b before)
unfolding get
Registered-insert p t before b bound free =
    let k = b.definition.name in
    let absent = not_has_key k before free in
    let (declares, body) = bind_tool-declared p t b bound in
    record {
      binding = b;
      bound = bound;
      as_declared = declares;
      runs_declared = body;
      returned = refl;
      stored = lookup-insert_self k b before;
      last = insert-fresh k b before absent;
      name_was_free = rw (absent, get);
      appended = rw (insert-fresh k b before absent) (definitions-append before k b);
      found = rw (lookup-insert_self k b before, get);
      others = λ name h.
          rw (lookup-insert k name b before, get)
            (ground (arith, eq_iff k name, λ (e : name ≡ k). h e));
    }

-- What `register` does with a binding.
abbrev store : Registry → Binding → Py (ToolDefinition × Registry)
store before b = do
  raise_if (has_key b.definition.name before) value_error
  ok (b.definition, insert b.definition.name b before)

store_ok :
    (before : Registry) (b : Binding) (d : ToolDefinition) (after : Registry)
    → store before b ≡ ok (d, after)
    → (has_key b.definition.name before ≡ false)
      × (◌≡◌ {A = ToolDefinition × Registry}
          (b.definition, insert b.definition.name b before)
          (d, after))
store_ok before b d after h = elim (Bool-cases (has_key b.definition.name before)) [
  | inl taken ↦ absurd (refused (rw taken at h))
  | inr free ↦ (free, stored (rw free at h))
]
  where
    refused : ◌≡◌ {A = Py (ToolDefinition × Registry)} (raise value_error) (ok (d, after)) → ⊥
    refused e = cc

    stored :
        ◌≡◌ {A = Py (ToolDefinition × Registry)}
          (ok (b.definition, insert b.definition.name b before))
          (ok (d, after))
        → ◌≡◌ {A = ToolDefinition × Registry}
            (b.definition, insert b.definition.name b before)
            (d, after)
    stored e = cc

-- `register` succeeds only on a tool that `bind_tool` binds and whose name is free. The binding has the
-- definition and the function that the tool declares. `register` returns that definition, stores the
-- binding last, under the name of the definition, appends the definition to `definitions`, makes `get`
-- find it, and changes `get` of no other name.
pub register-Registered :
    (p : Pydantic) (t : Tool) (before : Registry) (d : ToolDefinition) (after : Registry)
    → register p t before ≡ ok (d, after)
    → Registered p t before d after
unfolding register
register-Registered p t before d after h =
    let (b, bound, rest) = >>=-eq-ok (bind_tool p t) (store before) h in
    let (free, same) = store_ok before b d after rest in
    subst (λ (o : ToolDefinition × Registry). Registered p t before o.0 o.1) same
      (Registered-insert p t before b bound free)
