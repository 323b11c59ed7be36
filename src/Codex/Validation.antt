-- ===== src/Codex/Validation.antt =====
-- providers/codex/_structured.py: the host's validation of an output, what the provider is told of it, and
-- the usage of all attempts.
use Prim.Native.Char.{code}
use Prim.Native.String.{String}
use proteo_runtime.Prelude.{
  ℕ, zero, suc, ◌+◌, ◌-◌, ◌&&◌, nat_beq, leb, ◌⊎◌, inl, inr, Option, none, some, List, [], ◌∷◌, map,
  length, string_eq, if◌then◌else◌,
}
use proteo_runtime.Prelude.Result.{ok, raise}
use proteo_runtime.Prelude.Text.{concat}
use proteo_runtime.Core.Errors.{Py, value_error}
use proteo_runtime.Core.Input.{join}
use proteo_runtime.Tools.Values.{Value}
use proteo_runtime.Codex.Turns.{RuntimeUsage}

-- `_sum_optional`: every attempt has reported a value.
unfoldable pub sum_all : List (Option ℕ) → Option ℕ
sum_all [] = some 0
sum_all (none ∷ xs) = none
sum_all (some n ∷ xs) = elim (sum_all xs) [ none ↦ none | some m ↦ some (n + m) ]

unfoldable pub sum_optional : List (Option ℕ) → Option ℕ
unfolding sum_all
sum_optional [] = none
sum_optional (x ∷ xs) = sum_all (x ∷ xs)

unfoldable pub sum : List ℕ → ℕ
sum [] = 0
sum (n ∷ ns) = n + sum ns

-- `_aggregate_usage`
unfoldable pub aggregate_usage : List RuntimeUsage → RuntimeUsage
unfolding sum_optional sum
aggregate_usage us = record {
  input_tokens = sum_optional (map (λ (u : RuntimeUsage). u.input_tokens) us);
  cached_input_tokens = sum_optional (map (λ (u : RuntimeUsage). u.cached_input_tokens) us);
  output_tokens = sum_optional (map (λ (u : RuntimeUsage). u.output_tokens) us);
  reasoning_tokens = sum_optional (map (λ (u : RuntimeUsage). u.reasoning_tokens) us);
  total_tokens = sum_optional (map (λ (u : RuntimeUsage). u.total_tokens) us);
  duration_ms = sum_optional (map (λ (u : RuntimeUsage). u.duration_ms) us);
  turn_count = sum (map (λ (u : RuntimeUsage). u.turn_count) us);
  tool_call_count = sum (map (λ (u : RuntimeUsage). u.tool_call_count) us);
  retry_count = sum (map (λ (u : RuntimeUsage). u.retry_count) us) + (length us - 1);
  raw = ("attempt_count", length us) ∷ [];
}

-- `str(part).replace("~", "~0").replace("/", "~1")`
unfoldable pub escape : String → String
escape String.[] = ""
escape (String.◌∷◌ c s) =
    let rest = escape s in
    if nat_beq (code c) 126
    then concat ("~0" ∷ rest ∷ [])
    else if nat_beq (code c) 47
    then concat ("~1" ∷ rest ∷ [])
    else String.◌∷◌ c rest

-- `_error_path`, of the texts of the parts
unfoldable pub error_path : List String → String
unfolding escape
error_path [] = "$"
error_path (part ∷ parts) = concat ("/" ∷ join "/" (map escape (part ∷ parts)) ∷ [])

-- `xs[:n]`
unfoldable pub take : {A : Type 0} → ℕ → List A → List A
take zero xs = []
take (suc n) [] = []
take (suc n) (x ∷ xs) = x ∷ take n xs

unfoldable pub take_text : ℕ → String → String
take_text zero s = ""
take_text (suc n) String.[] = ""
take_text (suc n) (String.◌∷◌ c s) = String.◌∷◌ c (take_text n s)

-- `_feedback`
unfoldable pub feedback : List String → String
unfolding take take_text
feedback paths = concat (
    "Return one JSON value that satisfies the schema. Correct these paths: "
    ∷ take_text 500 (join ", " (take 8 paths))
    ∷ "."
    ∷ [])

-- `StructuredOutputPolicy(max_attempts)`
unfoldable pub new_policy : ℕ → Py ℕ
new_policy max_attempts =
    if leb 1 max_attempts && leb max_attempts 5 then ok max_attempts else raise value_error

-- The host's validation of a JSON value: a pydantic model gives a value or the locations of its errors, a
-- JSON schema the locations of its errors, sorted.
pub data Checker : Type 0 where
  pydantic_model : (Value → Value ⊎ List (List String)) → Checker
  json_schema : (Value → List (List String)) → Checker

-- `_SchemaAdapter`; `loads` is `json.loads`, none if it raises.
pub record Schema : Type 0 where
  pub loads : String → Option Value
  pub checker : Checker

pub data Validation : Type 0 where
  valid : Value → Validation
  invalid : List String → Validation

or_root : List String → List String
or_root [] = "$" ∷ []
or_root (p ∷ ps) = p ∷ ps

judge_errors : Value → List (List String) → Validation
unfolding or_root take error_path
judge_errors v [] = valid v
judge_errors v (e ∷ es) = invalid (or_root (map error_path (take 8 (e ∷ es))))

check_value : Checker → Value → Validation
unfolding judge_errors or_root error_path
check_value (pydantic_model model_validate) v = elim (model_validate v) [
  | inl w ↦ valid w
  | inr errors ↦ invalid (or_root (map error_path errors))
]
check_value (json_schema iter_errors) v = judge_errors v (iter_errors v)

-- `_SchemaAdapter.validate`
unfoldable pub validate_output : Schema → String → Validation
unfolding check_value
validate_output c output = elim (c.loads output) [
  | none ↦ invalid ("$" ∷ [])
  | some v ↦ check_value c.checker v
]
