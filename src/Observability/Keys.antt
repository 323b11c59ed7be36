-- ===== src/Observability/Keys.antt =====
-- core/types.py, `is_secret_key`, and the keys and texts that observability/bus.py hides from an observer.
use Prim.Native.Char.{code}
use Prim.Native.String.{String}
use proteo_runtime.Prelude.{
  ℕ, Bool, true, false, not, ◌&&◌, ◌||◌, nat_beq, Option, none, some, List, [], ◌∷◌, any, ◌==◌,
  string_eq, if◌then◌else◌,
}
use proteo_runtime.Tools.Values.{Value, none_value, str_value, Key, str_key, other_key}
use proteo_runtime.Observability.Failures.{PayloadMode, metadata_only, redacted}

-- What belongs to Python: `str.casefold`, the substitution of `_SECRET_ASSIGNMENT`, the digest of a session
-- descriptor, `str` of a key that is no text, and the name of the class of an object.
pub record Python : Type 0 where
  pub casefold : String → String
  pub scrub : String → String
  pub digest : String → String
  pub key_str : ℕ → String
  pub type_name : ℕ → String

-- `a + b`
unfoldable pub append : String → String → String
append String.[] t = t
append (String.◌∷◌ c s) t = String.◌∷◌ c (append s t)

-- `s.startswith(prefix)` and `s.endswith(suffix)`
unfoldable pub starts_with : String → String → Bool
starts_with String.[] s = true
starts_with (String.◌∷◌ c p) String.[] = false
starts_with (String.◌∷◌ c p) (String.◌∷◌ d s) =
    if nat_beq (code c) (code d) then starts_with p s else false

unfoldable pub ends_with : String → String → Bool
ends_with suffix String.[] = suffix == ""
ends_with suffix (String.◌∷◌ c s) =
    let rest = ends_with suffix s in if String.◌∷◌ c s == suffix then true else rest

-- `s.replace("-", "_")`
unfoldable pub underscored : String → String
underscored String.[] = ""
underscored (String.◌∷◌ c s) =
    let rest = underscored s in if nat_beq (code c) 45 then append "_" rest else String.◌∷◌ c rest

push_char : String → List String → List String
push_char c [] = c ∷ []
push_char c (s ∷ ss) = append c s ∷ ss

-- `s.split("_")`
unfoldable pub split : String → List String
unfolding push_char
split String.[] = "" ∷ []
split (String.◌∷◌ c s) =
    let rest = split s in
    if nat_beq (code c) 95 then "" ∷ rest else push_char (String.◌∷◌ c "") rest

unfoldable pub one_of : List String → String → Bool
one_of words s = any (λ (w : String). w == s) words

-- `key.casefold().replace("-", "_")`
unfoldable pub normal_key : Python → String → String
normal_key p k = underscored (p.casefold k)

-- `is_secret_key`
unfoldable pub is_secret_key : Python → String → Bool
unfolding one_of
is_secret_key p k =
    one_of
      ("api_key" ∷ "apikey" ∷ "authorization" ∷ "credential" ∷ "password" ∷ "private_key" ∷ "secret"
        ∷ "token" ∷ [])
      (normal_key p k)
    || any
        (one_of ("token" ∷ "secret" ∷ "password" ∷ "credential" ∷ "authorization" ∷ "apikey" ∷ []))
        (split (normal_key p k))

-- `_SENSITIVE_METADATA_KEYS`
unfoldable pub is_sensitive : String → Bool
unfolding one_of
is_sensitive = one_of (
    "text" ∷ "prompt" ∷ "response" ∷ "output" ∷ "schema" ∷ "tool_arguments" ∷ "tool_args"
    ∷ "tool_result" ∷ "raw" ∷ "provider_payload" ∷ "exception" ∷ "cause" ∷ [])

-- `_ALWAYS_EXCLUDE_KEYS`
unfoldable pub is_excluded : String → Bool
unfolding one_of
is_excluded = one_of (
    "provider_payload" ∷ "provider_headers" ∷ "headers" ∷ "descriptor" ∷ "session_descriptor"
    ∷ "raw" ∷ "exception" ∷ "cause" ∷ "thread_id" ∷ "provider_thread_id" ∷ "provider_thread" ∷ [])

-- `_is_session_key`
unfoldable pub is_session_key : String → Bool
is_session_key k = (k == "session_id") || ends_with "_session_id" k

-- The tests on a `key_hint` that may be None.
unfoldable pub hints_secret : Python → Option String → Bool
hints_secret p none = false
hints_secret p (some k) = is_secret_key p k

unfoldable pub hints_sensitive : Python → Option String → Bool
hints_sensitive p none = false
hints_sensitive p (some k) = is_sensitive (normal_key p k)

unfoldable pub hints_session : Python → Option String → Bool
hints_session p none = false
hints_session p (some k) = is_session_key (normal_key p k)

-- `_session_correlation_id`
unfoldable pub session_correlation_id : Python → Option String → Option String
session_correlation_id p none = none
session_correlation_id p (some s) =
    if s == "" then none else some (append "proteo.session:" (p.digest s))

unfoldable pub text_or_none : Option String → Value
text_or_none none = none_value
text_or_none (some s) = str_value s

-- A text under the key of a session.
unfoldable pub correlated : Python → String → Value
unfolding text_or_none
correlated p s =
    if starts_with "proteo.session:" s
    then str_value s
    else text_or_none (session_correlation_id p (some s))

-- `f"<{type(value).__name__}>"`
unfoldable pub placeholder : String → Value
placeholder name = str_value (append "<" (append name ">"))

unfoldable pub is_redacted_mode : PayloadMode → Bool
is_redacted_mode redacted = true
is_redacted_mode _ = false

unfoldable pub is_metadata_only : PayloadMode → Bool
is_metadata_only metadata_only = true
is_metadata_only _ = false

abbrev pub redaction : Value
redaction = str_value "[REDACTED]"

unfoldable pub scalar : PayloadMode → String → Value → Value
scalar m name v = if is_redacted_mode m then placeholder name else v

-- The filter of a mapping.
unfoldable pub is_shown : Python → PayloadMode → String → Bool
is_shown p m k =
    not (is_excluded (normal_key p k))
    && (not (is_metadata_only m) || not (is_sensitive (normal_key p k)))

unfoldable pub key_name : Python → Key → String
key_name p (str_key s) = s
key_name p (other_key n) = p.key_str n
