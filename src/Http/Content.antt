-- ===== src/Http/Content.antt =====
-- `CheckContentBody` of internal/adapters/http/middleware/middleware.go. Reading JSON and the
-- package validator are parameters; the switch over what went wrong is the program's.
use notification_server.Base.{
  ℕ, String, Bool, not, Option, none, some, List, [], ◌∷◌, ◌==◌, string_eq, if◌then◌else◌,
}
use package.text.Mathlib.Text.{starts_with}
use Prim.Native.String.{len, slice}
use notification_server.Domain.Errors.{Code, Message, Arg, str, num, text}
use notification_server.Http.Errors.{HttpError}
use notification_server.Http.Gin.{Context, Handled, Handler, http_error}
use notification_server.Http.Middleware.{denied, bad_request}

-- The error of `c.ShouldBindJSON`: which of the errors that the switch asks for it is, or wraps.
pub record BindError : Type 0 where
  pub is_eof : Bool
  pub is_unexpected_eof : Bool
  -- `err.Error()`
  pub error : String
  -- `json.SyntaxError`: its offset
  pub syntax : Option ℕ
  -- `json.UnmarshalTypeError`: its field and offset
  pub unmarshal_type : Option (String × ℕ)
  -- `json.InvalidUnmarshalError`: its text
  pub invalid_unmarshal : Option String

pub data Bound (A : Type 0) : Type 0 where
  bound : A → Bound A
  unbound : BindError → Bound A

-- JSON and the validator for one type of payload.
pub record Binder (A : Type 0) : Type 0 where
  -- the size allowed, and the body
  pub should_bind_json : ℕ → String → Bound A
  -- a second `Decode` of what is left finds the end of the body
  pub at_end : ℕ → String → Bool
  -- `RegisterValidation` takes the function of that name
  pub registers : String → Bool
  -- `validate.Struct`: the text of its error
  pub struct : A → Option String

abbrev format : String → List Arg → Message
format f args = record { format = f; args = args }

abbrev default_case : BindError → HttpError
default_case e = bad_request (format "error happend: %s" (str e.error ∷ []))

abbrev invalid_case : Option String → BindError → HttpError
invalid_case none e = default_case e
invalid_case (some t) e =
    http_error (format "error unmarshaling json: %s" (str t ∷ [])) Code.validation 500

-- `strings.TrimPrefix(err.Error(), "json: unknown field")`
abbrev field_name : String → String
field_name t = slice t (len "json: unknown field") (len t)

abbrev unknown_case : BindError → HttpError
unknown_case e =
    if starts_with e.error "json: unknown field"
    then bad_request (format "body contains unknow key %s" (str (field_name e.error) ∷ []))
    else invalid_case e.invalid_unmarshal e

abbrev type_case : Option (String × ℕ) → BindError → HttpError
type_case none e = unknown_case e
type_case (some (field, offset)) e =
    bad_request
      (format "body contains incorrect json type for %q at %d" (str field ∷ num offset ∷ []))

abbrev syntax_case : Option ℕ → BindError → HttpError
syntax_case none e = type_case e.unmarshal_type e
syntax_case (some offset) e =
    bad_request (format "body contains badly-formed json at character %d" (num offset ∷ []))

-- The switch, case by case in its order.
unfoldable pub bind_failure : ℕ → BindError → HttpError
bind_failure maxsize e =
    if e.is_eof
    then bad_request (text "body must not be empty")
    else if e.is_unexpected_eof
    then bad_request (text "body contains badly-formed json")
    else if e.error == "http: request body too large"
    then http_error (format "body must not be larger than %d bytes" (num maxsize ∷ []))
        Code.validation 413
    else syntax_case e.syntax e

abbrev pub not_registered : HttpError
not_registered = http_error (text "failed to register validation") Code.internal 500

module _ {S A : Type 0} where
  -- After the payload was read.
  abbrev pub check_struct : (A → Handler S) → A → Context → Option String → S → Handled × S
  check_struct next u c none s = next u c s
  check_struct next u c (some t) s =
      denied (http_error (format "%s" (str t ∷ [])) Code.internal 400) s

  abbrev pub check_bound : Binder A → ℕ → (A → Handler S) → Context → Bound A → S → Handled × S
  check_bound b maxsize next c (unbound e) s = denied (bind_failure maxsize e) s
  check_bound b maxsize next c (bound u) s =
      if not (b.at_end maxsize c.body)
      then denied (bad_request (text "body must contain only one json value")) s
      else if not (b.registers "passwod_strength")
      then denied not_registered s
      else if not (b.registers "user_preferences_check")
      then denied not_registered s
      else check_struct next u c (b.struct u) s

  -- `next` takes what `c.MustGet("payload")` finds.
  unfoldable pub check_content_body : Binder A → ℕ → (A → Handler S) → Handler S
  unfolding bind_failure
  check_content_body b maxsize next c s =
      check_bound b maxsize next c (b.should_bind_json maxsize c.body) s
