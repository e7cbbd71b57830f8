-- ===== src/Domain/Errors.antt =====
-- internal/domain/errors.go: the error codes, `DomainError` and the package's error variables.
-- A Go value of type `error` is one of the package's variables, a `DomainError` built by
-- `NewDomainError`, or the error of a library. Only a variable is `==` to itself, so it has a
-- constructor of its own. A message that `fmt.Sprintf` builds is kept as its format and arguments.
use notification_server.Base.{ℕ, String, Bool, true, false, Option, none, some, List, []}

pub data Code : Type 0 where
  validation not_found unauthorized forbidden conflict internal external rate_limited : Code
  persisting : Code

-- An argument of `fmt.Sprintf`.
pub data Arg : Type 0 where
  str : String → Arg
  num : ℕ → Arg

pub record Message : Type 0 where
  pub format : String
  pub args : List Arg

abbrev pub text : String → Message
text s = record { format = s; args = [] }

pub record DomainError : Type 0 where
  pub code : Code
  pub message : Message
  pub cause : Option String

pub data Variable : Type 0 where
  too_many_attempts invalid_otp invalid_credentials user_not_found email_not_found : Variable
  db_connection persist_user persist_verification unable_to_delete_user persist_story : Variable
  persist_otp request_id_not_found otp_key_not_found type_convertion : Variable
  failed_increment_otp_retry invalid_jwt_token invalid_jwt_method persist_refresh_token : Variable
  story_not_found no_message_found : Variable

abbrev plain : Code → String → DomainError
plain c s = record { code = c; message = text s; cause = none }

pub variable_error : Variable → DomainError
variable_error Variable.too_many_attempts = plain Code.rate_limited "too many request"
variable_error Variable.invalid_otp = plain Code.validation "invalid otp"
variable_error Variable.invalid_credentials = plain Code.unauthorized "invalid credentials"
variable_error Variable.user_not_found = plain Code.not_found "user not found"
variable_error Variable.email_not_found = plain Code.not_found "email not found"
variable_error Variable.db_connection = plain Code.internal "db connectin failed"
variable_error Variable.persist_user = plain Code.persisting "persisting user failed"
variable_error Variable.persist_verification =
    plain Code.persisting "persisting requestid-email failed"
variable_error Variable.unable_to_delete_user =
    plain Code.internal "unable to delete user from database"
variable_error Variable.persist_story = plain Code.persisting "persisting story failed"
variable_error Variable.persist_otp = plain Code.persisting "failed to save otp"
variable_error Variable.request_id_not_found = plain Code.not_found "request id not found"
variable_error Variable.otp_key_not_found = plain Code.not_found "key not found"
variable_error Variable.type_convertion = plain Code.validation "failed to convert the type"
variable_error Variable.failed_increment_otp_retry =
    plain Code.internal "failed to increment the retry attempts"
variable_error Variable.invalid_jwt_token = plain Code.unauthorized "invalid jwt token"
variable_error Variable.invalid_jwt_method = plain Code.unauthorized "invalid jwt method"
variable_error Variable.persist_refresh_token =
    plain Code.persisting "persisting refresh token failed"
variable_error Variable.story_not_found = plain Code.not_found "story not found"
variable_error Variable.no_message_found = plain Code.not_found "no message found in retry queue"

pub data Error : Type 0 where
  sentinel : Variable → Error
  domain : DomainError → Error
  foreign : String → Error

-- `NewDomainError`.
abbrev pub new_domain_error : Code → Message → Option String → Error
new_domain_error c m cause = domain (record { code = c; message = m; cause = cause })

-- `errors.As(err, &de)` with `de` a `*DomainError`: both kinds of `DomainError` stand at the head
-- of their chain of causes.
unfoldable pub as_domain : Error → Option DomainError
unfolding variable_error
as_domain (sentinel v) = some (variable_error v)
as_domain (domain e) = some e
as_domain (foreign t) = none

-- `errors.Is(err, ErrNoMessageFound)`: the variable itself, whatever another error's text.
unfoldable pub is_no_message_found : Error → Bool
is_no_message_found (sentinel Variable.no_message_found) = true
is_no_message_found _ = false
