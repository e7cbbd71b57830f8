-- ===== src/Users/Register.antt =====
-- `RegisterUser` of internal/usecase/user_service.go, with `SendVerificationEmail` of
-- internal/infrastructure/notification/mailer.go. Logging is left out.
use notification_server.Base.{ℕ, String, Bool, true, false, Option, none, some, if◌then◌else◌}
use notification_server.Domain.Errors.{Error, Code, Message, text, new_domain_error}
use notification_server.Domain.Entities.{User, RegisteredUser}
use notification_server.Domain.Action.{
  Result, ok, err, panic, Action, return, fail, lift, ◌>>=◌, ◌>>◌,
}
use notification_server.Store.Hashes.{Hashes}
use notification_server.Store.World.{World, verification}
use notification_server.Security.Hash.{Crypto, hash, generate_otp}
use notification_server.Repository.Users.{get_user_by_email}
use notification_server.Repository.Verification.{create_user, save_verification_data}
use notification_server.Jobs.Executer.{send_mail}
use notification_server.Queue.Worker.{attempt}
use notification_server.Users.Otp.{save_otp}

-- What the run of one registration draws at random, and the settings of its hasher and generator.
pub record Draws : Type 0 where
  pub cost : ℕ
  pub password_salt : ℕ
  pub otp_salt : ℕ
  pub otp_length : ℕ
  pub draw : ℕ → Option ℕ
  pub decimal : ℕ → String

-- `existing != nil && err == nil`: a failure of the query counts as "no such user".
abbrev pub found : Result User → Result Bool
found (ok u) = ok true
found (err e) = ok false
found (panic t) = panic t

abbrev pub check : {S : Type 0} → Action S User → Action S Bool
check m s = let (r, s') = m s in (found r, s')

abbrev pub registered : Message
registered = text "The verification code was sent to your email. Please check your email"

-- The two goroutines' errors, read in turn. Either failure returns the outer `err`, which is nil
-- there: no response and no error.
abbrev answer : Option Error → Option Error → Option Message
answer (some e) mail_error = none
answer none (some e) = none
answer none none = some registered

module _ (S : Hashes) (K : Crypto) {R : Type 0} where
  unfoldable pub send_verification_email : String → String → Action (World R S.State) (Unit {0})
  send_verification_email email otp = send_mail (verification email otp)

  -- The email is sent a second after the password was handed to Redis, and also when that failed.
  unfoldable pub deliver_otp :
      String → String → String → ℕ → Action (World R S.State) (Option Message)
  deliver_otp email otp hashed_otp otp_expiration = do
    otp_error ← attempt (save_otp S K email hashed_otp otp_expiration)
    mail_error ← attempt (send_verification_email email otp)
    return (answer otp_error mail_error)

  unfoldable pub register_new :
      Draws → String → RegisteredUser → ℕ → Action (World R S.State) (Option Message)
  register_new g req_id req otp_expiration = do
    hashed_password ← lift (hash K g.cost g.password_salt req.password false)
    create_user (record {
      id = 0;
      first_name = req.first_name;
      last_name = req.last_name;
      email = req.email;
      password = hashed_password;
      preferences = req.preferences;
    })
    save_verification_data req_id req.email
    otp ← lift (generate_otp g.draw g.decimal g.otp_length)
    hashed_otp ← lift (hash K g.cost g.otp_salt otp false)
    deliver_otp req.email otp hashed_otp otp_expiration

  -- `none` is the nil response.
  unfoldable pub register_user :
      Draws → String → RegisteredUser → ℕ → Action (World R S.State) (Option Message)
  register_user g req_id req otp_expiration = do
    existing ← check (get_user_by_email req.email)
    if existing
        then fail (new_domain_error Code.conflict (text "email already exists") none)
        else register_new g req_id req otp_expiration
