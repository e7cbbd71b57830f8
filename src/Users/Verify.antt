-- ===== src/Users/Verify.antt =====
-- `VerifyUser` and `DeleteUser` of internal/usecase/user_service.go. Logging is left out.
use notification_server.Base.{ℕ, String}
use notification_server.Domain.Errors.{Message, text}
use notification_server.Domain.Action.{Action, return, ◌>>=◌, ◌>>◌}
use notification_server.Store.Hashes.{Hashes}
use notification_server.Store.World.{World}
use notification_server.Security.Hash.{Crypto}
use notification_server.Repository.Users.{delete_user_by_id}
use notification_server.Repository.Verification.{
  retrieve_verification_data, persist_user_info, persist_user_preferenes, delete_user_from_staging,
}
use notification_server.Users.Otp.{verify_otp}

module _ (S : Hashes) (K : Crypto) {R : Type 0} where
  unfoldable pub verify_user : String → String → Action (World R S.State) Message
  verify_user sent_otp register_req_id = do
    email ← retrieve_verification_data register_req_id
    verify_otp S K email sent_otp
    (user_id, preferences) ← persist_user_info email
    persist_user_preferenes user_id preferences
    delete_user_from_staging email
    return (text "You are verified. Welcome 🥰. Lets explore🚀")

module _ {R H : Type 0} where
  unfoldable pub delete_user : ℕ → Action (World R H) Message
  delete_user id = do delete_user_by_id id; return (text "User deleted successfully")
