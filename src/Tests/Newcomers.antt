-- ===== src/Tests/Newcomers.antt =====
-- The theorem on the way of a new user, applied to a concrete input.
use notification_server.Base.{◌≡◌, ◌==◌, string_eq, true, false, refl, some, [], ◌∷◌}
use notification_server.Domain.Entities.{LoginUser, TokenPair}
use notification_server.Domain.Errors.{text}
use notification_server.Domain.Action.{ok}
use notification_server.Store.Tables.{TokenRow, select}
use notification_server.Repository.Stories.{exists}
use notification_server.Repository.Verification.{requested_by}
use notification_server.Users.Arrival.{IsFree}
use notification_server.Store.World.{online, verification}
use notification_server.Security.Hash.{hash, generate_otp}
use notification_server.Security.Jwt.{create_jwt_token}
use notification_server.Users.Newcomer.{newcomer_logs_in}
use notification_server.Users.Register.{register_user, registered}
use notification_server.Users.Session.{authenticate_user}
use notification_server.Users.Verify.{verify_user}
use notification_server.Tests.Accounts.{with_db, draws}
use notification_server.Tests.Otps.{otps, crypto}
use notification_server.Tests.System.{newcomer, start}
use notification_server.Tests.Tokens.{jwt, auth, login}

abbrev pair : TokenPair
pair = record { access_token = "access"; refresh_token = "refresh" }

password_hashed : hash crypto 10 1 "secret" false ≡ ok "salted:secret"
unfolding hash
password_hashed = refl

code_drawn : generate_otp draws.draw draws.decimal 6 ≡ ok "42"
unfolding generate_otp
code_drawn = refl

code_hashed : hash crypto 10 2 "42" false ≡ ok "salted:42"
unfolding hash
code_hashed = refl

tokens_made : create_jwt_token jwt auth login 7 "ann@x.org" ≡ ok pair
unfolding create_jwt_token
tokens_made = refl

token_hashed : hash crypto 10 3 "refresh" true ≡ ok "salted:refresh"
unfolding hash
token_hashed = refl

nobody_there : IsFree "ann@x.org" start
unfolding select
nobody_there = (refl, refl, refl)

nobody_asked : exists (requested_by "r1") start.email_verification.rows ≡ false
unfolding select
nobody_asked = refl

token_fresh :
    exists (λ (t : TokenRow). t.token_hash == "salted:refresh") start.refresh_tokens.rows ≡ false
unfolding select
token_fresh = refl

newcomer_logs_in_example :
    let (a, x) = register_user otps crypto draws "r1" newcomer 2 (online (with_db start [])) in
    let (b, y) = verify_user otps crypto "42" "r1" x in
    let credentials : LoginUser = record { email = "ann@x.org"; password = "secret" } in
    (a ≡ ok (some registered))
    × (x.mails ≡ verification "ann@x.org" "42" ∷ [])
    × (b ≡ ok (text "You are verified. Welcome 🥰. Lets explore🚀"))
    × ((authenticate_user crypto jwt auth 10 3 login credentials y).0 ≡ ok pair)
newcomer_logs_in_example =
    newcomer_logs_in otps crypto jwt auth draws "r1" newcomer 2 "salted:secret" "42" "salted:42" 10
      3 login pair "salted:refresh" (with_db start []) nobody_there nobody_asked password_hashed
      code_drawn code_hashed tokens_made token_hashed token_fresh
