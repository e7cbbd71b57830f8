-- ===== src/Users/Newcomer.antt =====
-- The login of a new user, and the whole way to it, on a network that answers.
use notification_server.Base.{
  ℕ, String, ◌≡◌, refl, ◌*◌, ◌+◌, some, [], ◌∷◌, true, false, ◌==◌, string_eq, nat_eq, eq_iff,
  nat_beq_iff,
}
use notification_server.Domain.Entities.{User, RegisteredUser, LoginUser, TokenPair}
use notification_server.Domain.Errors.{text, Variable}
use notification_server.Domain.Action.{ok}
use notification_server.Store.Hashes.{Hashes, string, number}
use notification_server.Store.Tables.{Db, UserRow, TokenRow, select, scan}
use notification_server.Store.World.{World, online, call, query, verification}
use notification_server.Security.Hash.{Crypto, hash, verify_hash, generate_otp}
use notification_server.Security.Jwt.{Jwt, JwtAuth, create_jwt_token}
use notification_server.Repository.Stories.{exists}
use notification_server.Repository.Tokens.{insert_token, store_refresh_token}
use notification_server.Repository.Users.{get_user_by_email}
use notification_server.Repository.Verification.{known_as, requested_by}
use notification_server.Users.Arrival.{
  query_succeeds, IsFree, verified, user_row, select_head, exists_head,
}
use notification_server.Users.Lockout.{saved-get}
use notification_server.Users.Otp.{otp_key}
use notification_server.Users.Register.{Draws, register_user, registered}
use notification_server.Users.Session.{authenticate_user, seven_days}
use notification_server.Users.Verify.{verify_user}
use notification_server.Users.Welcome.{newcomer, waits, register_user_succeeds}
use notification_server.Users.Entrance.{hash_matches, hash_verifies, verify_user_succeeds}

module _ (K : Crypto) (J : Jwt) (j : JwtAuth) (cost salt now : ℕ) {R H : Type 0}
    (request password hr : String) (u : User) (pair : TokenPair) (d : Db) (w : World R H)
    (matching : verify_hash K u.password password false ≡ ok tt)
    (made : create_jwt_token J j now d.users.next u.email ≡ ok pair)
    (hidden : hash K cost salt pair.refresh_token true ≡ ok hr)
    (fresh : exists (λ (t : TokenRow). t.token_hash == hr) d.refresh_tokens.rows ≡ false) where
  known_succeeds : get_user_by_email u.email (online (record w { db = verified request u d })) ≡ (
    ok (record {
      id = d.users.next;
      first_name = u.first_name;
      last_name = u.last_name;
      email = u.email;
      password = u.password;
      preferences = [];
    }),
    online (record w { db = verified request u d }),
  )
  unfolding get_user_by_email
  known_succeeds =
      rw
        (query_succeeds Variable.email_not_found
          (λ d. (scan (select (λ (u' : UserRow). u'.email == u.email) d.users.rows), d))
          (record w { db = verified request u d }) (user_row u d.users.next) (verified request u d)
          (rw
            (select_head (known_as u.email) (user_row u d.users.next) d.users.rows
              ((eq_iff u.email u.email).1 refl))
            refl))
        refl

  stored_succeeds :
      (store_refresh_token now d.users.next hr
        (now + seven_days)
        (online (record w { db = verified request u d }))).0
      ≡ ok tt
  unfolding store_refresh_token insert_token query call
  stored_succeeds =
      rw
        (
          fresh,
          exists_head (λ (r : UserRow). r.id == d.users.next) (user_row u d.users.next) d.users.rows
              ((nat_beq_iff d.users.next d.users.next).1 refl),
        )
        refl

  authenticate_user_succeeds :
      (authenticate_user K J j cost salt now
        (record { email = u.email; password = password })
        (online (record w { db = verified request u d }))).0
      ≡ ok pair
  unfolding authenticate_user
  authenticate_user_succeeds = rw (known_succeeds, matching, made, hidden, stored_succeeds) refl

module _ (S : Hashes) (K : Crypto) (J : Jwt) (j : JwtAuth) {R : Type 0} where
  -- On a network that answers, where nobody is registered or staged under the email, no row waits
  -- under the request's id, bcrypt takes the
  -- password, the code and the refresh token, the random source and the token library answer, and the
  -- hash of the refresh token is not in the tables yet: the registration succeeds and mails the code,
  -- the verification with that code under the request's id succeeds, and the login with the email and
  -- the password gives the pair of tokens made for the new user's id and email.
  pub newcomer_logs_in :
      (g : Draws) (request : String) (req : RegisteredUser) (minutes : ℕ) (h otp ho : String)
      (cost salt now : ℕ) (pair : TokenPair) (hr : String) (w : World R S.State)
      → IsFree req.email w.db
      → exists (requested_by request) w.db.email_verification.rows ≡ false
      → hash K g.cost g.password_salt req.password false ≡ ok h
      → generate_otp g.draw g.decimal g.otp_length ≡ ok otp
      → hash K g.cost g.otp_salt otp false ≡ ok ho
      → create_jwt_token J j now w.db.users.next req.email ≡ ok pair
      → hash K cost salt pair.refresh_token true ≡ ok hr
      → exists (λ (t : TokenRow). t.token_hash == hr) w.db.refresh_tokens.rows ≡ false
      → let (a, x) = register_user S K g request req minutes (online w) in
        let (b, y) = verify_user S K otp request x in
        let credentials : LoginUser = record { email = req.email; password = req.password } in
        (a ≡ ok (some registered))
        × (x.mails ≡ verification req.email otp ∷ w.mails)
        × (b ≡ ok (text "You are verified. Welcome 🥰. Lets explore🚀"))
        × ((authenticate_user K J j cost salt now credentials y).0 ≡ ok pair)
  newcomer_logs_in g request req minutes h otp ho cost salt now pair hr w free unused hashed drawn
        hidden made tokened fresh =
      let u = newcomer req h in
      let x = waits S K g request req minutes h otp ho w free hashed drawn hidden in
      rw
        (
          register_user_succeeds S K g request req minutes h otp ho w free hashed drawn hidden,
          verify_user_succeeds S K request otp ho u w.db x free.0 unused
              (
                refl,
                saved-get S (otp_key req.email) "otp" ho (minutes * 60) w.otps (string ho) refl,
                saved-get S (otp_key req.email) "retry_count" ho (minutes * 60) w.otps (number 0)
                    refl,
              )
              (hash_matches K g.cost g.otp_salt otp ho hidden),
        )
        (
          refl,
          refl,
          refl,
          authenticate_user_succeeds K J j cost salt now request req.password hr u pair w.db
              (record x { otps = S.del (otp_key req.email) x.otps })
              (hash_verifies K g.cost g.password_salt req.password h hashed) made tokened fresh,
        )
