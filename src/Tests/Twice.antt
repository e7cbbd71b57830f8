-- ===== src/Tests/Twice.antt =====
-- The theorem on two refreshes at once, applied to a concrete input.
use notification_server.Base.{
  ℕ, String, ◌≡◌, ◌≢◌, refl, true, false, ◌||◌, none, some, [], ◌==◌, nat_eq, string_eq, arith,
  eq_iff, if◌then◌else◌, Bool-cases, inl, inr,
}
use Prim.Native.String.{◌++◌}
use notification_server.Domain.Entities.{TokenPair, IdentityToken}
use notification_server.Domain.Action.{ok, ◌>>=◌}
use notification_server.Store.Tables.{UserRow, TokenRow, select}
use notification_server.Store.World.{World, online}
use notification_server.Security.Hash.{Crypto, hash, verify_hash}
use notification_server.Security.Jwt.{create_jwt_token, verify_refresh_token}
use notification_server.Repository.Stories.{exists}
use notification_server.Repository.Tokens.{latest, token_of}
use notification_server.Users.Session.{refresh_jwt_token, usable}
use notification_server.Users.Halves.{check_refresh, rotate}
use notification_server.Users.Twice.{simultaneous_refreshes_granted}
use notification_server.Tests.Accounts.{ann, with_db}
use notification_server.Tests.Journeys.{by_test}
use notification_server.Tests.Memory.{Memory}
use notification_server.Tests.Otps.{Cells, compared_as_text}
use notification_server.Tests.Tokens.{jwt, auth, login}

-- It hashes by a prefix that is the salt, one of two.
abbrev salted : ℕ → String → String
salted salt p = if salt == 1 then "one:" ++ p else "two:" ++ p

abbrev salty : Crypto
salty = record {
  generate_from_password = λ cost salt p. some (salted salt p);
  compare_hash_and_password =
      λ h p. compared_as_text (h == p || (h == ("one:" ++ p) || h == ("two:" ++ p)));
  sum256 = λ p. p;
  compare-generate = λ cost salt p h made. elim (Bool-cases (salt == 1)) [
    | inl e ↦ ground (arith, eq_iff h ("one:" ++ p))
    | inr e ↦ ground (arith, eq_iff h ("two:" ++ p))
  ];
}

abbrev pair : TokenPair
pair = record { access_token = "access"; refresh_token = "refresh" }

abbrev who : IdentityToken
who = record { user_id = 7; email = "ann@x.org" }

abbrev ann_row : UserRow
ann_row = record {
  id = 7;
  first_name = "Ann";
  last_name = "Lee";
  email = "ann@x.org";
  password = "secret";
}

abbrev ann_token : TokenRow
ann_token = record {
  id = 1;
  user_id = 7;
  token_hash = "refresh";
  expires_at = 2_000_000;
  revoked_at = none;
  created_at = 5;
}

signed : verify_refresh_token jwt login "refresh" "r-key" ≡ ok who
unfolding verify_refresh_token
signed = refl

found : select (λ (u : UserRow). u.id == 7) ann.users.rows ≡ some ann_row
unfolding select
found = refl

there : latest 7 ann.refresh_tokens.rows ≡ some ann_token
unfolding latest
there = refl

matching : verify_hash salty "refresh" "refresh" true ≡ ok tt
unfolding verify_hash
matching = refl

live : usable login (token_of ann_token) ≡ ok tt
unfolding usable
live = refl

made : create_jwt_token jwt auth login 7 "ann@x.org" ≡ ok pair
unfolding create_jwt_token
made = refl

hashed_one : hash salty 10 1 "refresh" true ≡ ok "one:refresh"
unfolding hash
hashed_one = refl

hashed_two : hash salty 10 2 "refresh" true ≡ ok "two:refresh"
unfolding hash
hashed_two = refl

abbrev first : String
first = "one:refresh"

abbrev second : String
second = "two:refresh"

apart : first ≢ second
apart = by_test first second refl

unused :
    (exists (λ (t : TokenRow). t.token_hash == "one:refresh") ann.refresh_tokens.rows ≡ false)
    × (exists (λ (t : TokenRow). t.token_hash == "two:refresh") ann.refresh_tokens.rows ≡ false)
unfolding select
unused = (refl, refl)

simultaneous_refreshes_granted_example :
    let w : World Memory Cells = with_db ann [] in
    let a = check_refresh salty jwt auth 10 1 login "refresh" "r-key" (online w) in
    let b = check_refresh salty jwt auth 10 2 login "refresh" "r-key" a.1 in
    let c = rotate login (7, (pair, "one:refresh")) b.1 in
    ((s : World Memory Cells)
      → (check_refresh salty jwt auth 10 1 login "refresh" "r-key" >>= rotate login) s
        ≡ refresh_jwt_token salty jwt auth 10 1 login "refresh" "r-key" s)
    × (a.0 ≡ ok (7, (pair, "one:refresh")))
    × (b.0 ≡ ok (7, (pair, "two:refresh")))
    × (c.0 ≡ ok pair)
    × ((rotate login (7, (pair, "two:refresh")) c.1).0 ≡ ok pair)
simultaneous_refreshes_granted_example =
    simultaneous_refreshes_granted salty jwt auth login "refresh" "r-key" who ann_row ann_token pair
      (with_db ann []) signed found there matching live made 10 1 2 first second hashed_one
      hashed_two apart unused.0 unused.1
