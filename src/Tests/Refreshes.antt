-- ===== src/Tests/Refreshes.antt =====
-- The theorem on a refresh token that is used twice, applied to a concrete input.
use notification_server.Base.{ℕ, ◌≡◌, ◌≢◌, refl, String, true, none, inl, [], ◌∷◌, string_eq}
use notification_server.Domain.Action.{ok}
use notification_server.Store.World.{dropped}
use notification_server.Security.Jwt.{
  Jwt, Claims, refresh_claims, verify_refresh_token, create_jwt_token,
}
use notification_server.Store.Tables.{Db, select, update_where}
use notification_server.Security.Hash.{hash, verify_hash, matches}
use notification_server.Users.Session.{refresh_jwt_token, usable}
use notification_server.Users.Reuse.{refresh_token_once, OnlyFits, NoNewFits}
use notification_server.Repository.Users.{get_user_by_id}
use notification_server.Repository.Tokens.{
  latest, retrieve_refresh_token, update_refresh_token, store_refresh_token,
}
use notification_server.Tests.Accounts.{ann, with_db}
use notification_server.Tests.Memory.{Memory}
use notification_server.Tests.Otps.{crypto, Cells}
use notification_server.Tests.Tokens.{jwt, auth, login, with_token}
use mathlib.Core.Path.{subst}
use notification_server.Store.World.{World, query, call}

-- Ann's latest token is an old one.
abbrev old_claims : Claims
old_claims = refresh_claims auth 900_000 7 "ann@x.org"

old_is_free : (now : ℕ) → jwt.parse now "old" "" ≡ none
old_is_free now = refl

abbrev with_old : Jwt
with_old = with_token "old" old_claims old_is_free

abbrev old_ann : Db
old_ann = record ann {
  refresh_tokens = record {
    rows =
        record {
          id = 1;
          user_id = 7;
          token_hash = "old";
          expires_at = 1_504_800;
          revoked_at = none;
          created_at = 900_000;
        }
        ∷ [];
    next = 2;
  };
}

abbrev refreshed : World Memory Cells
refreshed = (refresh_jwt_token crypto with_old auth 10 1 login "old" "r-key" (with_db old_ann [])).1

old_refreshed :
    (refresh_jwt_token crypto with_old auth 10 1 login "old" "r-key" (with_db old_ann [])).0
    ≡ ok (record { access_token = "access"; refresh_token = "refresh" })
unfolding refresh_jwt_token verify_refresh_token get_user_by_id retrieve_refresh_token latest
    verify_hash usable create_jwt_token hash update_refresh_token store_refresh_token query call
    select update_where
old_refreshed = refl

not_old :
    (h : String)
    → hash crypto 10 1 "refresh" true ≡ ok h
    → crypto.compare_hash_and_password h (crypto.sum256 "old") ≢ matches
unfolding hash
not_old h made same = wrong (
    subst (λ (g : String). crypto.compare_hash_and_password g "old" ≡ matches) (hashed h made) same)
  where
    hashed : (h : String) → ok "salted:refresh" ≡ ok h → h ≡ "salted:refresh"
    hashed h e = cc

    wrong : crypto.compare_hash_and_password "salted:refresh" "old" ≡ matches → ⊥
    wrong e = cc

only_old : OnlyFits crypto "old" 1 old_ann
only_old = (λ f. refl, tt)

-- Then Ann logs in again.
abbrev signed_in : World Memory Cells
signed_in = record refreshed {
  db = record refreshed.db {
    refresh_tokens = record {
      rows =
          record {
            id = 9;
            user_id = 7;
            token_hash = "salted:other";
            expires_at = 3_000_000;
            revoked_at = none;
            created_at = login;
          }
          ∷ refreshed.db.refresh_tokens.rows;
      next = 10;
    };
  };
  link = dropped ∷ [];
}

nothing_new : NoNewFits crypto "old" refreshed.db signed_in.db
unfolding refresh_jwt_token verify_refresh_token get_user_by_id retrieve_refresh_token latest
    verify_hash usable create_jwt_token hash update_refresh_token store_refresh_token query call
    select update_where
nothing_new = (λ f. cc, (λ f. inl (refl, refl), (λ f. cc, tt)))

refresh_token_once_example :
    (refresh_jwt_token crypto with_old auth 10 1 1_000_005 "old" "r-key" signed_in).0
    ≢ ok (record { access_token = "access"; refresh_token = "refresh" })
refresh_token_once_example =
    refresh_token_once crypto with_old auth 10 1 login "old" "r-key" 1
      (record { access_token = "access"; refresh_token = "refresh" }) (with_db old_ann []) only_old
      old_refreshed not_old 10 1 1_000_005
      (record { access_token = "access"; refresh_token = "refresh" }) signed_in nothing_new
