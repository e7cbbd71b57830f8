-- ===== src/System/Stable.antt =====
-- What the single statements of internal/infrastructure/repository/postgres/user_postgres.go and XADD
-- have to keep for a property to hold in the whole program.
use notification_server.Base.{ℕ, ◌+◌, String, ◌≡◌, true, false, arith, some, List}
use notification_server.Domain.Action.{ok}
use notification_server.Domain.Entities.{User, Story}
use notification_server.Store.Broker.{Broker}
use notification_server.Store.Tables.{Db, Status}
use notification_server.Security.Hash.{Crypto, hash}
use notification_server.Repository.Users.{delete_user_row}
use notification_server.Repository.Verification.{
  insert_staging, insert_verification, promote, insert_preferences, unstage,
}
use notification_server.Repository.Stories.{insert_story, insert_story_job}
use notification_server.Repository.Tokens.{insert_token, revoke_latest}
use notification_server.Users.Session.{seven_days}

module _ (K : Crypto) where
  -- bcrypt made it of some text; of the SHA-256 sum of some text.
  abbrev pub IsHash : String → Type 0
  IsHash h = (cost salt : ℕ) × (p : String) × (K.generate_from_password cost salt p ≡ some h)

  abbrev pub IsSumHash : String → Type 0
  IsSumHash h =
      (cost salt : ℕ) × (p : String) × (K.generate_from_password cost salt (K.sum256 p) ≡ some h)

  pub hash-IsHash : (cost salt : ℕ) (p h : String) → hash K cost salt p false ≡ ok h → IsHash h
  unfolding hash
  hash-IsHash cost salt p h e = (cost, salt, p, ground arith)

  pub hash-IsSumHash : (cost salt : ℕ) (p h : String) → hash K cost salt p true ≡ ok h → IsSumHash h
  unfolding hash
  hash-IsSumHash cost salt p h e = (cost, salt, p, ground arith)

-- Each statement that a service runs on the tables, and XADD, keep `I`.
pub record Stable (B : Broker) (K : Crypto) (I : Db → B.State → Type 0) : Type 0 where
  pub by_staging :
      (u : User) (d : Db) (r : B.State) → IsHash K u.password → I d r → I (insert_staging u d).1 r
  pub by_verification :
      (request email : String) (d : Db) (r : B.State)
      → I d r
      → I (insert_verification request email d).1 r
  pub by_promotion : (email : String) (d : Db) (r : B.State) → I d r → I (promote email d).1 r
  pub by_preferences :
      (id : ℕ) (ps : List String) (d : Db) (r : B.State)
      → I d r
      → I (insert_preferences id ps d).1 r
  pub by_unstaging : (email : String) (d : Db) (r : B.State) → I d r → I (unstage email d).1 r
  pub by_deletion : (id : ℕ) (d : Db) (r : B.State) → I d r → I (delete_user_row id d).1 r
  pub by_token :
      (now id : ℕ) (h : String) (d : Db) (r : B.State)
      → IsSumHash K h
      → I d r
      → I (insert_token now id h (now + seven_days) d).1 r
  pub by_revocation : (id at : ℕ) (d : Db) (r : B.State) → I d r → I (revoke_latest id at d).1 r
  pub by_story : (s : Story) (d : Db) (r : B.State) → I d r → I (insert_story s d).1 r
  pub by_story_job :
      (id : ℕ) (status : Status) (d : Db) (r : B.State)
      → I d r
      → I (insert_story_job id status d).1 r
  pub by_add : (k v : String) (d : Db) (r : B.State) → I d r → I d (B.xadd k v r).1
