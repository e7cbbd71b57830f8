-- ===== src/Domain/Entities.antt =====
-- internal/domain: user.go, story.go, jobs.go, auth.go. An `int` of these records is an id that a
-- database sequence gave out, or a count from 0 up: a number.
use notification_server.Base.{ℕ, String, Option, List}

pub record User : Type 0 where
  pub id : ℕ
  pub first_name : String
  pub last_name : String
  pub email : String
  pub password : String
  pub preferences : List String

pub record RegisteredUser : Type 0 where
  pub first_name : String
  pub last_name : String
  pub email : String
  pub password : String
  pub preferences : List String

pub record Preferences : Type 0 where
  pub id : ℕ
  pub user_id : ℕ
  pub user_preferences : List String

pub record LoginUser : Type 0 where
  pub email : String
  pub password : String

pub record Story : Type 0 where
  pub file_name : String
  pub user_id : ℕ
  pub story : String

pub record UploadStory : Type 0 where
  pub user_id : ℕ
  pub story : String

pub record Job : Type 0 where
  pub job_id : ℕ
  pub user_id : ℕ
  pub story_id : ℕ
  pub user_email : String
  pub user_preferences : String
  pub retry_counts : ℕ
  pub request_id : String

-- A stream entry as the worker sees it. Redis writes an entry's id as two numbers in order; here
-- it is one number.
pub record JobMessage : Type 0 where
  pub message_id : ℕ
  pub payload : Job

pub record TokenPair : Type 0 where
  pub access_token : String
  pub refresh_token : String

pub record IdentityToken : Type 0 where
  pub user_id : ℕ
  pub email : String

-- Times are numbers of seconds.
pub record RefreshToken : Type 0 where
  pub id : ℕ
  pub user_id : ℕ
  pub hashed_token : String
  pub expired_at : ℕ
  pub revoked_at : Option ℕ
  pub created_at : ℕ
