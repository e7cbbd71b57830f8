-- ===== src/Queue/Codec.antt =====
-- The `Payload` of redis_job_queue.go, and `encoding/json` on it, which is a parameter: what is
-- marshalled is read back.
use notification_server.Base.{ℕ, String, ◌≡◌, Option, some}
use notification_server.Domain.Entities.{Job}

pub record Payload : Type 0 where
  pub job_id : ℕ
  pub user_id : ℕ
  pub story_id : ℕ
  pub user_email : String
  pub user_preferences : String
  pub retry_counts : ℕ
  pub request_id : String

abbrev pub payload_of : Job → Payload
payload_of job = record {
  job_id = job.job_id;
  user_id = job.user_id;
  story_id = job.story_id;
  user_email = job.user_email;
  user_preferences = job.user_preferences;
  retry_counts = job.retry_counts;
  request_id = job.request_id;
}

abbrev pub job_of : Payload → Job
job_of p = record {
  job_id = p.job_id;
  user_id = p.user_id;
  story_id = p.story_id;
  user_email = p.user_email;
  user_preferences = p.user_preferences;
  retry_counts = p.retry_counts;
  request_id = p.request_id;
}

-- `none` is an error of the codec.
pub record Codec : Type 0 where
  pub marshal : Payload → Option String
  pub unmarshal : String → Option Payload
  pub unmarshal-marshal : (p : Payload) (v : String) → marshal p ≡ some v → unmarshal v ≡ some p
