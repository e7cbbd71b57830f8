-- ===== src/Tests/Samples.antt =====
-- A codec, a token library and a hasher that keep the laws of their interfaces, and sample data.
use notification_server.Base.{
  ℕ, String, ◌≡◌, refl, Bool, true, ◌&&◌, Option, none, some, List, [], ◌==◌, nat_eq, string_eq,
  if◌then◌else◌, arith, eq_iff, nat_beq_iff, inl, inr, Bool-cases,
}
use notification_server.Domain.Entities.{Job, JobMessage}
use notification_server.Store.Tables.{empty_db}
use notification_server.Store.World.{World, Outcome}
use notification_server.Queue.Codec.{Payload, Codec, payload_of}
use notification_server.Jobs.Completion.{StoryStreams, EmailStreams}
use notification_server.Tests.Memory.{Memory, memory, empty_memory}

-- A job of the story 9 with that many retries.
abbrev pub job_with : ℕ → Job
job_with n = record {
  job_id = 4;
  user_id = 7;
  story_id = 9;
  user_email = "ann@x.org";
  user_preferences = "sea-cats";
  retry_counts = n;
  request_id = "r1";
}

abbrev pub same : Payload → Payload → Bool
same p q =
    p.job_id == q.job_id
    && (p.user_id == q.user_id
        && (p.story_id == q.story_id
            && (p.user_email == q.user_email
                && (p.user_preferences == q.user_preferences
                    && (p.retry_counts == q.retry_counts && p.request_id == q.request_id)))))

payload_ext :
    (p q : Payload)
    → p.job_id ≡ q.job_id
    → p.user_id ≡ q.user_id
    → p.story_id ≡ q.story_id
    → p.user_email ≡ q.user_email
    → p.user_preferences ≡ q.user_preferences
    → p.retry_counts ≡ q.retry_counts
    → p.request_id ≡ q.request_id
    → p ≡ q
payload_ext p q a b c d e f g = λ i. record {
  job_id = a i;
  user_id = b i;
  story_id = c i;
  user_email = d i;
  user_preferences = e i;
  retry_counts = f i;
  request_id = g i;
}

pub same-≡ : (p q : Payload) → same p q ≡ true → p ≡ q
same-≡ p q h =
    payload_ext p q (ground (arith, nat_beq_iff p.job_id q.job_id)) (ground arith) (ground arith)
      (ground (arith, eq_iff p.user_email q.user_email))
      (ground (arith, eq_iff p.user_preferences q.user_preferences)) (ground arith)
      (ground (arith, eq_iff p.request_id q.request_id))

module _ (first second : Payload) where
  -- A codec that knows two payloads.
  abbrev pub written : Payload → Option String
  written p = if same p first then some "first" else if same p second then some "second" else none

  abbrev pub parsed : String → Option Payload
  parsed v = if v == "first" then some first else if v == "second" then some second else none

  payload_read :
      (p q : Payload) (w v : String)
      → parsed w ≡ some q
      → same p q ≡ true
      → some w ≡ some v
      → parsed v ≡ some p
  payload_read p q w v r e h = cc (r, h, same-≡ p q e)

  pub parsed-written : (p : Payload) (v : String) → written p ≡ some v → parsed v ≡ some p
  parsed-written p v h = elim (Bool-cases (same p first)) [
    | inl e ↦ payload_read p first "first" v refl e (ground arith)
    | inr e ↦ elim (Bool-cases (same p second)) [
      | inl f ↦ payload_read p second "second" v refl f (ground arith)
      | inr f ↦ absurd (ground arith)
    ]
  ]

  abbrev pub codec_for : Codec
  codec_for = record { marshal = written; unmarshal = parsed; unmarshal-marshal = parsed-written }

-- For the sample job with three retries and with four, and with none.
abbrev pub codec : Codec
codec = codec_for (payload_of (job_with 3)) (payload_of (job_with 4))

abbrev pub new_codec : Codec
new_codec = codec_for (payload_of (job_with 0)) (payload_of (job_with 1))

abbrev pub story_streams : StoryStreams
story_streams = record {
  group = "workers";
  story_stream = "stories";
  notification_stream = "emails";
  dead_letter_queue_stream = "story_dlq";
}

abbrev pub email_streams : EmailStreams
email_streams = record {
  group = "mailers";
  email_stream = "emails";
  dead_letter_queue_stream = "email_dlq";
}

abbrev pub message_with : ℕ → JobMessage
message_with n = record { message_id = 1; payload = job_with n }

-- The sample job with three retries stands in that stream under the id 1.
abbrev pub queued_in : String → List Outcome → World Memory (Unit {0})
queued_in k faults = record {
  db = empty_db;
  broker = (memory.xadd k "first" empty_memory).1;
  otps = tt;
  mails = [];
  buckets = [];
  link = faults;
}

-- The sample job with four retries waits for its retry at second 5.
abbrev pub waiting : List Outcome → World Memory (Unit {0})
waiting faults = record {
  db = empty_db;
  broker = memory.zadd "retry_stories" 5 "second" empty_memory;
  otps = tt;
  mails = [];
  buckets = [];
  link = faults;
}
