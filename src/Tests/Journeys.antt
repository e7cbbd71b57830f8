-- ===== src/Tests/Journeys.antt =====
-- The theorems on the way of a job, applied to concrete inputs.
use notification_server.Base.{
  eq_iff, ◌==◌, string_eq, zero, ℕ, suc, String, ◌≡◌, ◌≢◌, false, refl, Option, none, some, List,
  [], ◌∷◌, inl, inr, ap, nat_beq_iff, Bool-cases, if◌then◌else◌, arith, nat_eq, string_eq,
}
use notification_server.Store.Tables.{empty_db}
use notification_server.Store.World.{World, Outcome, answered, dropped, lost}
use notification_server.Queue.Codec.{Payload, Codec, payload_of}
use notification_server.Jobs.Pool.{aged, Event, work, tick, arrival, steps}
use notification_server.Jobs.Handlers.{story_handler}
use notification_server.Queue.Due.{due-IsMoved, IsMoved}
use notification_server.Queue.Task.{re_enqueue}
use notification_server.Store.World.{online}
use notification_server.Jobs.Stuck.{IsPending, Read, story_stays-IsPending}
use notification_server.Tests.Memory.{Memory, memory, empty_memory}
use notification_server.Tests.Samples.{codec, waiting, job_with, same, same-≡, story_streams}
use notification_server.Tests.Runs.{half}

-- The sample job with any number of retries is written as that many strokes.
unfoldable pub strokes : ℕ → String
strokes zero = String.[]
strokes (suc n) = String.◌∷◌ "|" (strokes n)

pub tally : String → ℕ
tally String.[] = 0
tally (String.◌∷◌ c s) = suc (tally s)

tally-strokes : (n : ℕ) → tally (strokes n) ≡ n
unfolding tally strokes
tally-strokes zero = refl
tally-strokes (suc n) = ap suc (tally-strokes n)

abbrev pub sample : ℕ → Payload
sample n = payload_of (job_with n)

pub marshal_strokes : Payload → Option String
marshal_strokes p = if same p (sample p.retry_counts) then some (strokes p.retry_counts) else none

strokes_of :
    (p : Payload) (v : String)
    → p ≡ sample p.retry_counts
    → some (strokes p.retry_counts) ≡ some v
    → some (sample (tally v)) ≡ some p
strokes_of p v e h = cc (e, h, tally-strokes p.retry_counts)

pub strokes_read :
    (p : Payload) (v : String) → marshal_strokes p ≡ some v → some (sample (tally v)) ≡ some p
unfolding marshal_strokes
strokes_read p v h = elim (Bool-cases (same p (sample p.retry_counts))) [
  | inl e ↦ strokes_of p v (same-≡ p (sample p.retry_counts) e) (ground arith)
  | inr e ↦ absurd (ground arith)
]

abbrev pub codec_of_strokes : Codec
codec_of_strokes = record {
  marshal = marshal_strokes;
  unmarshal = λ v. some (sample (tally v));
  unmarshal-marshal = strokes_read;
}

pub strokes_encode : (n : ℕ) → marshal_strokes (payload_of (aged (job_with 0) n)) ≡ some (strokes n)
unfolding marshal_strokes
strokes_encode n = ground (arith, nat_beq_iff n n)

-- The job with no retry yet stands in that stream under the id 1.
abbrev fresh_in : String → List Outcome → World Memory (Unit {0})
fresh_in k faults = record {
  db = empty_db;
  broker = (memory.xadd k (strokes 0) empty_memory).1;
  otps = tt;
  mails = [];
  buckets = [];
  link = faults;
}

-- Two workers, the scheduler between them, and another copy of the job.
abbrev day : List Event
day = work 1 3 half 0 ∷ tick 9_000_000_000 ∷ arrival (job_with 0) ∷ work 2 3 half 9_000_000_000 ∷ []

abbrev faulty : List Outcome
faulty = answered ∷ dropped ∷ answered ∷ lost ∷ []

due-IsMoved_example :
    IsMoved memory "retry_stories" "stories" "second"
      (re_enqueue memory codec 9_000_000_000 "retry_stories" "stories"
        (online (waiting []))).1.broker
due-IsMoved_example =
    due-IsMoved memory codec "retry_stories" "stories" "second" 9_000_000_000 5 (sample 4)
      (waiting []) refl refl (omega arith) (omega arith) ((sample 4, "second", refl, refl), tt)

pub by_test : (a b : String) → (a == b) ≡ false → a ≢ b
by_test a b h e = cc (h, (eq_iff a b).1 e)

-- The first message was handed to a worker, which never came back.
abbrev handed_out : World Memory (Unit {0})
handed_out = record (fresh_in "stories" faulty) {
  broker = (memory.xreadgroup "stories" "workers" 3 (fresh_in "stories" []).broker).1;
}

story_stays-IsPending_example :
    IsPending memory "workers" "stories" 1
      (steps memory codec_of_strokes "stories"
        (λ rand now. story_handler memory codec_of_strokes (λ m. "a story") rand now story_streams)
        day
        handed_out).broker
    × (¬ Read memory codec_of_strokes "stories"
        (λ rand now. story_handler memory codec_of_strokes (λ m. "a story") rand now story_streams)
        1
        day
        handed_out)
story_stays-IsPending_example =
    story_stays-IsPending memory codec_of_strokes (λ m. "a story") story_streams 1 day handed_out
      refl
