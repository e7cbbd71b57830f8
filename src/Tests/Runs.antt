-- ===== src/Tests/Runs.antt =====
-- The theorems on jobs, errors and tokens, applied to concrete inputs.
use notification_server.Base.{
  ℕ, ◌≤◌, ◌<◌, ◌≡◌, ◌≢◌, refl, inl, none, some, [], ◌∷◌, arith, ◌*◌, ◌^◌, ◌/◌, ◌+◌, All,
}
use notification_server.Domain.Errors.{Error, new_domain_error, Code, text}
use notification_server.Domain.Entities.{IdentityToken}
use notification_server.Domain.Action.{Result, ok, err, panic}
use notification_server.Store.Tables.{StoryJobRow, Status}
use notification_server.Store.World.{call, answered, dropped}
use notification_server.Queue.Backoff.{
  backoff_bounded, backoff_panics, calculate_backoff_delay, max_delay, base_delay, exp_delay,
}
use notification_server.Queue.Task.Laws.{Stored, Scheduled}
use notification_server.Queue.Worker.{process}
use notification_server.Jobs.Completion.{story_on_success}
use notification_server.Jobs.Executer.{execute_story, generate_story}
use notification_server.Jobs.Handlers.{story_handler}
use notification_server.Jobs.Exhausted.{exhausted_retried_too, overdue_never_buried}
use notification_server.Store.World.{online}
use notification_server.Jobs.Success.{notification_lost, story_success}
use notification_server.Security.Jwt.{
  created_tokens, verify_jwt_token, verify_refresh_token, create_jwt_token,
}
use notification_server.Tests.Memory.{memory}
use notification_server.Tests.Samples.{codec, job_with, story_streams, message_with, queued_in}
use notification_server.Tests.Tokens.{jwt, auth, login}

-- Half of the bound, a source of randomness that is fair enough.
pub half : ℕ → ℕ
half n = n / 2

half-IsUniform : (n : ℕ) → 0 < n → half n < n
unfolding half
half-IsUniform n h = omega arith

backoff_bounded_example :
    (d : ℕ) × (calculate_backoff_delay half 6 ≡ ok d) × (d ≤ max_delay) × (d ≤ base_delay * 2 ^ 6)
backoff_bounded_example = backoff_bounded half 6 half-IsUniform (omega arith)

backoff_panics_example : calculate_backoff_delay half 33 ≡ panic "invalid argument to Int63n"
backoff_panics_example = backoff_panics half 33 (inl (omega arith, omega arith))

streams_apart : story_streams.story_stream ≢ story_streams.dead_letter_queue_stream
streams_apart h = cc

model_silent : execute_story (λ m. "a story") (job_with 3) (queued_in "stories" (dropped ∷ [])) ≡ (
  err (
      new_domain_error Code.external
        (text "failed to generate story from ai model")
        (some "genai")),
  online (queued_in "stories" []),
)
unfolding execute_story generate_story call
model_silent = refl

pub backoff_four : calculate_backoff_delay half 4 ≡ ok 16_000_000_000
unfolding calculate_backoff_delay exp_delay half
backoff_four = refl

exhausted_retried_too_example :
    let r =
      (process
        (story_handler memory codec (λ m. "a story") half 0 story_streams)
        3
        (message_with 3)
        (queued_in "stories" (dropped ∷ []))).1.broker in
    Stored memory "story_dlq" "first" r × Scheduled memory "retry_stories" "second" r
exhausted_retried_too_example =
    exhausted_retried_too memory codec (λ m. "a story") half 0 story_streams streams_apart
      (message_with 3) 16_000_000_000 "first" "second" refl refl backoff_four
      (new_domain_error Code.external (text "failed to generate story from ai model")
        (some "genai"))
      (queued_in "stories" (dropped ∷ [])) (queued_in "stories" []) model_silent

overdue_never_buried_example :
    let r =
      (process
        (story_handler memory codec (λ m. "a story") half 0 story_streams)
        2
        (message_with 3)
        (queued_in "stories" (dropped ∷ []))).1.broker in
    Scheduled memory "retry_stories" "second" r
    × ((j : ℕ)
        → memory.entry r "story_dlq" j ≡ memory.entry (queued_in "stories" []).broker "story_dlq" j)
overdue_never_buried_example =
    overdue_never_buried memory codec (λ m. "a story") half 0 story_streams streams_apart
      (message_with 3) 16_000_000_000 "first" "second" refl refl backoff_four
      (new_domain_error Code.external (text "failed to generate story from ai model")
        (some "genai"))
      (queued_in "stories" (dropped ∷ [])) (queued_in "stories" []) model_silent 2 (omega arith)

stories_emails_apart : story_streams.story_stream ≢ story_streams.notification_stream
stories_emails_apart h = cc

notification_lost_example :
    let w = queued_in "stories" (answered ∷ answered ∷ dropped ∷ []) in
    let (r, w') = story_on_success memory codec story_streams (job_with 3) 1 w in
    ((e : Error) × (r ≡ err e))
    × (memory.entry w'.broker "stories" 1 ≡ none)
    × ((j : ℕ) → memory.entry w'.broker "emails" j ≡ memory.entry w.broker "emails" j)
    × (w'.db ≡ w.db)
notification_lost_example =
    notification_lost memory codec story_streams (job_with 3) 1 "first"
      (queued_in "stories" (answered ∷ answered ∷ dropped ∷ [])) [] refl stories_emails_apart refl

story_success_example :
    let w' =
      (story_on_success memory codec story_streams
        (job_with 3)
        1
        (online (queued_in "stories" []))).1 in
    (memory.entry w'.broker "stories" 1 ≡ none)
    × Stored memory "emails" "first" w'.broker
    × All (λ (j : StoryJobRow). j.story_id ≡ 9 → j.status ≡ Status.completed) w'.db.story_jobs.rows
story_success_example =
    story_success memory codec story_streams (job_with 3) 1 "first" (queued_in "stories" []) refl
      stories_emails_apart

created_tokens_example :
    let who : Result IdentityToken = ok (record { user_id = 7; email = "ann@x.org" }) in
    (verify_jwt_token jwt (login + 3599) "access" "a-key" ≡ who)
    × (verify_refresh_token jwt (login + 604799) "refresh" "r-key" ≡ who)
unfolding create_jwt_token
created_tokens_example =
    created_tokens jwt auth login (login + 3599) (login + 604799) 7 "ann@x.org"
      (record { access_token = "access"; refresh_token = "refresh" }) refl (omega arith)
      (omega arith)
