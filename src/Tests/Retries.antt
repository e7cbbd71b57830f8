-- ===== src/Tests/Retries.antt =====
-- The theorems on the names of the retry queues, applied to concrete inputs.
use notification_server.Base.{◌≡◌, refl, ℕ, ◌/◌, [], ◌∷◌, arith}
use notification_server.Domain.Action.{ok}
use notification_server.Store.World.{World, online, call}
use notification_server.App.{Config}
use notification_server.App.Retries.{
  stories, emails, schedulers, story_scheduler, misnamed_retry_stays, named_retry_taken,
}
use notification_server.Queue.Backoff.{calculate_backoff_delay, exp_delay}
use notification_server.Queue.Due.{IsMoved}
use notification_server.Queue.Scheduler.{tick}
use notification_server.Queue.Task.{schedule_retry}
use notification_server.Queue.Task.Laws.{Scheduled}
use notification_server.Tests.Journeys.{by_test, sample}
use notification_server.Tests.Memory.{Memory, memory}
use notification_server.Tests.Samples.{codec, waiting, job_with}
use notification_server.Tests.System.{settings}

abbrev fair : ℕ → ℕ
fair n = n / 2

-- The retry queue of the stories has a name of its own.
abbrev misnamed : Config
misnamed = record settings { story_retry_stream = "story_retries" }

-- The job with four retries, scheduled at the time 0 for fair of its bound.
abbrev scheduled : World Memory (Unit {0})
scheduled = (schedule_retry memory codec fair 0 (job_with 4) "stories" (waiting [])).1

retry_scheduled : (schedule_retry memory codec fair 0 (job_with 4) "stories" (waiting [])).0 ≡ ok tt
unfolding schedule_retry calculate_backoff_delay exp_delay call
retry_scheduled = refl

misnamed_retry_stays_example :
    Scheduled memory "retry_stories" "second"
      (schedulers memory codec misnamed
        (stories 9_000_000_000 ∷ emails 11_000_000_000 ∷ stories 99_000_000_000 ∷ [])
        scheduled).broker
misnamed_retry_stays_example =
    misnamed_retry_stays memory codec misnamed fair 0 (job_with 4) "second"
      (stories 9_000_000_000 ∷ emails 11_000_000_000 ∷ stories 99_000_000_000 ∷ []) (waiting [])
      refl (by_test "story_retries" "retry_stories" refl)
      (by_test "retry_emails" "retry_stories" refl) retry_scheduled

named_retry_taken_example :
    IsMoved memory "retry_stories" "stories" "second"
      (story_scheduler memory codec settings (tick 99_000_000_000 ∷ []) (online scheduled)).1.broker
unfolding schedule_retry calculate_backoff_delay exp_delay call
named_retry_taken_example =
    named_retry_taken memory codec settings fair 0 99_000_000_000 16 (job_with 4) "second"
      (waiting []) refl refl retry_scheduled refl (omega arith) (omega arith)
      ((sample 4, "second", refl, refl), tt)
