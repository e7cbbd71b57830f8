-- ===== src/Tests/Statuses.antt =====
-- The theorem on the status of a job that was given up, applied to a concrete input.
use notification_server.Base.{◌≡◌, refl, some, List, [], ◌∷◌}
use notification_server.Domain.Errors.{new_domain_error, Code, text}
use notification_server.Domain.Action.{err}
use notification_server.Store.Tables.{Status, empty_db}
use notification_server.Store.World.{World, Outcome, dropped, online, call}
use notification_server.Queue.Worker.{process}
use notification_server.Jobs.Executer.{execute_story, generate_story}
use notification_server.Jobs.Handlers.{story_handler}
use notification_server.Jobs.Statuses.{AllHave, exhausted_reads_processing}
use notification_server.Tests.Memory.{Memory, memory}
use notification_server.Tests.Runs.{half, backoff_four}
use notification_server.Tests.Samples.{codec, job_with, story_streams, message_with, queued_in}

-- The job of the story 9 has its row.
abbrev listed : List Outcome → World Memory (Unit {0})
listed faults = record (queued_in "stories" faults) {
  db = record empty_db {
    story_jobs = record {
      rows = record { id = 4; story_id = 9; status = Status.processing } ∷ [];
      next = 5;
    };
  };
}

model_silent : execute_story (λ m. "a story") (job_with 3) (listed (dropped ∷ [])) ≡ (
  err (
      new_domain_error Code.external
        (text "failed to generate story from ai model")
        (some "genai")),
  online (listed []),
)
unfolding execute_story generate_story call
model_silent = refl

exhausted_reads_processing_example :
    AllHave 9 Status.processing
      (process
        (story_handler memory codec (λ m. "a story") half 0 story_streams)
        3
        (message_with 3)
        (listed (dropped ∷ []))).1.db
exhausted_reads_processing_example =
    exhausted_reads_processing memory codec half 0 story_streams (λ m. "a story") (message_with 3)
      16_000_000_000 "first" "second" refl refl backoff_four
      (new_domain_error Code.external (text "failed to generate story from ai model")
        (some "genai"))
      (listed (dropped ∷ [])) (listed []) model_silent
