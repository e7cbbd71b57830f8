-- ===== src/Jobs/Completion.antt =====
-- internal/usecase/job_completion.go: what follows a job that was executed. `ctx` carries no
-- deadline here, and logging is left out.
use notification_server.Base.{ℕ, String, ◌+◌}
use notification_server.Domain.Entities.{Job}
use notification_server.Domain.Action.{Action, ◌>>◌}
use notification_server.Store.Broker.{Broker}
use notification_server.Store.Tables.{Status}
use notification_server.Store.World.{World}
use notification_server.Repository.Stories.{update_story_job, update_email_job}
use notification_server.Queue.Codec.{Codec}
use notification_server.Queue.Task.{add, ack, delete, schedule_retry}

-- The fields of `StoryGenerationJobCompletion`, with the group of its `Task`.
pub record StoryStreams : Type 0 where
  pub group : String
  pub story_stream : String
  pub notification_stream : String
  pub dead_letter_queue_stream : String

pub record EmailStreams : Type 0 where
  pub group : String
  pub email_stream : String
  pub dead_letter_queue_stream : String

-- `job.RetryCounts++`
abbrev pub retried : Job → Job
retried job = record job { retry_counts = job.retry_counts + 1 }

module _ (B : Broker) (C : Codec) {H : Type 0} where
  unfoldable pub story_on_success : StoryStreams → Job → ℕ → Action (World B.State H) (Unit {0})
  story_on_success s job message_id = do
    ack B C s.group message_id s.story_stream
    delete B C message_id s.story_stream
    add B C job s.notification_stream
    update_story_job job.story_id Status.completed

  unfoldable pub email_on_success : EmailStreams → Job → ℕ → Action (World B.State H) (Unit {0})
  email_on_success e job message_id = do
    ack B C e.group message_id e.email_stream
    delete B C message_id e.email_stream
    update_email_job job.story_id job.user_id Status.completed

  module _ (rand : ℕ → ℕ) (now : ℕ) where
    unfoldable pub story_on_failure : StoryStreams → Job → ℕ → Action (World B.State H) (Unit {0})
    story_on_failure s job message_id = do
      schedule_retry B C rand now (retried job) s.story_stream
      ack B C s.group message_id s.story_stream
      delete B C message_id s.story_stream
      update_story_job job.story_id Status.processing

    unfoldable pub email_on_failure : EmailStreams → Job → ℕ → Action (World B.State H) (Unit {0})
    email_on_failure e job message_id = do
      schedule_retry B C rand now (retried job) e.email_stream
      ack B C e.group message_id e.email_stream
      delete B C message_id e.email_stream
      update_email_job job.story_id job.user_id Status.processing

  unfoldable pub story_send_to_dql : StoryStreams → Job → ℕ → Action (World B.State H) (Unit {0})
  story_send_to_dql s job message_id = do
    add B C job s.dead_letter_queue_stream
    ack B C s.group message_id s.story_stream
    delete B C message_id s.story_stream
    update_story_job job.story_id Status.failed

  unfoldable pub email_send_to_dql : EmailStreams → Job → ℕ → Action (World B.State H) (Unit {0})
  email_send_to_dql e job message_id = do
    add B C job e.dead_letter_queue_stream
    ack B C e.group message_id e.email_stream
    delete B C message_id e.email_stream
    update_email_job job.story_id job.user_id Status.failed
