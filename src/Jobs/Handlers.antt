-- ===== src/Jobs/Handlers.antt =====
-- The two handlers that internal/application/app.go hands to the worker pools: an executer, a
-- completion handler of job_completion.go and the stream they read.
use notification_server.Base.{ℕ, String}
use notification_server.Domain.Errors.{Message}
use notification_server.Store.Broker.{Broker}
use notification_server.Store.World.{World}
use notification_server.Queue.Codec.{Codec}
use notification_server.Queue.Task.{read}
use notification_server.Queue.Worker.{JobHandler}
use notification_server.Jobs.Executer.{execute_story, execute_email}
use notification_server.Jobs.Completion.{
  StoryStreams, EmailStreams, story_on_success, story_on_failure, story_send_to_dql,
  email_on_success, email_on_failure, email_send_to_dql,
}

module _ (B : Broker) (C : Codec) {H : Type 0} where
  unfoldable pub story_handler :
      (Message → String) → (ℕ → ℕ) → ℕ → StoryStreams → JobHandler (World B.State H)
  story_handler model rand now s = record {
    read = λ worker. read B C s.group worker s.story_stream;
    execute = execute_story model;
    on_success = story_on_success B C s;
    on_failure = story_on_failure B C rand now s;
    send_to_dql = story_send_to_dql B C s;
  }

  unfoldable pub email_handler : (ℕ → ℕ) → ℕ → EmailStreams → JobHandler (World B.State H)
  email_handler rand now e = record {
    read = λ worker. read B C e.group worker e.email_stream;
    execute = execute_email;
    on_success = email_on_success B C e;
    on_failure = email_on_failure B C rand now e;
    send_to_dql = email_send_to_dql B C e;
  }
