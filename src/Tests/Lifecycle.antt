-- ===== src/Tests/Lifecycle.antt =====
-- The theorem on the life of the process, applied to a concrete input.
use notification_server.Base.{◌≡◌, true, false}
use notification_server.App.Lifecycle.{Outside, run, crashed, IsEnded, run-IsEnded}

-- The consumer group of the emails cannot be made, when the pool of the stories runs already.
abbrev groupless : Outside
groupless = record {
  log_file = true;
  database = true;
  redis = true;
  model = true;
  story_group = true;
  email_group = false;
  worker_counts = 2;
  listens = true;
}

run-IsEnded_example :
    IsEnded (run groupless) × ((run groupless).0 ≡ crashed → groupless.listens ≡ false)
run-IsEnded_example = run-IsEnded groupless
