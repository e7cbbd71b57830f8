-- ===== src/System/Integrity.antt =====
-- The references between the tables, after any turns of the program.
use notification_server.Base.{◌+◌, String, List, string_eq, nat_eq}
use notification_server.Domain.Errors.{Message}
use notification_server.Store.Broker.{Broker}
use notification_server.Store.Hashes.{Hashes}
use notification_server.Store.Rows.{update_where_keeps_All}
use notification_server.Store.Tables.{StoryJobRow, EmailJobRow}
use notification_server.Store.World.{World}
use notification_server.Repository.Stories.{
  set_story_job, set_email_job, job_of_story, with_status, mail_of_story, with_mail_status,
}
use notification_server.Queue.Codec.{Codec}
use notification_server.Security.Hash.{Crypto}
use notification_server.Security.Jwt.{Jwt}
use notification_server.Users.Session.{seven_days}
use notification_server.Http.Routes.{Binders}
use notification_server.App.{Config}
use notification_server.System.Stable.{Stable}
use notification_server.System.Pools.{Steady}
use notification_server.System.Turns.{Turn, turns, turns_keep}
use notification_server.System.Links.{
  HasUser, HasStory, IsLinked, staging-IsLinked, verification-IsLinked, preferences-IsLinked,
  token-IsLinked, story-IsLinked, story_job-IsLinked, email_job-IsLinked, upload-IsLinked,
  revocation-IsLinked, promotion-IsLinked,
}
use notification_server.System.Removals.{unstage-IsLinked, deletion-IsLinked}

IsLinked-Stable : (B : Broker) (K : Crypto) → Stable B K (λ d _. IsLinked d)
IsLinked-Stable B K = record {
  by_staging = λ u d r _ h. staging-IsLinked u d h;
  by_verification = λ request email d r h. verification-IsLinked request email d h;
  by_promotion = λ email d r h. promotion-IsLinked email d h;
  by_preferences = λ id xs d r h. preferences-IsLinked id xs d h;
  by_unstaging = λ email d r h. unstage-IsLinked email d h;
  by_deletion = λ id d r h. deletion-IsLinked id d h;
  by_token = λ now id h d r _ l. token-IsLinked now id h (now + seven_days) d l;
  by_revocation = λ id at d r h. revocation-IsLinked id at d h;
  by_story = λ s d r h. story-IsLinked s d h;
  by_story_job = λ id status d r h. story_job-IsLinked id status d h;
  by_add = λ k v d r h. h;
}

IsLinked-Steady : Steady IsLinked
unfolding set_story_job set_email_job
IsLinked-Steady = record {
  by_upload = upload-IsLinked;
  by_email_job = email_job-IsLinked;
  by_story_status = λ story status d (ps, ss, js, es, ts, vs). (
    ps,
    ss,
    update_where_keeps_All (λ (j : StoryJobRow). HasStory d j.story_id) (job_of_story story)
        (with_status status) d.story_jobs.rows (λ x h. h) js,
    es,
    ts,
    vs,
  );
  by_email_status = λ story user status d (ps, ss, js, es, ts, vs). (
    ps,
    ss,
    js,
    update_where_keeps_All (λ (j : EmailJobRow). HasStory d j.story_id × HasUser d j.user_id)
        (mail_of_story story user) (with_mail_status status) d.email_jobs.rows (λ x h. h) es,
    ts,
    vs,
  );
}

module _ (B : Broker) (C : Codec) (S : Hashes) (K : Crypto) (J : Jwt) (binders : Binders)
    (model : Message → String) (cfg : Config) where
  -- If each row refers to rows that are there (preferences, stories and refresh tokens to their users,
  -- jobs to their stories and email jobs to their users, verifications to their staged users), then so
  -- it is after any requests on the routes, among them deletions of users, and any rounds of the
  -- workers and of the schedulers, in any order, whatever the network does to their commands.
  pub rows_stay-IsLinked :
      (ts : List Turn) (w : World B.State S.State)
      → IsLinked w.db
      → IsLinked (turns B C S K J binders model cfg ts w).db
  rows_stay-IsLinked =
      turns_keep B C S K J binders model cfg IsLinked (IsLinked-Stable B K) IsLinked-Steady
