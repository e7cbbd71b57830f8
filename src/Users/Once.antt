-- ===== src/Users/Once.antt =====
-- How often a user can ask for a story: `ScheduleStoryGeneration` and the key of the table stories.
use notification_server.Base.{
  ℕ, String, ◌≡◌, ◌≢◌, refl, sym, ◌∙◌, some, arith, ◌==◌, nat_eq, string_eq, ◌&&◌, true,
  nat_beq_iff, eq_iff,
}
use mathlib.Core.Path.{subst}
use notification_server.Domain.Entities.{Story, Job, Preferences}
use notification_server.Domain.Errors.{Message}
use notification_server.Domain.Action.{ok}
use notification_server.Store.Broker.{Broker}
use notification_server.Store.Tables.{PreferencesRow, StoryRow, Db, Status, row, select, scan}
use notification_server.Store.World.{World}
use notification_server.Store.Rows.{scanned}
use notification_server.Store.DbTriple.{
  DbTriple, Db-query, Db-lift, Db-bind, Db-return, Db-unreached, Db-refused, Db-conseq,
  Db-elsewhere, Db-ok,
}
use notification_server.Queue.Codec.{Codec}
use notification_server.Queue.Task.{add}
use notification_server.Repository.Users.{get_user_by_id, get_user_preferences_by_id}
use notification_server.Repository.Stories.{
  exists, save_story_info, save_story_job, insert_story, insert_story_job,
}
use notification_server.Users.Scheduling.{schedule_story_generation, file_name, joined}

-- The preferences that the service reads for the user.
abbrev Prefers : ℕ → PreferencesRow → Db → Type 0
Prefers id p d = select (λ (p : PreferencesRow). p.user_id == id) d.users_preferences.rows ≡ some p

-- A story row with the file name that those preferences give.
abbrev pub HasStory : ℕ → Db → Type 0
HasStory id d =
    (p : PreferencesRow) × Prefers id p d
    × (exists (λ (r : StoryRow). r.user_id == id && r.file_name == file_name (joined p.preferences))
          d.stories.rows
        ≡ true)

-- A story that was inserted is there, with its key.
insert_story_found :
    (s : Story) (d : Db) (a : ℕ)
    → (insert_story s d).0 ≡ row a
    → ((insert_story s d).1.users_preferences ≡ d.users_preferences)
      × (exists
            (λ (r : StoryRow). r.user_id == s.user_id && r.file_name == s.file_name)
            (insert_story s d).1.stories.rows
          ≡ true)
unfolding insert_story select
insert_story_found s d a h =
    ground (arith, eq_iff s.file_name s.file_name, nat_beq_iff s.user_id s.user_id)

insert_story_job_keeps :
    (story_id : ℕ) (status : Status) (d : Db)
    → ((insert_story_job story_id status d).1.users_preferences ≡ d.users_preferences)
      × ((insert_story_job story_id status d).1.stories ≡ d.stories)
unfolding insert_story_job
insert_story_job_keeps story_id status d = ground arith

insert_story_refused :
    (s : Story) (d : Db) (a : ℕ)
    → exists (λ (r : StoryRow). r.user_id == s.user_id && r.file_name == s.file_name) d.stories.rows
      ≡ true
    → (insert_story s d).0 ≢ row a
unfolding insert_story
insert_story_refused s d a h e = ground arith

module _ (id : ℕ) where
  abbrev story : Preferences → Story
  story q = record { file_name = file_name (joined q.user_preferences); user_id = id; story = "" }

  kept :
      (q : Preferences) (d : Db) (a : ℕ)
      → (p : PreferencesRow) × Prefers id p d × (q.user_preferences ≡ p.preferences)
      → (insert_story (story q) d).0 ≡ row a
      → HasStory id (insert_story (story q) d).1
  kept q d a (p, prefers, e) f =
      let (same, there) = insert_story_found (story q) d a f in
      (
        p,
        rw same prefers,
        subst
            (λ ws.
              exists (λ (r : StoryRow). r.user_id == id && r.file_name == file_name (joined ws))
                (insert_story (story q) d).1.stories.rows
              ≡ true)
            e there,
      )

  preferred :
      (d : Db) (p : PreferencesRow)
      → HasStory id d
      → scan (select (λ (p : PreferencesRow). p.user_id == id) d.users_preferences.rows) ≡ row p
      → exists
          (λ (r : StoryRow). r.user_id == id && r.file_name == file_name (joined p.preferences))
          d.stories.rows
        ≡ true
  preferred d p (q, prefers, there) f =
      let e : some q ≡ some p = sym prefers ∙ scanned _ p f in
      let same : q ≡ p = cc in
      subst
        (λ (x : PreferencesRow).
          exists
            (λ (r : StoryRow). r.user_id == id && r.file_name == file_name (joined x.preferences))
            d.stories.rows
          ≡ true)
        same there

module _ (B : Broker) (C : Codec) {H : Type 0} (req_id stream : String) (id : ℕ) where
  add-Db :
      (P : Db → Type 0) (job : Job)
      → DbTriple {R = B.State} {H = H} P (add B C job stream) (λ _. P) P
  unfolding add
  add-Db P job =
      Db-bind {Q = λ _. P}
        (Db-conseq (λ d h. h) (λ v d h. h.0) (λ d h. h) (Db-lift {P = P} _ (λ d h. h)))
        λ v. Db-bind {Q = λ _. P} (Db-elsewhere _ _ (λ w. refl)) λ i. Db-return _ (λ d h. h)

  scheduled_once :
      DbTriple {R = B.State} {H = H}
        (λ d. Unit {0})
        (schedule_story_generation B C req_id stream id)
        (λ m. HasStory id)
        (λ d. Unit {0})
  unfolding schedule_story_generation get_user_by_id get_user_preferences_by_id save_story_info
      save_story_job insert_story add
  scheduled_once =
      Db-bind {Q = λ u d. Unit}
        (Db-bind {Q = λ u d. Unit} (Db-query _ _ (λ d h a f. tt) (λ d h. tt) (λ d h. tt))
          λ u. Db-return _ (λ d h. tt))
        λ u.
          Db-bind
            {Q = λ u d.
              (p : PreferencesRow) × Prefers id p d × (u.user_preferences ≡ p.preferences)}
            (Db-bind {Q = λ p d. Prefers id p d}
              (Db-query _ _ (λ d h p f. scanned _ p f) (λ d h. tt) (λ d h. tt))
              λ p. Db-return _ (λ d h. (p, h, refl)))
            λ q.
              Db-bind {Q = λ i. HasStory id}
                (Db-query _ (insert_story (story id q)) (λ d h a f. kept id q d a h f) (λ d h. tt)
                  (λ d h. tt))
                λ i.
                  Db-bind {Q = λ j. HasStory id}
                    (Db-query _ _
                      (λ d h a f.
                        let (p, s) = insert_story_job_keeps i Status.pending d in rw (p, s) h)
                      (λ d h. tt) (λ d h. tt))
                    λ j.
                      Db-bind {Q = λ _. HasStory id}
                        (Db-conseq {Q = λ _. HasStory id} (λ d h. h) (λ _ d h. h) (λ d h. tt)
                          (add-Db (HasStory id) _))
                        λ _. Db-return _ (λ d h. h)

  scheduled_never :
      DbTriple {R = B.State} {H = H}
        (HasStory id)
        (schedule_story_generation B C req_id stream id)
        (λ m d. ⊥)
        (λ d. Unit {0})
  unfolding schedule_story_generation get_user_by_id get_user_preferences_by_id save_story_info
      save_story_job insert_story add
  scheduled_never =
      Db-bind {Q = λ u. HasStory id}
        (Db-bind {Q = λ u. HasStory id} (Db-query _ _ (λ d h a f. h) (λ d h. tt) (λ d h. tt))
          λ u. Db-return _ (λ d h. h))
        λ u.
          Db-bind
            {Q = λ q d.
              exists
                (λ (r : StoryRow).
                  r.user_id == id && r.file_name == file_name (joined q.user_preferences))
                d.stories.rows
              ≡ true}
            (Db-bind
              {Q = λ p d.
                exists
                  (λ (r : StoryRow).
                    r.user_id == id && r.file_name == file_name (joined p.preferences))
                  d.stories.rows
                ≡ true}
              (Db-query _ _ (λ d h p f. preferred id d p h f) (λ d h. tt) (λ d h. tt))
              λ p. Db-return _ (λ d h. h))
            λ q.
              Db-bind {Q = λ i d. ⊥}
                (Db-query _ (insert_story (story id q))
                  (λ d h a f. insert_story_refused (story id q) d a h f) (λ d h. tt) (λ d h. tt))
                λ i. Db-unreached (λ d h. h)

-- Every story row of `d` has a row of its user and file name in `e`.
abbrev pub KeepsStories : Db → Db → Type 0
KeepsStories d e =
    (id : ℕ) (f : String)
    → exists (λ (r : StoryRow). r.user_id == id && r.file_name == f) d.stories.rows ≡ true
    → exists (λ (r : StoryRow). r.user_id == id && r.file_name == f) e.stories.rows ≡ true

-- The user's row of preferences reads the same.
abbrev pub KeepsPreferences : ℕ → Db → Db → Type 0
KeepsPreferences id d e =
    select (λ (p : PreferencesRow). p.user_id == id) e.users_preferences.rows
    ≡ select (λ (p : PreferencesRow). p.user_id == id) d.users_preferences.rows

module _ (B : Broker) (C : Codec) {H : Type 0} (id : ℕ) where
  -- A user's preferences give one file name, and a file name can be used once: after a story was
  -- scheduled, no later call for the same user succeeds, under any request id, for any stream and
  -- whatever the network does, in any state of the tables where the user's row of preferences reads
  -- as it did and no row of the stories was removed or given another user or file name. The text of
  -- a story may be written in between, and all other tables may change.
  pub second_story_refused :
      (first second stream stream' : String) (w x : World B.State H) (m m' : Message)
      → let y = schedule_story_generation B C first stream id w in
        y.0 ≡ ok m
        → KeepsPreferences id y.1.db x.db
        → KeepsStories y.1.db x.db
        → (schedule_story_generation B C second stream' id x).0 ≢ ok m'
  second_story_refused first second stream stream' w x m m' done prefers keeps =
      let (p, is, there) = Db-ok (scheduled_once B C first stream id) w m tt done in
      Db-refused (scheduled_never B C second stream' id) x m'
        (p, prefers ∙ is, keeps id (file_name (joined p.preferences)) there)
