-- ===== src/App/Lifecycle.antt =====
-- `Run` of internal/application/app.go: what the process opens and starts, and what it ends in which
-- order, with the calls that are deferred. What the packages for files, Postgres, Redis, the language
-- model and HTTP answer is an argument; that a signal comes and that a started worker ends once its
-- pool is cancelled is taken for granted here; a worker that blocks in `Read` may not (Queue.Worker).
use notification_server.Base.{
  ℕ, ◌+◌, ◌≡◌, refl, Bool, true, false, Option, none, some, List, [], ◌∷◌, ◌++◌, if◌then◌else◌,
}
use notification_server.Domain.Errors.{Error, foreign}
use notification_server.Domain.Action.{Result, ok}
use notification_server.Queue.Worker.{started}

pub data Effect : Type 0 where
  opened_database closed_database opened_redis closed_redis : Effect
  started_stories started_emails started_story_scheduler started_email_scheduler : Effect
  listening signalled shut_down cancelled_shutdown cancelled_root : Effect
  cancelled_stories cancelled_emails waited_stories waited_emails : Effect

-- `crashed`: a goroutine panics, and the process ends without the deferred calls.
pub data End : Type 0 where
  finished paniced crashed : End

pub record Outside : Type 0 where
  pub log_file : Bool
  pub database : Bool
  pub redis : Bool
  pub model : Bool
  pub story_group : Bool
  pub email_group : Bool
  pub worker_counts : ℕ
  -- `ListenAndServe` keeps on until the server is shut down
  pub listens : Bool

abbrev pub first : Effect → End × List Effect → End × List Effect
first e (r, es) = (r, e ∷ es)

abbrev pub deferring : Effect → End × List Effect → End × List Effect
deferring e (crashed, es) = (crashed, es)
deferring e (r, es) = (r, es ++ (e ∷ []))

-- `if err != nil { panic(err) }`
abbrev pub or_panic : Bool → End × List Effect → End × List Effect
or_panic true r = r
or_panic false r = (paniced, [])

abbrev created : Bool → Option Error
created true = none
created false = some (foreign "redis")

abbrev has_started : Result (List ℕ) → Bool
has_started (ok workers) = true
has_started _ = false

-- Whether `Start` of a pool returns.
abbrev pub starts : Bool → ℕ → Bool
starts group worker_counts = has_started (started (created group) worker_counts)

-- The server runs in a goroutine of its own; on an error the log call there reads a nil error.
abbrev pub while_listening : Bool → End × List Effect → End × List Effect
while_listening true r = r
while_listening false r = (crashed, [])

-- From the signal on.
abbrev pub ending : End × List Effect
ending = first signalled (
    deferring cancelled_shutdown (
      first shut_down (
        first cancelled_stories
          (first cancelled_emails (first waited_stories (first waited_emails (finished, [])))))))

-- The whole of `Run`: the file of the log, the two connections, the client of the model, the starts of
-- the two pools, and the server.
abbrev pub phases : (log database redis model stories emails listens : Bool) → End × List Effect
phases log database redis model stories emails listens = deferring cancelled_root (
    or_panic log (
      or_panic database (
        first opened_database (
          deferring closed_database (
            or_panic redis (
              first opened_redis (
                deferring closed_redis (
                  or_panic model (
                    or_panic stories (
                      first started_stories (
                        or_panic emails (
                          first started_emails (
                            first started_story_scheduler (
                              first started_email_scheduler
                                (first listening (while_listening listens ending))))))))))))))))

unfoldable pub run : Outside → End × List Effect
run o =
    phases o.log_file o.database o.redis o.model (starts o.story_group o.worker_counts)
      (starts o.email_group o.worker_counts) o.listens

-- Which effects are of a kind, and how many of a run are.
abbrev opens : Effect → Bool
opens opened_database = true
opens opened_redis = true
opens _ = false

abbrev closes : Effect → Bool
closes closed_database = true
closes closed_redis = true
closes _ = false

abbrev stops_worker : Effect → Bool
stops_worker waited_stories = true
stops_worker waited_emails = true
stops_worker _ = false

abbrev stops_scheduler : Effect → Bool
stops_scheduler cancelled_root = true
stops_scheduler _ = false

abbrev pub count : (Effect → Bool) → List Effect → ℕ
count p [] = 0
count p (e ∷ es) = (if p e then 1 else 0) + count p es

-- Both pools are waited for before the connections are closed; the schedulers are only cancelled
-- after that. A panic closes what was opened; a crash closes nothing.
abbrev pub IsEnded : End × List Effect → Type 0
IsEnded (finished, es) =
    (before : List Effect) × (es ≡ before ++ (closed_redis ∷ closed_database ∷ cancelled_root ∷ []))
    × (count opens before ≡ 2)
    × (count stops_worker before ≡ 2)
    × (count stops_scheduler before ≡ 0)
IsEnded (paniced, es) = (count opens es ≡ count closes es) × (count stops_scheduler es ≡ 1)
IsEnded (crashed, es) = (count opens es ≡ 2) × (count closes es ≡ 0)

phases-IsEnded :
    (a b c d e f g : Bool)
    → IsEnded (phases a b c d e f g) × ((phases a b c d e f g).0 ≡ crashed → g ≡ false)
phases-IsEnded false b c d e f g = ((refl, refl), λ h. cc)
phases-IsEnded true false c d e f g = ((refl, refl), λ h. cc)
phases-IsEnded true true false d e f g = ((refl, refl), λ h. cc)
phases-IsEnded true true true false e f g = ((refl, refl), λ h. cc)
phases-IsEnded true true true true false f g = ((refl, refl), λ h. cc)
phases-IsEnded true true true true true false g = ((refl, refl), λ h. cc)
phases-IsEnded true true true true true true false = ((refl, refl), λ h. refl)
phases-IsEnded true true true true true true true = ((whole, refl, refl, refl, refl), λ h. cc)
  where
    whole : List Effect
    whole =
        opened_database ∷ opened_redis ∷ started_stories ∷ started_emails ∷ started_story_scheduler
        ∷ started_email_scheduler ∷ listening ∷ signalled ∷ shut_down ∷ cancelled_stories
        ∷ cancelled_emails ∷ waited_stories ∷ waited_emails ∷ cancelled_shutdown ∷ []

-- However the files, the connections, the groups and the server answer: where `Run` returns, both
-- pools were waited for before Redis and then Postgres were closed, and the context of the schedulers
-- was cancelled only after that; where it panics, as many connections were closed as were opened; and
-- where the process crashes, which it does only if the server cannot listen, both connections were
-- open and none was closed.
pub run-IsEnded : (o : Outside) → IsEnded (run o) × ((run o).0 ≡ crashed → o.listens ≡ false)
unfolding run
run-IsEnded o =
    phases-IsEnded o.log_file o.database o.redis o.model (starts o.story_group o.worker_counts)
      (starts o.email_group o.worker_counts) o.listens
