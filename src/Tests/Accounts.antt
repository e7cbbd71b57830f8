-- ===== src/Tests/Accounts.antt =====
-- The theorems on users and their stories, applied to concrete inputs.
use notification_server.Base.{◌≡◌, ◌≢◌, arith, refl, inr, none, some, [], ◌∷◌, List, ◌==◌, nat_eq}
use notification_server.Domain.Errors.{Message, text}
use notification_server.Domain.Entities.{LoginUser, RegisteredUser, TokenPair}
use notification_server.Domain.Action.{ok, panic}
use notification_server.Store.Tables.{
  UserRow, VerificationRow, Db, empty_db, select, oldest, update_where, delete_where,
}
use notification_server.Store.World.{World, Outcome, verification, dropped, call, query}
use notification_server.Store.Hashes.{string, number}
use notification_server.Queue.Task.{add}
use notification_server.Repository.Users.{
  get_user_by_id, get_user_preferences_by_id, get_user_by_email, delete_user_by_id, delete_user_row,
}
use notification_server.Repository.Stories.{
  save_story_info, save_story_job, insert_story, insert_story_job, upload_story, upload,
  save_email_job, insert_email_job,
}
use notification_server.Repository.Verification.{
  requested_by, retrieve_verification_data, persist_user_info, persist_user_preferenes,
  delete_user_from_staging, promote, insert_preferences, unstage, create_user,
  save_verification_data, insert_staging, insert_verification,
}
use notification_server.Repository.Tokens.{
  retrieve_refresh_token, latest, update_refresh_token, store_refresh_token,
}
use notification_server.Jobs.Executer.{execute_story, generate_story}
use notification_server.Jobs.Overwrite.{execute_story-AllRead, AllRead}
use notification_server.Security.Hash.{hash, verify_hash, generate_otp}
use notification_server.Security.Jwt.{create_jwt_token, verify_refresh_token}
use notification_server.Users.Login.{wrong_password_refused}
use notification_server.Users.Once.{second_story_refused, KeepsStories}
use notification_server.Users.Promotion.{verify_user_promotes, Known, Unstaged}
use notification_server.Users.Deletion.{deleted_user_gone, refresh_deleted_panics, Gone}
use notification_server.Users.Rotation.{refresh_jwt_token-Granted, Granted}
use notification_server.Users.Signup.{unsaved_password_mailed, register_user-IsStaged, IsStaged}
use notification_server.Users.Otp.{save_otp, verify_otp, check_guess}
use notification_server.Users.Register.{
  Draws, deliver_otp, register_user, register_new, registered, send_verification_email,
}
use notification_server.Users.Scheduling.{schedule_story_generation}
use notification_server.Users.Session.{authenticate_user, refresh_jwt_token, usable}
use notification_server.Users.Verify.{verify_user, delete_user}
use notification_server.Tests.Memory.{Memory, memory, empty_memory}
use notification_server.Tests.Otps.{Cells, otps, crypto}
use notification_server.Tests.Samples.{new_codec, job_with}
use notification_server.Tests.Tokens.{jwt, auth, login}

-- Ann is user 7, with two preferences, and the next story is the ninth.
abbrev pub ann : Db
ann = record empty_db {
  users = record {
    rows =
        record {
          id = 7;
          first_name = "Ann";
          last_name = "Lee";
          email = "ann@x.org";
          password = "secret";
        }
        ∷ [];
    next = 8;
  };
  users_preferences = record {
    rows = record { id = 1; user_id = 7; preferences = "sea" ∷ "cats" ∷ [] } ∷ [];
    next = 2;
  };
  stories = record { rows = []; next = 9 };
  story_jobs = record { rows = []; next = 4 };
  refresh_tokens = record {
    rows =
        record {
          id = 1;
          user_id = 7;
          token_hash = "refresh";
          expires_at = 2_000_000;
          revoked_at = none;
          created_at = 5;
        }
        ∷ [];
    next = 2;
  };
}

abbrev pub with_db : Db → List Outcome → World Memory Cells
with_db d faults = record {
  db = d;
  broker = empty_memory;
  otps = [];
  mails = [];
  buckets = [];
  link = faults;
}

abbrev pub guess : LoginUser
guess = record { email = "ann@x.org"; password = "guess" }

wrong_password_refused_example :
    ((p : TokenPair)
      → (authenticate_user crypto jwt auth 10 1 login guess (with_db ann [])).0 ≢ ok p)
    × ((authenticate_user crypto jwt auth 10 1 login guess (with_db ann [])).1.db ≡ ann)
wrong_password_refused_example =
    wrong_password_refused crypto jwt auth 10 1 login guess (with_db ann []) (inr (λ h. cc), tt)

accepted : Message
accepted = text "Your story is being generated. You will be notified by email"

story_scheduled :
    (schedule_story_generation memory new_codec "r1" "stories" 7 (with_db ann [])).0 ≡ ok accepted
unfolding schedule_story_generation get_user_by_id get_user_preferences_by_id save_story_info
    save_story_job insert_story insert_story_job add query call select accepted
story_scheduled = refl

-- The story is written before Ann asks again.
abbrev written : World Memory Cells
written =
    (upload_story (record { user_id = 7; story = "a story" })
      (with_db (schedule_story_generation memory new_codec "r1" "stories" 7 (with_db ann [])).1.db
        [])).1

written_keeps :
    KeepsStories
      (schedule_story_generation memory new_codec "r1" "stories" 7 (with_db ann [])).1.db
      written.db
unfolding schedule_story_generation get_user_by_id get_user_preferences_by_id save_story_info
    save_story_job insert_story insert_story_job add query call select upload_story upload
    update_where
written_keeps id f there = ground arith

second_story_refused_example :
    (schedule_story_generation memory new_codec "r2" "stories" 7 written).0 ≢ ok accepted
unfolding schedule_story_generation get_user_by_id get_user_preferences_by_id save_story_info
    save_story_job insert_story insert_story_job add query call select upload_story upload
    update_where
second_story_refused_example =
    second_story_refused memory new_codec 7 "r1" "r2" "stories" "stories" (with_db ann []) written
      accepted accepted story_scheduled refl written_keeps

-- Bob is staged, with the request "r2" and the one-time password 42.
abbrev bob : Db
bob = record empty_db {
  staging_users = record {
    rows =
        record {
          id = 1;
          first_name = "Bob";
          last_name = "Ray";
          email = "bob@x.org";
          password = "secret";
          preferences = "sea" ∷ [];
        }
        ∷ [];
    next = 2;
  };
  email_verification = record {
    rows = record { id = 1; request_id = "r2"; email = "bob@x.org" } ∷ [];
    next = 2;
  };
}

abbrev bob_waits : World Memory Cells
bob_waits = record (with_db bob []) {
  otps =
      ("users:otp:bob@x.org", ("otp", string "salted:42"))
      ∷ ("users:otp:bob@x.org", ("retry_count", number 0))
      ∷ [];
}

welcome : Message
welcome = text "You are verified. Welcome 🥰. Lets explore🚀"

bob_verified : (verify_user otps crypto "42" "r2" bob_waits).0 ≡ ok welcome
unfolding verify_user retrieve_verification_data verify_otp check_guess verify_hash
    persist_user_info persist_user_preferenes delete_user_from_staging promote insert_preferences
    unstage query call select oldest delete_where welcome
bob_verified = refl

verify_user_promotes_example :
    (r : VerificationRow) × (oldest (requested_by "r2") bob.email_verification.rows ≡ some r)
    × Known r.email (verify_user otps crypto "42" "r2" bob_waits).1.db
    × Unstaged r.email (verify_user otps crypto "42" "r2" bob_waits).1.db
verify_user_promotes_example =
    verify_user_promotes otps crypto "42" "r2" welcome bob_waits bob_verified

removed : Message
removed = text "User deleted successfully"

ann_deleted : (delete_user 7 (with_db ann [])).0 ≡ ok removed
unfolding delete_user delete_user_by_id delete_user_row query call select removed
ann_deleted = refl

deleted_user_gone_example : Gone 7 (delete_user 7 (with_db ann [])).1.db
deleted_user_gone_example = deleted_user_gone 7 removed (with_db ann []) ann_deleted

ann_token :
    verify_refresh_token jwt login "refresh" "r-key"
    ≡ ok (record { user_id = 7; email = "ann@x.org" })
unfolding verify_refresh_token
ann_token = refl

nobody : select (λ (u : UserRow). u.id == 7) empty_db.users.rows ≡ none
unfolding select
nobody = refl

refresh_deleted_panics_example :
    (refresh_jwt_token crypto jwt auth 10 1 login "refresh" "r-key" (with_db empty_db [])).0
    ≡ panic "invalid memory address or nil pointer dereference"
refresh_deleted_panics_example =
    refresh_deleted_panics crypto jwt auth 10 1 login "refresh" "r-key"
      (record { user_id = 7; email = "ann@x.org" }) (with_db empty_db []) ann_token nobody

abbrev pair : TokenPair
pair = record { access_token = "access"; refresh_token = "refresh" }

ann_refreshed :
    (refresh_jwt_token crypto jwt auth 10 1 login "refresh" "r-key" (with_db ann [])).0 ≡ ok pair
unfolding refresh_jwt_token verify_refresh_token get_user_by_id retrieve_refresh_token latest
    verify_hash usable create_jwt_token hash update_refresh_token store_refresh_token query call
    select update_where
ann_refreshed = refl

refresh_jwt_token-Granted_example : Granted crypto jwt auth 10 1 login "refresh" "r-key" ann pair
refresh_jwt_token-Granted_example =
    refresh_jwt_token-Granted crypto jwt auth 10 1 login "refresh" "r-key" pair (with_db ann [])
      ann_refreshed

unsaved_password_mailed_example :
    let (r, w') =
      deliver_otp otps crypto {R = Memory} "bob@x.org" "42" "salted:42" 2
        (with_db bob (dropped ∷ [])) in
    (r ≡ ok none) × (w'.mails ≡ verification "bob@x.org" "42" ∷ []) × (w'.otps ≡ [])
unsaved_password_mailed_example =
    unsaved_password_mailed otps crypto "bob@x.org" "42" "salted:42" 2 (with_db bob (dropped ∷ []))
      refl

abbrev pub draws : Draws
draws = record {
  cost = 10;
  password_salt = 1;
  otp_salt = 2;
  otp_length = 6;
  draw = λ n. some 42;
  decimal = λ n. "42";
}

abbrev pub cleo : RegisteredUser
cleo = record {
  first_name = "Cleo";
  last_name = "May";
  email = "cleo@x.org";
  password = "secret";
  preferences = "sea" ∷ [];
}

cleo_done : (register_user otps crypto draws "r3" cleo 2 (with_db ann [])).0 ≡ ok (some registered)
unfolding register_user register_new get_user_by_email create_user save_verification_data
    insert_staging insert_verification generate_otp hash deliver_otp send_verification_email
    save_otp query call select
cleo_done = refl

register_user-IsStaged_example :
    IsStaged "r3" "cleo@x.org" (register_user otps crypto draws "r3" cleo 2 (with_db ann [])).1.db
register_user-IsStaged_example =
    register_user-IsStaged otps crypto draws "r3" cleo 2 (some registered) (with_db ann [])
      cleo_done

-- Ann has one story, the ninth.
abbrev written_to : World Memory Cells
written_to =
    with_db
      (record ann {
        stories = record {
          rows = record { id = 9; file_name = "story-sea-cats"; user_id = 7; story = "" } ∷ [];
          next = 10;
        };
      })
      []

story_written : (execute_story (λ m. "a story") (job_with 0) written_to).0 ≡ ok tt
unfolding execute_story generate_story upload_story upload save_email_job insert_email_job query
    call select update_where
story_written = refl

execute_story-AllRead_example :
    AllRead 7 "a story" (execute_story (λ m. "a story") (job_with 0) written_to).1.db
execute_story-AllRead_example =
    execute_story-AllRead (λ m. "a story") (job_with 0) written_to story_written
