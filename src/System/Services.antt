-- ===== src/System/Services.antt =====
-- What the services of internal/usecase do to the state: a property that the single statements and
-- additions keep is kept by every service.
use notification_server.Base.{
  ℕ, ◌+◌, String, Bool-cases, true, false, inl, inr, none, List, [], ◌∷◌, leb,
}
use notification_server.Domain.Action.{Result, ok, err, panic, Action}
use notification_server.Domain.Errors.{Code, Variable, text, new_domain_error}
use notification_server.Domain.Entities.{User, Job, RegisteredUser, LoginUser}
use notification_server.Store.Broker.{Broker}
use notification_server.Store.Hashes.{Hashes, Value, lookup_field}
use notification_server.Store.Tables.{Db}
use notification_server.Store.World.{World}
use notification_server.Store.Holds.{
  Holds, Holds-bind, Holds-call, Holds-lift, Holds-return, Holds-fail, Holds-ignore, Holds-attempt,
  Holds-query, Holds-read, Holds-broker, Holds-otps,
}
use notification_server.Security.Hash.{Crypto, hash, verify_hash, generate_otp}
use notification_server.Security.Jwt.{Jwt, JwtAuth, create_jwt_token, verify_refresh_token}
use notification_server.Queue.Codec.{Codec, payload_of}
use notification_server.Queue.Task.{add, job_failure, or_fail}
use notification_server.Repository.Users.{
  delete_user_by_id, get_user_by_id, get_user_by_email, get_user_preferences_by_id,
}
use notification_server.Repository.Verification.{
  insert_staging, create_user, save_verification_data, retrieve_verification_data,
  persist_user_info, persist_user_preferenes, delete_user_from_staging,
}
use notification_server.Repository.Stories.{save_story_info, save_story_job}
use notification_server.Repository.Tokens.{
  store_refresh_token, retrieve_refresh_token, update_refresh_token,
}
use notification_server.Users.Otp.{save_otp, verify_otp, check_guess, after_comparison, number_of}
use notification_server.Users.Register.{
  Draws, register_user, register_new, deliver_otp, send_verification_email, check,
}
use notification_server.Users.Verify.{verify_user, delete_user}
use notification_server.Users.Session.{
  authenticate_user, refresh_jwt_token, or_nil_dereference, usable, seven_days,
}
use notification_server.Users.Scheduling.{schedule_story_generation}
use notification_server.System.Stable.{IsSumHash, hash-IsHash, hash-IsSumHash, Stable}

module _ {R H : Type 0} {I : Db → R → Type 0} where
  Holds-check : {m : Action (World R H) User} → Holds I m → Holds I (check m)
  Holds-check t = record { at = t.at }

  Holds-dereference : {m : Action (World R H) User} → Holds I m → Holds I (or_nil_dereference m)
  Holds-dereference t = record { at = t.at }

  get_user_by_email-Holds : (email : String) → Holds {H = H} I (get_user_by_email email)
  unfolding get_user_by_email
  get_user_by_email-Holds email = Holds-bind (Holds-read _ _) λ u _. Holds-return _

  get_user_by_id-Holds : (id : ℕ) → Holds {H = H} I (get_user_by_id id)
  unfolding get_user_by_id
  get_user_by_id-Holds id = Holds-bind (Holds-read _ _) λ u _. Holds-return _

module _ (S : Hashes) (K : Crypto) {R : Type 0} {I : Db → R → Type 0} where
  deliver_otp-Holds :
      (email otp h : String) (minutes : ℕ) → Holds I (deliver_otp S K email otp h minutes)
  unfolding deliver_otp save_otp send_verification_email
  deliver_otp-Holds email otp h minutes =
      Holds-bind (Holds-attempt (Holds-bind (Holds-otps _ _) λ _ _. Holds-otps _ _))
        λ _ _. Holds-bind (Holds-attempt (Holds-call _ _ (λ w h. h))) λ _ _. Holds-return _

  after_comparison-Holds :
      (email : String) (r : Result (Unit {0})) → Holds I (after_comparison S K email r)
  after_comparison-Holds email (ok a) = Holds-ignore (Holds-otps _ _)
  after_comparison-Holds email (err e) = Holds-bind (Holds-otps _ _) λ _ _. Holds-fail _
  after_comparison-Holds email (panic t) = Holds-lift (panic t)

  check_guess-Holds :
      (email guess : String) (fields : List (String × Value))
      → Holds I (check_guess S K email guess fields)
  unfolding check_guess
  check_guess-Holds email guess [] = Holds-fail _
  check_guess-Holds email guess (f ∷ fields) =
      elim (Bool-cases (leb 3 (number_of (lookup_field "retry_count" (f ∷ fields) none)))) [
        | inl e ↦ rw e (Holds-bind (Holds-ignore (Holds-otps _ _)) λ _ _. Holds-fail _)
        | inr e ↦ rw e (after_comparison-Holds email _)
      ]

  verify_otp-Holds : (email guess : String) → Holds I (verify_otp S K email guess)
  unfolding verify_otp
  verify_otp-Holds email guess =
      Holds-bind (Holds-otps _ _) λ fields _. check_guess-Holds email guess fields

pub add-Holds :
    (B : Broker) (C : Codec) {H : Type 0} {I : Db → B.State → Type 0} (job : Job) (stream : String)
    → ((v : String) (d : Db) (r : B.State) → I d r → I d (B.xadd stream v r).1)
    → Holds {H = H} I (add B C job stream)
unfolding add
add-Holds B C job stream keep =
    Holds-bind
      (Holds-lift (
        or_fail
          (job_failure Code.internal "failed to marshal for %s stream, jobID %d, RequestID %s"
            stream job)
          (C.marshal (payload_of job))))
      λ bytes _.
        Holds-bind (Holds-broker _ (B.xadd stream bytes) (keep bytes)) λ _ _. Holds-return _

module _ (B : Broker) (K : Crypto) {I : Db → B.State → Type 0} (stable : Stable B K I) where
  module _ (S : Hashes) where
    register_new-Holds :
        (g : Draws) (request : String) (req : RegisteredUser) (minutes : ℕ)
        → Holds I (register_new S K {R = B.State} g request req minutes)
    unfolding register_new create_user save_verification_data
    register_new-Holds g request req minutes =
        Holds-bind (Holds-lift (hash K g.cost g.password_salt req.password false)) λ hashed given.
          Holds-bind
            (Holds-bind
              (Holds-query Variable.persist_user (insert_staging (staged hashed)) (λ d r.
                stable.by_staging (staged hashed) d r
                  (hash-IsHash K g.cost g.password_salt req.password hashed given.1)))
              λ _ _. Holds-return _)
            λ _ _.
              Holds-bind
                (Holds-bind (Holds-query _ _ (stable.by_verification request req.email))
                  λ _ _. Holds-return _)
                λ _ _. Holds-bind (Holds-lift (generate_otp g.draw g.decimal g.otp_length)) λ otp _.
                  Holds-bind (Holds-lift (hash K g.cost g.otp_salt otp false))
                    λ hashed_otp _. deliver_otp-Holds S K req.email otp hashed_otp minutes
      where
        staged : String → User
        staged hashed = record {
          id = 0;
          first_name = req.first_name;
          last_name = req.last_name;
          email = req.email;
          password = hashed;
          preferences = req.preferences;
        }

    pub register_user-Holds :
        (g : Draws) (request : String) (req : RegisteredUser) (minutes : ℕ)
        → Holds I (register_user S K {R = B.State} g request req minutes)
    unfolding register_user
    register_user-Holds g request req minutes =
        Holds-bind (Holds-check (get_user_by_email-Holds req.email)) λ b _. elim (Bool-cases b) [
          | inl e ↦
              rw e (Holds-fail (new_domain_error Code.conflict (text "email already exists") none))
          | inr e ↦ rw e (register_new-Holds g request req minutes)
        ]

    pub verify_user-Holds :
        (guess request : String) → Holds I (verify_user S K {R = B.State} guess request)
    unfolding verify_user retrieve_verification_data persist_user_info persist_user_preferenes
        delete_user_from_staging
    verify_user-Holds guess request =
        Holds-bind (Holds-bind (Holds-read _ _) λ r _. Holds-return _) λ email _.
          Holds-bind (verify_otp-Holds S K email guess) λ _ _.
            Holds-bind (Holds-query _ _ (stable.by_promotion email)) λ u _.
              Holds-bind
                (Holds-bind (Holds-query _ _ (stable.by_preferences u.0 u.1)) λ _ _. Holds-return _)
                λ _ _.
                  Holds-bind
                    (Holds-bind (Holds-query _ _ (stable.by_unstaging email)) λ _ _. Holds-return _)
                    λ _ _. Holds-return _

  module _ {H : Type 0} where
    pub delete_user-Holds : (id : ℕ) → Holds {H = H} I (delete_user id)
    unfolding delete_user delete_user_by_id
    delete_user-Holds id =
        Holds-bind (Holds-bind (Holds-query _ _ (stable.by_deletion id)) λ _ _. Holds-return _)
          λ _ _. Holds-return _

    store-Holds :
        (now id : ℕ) (h : String)
        → IsSumHash K h
        → Holds {H = H} I (store_refresh_token now id h (now + seven_days))
    unfolding store_refresh_token
    store-Holds now id h hashed =
        Holds-bind (Holds-query _ _ (λ d r. stable.by_token now id h d r hashed))
          λ _ _. Holds-return _

    pub authenticate_user-Holds :
        (J : Jwt) (j : JwtAuth) (cost salt now : ℕ) (req : LoginUser)
        → Holds {H = H} I (authenticate_user K J j cost salt now req)
    unfolding authenticate_user
    authenticate_user-Holds J j cost salt now req =
        Holds-bind (get_user_by_email-Holds req.email) λ u _.
          Holds-bind (Holds-lift (verify_hash K u.password req.password false)) λ _ _.
            Holds-bind (Holds-lift (create_jwt_token J j now u.id u.email)) λ pair _.
              Holds-bind (Holds-lift (hash K cost salt pair.refresh_token true)) λ h given.
                Holds-bind (store-Holds now u.id h (hash-IsSumHash K cost salt _ h given.1))
                  λ _ _. Holds-return pair

    pub refresh_jwt_token-Holds :
        (J : Jwt) (j : JwtAuth) (cost salt now : ℕ) (token secret : String)
        → Holds {H = H} I (refresh_jwt_token K J j cost salt now token secret)
    unfolding refresh_jwt_token retrieve_refresh_token update_refresh_token
    refresh_jwt_token-Holds J j cost salt now token secret =
        Holds-bind (Holds-lift (verify_refresh_token J now token secret)) λ who _.
          Holds-bind (Holds-dereference (get_user_by_id-Holds who.user_id)) λ u _.
            Holds-bind (Holds-bind (Holds-read _ _) λ t _. Holds-return _) λ t _.
              Holds-bind (Holds-lift (verify_hash K t.hashed_token token true)) λ _ _.
                Holds-bind (Holds-lift (usable now t)) λ _ _.
                  Holds-bind (Holds-lift (create_jwt_token J j now who.user_id who.email)) λ pair _.
                    Holds-bind (Holds-lift (hash K cost salt pair.refresh_token true)) λ h given.
                      Holds-bind
                        (Holds-bind (Holds-query _ _ (stable.by_revocation u.id now))
                          λ _ _. Holds-return _)
                        λ _ _.
                          Holds-bind
                            (store-Holds now u.id h (hash-IsSumHash K cost salt _ h given.1))
                            λ _ _. Holds-return pair

    pub schedule_story_generation-Holds :
        (C : Codec) (request stream : String) (id : ℕ)
        → Holds {H = H} I (schedule_story_generation B C request stream id)
    unfolding schedule_story_generation get_user_preferences_by_id save_story_info save_story_job
    schedule_story_generation-Holds C request stream id =
        Holds-bind (get_user_by_id-Holds id) λ u _.
          Holds-bind (Holds-bind (Holds-read _ _) λ p _. Holds-return _) λ p _.
            Holds-bind (Holds-query _ _ (stable.by_story _)) λ story _.
              Holds-bind (Holds-query _ _ (stable.by_story_job story _)) λ _ _.
                Holds-bind (add-Holds B C _ stream (stable.by_add stream)) λ _ _. Holds-return _
