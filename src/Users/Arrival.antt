-- ===== src/Users/Arrival.antt =====
-- The commands of a new user's way, on a network that answers every one.
use notification_server.Base.{
  ℕ, suc, Bool, String, ◌≡◌, refl, some, ◌∷◌, List, true, false, [], none, inl, inr, Bool-cases,
  ◌==◌, string_eq, nat_eq, arith, eq_iff, nat_beq_iff,
}
use notification_server.Domain.Entities.{User}
use notification_server.Domain.Errors.{Variable}
use notification_server.Domain.Action.{ok, Action, ◌>>=◌}
use notification_server.Store.Tables.{
  Db, Reply, row, UserRow, StagingRow, select, oldest, delete_where,
}
use notification_server.Store.World.{World, online, call, query}
use notification_server.Repository.Verification.{
  staged_as, known_as, verifies, insert_staging, insert_verification, promote, insert_preferences,
  unstage,
}
use notification_server.Repository.Stories.{exists}

module _ {S A C : Type 0} where
  -- A call that gives a value goes on with it.
  pub gives_on :
      (m : Action S A) (f : A → Action S C) (s t : S) (a : A)
      → m s ≡ (ok a, t)
      → (m >>= f) s ≡ f a t
  gives_on m f s t a e = rw e refl

module _ {R H A : Type 0} where
  pub query_succeeds :
      (v : Variable) (f : Db → Reply A × Db) (w : World R H) (a : A) (d : Db)
      → f w.db ≡ (row a, d)
      → query v f (online w) ≡ (ok a, online (record w { db = d }))
  unfolding query call
  query_succeeds v f w a d e = rw e refl

-- Nobody is registered or staged under that email.
abbrev pub IsFree : String → Db → Type 0
IsFree email d =
    (exists (known_as email) d.users.rows ≡ false)
    × (exists (staged_as email) d.staging_users.rows ≡ false)
    × (exists (verifies email) d.email_verification.rows ≡ false)

abbrev pub staging_row : User → ℕ → StagingRow
staging_row u i = record {
  id = i;
  first_name = u.first_name;
  last_name = u.last_name;
  email = u.email;
  password = u.password;
  preferences = u.preferences;
}

abbrev pub staged : User → Db → Db
staged u d = record d {
  staging_users = record {
    rows = staging_row u d.staging_users.next ∷ d.staging_users.rows;
    next = suc d.staging_users.next;
  };
}

pub insert_staging_free :
    (u : User) (d : Db)
    → exists (staged_as u.email) d.staging_users.rows ≡ false
    → insert_staging u d ≡ (row d.staging_users.next, staged u d)
unfolding insert_staging
insert_staging_free u d free = rw free refl

abbrev pub expected : String → String → Db → Db
expected request email d = record d {
  email_verification = record {
    rows =
        record { id = d.email_verification.next; request_id = request; email = email }
        ∷ d.email_verification.rows;
    next = suc d.email_verification.next;
  };
}

module _ {A : Type 0} where
  pub exists_head : (p : A → Bool) (x : A) (xs : List A) → p x ≡ true → exists p (x ∷ xs) ≡ true
  unfolding select
  exists_head p x xs h = ground (arith, h)

  pub select_head : (p : A → Bool) (x : A) (xs : List A) → p x ≡ true → select p (x ∷ xs) ≡ some x
  unfolding select
  select_head p x xs h = rw h refl

  oldest_unmatched : (p : A → Bool) (xs : List A) → exists p xs ≡ false → oldest p xs ≡ none
  unfolding select oldest
  oldest_unmatched p [] h = refl
  oldest_unmatched p (x ∷ xs) h = elim (Bool-cases (p x)) [
    | inl e ↦ absurd (ground (arith, h))
    | inr e ↦ rw (oldest_unmatched p xs (ground (arith, h)), e) refl
  ]

  pub oldest_alone :
      (p : A → Bool) (x : A) (xs : List A)
      → exists p xs ≡ false
      → p x ≡ true
      → oldest p (x ∷ xs) ≡ some x
  unfolding oldest
  oldest_alone p x xs h e = rw (oldest_unmatched p xs h, e) refl

pub insert_verification_free :
    (request : String) (u : User) (d : Db)
    → exists (verifies u.email) d.email_verification.rows ≡ false
    → insert_verification request u.email (staged u d)
      ≡ (row d.email_verification.next, expected request u.email (staged u d))
unfolding insert_verification
insert_verification_free request u d free =
    rw
      (
        free,
        exists_head (staged_as u.email) (staging_row u d.staging_users.next) d.staging_users.rows
            ((eq_iff u.email u.email).1 refl),
      )
      refl

abbrev pub user_row : User → ℕ → UserRow
user_row u i = record {
  id = i;
  first_name = u.first_name;
  last_name = u.last_name;
  email = u.email;
  password = u.password;
}

abbrev pub welcomed : User → Db → Db
welcomed u d = record d {
  users = record { rows = user_row u d.users.next ∷ d.users.rows; next = suc d.users.next };
}

pub promote_free :
    (request : String) (u : User) (d : Db)
    → exists (known_as u.email) d.users.rows ≡ false
    → let e = expected request u.email (staged u d) in
      promote u.email e ≡ (row (d.users.next, u.preferences), welcomed u e)
unfolding promote
promote_free request u d free =
    rw
      (
        select_head (staged_as u.email) (staging_row u d.staging_users.next) d.staging_users.rows
            ((eq_iff u.email u.email).1 refl),
        promote,
        free,
      )
      refl

abbrev pub preferring : ℕ → List String → Db → Db
preferring id ps d = record d {
  users_preferences = record {
    rows =
        record { id = d.users_preferences.next; user_id = id; preferences = ps }
        ∷ d.users_preferences.rows;
    next = suc d.users_preferences.next;
  };
}

pub insert_preferences_new :
    (u : User) (d : Db)
    → insert_preferences d.users.next u.preferences (welcomed u d)
      ≡ (row d.users_preferences.next, preferring d.users.next u.preferences (welcomed u d))
unfolding insert_preferences
insert_preferences_new u d =
    rw
      (exists_head (λ (r : UserRow). r.id == d.users.next) (user_row u d.users.next) d.users.rows
        ((nat_beq_iff d.users.next d.users.next).1 refl))
      refl

-- The staged rows of the email are gone.
abbrev pub unstaged : String → Db → Db
unstaged email d = record d {
  staging_users = record d.staging_users {
    rows = delete_where (staged_as email) d.staging_users.rows;
  };
  email_verification = record d.email_verification {
    rows = delete_where (verifies email) d.email_verification.rows;
  };
}

pub unstage_succeeds :
    (request : String) (u : User) (d : Db)
    → let e =
        preferring d.users.next u.preferences
          (welcomed u (expected request u.email (staged u d))) in
      unstage u.email e ≡ (row d.staging_users.next, unstaged u.email e)
unfolding unstage
unstage_succeeds request u d =
    rw
      (
        select_head (staged_as u.email) (staging_row u d.staging_users.next) d.staging_users.rows
            ((eq_iff u.email u.email).1 refl),
        unstage,
      )
      refl

-- What the tables hold of a user who has just been verified.
abbrev pub verified : String → User → Db → Db
verified request u d =
    unstaged u.email
      (preferring d.users.next u.preferences (welcomed u (expected request u.email (staged u d))))
