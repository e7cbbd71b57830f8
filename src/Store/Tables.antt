-- ===== src/Store/Tables.antt =====
-- The tables of migrations/, with the columns that the program reads or writes. A statement of
-- internal/infrastructure/repository/postgres runs on these lists of rows. Ids come from the table's
-- sequence. Column sizes are left out.
use notification_server.Base.{
  ℕ, suc, String, Bool, Option, none, some, List, [], ◌∷◌, if◌then◌else◌,
}

pub record UserRow : Type 0 where
  pub id : ℕ
  pub first_name : String
  pub last_name : String
  pub email : String
  pub password : String

pub record StagingRow : Type 0 where
  pub id : ℕ
  pub first_name : String
  pub last_name : String
  pub email : String
  pub password : String
  pub preferences : List String

pub record VerificationRow : Type 0 where
  pub id : ℕ
  pub request_id : String
  pub email : String

pub record PreferencesRow : Type 0 where
  pub id : ℕ
  pub user_id : ℕ
  pub preferences : List String

pub record StoryRow : Type 0 where
  pub id : ℕ
  pub file_name : String
  pub user_id : ℕ
  pub story : String

-- The enums `story_status` and `email_status`.
pub data Status : Type 0 where
  pending processing completed failed : Status

pub record StoryJobRow : Type 0 where
  pub id : ℕ
  pub story_id : ℕ
  pub status : Status

pub record EmailJobRow : Type 0 where
  pub id : ℕ
  pub story_id : ℕ
  pub user_id : ℕ
  pub status : Status

pub record TokenRow : Type 0 where
  pub id : ℕ
  pub user_id : ℕ
  pub token_hash : String
  pub expires_at : ℕ
  pub revoked_at : Option ℕ
  pub created_at : ℕ

pub record Table {ℓ} (A : Type ℓ) : Type ℓ where
  pub rows : List A
  pub next : ℕ

pub record Db : Type 0 where
  pub users : Table UserRow
  pub staging_users : Table StagingRow
  pub email_verification : Table VerificationRow
  pub users_preferences : Table PreferencesRow
  pub stories : Table StoryRow
  pub story_jobs : Table StoryJobRow
  pub email_jobs : Table EmailJobRow
  pub refresh_tokens : Table TokenRow

-- What `row.Scan` finds: a row, no row, or a statement that a constraint refused.
pub data Reply {ℓ} (A : Type ℓ) : Type ℓ where
  row : A → Reply A
  no_rows : Reply A
  refused : Reply A

module _ {ℓ} {A : Type ℓ} where
  abbrev pub empty_table : Table A
  empty_table = record { rows = []; next = 1 }

  -- `SELECT … WHERE p`, read by `QueryRow`: the first row.
  unfoldable pub select : (A → Bool) → List A → Option A
  select p [] = none
  select p (x ∷ xs) = if p x then some x else select p xs

  -- The row of those that fit which was inserted first.
  unfoldable pub oldest : (A → Bool) → List A → Option A
  oldest p [] = none
  oldest p (x ∷ xs) = elim (oldest p xs) [ some y ↦ some y | none ↦ if p x then some x else none ]

  -- `UPDATE … SET f WHERE p`: every row that fits.
  unfoldable pub update_where : (A → Bool) → (A → A) → List A → List A
  update_where p f [] = []
  update_where p f (x ∷ xs) = (if p x then f x else x) ∷ update_where p f xs

  -- `DELETE … WHERE p`, and what a cascade removes.
  unfoldable pub delete_where : (A → Bool) → List A → List A
  delete_where p [] = []
  delete_where p (x ∷ xs) = let rest = delete_where p xs in if p x then rest else x ∷ rest

  abbrev pub scan : Option A → Reply A
  scan none = no_rows
  scan (some a) = row a

  -- An `INSERT` takes the sequence's next number, also where a constraint refuses the row.
  abbrev pub insert : Table A → (ℕ → A) → Table A
  insert t f = record { rows = f t.next ∷ t.rows; next = suc t.next }

  abbrev pub burn : Table A → Table A
  burn t = record t { next = suc t.next }

  abbrev pub with_rows : Table A → List A → Table A
  with_rows t rs = record t { rows = rs }

abbrev pub empty_db : Db
empty_db = record {
  users = empty_table;
  staging_users = empty_table;
  email_verification = empty_table;
  users_preferences = empty_table;
  stories = empty_table;
  story_jobs = empty_table;
  email_jobs = empty_table;
  refresh_tokens = empty_table;
}
