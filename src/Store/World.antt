-- ===== src/Store/World.antt =====
-- The state that every call of the program works on, and the calls that go over the network. A
-- command may be answered, refused before it runs, or run with its answer lost on the way back;
-- `link` says which, one entry for each call to come. Theorems hold for every `link`.
use notification_server.Base.{String, some, List, [], ◌∷◌}
use notification_server.Domain.Errors.{Error, Variable, Code, text, sentinel, new_domain_error}
use notification_server.Domain.Action.{Result, ok, err, Action, ◌>>=◌, lift}
use notification_server.Store.Buckets.{Buckets}
use notification_server.Store.Tables.{Db, Reply, row, no_rows, refused}

pub data Outcome : Type 0 where
  answered dropped lost : Outcome

pub data Mail : Type 0 where
  verification : (to otp : String) → Mail
  notification : (to : String) → Mail

-- `R` holds the streams and `H` the one-time passwords: two kinds of keys of one Redis; `buckets` is a
-- third kind.
pub record World (R H : Type 0) : Type 0 where
  pub db : Db
  pub broker : R
  pub otps : H
  pub mails : List Mail
  pub buckets : Buckets
  pub link : List Outcome

abbrev pub next : List Outcome → Outcome
next [] = answered
next (o ∷ os) = o

abbrev pub after : List Outcome → List Outcome
after [] = []
after (o ∷ os) = os

abbrev pub query_failed : Error
query_failed = new_domain_error Code.internal (text "query failed") (some "driver")

abbrev pub scan_error {ℓ} : {A : Type ℓ} → Variable → Reply A → Result A
scan_error missing (row a) = ok a
scan_error missing no_rows = err (sentinel missing)
scan_error missing refused = err query_failed

module _ {R H : Type 0} where
  abbrev pub deliver :
      {A : Type 0} → Error → Outcome → (World R H → A × World R H) → Action (World R H) A
  deliver e answered f w = let (a, w') = f w in (ok a, w')
  deliver e dropped f w = (err e, w)
  deliver e lost f w = let (a, w') = f w in (err e, w')

  -- One command, and the error that the caller makes of a failure.
  unfoldable pub call : {A : Type 0} → Error → (World R H → A × World R H) → Action (World R H) A
  call e f w = deliver e (next w.link) f (record w { link = after w.link })

  -- A command of the streams, of the one-time passwords, or of the tables.
  abbrev pub on_broker : {A : Type 0} → (R → A × R) → World R H → A × World R H
  on_broker f w = let (a, r) = f w.broker in (a, record w { broker = r })

  abbrev pub on_otps : {A : Type 0} → (H → A × H) → World R H → A × World R H
  on_otps f w = let (a, h) = f w.otps in (a, record w { otps = h })

  abbrev pub on_buckets : {A : Type 0} → (Buckets → A × Buckets) → World R H → A × World R H
  on_buckets f w = let (a, b) = f w.buckets in (a, record w { buckets = b })

  abbrev pub on_db : {A : Type 0} → (Db → A × Db) → World R H → A × World R H
  on_db f w = let (a, d) = f w.db in (a, record w { db = d })

  -- `QueryRow` and `Scan`: `pgx.ErrNoRows` becomes the error given, any other failure "query failed".
  unfoldable pub query : {A : Type 0} → Variable → (Db → Reply A × Db) → Action (World R H) A
  unfolding call
  query missing f = do r ← call query_failed (on_db f); lift (scan_error missing r)

  -- No command of the rest of the run fails.
  abbrev pub online : World R H → World R H
  online w = record w { link = [] }
