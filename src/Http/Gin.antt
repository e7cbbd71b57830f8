-- ===== src/Http/Gin.antt =====
-- What the handlers and the middleware use of the package gin: the request and its context, the
-- answer, and a chain that a middleware may abort. Names of headers are compared as they are written.
use notification_server.Base.{ℕ, String, List, [], ◌∷◌}
use notification_server.Domain.Errors.{Code, Message}
use notification_server.Domain.Action.{Result, ok, err, panic, Action}
use notification_server.Http.Errors.{HttpError, map_err}

-- The request as a handler sees it, with what the middleware set on its context: `request_id` is the
-- value of observability.WithRequestID, and `user_id` of `c.Set("user_id", …)`. `header` gives the
-- empty text for a header that is not there.
pub record Context : Type 0 where
  pub client_ip : String
  pub header : String → String
  pub body : String
  pub request_id : String
  pub user_id : ℕ

-- `HealthResponse` of internal/adapters/http/dto/system.go.
pub record HealthResponse : Type 0 where
  pub status_code : ℕ
  pub alloc_mb : ℕ
  pub total_alloc_mb : ℕ
  pub sys_mb : ℕ
  pub num_gc : ℕ
  pub num_goroutine : ℕ

pub data Body : Type 0 where
  message : Message → Body
  problem : HttpError → Body
  memory : HealthResponse → Body
  -- `c.AbortWithStatus`
  empty : Body

pub record Response : Type 0 where
  pub status : ℕ
  pub headers : List (String × String)
  pub content : Body

-- A chain ends with an answer, or a panic unwinds through it.
pub data Handled : Type 0 where
  responded : Response → Handled
  paniced : String → Handled

abbrev pub Handler : Type 0 → Type 0
Handler S = Context → S → Handled × S

-- `c.JSON`
abbrev pub json : ℕ → Body → Response
json status content = record { status = status; headers = []; content = content }

-- `c.AbortWithStatusJSON(httpErr.StatusCode, httpErr)`
abbrev pub abort : HttpError → Response
abort e = json e.status_code (problem e)

abbrev pub http_error : Message → Code → ℕ → HttpError
http_error m c n = record { message = m; code = c; status_code = n }

abbrev pub with_header : String → String → Response → Response
with_header k v r = record r { headers = (k, v) ∷ r.headers }

abbrev pub answered_by : {A : Type 0} → (A → Handled) → Result A → Handled
answered_by f (ok a) = f a
answered_by f (err e) = responded (abort (map_err e))
answered_by f (panic t) = paniced t

-- The tail of each handler: a value is answered by `f`, an error by `dto.MapErr`.
abbrev pub respond : {S A : Type 0} → (A → Handled) → Action S A → S → Handled × S
respond f m s = let (r, s') = m s in (answered_by f r, s')
