-- ===== src/Http/Errors.antt =====
-- internal/adapters/http/dto/errors.go: from an error of the domain to an HTTP answer.
use notification_server.Base.{ℕ, none, some}
use notification_server.Domain.Errors.{Code, Message, DomainError, Error, text, as_domain}

pub record HttpError : Type 0 where
  pub message : Message
  pub code : Code
  pub status_code : ℕ

-- The switch of `MapDomainErrToHttpErr`; `Code.internal` is the only code left for its default.
unfoldable pub status_of : Code → ℕ
status_of Code.validation = 400
status_of Code.not_found = 404
status_of Code.unauthorized = 401
status_of Code.forbidden = 403
status_of Code.conflict = 409
status_of Code.rate_limited = 429
status_of Code.external = 503
status_of Code.persisting = 500
status_of _ = 500

unfoldable pub map_domain_err_to_http_err : DomainError → HttpError
unfolding status_of
map_domain_err_to_http_err e = record {
  message = e.message;
  code = e.code;
  status_code = status_of e.code;
}

abbrev pub internal_server_error : HttpError
internal_server_error = record {
  message = text "internal server error";
  code = Code.internal;
  status_code = 500;
}

unfoldable pub map_err : Error → HttpError
unfolding as_domain map_domain_err_to_http_err
map_err e = elim (as_domain e) [
  | some d ↦ map_domain_err_to_http_err d
  | none ↦ internal_server_error
]
