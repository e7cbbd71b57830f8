-- ===== src/Http.antt =====
-- internal/adapters/http: what stands between a request and the services.
pub mod Errors
pub mod RateLimiter
pub mod Text
pub mod Gin
pub mod Validators
pub mod Middleware
pub mod Content
pub mod Handlers
pub mod Routes
pub mod Guard
pub mod Created
