-- ===== src/Repository.antt =====
-- internal/infrastructure/repository/postgres/user_postgres.go: one module for each repository type.
pub mod Users
pub mod Verification
pub mod Stories
pub mod Tokens
