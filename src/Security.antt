-- ===== src/Security.antt =====
-- internal/infrastructure/security: hashing, one-time passwords and tokens, over parameters for the
-- cryptographic libraries.
pub mod Hash
pub mod Jwt
