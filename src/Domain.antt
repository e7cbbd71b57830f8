-- ===== src/Domain.antt =====
-- internal/domain: the entities, the errors, and what a call gives back.
pub mod Errors
pub mod Entities
pub mod Action
