-- ===== src/Users.antt =====
-- internal/usecase/user_service.go and what it calls: registration, verification, login, refresh.
pub mod Otp
pub mod Race
pub mod Register
pub mod Halves
pub mod Twice
pub mod Writes
pub mod Verify
pub mod Welcome
pub mod Session
pub mod Entrance
pub mod Login
pub mod Newcomer
pub mod Once
pub mod Lockout
pub mod Arrival
pub mod Attempts
pub mod Promotion
pub mod Deletion
pub mod Rotation
pub mod Reuse
pub mod Signup
pub mod Scheduling
