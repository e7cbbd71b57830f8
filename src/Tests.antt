-- ===== src/Tests.antt =====
-- Concrete instances of the interfaces, and each property's theorem at a concrete input.
pub mod Memory
pub mod Samples
pub mod System
pub mod Tokens
pub mod Otps
pub mod Runs
pub mod Accounts
pub mod Journeys
pub mod Twice
pub mod Web
pub mod Refreshes
pub mod Retries
pub mod Guesses
pub mod Lifecycle
pub mod Newcomers
pub mod Registration
pub mod Statuses
