-- ===== src/System.antt =====
-- The whole program: requests and both pools on one state.
pub mod Emails
pub mod Existence
pub mod Integrity
pub mod Links
pub mod Pools
pub mod Removals
pub mod Requests
pub mod Secrets
pub mod Services
pub mod Stable
pub mod Stories
pub mod Survival
pub mod Turns
