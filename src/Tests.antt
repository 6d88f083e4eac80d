-- ===== src/Tests.antt =====
-- Runs of the model on concrete inputs, and the theorems at concrete inputs.
pub mod Fixtures
pub mod Providers
pub mod Emitters
pub mod Requests
pub mod Tokens
pub mod Issuer
pub mod Service
pub mod Written
pub mod Gateway
pub mod Startups
pub mod Replies
pub mod Migrations
