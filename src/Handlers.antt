-- ===== src/Handlers.antt =====
-- app/internal/handlers: the REST API.
pub mod World
pub mod Http
pub mod Accounts
pub mod Enrich
pub mod Transactions
pub mod Aggregate
pub mod Summary
pub mod Insights
pub mod Reading
pub mod Missing
