-- ===== src/Ai.antt =====
-- app/internal/ai: categories and severities, the provider interface and its two implementations.
pub mod Category
pub mod Severity
pub mod Types
pub mod Stub
pub mod Prompts
pub mod Bedrock
