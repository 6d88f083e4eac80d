-- ===== src/Pipeline.antt =====
-- app/internal/pipeline: events for the analytics lake and their delivery.
pub mod Event
pub mod Encode
pub mod Firehose
pub mod Emitter
