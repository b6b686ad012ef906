-- ===== src/EventSink.antt =====
-- services/event-sink: the subscriber that registers a webhook and receives its events.
pub mod State
pub mod Receipts
pub mod Registration
pub mod Handler
mod Tests
