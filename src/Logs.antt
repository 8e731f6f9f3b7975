-- ===== src/Logs.antt =====
-- What the contract prints: the log line of an event, and the text that an error panics with.
pub mod Values
pub mod Decimal
pub mod Fields
pub mod Events
pub mod Shapes
pub mod EventReader
pub mod EventsBack
pub mod LineReader
pub mod Errors
pub mod ErrorReader
