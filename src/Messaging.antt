-- ===== src/Messaging.antt =====
-- crates/mxc-proto/src/xeps/messaging.rs: what is done to the text and the envelope of a message.
pub mod Fallback
pub mod Spans
pub mod Cut
pub mod Binding
pub mod Replay
pub mod Mention
pub mod Files
pub mod Open
pub mod Payloads
pub mod RoundTrip
pub mod Tests
