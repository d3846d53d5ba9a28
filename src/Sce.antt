-- ===== src/Sce.antt =====
-- crates/mxc-omemo/src/sce.rs: the envelope that is encrypted into a message (XEP-0420). The
-- `quick-xml` crate is a parameter: its escaping, and the events that its reader makes of a text.
pub mod Envelope
pub mod Reader
pub mod Padding
pub mod Contents
pub mod Body
pub mod Binding
pub mod Tests
