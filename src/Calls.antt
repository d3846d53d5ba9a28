-- ===== src/Calls.antt =====
-- crates/mxc-proto/src/xeps/jingle.rs and muji.rs: the call registry, the ringing of a call by
-- Jingle Message Initiation, and the group calls over a MUC.
pub mod State
pub mod Stanzas
pub mod Action
pub mod Admission
pub mod SessionTests
pub mod Signalling
pub mod Consent
pub mod Ending
pub mod Members
pub mod Mesh
pub mod Presence
pub mod Invites
pub mod Created
pub mod Serial
pub mod Leaving
pub mod Live
pub mod Announce
pub mod Session
pub mod Phase
pub mod Progress
pub mod Quiet
pub mod Tests
pub mod Upgrade
pub mod Video
