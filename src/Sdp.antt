-- ===== src/Sdp.antt =====
-- crates/mxc-proto/src/xeps/jingle_sdp.rs: the translation of session descriptions to Jingle
-- contents and back.
pub mod Words
pub mod Candidate
pub mod RoundTrip
pub mod Media
pub mod Describe
pub mod Tests
