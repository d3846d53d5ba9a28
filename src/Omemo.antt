-- ===== src/Omemo.antt =====
-- crates/mxc-omemo with its uses: bundles, sessions, payloads, trust, pre-keys, sending and receiving.
pub mod Bundle
pub mod Bytes
pub mod Caches
pub mod Database
pub mod Devices
pub mod Error
pub mod Establish
pub mod Fingerprint
pub mod Handshake
pub mod Healing
pub mod Kmac
pub mod MessageTests
pub mod Payload
pub mod PrekeyTests
pub mod Prekeys
pub mod Receiving
pub mod Sending
pub mod Trust
pub mod ContextBinding
pub mod Tests
pub mod Worlds
