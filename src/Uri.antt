-- ===== src/Uri.antt =====
-- crates/mxc-proto/src/uri.rs: the `xmpp:` verification URIs of a QR code. Texts are lists of
-- scalar values; `percent_decode` works on their UTF-8 bytes, as the source does.
pub mod Utf8
pub mod Percent
pub mod Decimal
pub mod Fingerprint
pub mod Print
pub mod Parse
pub mod Bounds
pub mod Ascii
pub mod Safety
pub mod Panics
pub mod Encode
pub mod Tests
