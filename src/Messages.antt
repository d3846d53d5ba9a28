-- ===== src/Messages.antt =====
-- crates/mxc-app-qt/src/messages.rs: the rows of a conversation as the chat page shows them. The
-- JSON reader, the cache directories and the local calendar are parameters.
pub mod Urls
pub mod Item
pub mod Render
pub mod Shown
pub mod Quotes
pub mod Tests
