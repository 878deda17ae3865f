-- ===== src/Chat.antt =====
-- The chat program, pro/src.
pub mod Lists
pub mod Protocol
pub mod Server
pub mod Wire
pub mod Client
mod Tests
mod AcceptTests
mod ThreadTests
