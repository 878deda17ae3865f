-- ===== src/Chat/Client.antt =====
-- The chat client: pro/src/client_util.c and pro/src/client.c.
pub mod Replies
pub mod Peer
pub mod Listing
pub mod Shown
pub mod Input
pub mod Modes
pub mod Threads
pub mod Messages
