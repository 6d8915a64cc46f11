-- ===== src/Spam.antt =====
-- cmd/thorchainspam: the tool that creates accounts and sends random transactions between them.
pub mod Parse
pub mod Random
pub mod Messages
pub mod Stats
pub mod Broadcast
pub mod Sender
pub mod Ensure
pub mod Samples
mod Tests
