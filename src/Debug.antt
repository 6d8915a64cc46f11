-- ===== src/Debug.antt =====
-- cmd/thorchaindebug: the commands that read old states, raw bytes, keys, addresses and transactions.
pub mod Search
pub mod RawBytes
pub mod Decode
mod Tests
