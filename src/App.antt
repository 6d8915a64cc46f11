-- ===== src/App.antt =====
-- app: the genesis state of the application, and what runs when a chain and a block begin and end.
pub mod Staking
pub mod Genesis
pub mod Chain
pub mod Samples
mod Tests
