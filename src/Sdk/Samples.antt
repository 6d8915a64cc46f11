-- ===== src/Sdk/Samples.antt =====
-- Small instances of the SDK's interfaces, which show that the laws can hold together and on which
-- the models run in tests.
pub mod Coins
pub mod Bank
pub mod Store
