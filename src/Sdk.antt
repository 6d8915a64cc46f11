-- ===== src/Sdk.antt =====
-- What the modules under x/ use of the Cosmos SDK, as parameters: the SDK is not in the repository.
-- `Types` has the plain structs that the source builds and takes apart, and the error values.
-- `Coins`, `Bank` and `Store` are interfaces: a record of operations, and a record of the documented
-- laws that theorems assume. `Keeper` is the monad of keeper methods.
pub mod Types
pub mod Coins
pub mod Bank
pub mod Store
pub mod Keeper
pub mod Web
pub mod Command
pub mod Samples
