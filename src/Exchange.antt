-- ===== src/Exchange.antt =====
-- x/exchange: limit orders, order books and their keeper. `Orders` has the data and errors, `Fill`
-- the matching of one stored order, `Book` the order book, `Store`, `Matching` and `Process` the
-- keeper's methods.
pub mod Orders
pub mod Fill
pub mod Book
pub mod Env
pub mod Store
pub mod Matching
pub mod Process
pub mod Message
pub mod Client
pub mod Refund
pub mod Chain
pub mod Samples
mod Tests
