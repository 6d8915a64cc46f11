-- ===== src/Lib.antt =====
-- THORChain, a Cosmos SDK application: a decentralised exchange of limit orders (x/exchange) and
-- continuous liquidity pools (x/clp). This library models both, and the tools under cmd that send
-- test transactions and read old data. The exchange takes limit orders in messages, matches each
-- with the stored orders of the other side, stores what is left over, and refunds expired orders
-- at the beginning of a block.
--
-- Base holds the shared names, tests, lists and signed integers. Sdk holds what the repository
-- only calls, as records of operations with named laws: coins (Sdk/Coins), the bank keeper
-- (Sdk/Bank), the key-value store and the codec (Sdk/Store); Sdk/Types has the plain data, and
-- Sdk/Keeper the shape of a keeper method: a function from a state to an outcome, which is a
-- value, an sdk.Error or a panic, and the state after it. Sdk/Web is the writing of an answer by
-- a request handler, and Sdk/Command the end of a command of the command line. Sdk/Samples has a
-- bank, a store and coins that fulfil the laws.
--
-- Exchange/Orders is x/exchange/limit_order.go and errors.go, and Exchange/Fill is
-- LimitOrder.DoesFill. Exchange/Book is order_book.go: AddLimitOrder as a loop that writes into a
-- slice by index, RemoveFilledLimitOrders, and the keys under which books are stored.
-- Exchange/Env is what the Keeper of keeper.go holds; World is the state of its two stores, the
-- bank and its own. Exchange/Store has getOrderBook, setOrderBook and the order ids.
-- Exchange/Matching has fillOrderIfPossible with its loop (fill_orders), one round of it
-- (fill_step) and the movement of coins (settle, send_and_unlock_coins). Exchange/Process has
-- processLimitOrder, of which check_order is the part before any change, and
-- storeUnfilledLimitOrder; Exchange/Matching/Covered and Exchange/Process/Whole/Succeeds are
-- about when it ends without an error. Exchange/Refund has refundExpiredLimitOrders, and
-- Exchange/Refund/Whole what it does to the store. Exchange/Message is msg_create_limit_order.go,
-- handler.go, genesis.go and begin_blocker.go. Exchange/Chain is the life of a chain: its genesis
-- state, then blocks and messages in any order. Exchange/Client is x/exchange/client, with
-- cli/cli.go in Exchange/Client/Cli and rest/query_orderbook.go in Exchange/Client/Rest.
--
-- A call of time.Now() is an argument, now. Maps of the source to definitions keep its names, in
-- snake case; a method of the keeper is a function of the environment and its arguments that
-- gives a keeper method. Loops are structural recursion on the list of orders, so no fuel is
-- used. An sdk.Int is an integer; a product that leaves its 255 bits is none, and a panic where
-- the source multiplies. Order ids are int64 and wrap (to_int64). The laws of the bank speak of
-- amounts that are not negative.
--
-- Clp has the pools, messages and errors of x/clp, Clp/Env what its keeper holds, with float64 as
-- a record of operations without laws, and Clp/Keeper the methods of x/clp/keeper.go: create, of
-- which check_create is the part before any change, and trade with ProcessCLPTrade. Clp/Handler
-- is x/clp/handler.go. Clp/Create is about create, Clp/Trade about trade, whose two payments are
-- make_payments, Clp/Refused about the trades it refuses, and Clp/Paid about what one pays.
-- Clp/Rest is x/clp/client/rest, util.go and tx.go, and Clp/Rest/Query is query.go; Clp/Cli is
-- x/clp/client/cli/tx.go, whose calls of strconv.Atoi, with their errors not looked at, are
-- Base/Atoi.
--
-- Matching is specified in Exchange/Matching/Spec: a fill moves a positive quantity, no larger
-- than what is stored and what is wanted, at the stored order's price, the payment directly to
-- the stored side and the release out of what is locked; a run is a sequence of fills up to the
-- first order that cannot fill, the end of the book, or a payment that the sender cannot cover.
-- Exchange/Book/Validity has the invariant of a book: its orders are of its kind and denoms, of
-- positive amount and price with a total price in range, and by price and then time.
-- Exchange/Store/Laws has the invariant of the store: each book is valid and stands under its own
-- key, and the store's iterator visits such books only. An order's coins leave its sender's
-- account when it is stored, so the conserved sum is that of all balances and of what is locked
-- for the stored orders (Exchange/Store/Locked).
--
-- Spam is cmd/thorchainspam. Spam/Parse has the flags of txs/send.go, on texts that Base/Texts
-- splits and joins; Spam/Random the random draws, with the generator as a record of calls that
-- pass on its state; Spam/Messages the three kinds of random message, the trade and the limit
-- order being those of Clp and Exchange; Spam/Sender the spammer and one send of it, with the
-- counters of Spam/Stats (stats/stats.go) and the calls of the node in Spam/Broadcast
-- (helpers/TransactionHelpers.go). A channel lets one send of a spammer run at a time, so a send
-- is one step, and a life of a spammer is a sequence of them. Spam/Ensure is account/ensure.go
-- with helpers/CountSpamAccounts.go, over a key base that is a record of operations with laws;
-- its loop is recursion on the number of accounts left.
--
-- Debug is cmd/thorchaindebug. Debug/Search is the loop of the hack command in hack.go, by the
-- number of rounds: as many as the last height has binary digits, and one, are enough.
-- Debug/RawBytes reads bytes that Go printed, with the decimals of Base/Decimals, which show at
-- most twenty digits, enough for 64 bits. Debug/Decode has the commands that try one decoder
-- after the other, and the decoding server, whose connection is the list of its reads.
--
-- App is app. App/Staking has what it uses of the auth and stake modules, App/Genesis is
-- genesis.go, and App/Chain is app.go from BeginBlocker on, and the routes of NewThorchainApp
-- (deliver), over the stores of the application, in which the exchange works on the same accounts
-- as the account mapper. App/Chain/Steps is about what these do to the exchange, and
-- App/Chain/Life is the life of the application: its initial state, then blocks and messages of
-- all modules in any order; the calls of the SDK's modules are parameters, which may panic and
-- may change the accounts, and not the store of the exchange. The genesis of x/clp has no fields
-- and is left out of the genesis state.
--
-- Not modelled: the JSON of handler results and sign bytes, the String methods, the codec
-- registration, the registration of REST routes and flags, the construction of the stores and
-- keepers of the application in app and its copy in hack.go, the daemon and client commands, and
-- the goroutines, limiter and log of the spam tool.
pub mod Base
pub mod Sdk
pub mod Exchange
pub mod Clp
pub mod Spam
pub mod Debug
pub mod App
