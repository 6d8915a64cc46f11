-- ===== src/Exchange/Env.antt =====
-- What the keeper of x/exchange/keeper.go holds and calls: the coin methods, the bank keeper, its
-- key-value store, the codec at the two types that it stores, and its codespace.
use thorchain_v.Base.{ℕ}
use thorchain_v.Base.Int.{ℤ}
use thorchain_v.Sdk.Coins
use thorchain_v.Sdk.Coins.{CoinOps}
use thorchain_v.Sdk.Bank
use thorchain_v.Sdk.Bank.{Bank}
use thorchain_v.Sdk.Store
use thorchain_v.Sdk.Store.{KvStore, Codec, IsLawfulCodec}
use thorchain_v.Exchange.Book.{OrderBook}

pub record Env : Type 1 where
  pub coins : CoinOps
  pub bank : Bank
  pub store : KvStore
  pub books : Codec store.Bytes OrderBook
  pub ids : Codec store.Bytes ℤ
  pub codespace : ℕ

pub record IsLawful (E : Env) : Type 0 where
  pub coins : Coins.IsLawful E.coins
  pub bank : Bank.IsLawful E.bank
  pub store : Store.IsLawful E.store
  pub books : IsLawfulCodec E.books
  pub ids : IsLawfulCodec E.ids

-- The two stores that a keeper method works on.
pub record World (E : Env) : Type 0 where
  pub bank : E.bank.State
  pub store : E.store.State
