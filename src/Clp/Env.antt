-- ===== src/Clp/Env.antt =====
-- What the keeper of x/clp/keeper.go holds and calls: as for the exchange, and `float64`.
use thorchain_v.Base.{String}
use thorchain_v.Base.Int.{ℤ}
use thorchain_v.Sdk.Coins
use thorchain_v.Sdk.Coins.{CoinOps}
use thorchain_v.Sdk.Bank
use thorchain_v.Sdk.Bank.{Bank}
use thorchain_v.Sdk.Store
use thorchain_v.Sdk.Store.{KvStore, Codec, IsLawfulCodec}
use thorchain_v.Clp.{Clp}

-- `float64`: the conversions, `+`, `-`, `*`, `/`, `math.Pow`, and `int64(math.Round(y))`.
pub record Floats : Type 1 where
  pub Float : Type 0
  pub of_int64 : ℤ → Float
  pub plus : Float → Float → Float
  pub minus : Float → Float → Float
  pub times : Float → Float → Float
  pub over : Float → Float → Float
  pub pow : Float → Float → Float
  pub round_to_int64 : Float → ℤ

pub record ClpEnv : Type 1 where
  pub coins : CoinOps
  pub bank : Bank
  pub store : KvStore
  pub pools : Codec store.Bytes Clp
  pub floats : Floats
  pub base_coin_ticker : String

pub record IsLawful (E : ClpEnv) : Type 0 where
  pub coins : Coins.IsLawful E.coins
  pub bank : Bank.IsLawful E.bank
  pub store : Store.IsLawful E.store
  pub pools : IsLawfulCodec E.pools

pub record Pools (E : ClpEnv) : Type 0 where
  pub bank : E.bank.State
  pub store : E.store.State
