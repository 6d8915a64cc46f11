-- ===== src/Exchange/Samples.antt =====
-- An exchange keeper over the sample bank and store, for the tests.
use thorchain_v.Base.{refl, Bool, true, false, some}
use thorchain_v.Base.Int.{ℤ}
use thorchain_v.Sdk.Store.{Codec}
use thorchain_v.Sdk.Samples.Coins.{plain_coins, plain_coins-IsLawful}
use thorchain_v.Sdk.Samples.Bank.{journal_bank, journal_bank-IsLawful}
use thorchain_v.Sdk.Samples.Store.{list_store, list_store-IsLawful}
use thorchain_v.Exchange.Book.{OrderBook}
use thorchain_v.Exchange.Env.{Env, IsLawful}

-- The encoded values: an order book or an order id.
pub data Value : Type 0 where
  book : OrderBook → Value
  id : ℤ → Value

abbrev read_book : Value → OrderBook → Bool × OrderBook
read_book (book b) d = (true, b)
read_book (id n) d = (false, d)

abbrev read_id : Value → ℤ → Bool × ℤ
read_id (book b) d = (false, d)
read_id (id n) d = (true, n)

abbrev book_codec : Codec Value OrderBook
book_codec = record { marshal = λ b. some (book b); unmarshal = read_book }

abbrev id_codec : Codec Value ℤ
id_codec = record { marshal = λ n. some (id n); unmarshal = read_id }

abbrev pub sample_env : Env
sample_env = record {
  coins = plain_coins;
  bank = journal_bank;
  store = list_store Value;
  books = book_codec;
  ids = id_codec;
  codespace = 15;
}

abbrev pub sample_env-IsLawful : IsLawful sample_env
sample_env-IsLawful = record {
  coins = plain_coins-IsLawful;
  bank = journal_bank-IsLawful;
  store = list_store-IsLawful Value;
  books = record { encode = book; marshal_lem = λ a. refl; unmarshal_lem = λ a d. refl };
  ids = record { encode = id; marshal_lem = λ a. refl; unmarshal_lem = λ a d. refl };
}
