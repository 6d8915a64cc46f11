-- ===== src/Exchange/Tests.antt =====
-- Small worlds for the tests of the exchange.
mod Process
mod Chain
mod Books
use thorchain_v.Base.{
  ℕ, ◌≡◌, ◌≢◌, ◌⊎◌, ◌↔◌, refl, String, true, false, Option, none, some, List, [], ◌∷◌, arith, inl,
  inr, All,
}
use thorchain_v.Base.Int.{ℤ, pos, ◌+ℤ◌, ◌-ℤ◌, ◌*ℤ◌, ◌≤ℤ◌, to_int64, InInt64}
use thorchain_v.Sdk.Types.{Coin, Address, internal, before}
use thorchain_v.Sdk.Keeper.{Outcome, ok, err, panic}
use thorchain_v.Sdk.Samples.Bank.{Journal, credit, debit}
use thorchain_v.Sdk.Samples.Coins.{plain_coins, plain_coins-IsLawful}
use thorchain_v.Exchange.Orders.{
  LimitOrder, ProcessedLimitOrder, FilledLimitOrder, IsKind, buy_order, sell_order, new_limit_order,
}
use thorchain_v.Exchange.Env.{World}
use thorchain_v.Exchange.Book.{OrderBook, make_key_order_book, byte_text, add_limit_order}
use thorchain_v.Exchange.Book.Keys.{NoColon, make_key_order_book-injective}
use thorchain_v.Exchange.Book.Validity.{FitsBook, IsValid}
use thorchain_v.Exchange.Store.Ids.{IsReadable, with_next-IsReadable}
use thorchain_v.Exchange.Store.Laws.{
  IsBookOf, IsValidStore, new_order_book-IsBookOf, set_other-IsValidStore, set-IsValidStore,
}
use thorchain_v.Exchange.Process.{process_limit_order}
use thorchain_v.Exchange.Process.Keeps.{Keeps}
use thorchain_v.Exchange.Process.Whole.{process_limit_order-Keeps}
use thorchain_v.Exchange.Samples.{Value, sample_env, sample_env-IsLawful}

abbrev pub eth : ℕ → Coin
eth n = record { denom = "ETH"; amount = pos n }

abbrev pub rune : ℕ → Coin
rune n = record { denom = "RUNE"; amount = pos n }

-- Ann has ETH and Bob has RUNE; no order is stored.
abbrev pub start : World sample_env
start = record {
  bank = credit "ann" (eth 10) ∷ credit "bob" (rune 100) ∷ [];
  store = ("nextOrderID", Value.id (pos 2)) ∷ [];
}

-- Ann's offer of 5 ETH at 7 RUNE each, the first order.
abbrev pub ann_sells : LimitOrder
ann_sells = new_limit_order (pos 1) "ann" sell_order (eth 5) (rune 7) 9

abbrev pub eth_book : OrderBook
eth_book = record {
  key = "orderBook:2:ETH:RUNE";
  kind = sell_order;
  amount_denom = "ETH";
  price_denom = "RUNE";
  orders = ann_sells ∷ [];
}

-- The offer is stored, and its coins are locked.
abbrev pub offered : World sample_env
offered = record {
  bank = debit "ann" (eth 5) ∷ start.bank;
  store = ("nextOrderID", Value.id (pos 2)) ∷ ("orderBook:2:ETH:RUNE", Value.book eth_book) ∷ [];
}

pub eth-NoColon : NoColon "ETH"
eth-NoColon = ground arith

pub start-IsValidStore : IsValidStore sample_env start.store
start-IsValidStore =
    set_other-IsValidStore sample_env sample_env-IsLawful [] "nextOrderID" (Value.id (pos 2)) refl
      (record { books = λ kind ad pd k n. new_order_book-IsBookOf kind ad pd; entries = tt })

pub ann_sells-FitsBook : FitsBook (pos 1) eth_book ann_sells
unfolding ◌*ℤ◌
ann_sells-FitsBook = record {
  kind_fits = refl;
  amount_fits = refl;
  price_fits = refl;
  amount_least = omega arith;
  price_positive = omega arith;
  total_in_range = omega arith;
}

pub eth_book-IsValid : IsValid eth_book
eth_book-IsValid = record { fits = (ann_sells-FitsBook, tt); sorted = (tt, tt) }

pub eth_book-IsBookOf : IsBookOf sell_order "ETH" "RUNE" eth_book
unfolding make_key_order_book byte_text
eth_book-IsBookOf = record {
  key_is = refl;
  kind_is = refl;
  amount_is = refl;
  price_is = refl;
  valid = eth_book-IsValid;
}

pub offered-IsValidStore : IsValidStore sample_env offered.store
offered-IsValidStore =
    set-IsValidStore sample_env sample_env-IsLawful start.store eth_book sell_order "ETH" "RUNE"
      (inr refl) eth-NoColon eth_book-IsBookOf start-IsValidStore

pub offered-IsReadable : IsReadable sample_env sample_env-IsLawful offered.store
offered-IsReadable bz e = ground (arith, e)
