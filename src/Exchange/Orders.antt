-- ===== src/Exchange/Orders.antt =====
-- x/exchange/limit_order.go and errors.go: the data of limit orders, and the errors.
use thorchain_v.Base.{ℕ, String, ◌≡◌, ◌⊎◌}
use thorchain_v.Base.Int.{ℤ}
use thorchain_v.Sdk.Types.{Address, Time, Coin, SdkError, new_error}

-- A byte; other values than the two constants can stand in a message.
abbrev pub OrderKind : Type 0
OrderKind = ℕ

abbrev pub buy_order : OrderKind
buy_order = 1

abbrev pub sell_order : OrderKind
sell_order = 2

-- One of the two kinds that the exchange supports.
abbrev pub IsKind : OrderKind → Type 0
IsKind kind = (kind ≡ buy_order) ⊎ (kind ≡ sell_order)

pub record LimitOrder : Type 0 where
  pub order_id : ℤ
  pub sender : Address
  pub kind : OrderKind
  pub amount : Coin
  pub price : Coin
  pub expires_at : Time

pub record ProcessedLimitOrder : Type 0 where
  pub order_id : ℤ
  pub open_amount : Coin

pub record FilledLimitOrder : Type 0 where
  pub order_id : ℤ
  pub filled_amount : Coin
  pub filled_price : Coin

abbrev pub new_limit_order : ℤ → Address → OrderKind → Coin → Coin → Time → LimitOrder
new_limit_order order_id sender kind amount price expires_at = record {
  order_id = order_id;
  sender = sender;
  kind = kind;
  amount = amount;
  price = price;
  expires_at = expires_at;
}

abbrev pub default_codespace : ℕ
default_codespace = 15

abbrev pub err_invalid_kind : ℕ → SdkError
err_invalid_kind codespace =
    new_error codespace 1 "kind must be 'buy' for buy orders or 'sell' for sell orders"

abbrev pub err_invalid_genesis : ℕ → String → SdkError
err_invalid_genesis codespace msg = new_error codespace 2 msg

abbrev pub err_order_expired : ℕ → SdkError
err_order_expired codespace = new_error codespace 3 "order must not be expired"

abbrev pub err_same_denom : ℕ → SdkError
err_same_denom codespace = new_error codespace 4 "denom of amount and price must not be the same"

abbrev pub err_amount_not_positive : ℕ → SdkError
err_amount_not_positive codespace = new_error codespace 5 "amount must be positive"

abbrev pub err_price_not_positive : ℕ → SdkError
err_price_not_positive codespace = new_error codespace 6 "price must be positive"

abbrev pub err_order_book_direction : ℕ → SdkError
err_order_book_direction codespace =
    new_error codespace 7
      "orderbook direction is not supported, please swap amount and price denoms"
