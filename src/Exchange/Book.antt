-- ===== src/Exchange/Book.antt =====
-- x/exchange/order_book.go.
pub mod Insert
pub mod Order
pub mod Validity
pub mod Keys
use thorchain_v.Base.{
  ℕ, zero, suc, ◌+◌, ◌/◌, ◌%◌, ltb, String, ◌<>◌, Bool, true, false, not, Option, none, some, List,
  [], ◌∷◌, str_eq, ◌==◌, if◌then◌else◌, length, set, replicate,
}
use thorchain_v.Base.Int.{pos}
use thorchain_v.Sdk.Types.{Coin, SdkError, internal}
use thorchain_v.Sdk.Coins.{CoinOps}
use thorchain_v.Exchange.Orders.{OrderKind, LimitOrder, buy_order}

pub record OrderBook : Type 0 where
  pub key : String
  pub kind : OrderKind
  pub amount_denom : String
  pub price_denom : String
  pub orders : List LimitOrder

abbrev pub order_book_subspace : String
order_book_subspace = "orderBook:"

-- `%v` of a byte: its decimal digits.
abbrev digit : ℕ → String
digit zero = "0"
digit (suc zero) = "1"
digit (suc (suc zero)) = "2"
digit (suc (suc (suc zero))) = "3"
digit (suc (suc (suc (suc zero)))) = "4"
digit (suc (suc (suc (suc (suc zero))))) = "5"
digit (suc (suc (suc (suc (suc (suc zero)))))) = "6"
digit (suc (suc (suc (suc (suc (suc (suc zero))))))) = "7"
digit (suc (suc (suc (suc (suc (suc (suc (suc zero)))))))) = "8"
digit _ = "9"

unfoldable pub byte_text : ℕ → String
byte_text n =
    if ltb n 10
    then digit n
    else if ltb n 100
    then digit (n / 10) <> digit (n % 10)
    else digit (n / 100) <> (digit (n / 10 % 10) <> digit (n % 10))

-- The key of an order book in the store.
unfoldable pub make_key_order_book : OrderKind → String → String → String
make_key_order_book kind amount_denom price_denom =
    "orderBook:" <> (byte_text kind <> (":" <> (amount_denom <> (":" <> price_denom))))

unfoldable pub new_order_book : OrderKind → String → String → OrderBook
new_order_book kind amount_denom price_denom = record {
  key = make_key_order_book kind amount_denom price_denom;
  kind = kind;
  amount_denom = amount_denom;
  price_denom = price_denom;
  orders = [];
}

-- The zero value of a `LimitOrder`, with which `make` fills a slice.
abbrev pub zero_order : LimitOrder
zero_order = record {
  order_id = pos 0;
  sender = "";
  kind = 0;
  amount = record { denom = ""; amount = pos 0 };
  price = record { denom = ""; amount = pos 0 };
  expires_at = 0;
}

-- In a buy orderbook, highest prices come first, in a sell orderbook, lowest come first.
unfoldable pub should_insert_before : CoinOps → OrderKind → Coin → Coin → Bool
should_insert_before C kind order1_price order2_price =
    if kind == buy_order
    then if not (C.is_gte order2_price order1_price) then true else false
    else if not (C.is_gte order1_price order2_price)
    then true
    else false

module _ (C : CoinOps) (kind : OrderKind) (lo : LimitOrder) where
  -- One round of the loop over `ob.Orders`: at index `i`, with `added` and `newOrders`.
  abbrev pub insert_step : ℕ → Bool → LimitOrder → List LimitOrder → Bool × List LimitOrder
  insert_step i added order new_orders =
      if added
      then (true, set new_orders (i + 1) order)
      else if should_insert_before C kind lo.price order.price
      then (true, set (set new_orders i lo) (i + 1) order)
      else (false, set new_orders i order)

  unfoldable pub insert_loop : ℕ → Bool → List LimitOrder → List LimitOrder → Bool × List LimitOrder
  insert_loop i added [] new_orders = (added, new_orders)
  insert_loop i added (order ∷ orders) new_orders =
      let (added', new_orders') = insert_step i added order new_orders in
      insert_loop (i + 1) added' orders new_orders'

-- The body of `AddLimitOrder` behind its checks: the new orders of a book.
unfoldable pub insert_order : CoinOps → OrderKind → LimitOrder → List LimitOrder → List LimitOrder
unfolding insert_loop
insert_order C kind lo [] = lo ∷ []
insert_order C kind lo (o ∷ os) =
    let orders = o ∷ os in
    let (added, new_orders) =
      insert_loop C kind lo 0 false orders (replicate (length orders + 1) zero_order) in
    if not added then set new_orders (length orders) lo else new_orders

-- `AddLimitOrder`: the error, if any, and the book after it.
unfoldable pub add_limit_order : CoinOps → LimitOrder → OrderBook → Option SdkError × OrderBook
add_limit_order C lo ob =
    if not (str_eq ob.amount_denom lo.amount.denom)
    then (some internal, ob)
    else if not (str_eq ob.price_denom lo.price.denom)
    then (some internal, ob)
    else if not (ob.kind == lo.kind)
    then (some internal, ob)
    else (none, record ob { orders = insert_order C ob.kind lo ob.orders })

-- The loop of `RemoveFilledLimitOrders`.
unfoldable pub unfilled_orders : CoinOps → List LimitOrder → List LimitOrder
unfilled_orders C [] = []
unfilled_orders C (order ∷ orders) =
    let rest = unfilled_orders C orders in if C.is_zero order.amount then rest else order ∷ rest

unfoldable pub remove_filled_limit_orders : CoinOps → OrderBook → OrderBook
remove_filled_limit_orders C ob = record ob { orders = unfilled_orders C ob.orders }
