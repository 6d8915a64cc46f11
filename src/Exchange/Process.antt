-- ===== src/Exchange/Process.antt =====
-- `processLimitOrder` and `storeUnfilledLimitOrder` of x/exchange/keeper.go. `now` stands for
-- `time.Now()`.
pub mod Filling
pub mod Keeps
pub mod Storing
pub mod Checks
pub mod Whole
use thorchain_v.Base.{not, ◌&&◌, Option, List, str_eq, ◌==◌, if◌then◌else◌}
use thorchain_v.Sdk.Types.{Address, Coin, Time, before, SdkError, insufficient_coins}
use thorchain_v.Sdk.Keeper.{Keeper, ok, ◌>>=◌, ◌>>◌, pure, raise_if, check, lift, gets}
use thorchain_v.Exchange.Orders.{
  OrderKind, LimitOrder, ProcessedLimitOrder, FilledLimitOrder, new_limit_order, buy_order,
  sell_order, err_order_expired, err_invalid_kind, err_same_denom, err_amount_not_positive,
  err_price_not_positive,
}
use thorchain_v.Exchange.Book.{OrderBook, add_limit_order}
use thorchain_v.Exchange.Env.{Env, World}
use thorchain_v.Exchange.Store.{get_order_book, set_order_book, get_new_order_id}
use thorchain_v.Exchange.Matching.{get_total_price, fill_order_if_possible}

module _ (E : Env) where
  -- A bank call in the two stores, whose error is a value.
  abbrev pub bank_call :
      (E.bank.State → Option SdkError × E.bank.State) → Keeper (World E) (Option SdkError)
  bank_call f w = let (e, s) = f w.bank in (ok e, record w { bank = s })

  -- The part of `storeUnfilledLimitOrder` for an amount that is not zero.
  unfoldable pub store_order : OrderBook → LimitOrder → Keeper (World E) ProcessedLimitOrder
  store_order order_book limit_order = do
    let (e, order_book') = add_limit_order E.coins limit_order order_book
    check e
    coin_to_lock ←
        (if limit_order.kind == buy_order
          then lift (get_total_price E.coins limit_order.amount limit_order.price)
          else pure limit_order.amount)
    e' ← bank_call (λ s. E.bank.subtract_coins s limit_order.sender coin_to_lock)
    check e'
    set_order_book E order_book'
    pure (record { order_id = limit_order.order_id; open_amount = limit_order.amount })

  unfoldable pub store_unfilled_limit_order :
      Address → OrderKind → Coin → Coin → Time → Keeper (World E) ProcessedLimitOrder
  unfolding store_order
  store_unfilled_limit_order sender kind amount price expires_at = do
    new_order_id ← get_new_order_id E
    (if E.coins.is_zero amount
        then pure (record { order_id = new_order_id; open_amount = amount })
        else (get_order_book E kind amount.denom price.denom >>= λ order_book.
            store_order order_book
              (new_limit_order new_order_id sender kind amount price expires_at)))

  -- The checks of `processLimitOrder`, in their order.
  unfoldable pub check_order :
      Time → Address → OrderKind → Coin → Coin → Time → Keeper (World E) (Unit {0})
  check_order now sender kind amount price expires_at = do
    raise_if (before expires_at now) (err_order_expired E.codespace)
    raise_if (not (kind == buy_order) && not (kind == sell_order)) (err_invalid_kind E.codespace)
    raise_if (str_eq amount.denom price.denom) (err_same_denom E.codespace)
    raise_if (not (E.coins.is_positive amount)) (err_amount_not_positive E.codespace)
    raise_if (not (E.coins.is_positive price)) (err_price_not_positive E.codespace)
    total_price ← lift (get_total_price E.coins amount price)
    has_total ← gets (λ w. E.bank.has_coins w.bank sender total_price)
    raise_if (kind == buy_order && not has_total) insufficient_coins
    has_amount ← gets (λ w. E.bank.has_coins w.bank sender amount)
    raise_if (kind == sell_order && not has_amount) insufficient_coins

  unfoldable pub process_limit_order :
      Time
      → Address
      → OrderKind
      → Coin
      → Coin
      → Time
      → Keeper (World E) (ProcessedLimitOrder × List FilledLimitOrder)
  unfolding check_order
  process_limit_order now sender kind amount price expires_at = do
    check_order now sender kind amount price expires_at
    result ← fill_order_if_possible E sender kind amount price
    processed_order ← store_unfilled_limit_order sender kind result.0 price expires_at
    pure (processed_order, result.1)
