-- ===== src/Exchange/Fill.antt =====
-- `LimitOrder.DoesFill` of x/exchange/limit_order.go: whether a stored order fills an incoming one.
pub mod Laws
use thorchain_v.Base.{Bool, true, false, not, str_eq, ◌==◌, if◌then◌else◌}
use thorchain_v.Sdk.Types.{Coin}
use thorchain_v.Sdk.Coins.{CoinOps}
use thorchain_v.Sdk.Keeper.{Outcome, ok, panic}
use thorchain_v.Exchange.Orders.{OrderKind, LimitOrder, buy_order}

unfoldable pub does_fill :
    CoinOps → LimitOrder → OrderKind → Coin → Coin → Outcome (Bool × Coin × Coin)
does_fill C lo kind amount price =
    if not (str_eq lo.amount.denom amount.denom)
    then panic
    else if not (str_eq lo.price.denom price.denom)
    then panic
    else if lo.kind == kind
    then panic
    else let fill_amount = if not (C.is_gte amount lo.amount) then amount else lo.amount in
      if kind == buy_order
      then if C.is_gte price lo.price
        then ok (true, fill_amount, lo.price)
        else ok (false, fill_amount, lo.price)
      else if C.is_gte lo.price price
      then ok (true, fill_amount, lo.price)
      else ok (false, fill_amount, lo.price)
