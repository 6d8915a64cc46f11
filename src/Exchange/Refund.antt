-- ===== src/Exchange/Refund.antt =====
-- `refundExpiredLimitOrders` of x/exchange/keeper.go, which begin_blocker.go calls for every block.
-- `now` stands for `time.Now()`.
pub mod Laws
mod Updated
pub mod Whole
use thorchain_v.Base.{
  String, Bool, true, false, ◌||◌, Option, none, some, List, [], ◌∷◌, ◌++◌, ◌==◌, if◌then◌else◌,
}
use thorchain_v.Sdk.Types.{Coin, Time, before, SdkError}
use thorchain_v.Sdk.Keeper.{Keeper, Outcome, ok, err, panic, ◌>>=◌, ◌>>◌, pure, lift}
use thorchain_v.Exchange.Orders.{LimitOrder, buy_order}
use thorchain_v.Exchange.Book.{OrderBook, order_book_subspace}
use thorchain_v.Exchange.Env.{Env, World}
use thorchain_v.Exchange.Store.{zero_book, set_order_book}
use thorchain_v.Exchange.Matching.{get_total_price}
use thorchain_v.Exchange.Process.{bank_call}

-- The orders that are kept, and those that are refunded.
unfoldable pub split_expired : Time → List LimitOrder → List LimitOrder × List LimitOrder
split_expired now [] = ([], [])
split_expired now (order ∷ orders) =
    let (kept, expired) = split_expired now orders in
    if before order.expires_at now then (kept, order ∷ expired) else (order ∷ kept, expired)

-- A book with an expired order is updated.
abbrev pub update_book :
    OrderBook → List LimitOrder → List LimitOrder → List OrderBook → List OrderBook
update_book ob kept [] books = books
update_book ob kept (order ∷ expired) books = record ob { orders = kept } ∷ books

-- The books to update, and the orders to refund.
unfoldable pub collect_expired : Time → List OrderBook → List OrderBook × List LimitOrder
unfolding split_expired
collect_expired now [] = ([], [])
collect_expired now (ob ∷ obs) =
    let (books, refunds) = collect_expired now obs in
    let (kept, expired) = split_expired now ob.orders in
    (update_book ob kept expired books, expired ++ refunds)

module _ (E : Env) where
  -- The values under the iterator, decoded; the error of `UnmarshalBinary` is not looked at.
  abbrev pub books_of : List (String × E.store.Bytes) → List OrderBook
  books_of [] = []
  books_of ((k, bz) ∷ es) = (E.books.unmarshal bz zero_book).1 ∷ books_of es

  unfoldable pub save_books : List OrderBook → Keeper (World E) (Unit {0})
  save_books [] = pure tt
  save_books (ob ∷ obs) = do set_order_book E ob; save_books obs

  -- An error of `AddCoins` is a panic here.
  abbrev pub panic_at : Option SdkError → Keeper (World E) (Unit {0})
  panic_at none = pure tt
  panic_at (some e) = lift panic

  unfoldable pub refund_order : LimitOrder → Keeper (World E) (Unit {0})
  refund_order order = do
    coins_to_unlock ←
        (if order.kind == buy_order
          then lift (get_total_price E.coins order.amount order.price)
          else pure order.amount)
    e ← bank_call E (λ s. E.bank.add_coins s order.sender coins_to_unlock)
    panic_at e

  unfoldable pub refund_orders : List LimitOrder → Keeper (World E) (Unit {0})
  unfolding refund_order
  refund_orders [] = pure tt
  refund_orders (order ∷ orders) = do refund_order order; refund_orders orders

  unfoldable pub refund_expired_limit_orders : Time → Keeper (World E) (Unit {0})
  unfolding collect_expired save_books refund_orders
  refund_expired_limit_orders now w =
      let (books, refunds) =
        collect_expired now (books_of (E.store.iterate w.store order_book_subspace)) in
      (save_books books >> refund_orders refunds) w
