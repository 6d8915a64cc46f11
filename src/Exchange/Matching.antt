-- ===== src/Exchange/Matching.antt =====
-- Matching in x/exchange/keeper.go: an incoming order against the stored orders of one book.
pub mod Spec
pub mod Step
pub mod Loop
pub mod Money
pub mod Runs
pub mod Matched
pub mod Covered
use thorchain_v.Base.{Bool, not, Option, none, some, List, [], ◌∷◌, ◌++◌, ◌==◌, if◌then◌else◌}
use thorchain_v.Sdk.Types.{Address, Coin, SdkError}
use thorchain_v.Sdk.Keeper.{Keeper, Outcome, ok, err, panic, ◌>>=◌, ◌>>◌, pure, raise}
use thorchain_v.Sdk.Coins.{CoinOps}
use thorchain_v.Exchange.Orders.{OrderKind, LimitOrder, FilledLimitOrder, buy_order, sell_order}
use thorchain_v.Exchange.Fill.{does_fill}
use thorchain_v.Exchange.Book.{OrderBook, remove_filled_limit_orders}
use thorchain_v.Exchange.Env.{Env, World}
use thorchain_v.Exchange.Store.{get_order_book, set_order_book}

-- `getTotalPrice`; a product out of range is a panic.
unfoldable pub get_total_price : CoinOps → Coin → Coin → Outcome Coin
get_total_price C amt price = elim (C.mul amt.amount price.amount) [
  | none ↦ panic
  | some total ↦ ok (record { denom = price.denom; amount = total })
]

-- The book that an incoming order is matched with.
abbrev pub matching_kind : OrderKind → OrderKind
matching_kind kind = if kind == sell_order then buy_order else sell_order

-- One round of the loop: it ends, ends with an error, or fills a part of the stored order.
pub data FillStep : Type 0 where
  stop : FillStep
  failed : SdkError → FillStep
  filled : FilledLimitOrder → LimitOrder → Coin → FillStep

-- The orders, the amount that is left, the log and the error when the loop ends.
pub record Fills : Type 0 where
  pub orders : List LimitOrder
  pub unfilled : Coin
  pub filled : List FilledLimitOrder
  pub error : Option SdkError

-- `orderBook.Orders[i].Amount = …`: the order in its place, with the amount that it has left.
abbrev pub put_back : {S : Type 0} → LimitOrder → Outcome Fills × S → Outcome Fills × S
put_back order (ok fills, s) = (ok (record fills { orders = order ∷ fills.orders }), s)
put_back order (err e, s) = (err e, s)
put_back order (panic, s) = (panic, s)

-- What follows a round: the end of the loop, or the next round, `more`.
abbrev pub after_round :
    {S : Type 0}
    → List LimitOrder
    → Coin
    → List FilledLimitOrder
    → (Coin → List FilledLimitOrder → Keeper S Fills)
    → Outcome FillStep
    → Keeper S Fills
after_round orders unfilled done more (ok stop) s =
    (ok (record { orders = orders; unfilled = unfilled; filled = done; error = none }), s)
after_round orders unfilled done more (ok (failed e)) s =
    (ok (record { orders = orders; unfilled = unfilled; filled = done; error = some e }), s)
after_round orders unfilled done more (ok (filled log order' unfilled')) s =
    put_back order' (more unfilled' (done ++ log ∷ []) s)
after_round orders unfilled done more (err e) s = (err e, s)
after_round orders unfilled done more panic s = (panic, s)

module _ (E : Env) where
  -- The error of a call is a value here: the caller decides what it does.
  unfoldable pub send_and_unlock_coins :
      Address → Address → Coin → Coin → E.bank.State → Option SdkError × E.bank.State
  send_and_unlock_coins a b from_a_to_b unlock_for_a s =
      let (e, s') = E.bank.send_coins s a b from_a_to_b in
      elim e [ some e' ↦ (some e', s') | none ↦ E.bank.add_coins s' a unlock_for_a ]

  unfoldable pub has_order_sender_enough_coins : E.bank.State → LimitOrder → Coin → Coin → Bool
  has_order_sender_enough_coins s order total_amount total_price =
      if order.kind == buy_order
      then E.bank.has_coins s order.sender total_price
      else E.bank.has_coins s order.sender total_amount

  module _ (sender : Address) (kind : OrderKind) (price : Coin) where
    -- The coins that change hands, and what comes of the call that moves them.
    unfoldable pub settle :
        LimitOrder → Coin → Coin → Coin → Coin → E.bank.State → Outcome FillStep × E.bank.State
    settle order unfilled fill_amount fill_price fill_total_price s =
        let to_stored_sender = if kind == buy_order then fill_total_price else fill_amount in
        let to_unlock = if kind == buy_order then fill_amount else fill_total_price in
        let (e, s') = send_and_unlock_coins sender order.sender to_stored_sender to_unlock s in
        elim e [
          | some e' ↦ (ok (failed e'), s')
          | none ↦ (
            ok (
                filled
                  (record {
                    order_id = order.order_id;
                    filled_amount = fill_amount;
                    filled_price = fill_price;
                  })
                  (record order { amount = E.coins.minus order.amount fill_amount })
                  (E.coins.minus unfilled fill_amount)),
            s',
          )
        ]

    unfoldable pub fill_step : LimitOrder → Coin → Keeper E.bank.State FillStep
    fill_step order unfilled s =
        if E.coins.is_zero unfilled
        then (ok stop, s)
        else elim (does_fill E.coins order kind unfilled price) [
          | panic ↦ (panic, s)
          | err e ↦ (err e, s)
          | ok (fills, fill_amount, fill_price) ↦
              if not fills
              then (ok stop, s)
              else elim (get_total_price E.coins fill_amount fill_price) [
                | panic ↦ (panic, s)
                | err e ↦ (err e, s)
                | ok total ↦ settle order unfilled fill_amount fill_price total s
              ]
        ]

    -- The loop over `orderBook.Orders`; `done` is the log so far.
    unfoldable pub fill_orders :
        List LimitOrder → Coin → List FilledLimitOrder → Keeper E.bank.State Fills
    fill_orders [] unfilled done s =
        (ok (record { orders = []; unfilled = unfilled; filled = done; error = none }), s)
    fill_orders (order ∷ orders) unfilled done s =
        let (r, s') = fill_step order unfilled s in
        after_round (order ∷ orders) unfilled done (fill_orders orders) r s'

  -- A computation on the bank, in the two stores.
  abbrev pub on_bank : {A : Type 0} → Keeper E.bank.State A → Keeper (World E) A
  on_bank m w = let (r, s) = m w.bank in (r, record w { bank = s })

  -- With an error the book is saved all the same, and then the error is returned.
  unfoldable pub save_and_answer :
      OrderBook → Fills → Keeper (World E) (Coin × List FilledLimitOrder)
  save_and_answer order_book fills = do
    set_order_book E
        (remove_filled_limit_orders E.coins (record order_book { orders = fills.orders }))
    elim fills.error [ none ↦ pure (fills.unfilled, fills.filled) | some e ↦ raise e ]

  unfoldable pub fill_order_if_possible :
      Address → OrderKind → Coin → Coin → Keeper (World E) (Coin × List FilledLimitOrder)
  unfolding save_and_answer
  fill_order_if_possible sender kind amount price = do
    order_book ← get_order_book E (matching_kind kind) amount.denom price.denom
    fills ← on_bank (fill_orders sender kind price order_book.orders amount [])
    save_and_answer order_book fills
