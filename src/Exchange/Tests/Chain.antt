-- ===== src/Exchange/Tests/Chain.antt =====
-- The first blocks of a small chain.
use thorchain_v.Base.{◌≡◌, refl, [], ◌∷◌}
use thorchain_v.Base.Int.{pos, ◌*ℤ◌, ◌+ℤ◌, to_int64}
use thorchain_v.Sdk.Keeper.{ok}
use thorchain_v.Exchange.Orders.{buy_order, sell_order}
use thorchain_v.Exchange.Env.{World}
use thorchain_v.Exchange.Samples.{Value, sample_env, sample_env-IsLawful}
use thorchain_v.Exchange.Tests.{eth, rune, start, offered, eth_book, eth-NoColon}
use thorchain_v.Exchange.Book.{
  OrderBook, insert_order, make_key_order_book, byte_text, new_order_book,
  remove_filled_limit_orders, add_limit_order, unfilled_orders,
}
use thorchain_v.Exchange.Store.{
  set_initial_order_id, get_order_book, set_order_book, get_new_order_id,
}
use thorchain_v.Exchange.Matching.{get_total_price, fill_order_if_possible, fill_orders}
use thorchain_v.Exchange.Process.{process_limit_order, store_unfilled_limit_order}
use thorchain_v.Exchange.Message.{init_genesis, handle_msg_create_limit_order, MsgCreateLimitOrder}
use thorchain_v.Exchange.Process.Keeps.{IsKept}
use thorchain_v.Exchange.Refund.Whole.{refund_expired_limit_orders-IsKept}
use thorchain_v.Exchange.Refund.{refund_expired_limit_orders}
use thorchain_v.Exchange.Tests.{offered-IsValidStore, offered-IsReadable}
use thorchain_v.Exchange.Chain.{Reach, genesis, message, IsFresh, Reach-IsKept}

abbrev nothing_stored : World sample_env
nothing_stored = record start { store = [] }

nothing_stored-IsFresh : IsFresh sample_env sample_env-IsLawful nothing_stored.store
nothing_stored-IsFresh = record { nothing = λ k. refl; nothing_visited = refl }

abbrev born : World sample_env
born = record start { store = ("nextOrderID", Value.id (pos 1)) ∷ [] }

born-Reach : Reach sample_env sample_env-IsLawful nothing_stored born
unfolding init_genesis set_initial_order_id
born-Reach = genesis (record { starting_order_id = pos 1 }) born refl

abbrev ann_offers : MsgCreateLimitOrder
ann_offers = record {
  sender = "ann";
  kind = sell_order;
  amount = eth 5;
  price = rune 7;
  expires_at = 9;
}

-- Beside the new book, the empty one on the other side has been saved.
abbrev no_bids : OrderBook
no_bids = record {
  key = "orderBook:1:ETH:RUNE";
  kind = buy_order;
  amount_denom = "ETH";
  price_denom = "RUNE";
  orders = [];
}

abbrev after_offer : World sample_env
after_offer = record {
  bank = offered.bank;
  store =
      ("nextOrderID", Value.id (pos 2))
      ∷ ("orderBook:1:ETH:RUNE", Value.book no_bids)
      ∷ ("orderBook:2:ETH:RUNE", Value.book eth_book)
      ∷ [];
}

after_offer-Reach : Reach sample_env sample_env-IsLawful nothing_stored after_offer
unfolding handle_msg_create_limit_order process_limit_order get_total_price ◌*ℤ◌ ◌+ℤ◌
    fill_order_if_possible get_order_book make_key_order_book byte_text fill_orders new_order_book
    set_order_book store_unfilled_limit_order get_new_order_id remove_filled_limit_orders
    add_limit_order to_int64 unfilled_orders insert_order
after_offer-Reach = message 0 ann_offers born after_offer _ eth-NoColon born-Reach refl

Reach-IsKept_example : IsKept sample_env sample_env-IsLawful nothing_stored after_offer
Reach-IsKept_example =
    Reach-IsKept sample_env sample_env-IsLawful nothing_stored after_offer nothing_stored-IsFresh
      after_offer-Reach

refund_expired_limit_orders-IsKept_example :
    (v : World sample_env) × (refund_expired_limit_orders sample_env 20 offered ≡ (ok tt, v))
    × IsKept sample_env sample_env-IsLawful offered v
refund_expired_limit_orders-IsKept_example =
    refund_expired_limit_orders-IsKept sample_env sample_env-IsLawful 20 offered
      offered-IsValidStore offered-IsReadable
