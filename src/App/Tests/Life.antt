-- ===== src/App/Tests/Life.antt =====
-- A chain that starts with one account, whose owner offers coins.
use thorchain_v.Base.{◌≡◌, refl, [], ◌∷◌}
use thorchain_v.Base.Int.{pos, ◌*ℤ◌, ◌+ℤ◌, to_int64}
use thorchain_v.Sdk.Keeper.{ok}
use thorchain_v.Exchange.Orders.{sell_order}
use thorchain_v.Exchange.Book.{
  insert_order, make_key_order_book, byte_text, new_order_book, remove_filled_limit_orders,
  add_limit_order, unfilled_orders,
}
use thorchain_v.Exchange.Book.Keys.{NoColon}
use thorchain_v.Exchange.Store.{
  set_initial_order_id, get_order_book, set_order_book, get_new_order_id,
}
use thorchain_v.Exchange.Matching.{get_total_price, fill_order_if_possible, fill_orders}
use thorchain_v.Exchange.Process.{process_limit_order, store_unfilled_limit_order}
use thorchain_v.Exchange.Message
use thorchain_v.Exchange.Message.{
  init_genesis, handle_msg_create_limit_order, MsgCreateLimitOrder, new_handler,
}
use native.Mathlib.Omega.{arith}
use thorchain_v.Exchange.Samples.{sample_env-IsLawful}
use thorchain_v.App.Genesis.{GenesisState}
use thorchain_v.App.Chain.{
  Stores, AppMsg, exchange_msg, init_chainer, deliver, app_begin_blocker, load_accounts, init_state,
  start_modules,
}
use thorchain_v.App.Chain.Life.{Life, started, delivered, Life-begins}
use thorchain_v.App.Chain.Steps.{IsSound}
use thorchain_v.App.Samples.{whole_staking, whole_pool_ops, sample_app}

abbrev unborn : Stores sample_app
unborn = record { bank = []; others = tt; exchange = []; pools = [] }

abbrev genesis : GenesisState whole_staking whole_pool_ops
genesis = record {
  accounts = record { address = "ann"; coins = record { denom = "ETH"; amount = pos 5 } ∷ [] } ∷ [];
  stake_data = whole_pool_ops.default_genesis_state;
  exchange_data = record { starting_order_id = pos 1 };
}

abbrev born : Stores sample_app
born = (init_chainer sample_app genesis unborn).1

abbrev offer : AppMsg sample_app
offer = exchange_msg (
    Message.limit_order (record {
      sender = "ann";
      kind = sell_order;
      amount = record { denom = "ETH"; amount = pos 5 };
      price = record { denom = "RUNE"; amount = pos 7 };
      expires_at = 9;
    }))

abbrev offered : Stores sample_app
offered = (deliver sample_app 0 offer born).1

eth-NoColon : NoColon "ETH"
eth-NoColon = ground arith

born-Life : Life sample_app sample_env-IsLawful unborn born
unfolding init_chainer init_state start_modules init_genesis set_initial_order_id load_accounts
born-Life = started genesis [] born refl

offered-Life : Life sample_app sample_env-IsLawful unborn offered
unfolding deliver new_handler handle_msg_create_limit_order process_limit_order get_total_price ◌*ℤ◌
    ◌+ℤ◌ fill_order_if_possible get_order_book make_key_order_book byte_text fill_orders
    new_order_book set_order_book store_unfilled_limit_order get_new_order_id
    remove_filled_limit_orders add_limit_order to_int64 unfilled_orders insert_order init_chainer
    init_genesis set_initial_order_id
offered-Life = delivered 0 offer born offered eth-NoColon born-Life refl

Life-begins_example :
    (t : Stores sample_app) × (app_begin_blocker sample_app 20 tt offered ≡ (ok tt, t))
    × IsSound sample_app sample_env-IsLawful t.exchange
Life-begins_example =
    Life-begins sample_app sample_env-IsLawful unborn offered 20 tt tt
      (offered.bank, offered.others) (record { nothing = λ k. refl; nothing_visited = refl })
      offered-Life refl
