-- ===== src/Clp/Handler.antt =====
-- x/clp/handler.go.
use thorchain_v.Base.{Option, none, some}
use thorchain_v.Base.Int.{ℤ}
use thorchain_v.Sdk.Types.{unknown_request}
use thorchain_v.Sdk.Keeper.{Keeper, raise, pure, ◌>>=◌}
use thorchain_v.Clp.{MsgCreate, MsgTrade}
use thorchain_v.Clp.Env.{ClpEnv, Pools}
use thorchain_v.Clp.Keeper.{create, trade}

-- What is routed to the module: its messages, or one of another type.
pub data RoutedMsg : Type 0 where
  create_msg : MsgCreate → RoutedMsg
  trade_msg : MsgTrade → RoutedMsg
  unrecognized : RoutedMsg

module _ (E : ClpEnv) where
  -- The results of the handlers, before they are turned to text.
  unfoldable pub handle_msg_create : MsgCreate → Keeper (Pools E) (Unit {0})
  handle_msg_create msg =
      create E msg.sender msg.ticker msg.name msg.decimals msg.reserve_ratio msg.initial_supply
        msg.initial_base_coin_amount

  unfoldable pub handle_msg_trade : MsgTrade → Keeper (Pools E) (ℤ × ℤ)
  handle_msg_trade msg = trade E msg.sender msg.from_ticker msg.to_ticker msg.from_amount

  -- `NewHandler`; a trade has two amounts for its log.
  unfoldable pub new_handler : RoutedMsg → Keeper (Pools E) (Option (ℤ × ℤ))
  unfolding handle_msg_create handle_msg_trade
  new_handler (create_msg msg) = handle_msg_create msg >>= λ _. pure none
  new_handler (trade_msg msg) = handle_msg_trade msg >>= λ amounts. pure (some amounts)
  new_handler unrecognized = raise unknown_request
