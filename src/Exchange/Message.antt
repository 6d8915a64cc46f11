-- ===== src/Exchange/Message.antt =====
-- x/exchange/msg_create_limit_order.go, handler.go, genesis.go and begin_blocker.go.
pub mod Direction
pub mod Genesis
use Prim.Native.String.{compare, len}
use Prim.Native.Nat.{Ordering}
use thorchain_v.Base.{
  String, Bool, true, false, not, ◌&&◌, ◌||◌, Option, none, some, str_eq, ◌==◌, if◌then◌else◌, List,
  [], ◌∷◌,
}
use thorchain_v.Base.Int.{ℤ, pos, negsuc}
use thorchain_v.Sdk.Types.{Address, Coin, Time, SdkError, before, unknown_address, unknown_request}
use thorchain_v.Sdk.Keeper.{Keeper, Outcome, ok, err, panic, raise}
use thorchain_v.Exchange.Orders.{
  OrderKind, ProcessedLimitOrder, FilledLimitOrder, buy_order, sell_order, default_codespace,
  err_invalid_kind, err_same_denom, err_order_book_direction, err_order_expired,
}
use thorchain_v.Exchange.Env.{Env, World}
use thorchain_v.Exchange.Store.{set_initial_order_id, get_new_order_id}
use thorchain_v.Exchange.Process.{process_limit_order}
use thorchain_v.Exchange.Refund.{refund_expired_limit_orders}

pub record MsgCreateLimitOrder : Type 0 where
  pub sender : Address
  pub kind : OrderKind
  pub amount : Coin
  pub price : Coin
  pub expires_at : Time

-- What is routed to the module: its message, or one of another type.
pub data RoutedMsg : Type 0 where
  limit_order : MsgCreateLimitOrder → RoutedMsg
  unrecognized : RoutedMsg

-- The kind, and the error, of `ParseKind`.
abbrev pub parse_kind : String → OrderKind × Option SdkError
parse_kind str =
    if str_eq str "buy"
    then (buy_order, none)
    else if str_eq str "sell"
    then (sell_order, none)
    else (3, some (err_invalid_kind default_codespace))

abbrev pub get_signers : MsgCreateLimitOrder → List Address
get_signers msg = msg.sender ∷ []

-- `s < t` on Go strings, which compares bytes.
abbrev pub str_ltb : String → String → Bool
str_ltb s t = elim (compare s t) [ Ordering.lt ↦ true | _ ↦ false ]

-- The test for `ErrOrderBookDirection`.
unfoldable pub wrong_direction : String → String → Bool
wrong_direction amount_denom price_denom =
    str_eq amount_denom "RUNE"
    || (not (str_eq price_denom "RUNE") && str_ltb amount_denom price_denom)

-- `now` stands for `time.Now()`.
unfoldable pub validate_basic : Time → MsgCreateLimitOrder → Option SdkError
unfolding wrong_direction
validate_basic now msg =
    if not (msg.kind == buy_order) && not (msg.kind == sell_order)
    then some (err_invalid_kind default_codespace)
    else if str_eq msg.amount.denom msg.price.denom
    then some (err_same_denom default_codespace)
    else if wrong_direction msg.amount.denom msg.price.denom
    then some (err_order_book_direction default_codespace)
    else if before msg.expires_at now
    then some (err_order_expired default_codespace)
    else if len msg.sender == 0
    then some unknown_address
    else none

pub record GenesisState : Type 0 where
  pub starting_order_id : ℤ

abbrev pub default_genesis_state : GenesisState
default_genesis_state = record { starting_order_id = pos 1 }

module _ (E : Env) where
  -- The result of the handler, before it is turned to JSON: the two answers, or the error.
  unfoldable pub handle_msg_create_limit_order :
      Time → MsgCreateLimitOrder → Keeper (World E) (ProcessedLimitOrder × List FilledLimitOrder)
  handle_msg_create_limit_order now msg =
      process_limit_order E now msg.sender msg.kind msg.amount msg.price msg.expires_at

  -- `NewHandler`.
  unfoldable pub new_handler :
      Time → RoutedMsg → Keeper (World E) (ProcessedLimitOrder × List FilledLimitOrder)
  unfolding handle_msg_create_limit_order
  new_handler now (limit_order msg) = handle_msg_create_limit_order now msg
  new_handler now unrecognized = raise unknown_request

  -- An error is a panic here.
  abbrev panic_at_error : {A : Type 0} → Outcome A × World E → Outcome A × World E
  panic_at_error (ok a, w) = (ok a, w)
  panic_at_error (err e, w) = (panic, w)
  panic_at_error (panic, w) = (panic, w)

  unfoldable pub init_genesis : GenesisState → Keeper (World E) (Unit {0})
  init_genesis genesis w = panic_at_error (set_initial_order_id E genesis.starting_order_id w)

  -- The error of `getNewOrderID` is dropped, and its id is -1 then.
  abbrev starting_id : Outcome ℤ × World E → Outcome GenesisState × World E
  starting_id (ok id, w) = (ok (record { starting_order_id = id }), w)
  starting_id (err e, w) = (ok (record { starting_order_id = negsuc 0 }), w)
  starting_id (panic, w) = (panic, w)

  unfoldable pub write_genesis : Keeper (World E) GenesisState
  write_genesis w = starting_id (get_new_order_id E w)

  -- `BeginBlocker`; `now` stands for `time.Now()`.
  unfoldable pub begin_blocker : Time → Keeper (World E) (Unit {0})
  begin_blocker now = refund_expired_limit_orders E now
