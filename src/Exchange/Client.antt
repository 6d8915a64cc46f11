-- ===== src/Exchange/Client.antt =====
-- x/exchange/client: what cli/cli.go and rest/query_orderbook.go share.
pub mod Rest
pub mod Cli
pub mod Shown
pub mod Sent
mod Tests
use thorchain_v.Base.{String, Bool, true, false, Option, none, some, List, if◌then◌else◌}
use thorchain_v.Sdk.Types.{Address, Coin, Time, SdkError}
use thorchain_v.Sdk.Web.{Call, done, error}
use thorchain_v.Exchange.Orders.{OrderKind}
use thorchain_v.Exchange.Book.{OrderBook, new_order_book}
use thorchain_v.Exchange.Env.{Env}
use thorchain_v.Exchange.Store.{zero_book}
use thorchain_v.Exchange.Message.{MsgCreateLimitOrder}

pub record QueryOrderbookBody : Type 0 where
  pub kind : String
  pub amount_denom : String
  pub price_denom : String

-- The flags of `create-limit-order`.
pub record OrderFlags : Type 0 where
  pub kind : String
  pub amount : String
  pub price : String
  pub expires_at : String

-- The node, the texts of values, and the SDK's client.
pub record ClientEnv : Type 1 where
  pub exchange : Env
  -- `QueryStore`; `none` is a nil slice
  pub query_store : String → Call (Option exchange.store.Bytes)
  pub is_empty : exchange.store.Bytes → Bool
  pub marshal_json_indent : OrderBook → Call String
  pub error_text : SdkError → String
  -- what was read of a body, and `UnmarshalJSON`
  pub Body : Type 0
  pub unmarshal_body : Body → Call QueryOrderbookBody
  -- `GetFromAddress`, `sdk.ParseCoin` and `time.Parse`
  pub get_from_address : Call Address
  pub parse_coin : String → Call Coin
  pub parse_time : String → Call Time
  -- `utils.SendTx`, with the error, if there is one
  pub State : Type 0
  pub send_tx : List MsgCreateLimitOrder → State → Option String × State

module _ (E : ClientEnv) where
  -- The stored order book, or a new one where nothing is stored; `none` is the panic of
  -- `MustUnmarshalBinary`.
  abbrev pub must_unmarshal : Bool × OrderBook → Option OrderBook
  must_unmarshal (true, orderbook) = some orderbook
  must_unmarshal (false, orderbook) = none

  abbrev pub orderbook_of :
      OrderKind → String → String → Option E.exchange.store.Bytes → Option OrderBook
  orderbook_of kind amount_denom price_denom none =
      some (new_order_book kind amount_denom price_denom)
  orderbook_of kind amount_denom price_denom (some res) =
      if E.is_empty res
      then some (new_order_book kind amount_denom price_denom)
      else must_unmarshal (E.exchange.books.unmarshal res zero_book)

  -- The kind that a text stands for, or the error.
  abbrev pub kind_of : OrderKind × Option SdkError → Call OrderKind
  kind_of (kind, none) = done kind
  kind_of (kind, some e) = error (E.error_text e)
