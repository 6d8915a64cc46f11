-- ===== src/Exchange/Client/Cli.antt =====
-- x/exchange/client/cli/cli.go.
use thorchain_v.Base.{String, Option, none, some, [], ◌∷◌}
use thorchain_v.Sdk.Types.{Time}
use thorchain_v.Sdk.Command.{Command, ran, stopped, crashed, or_stop, check, ◌>>=◌, ◌>>◌}
use thorchain_v.Exchange.Book.{OrderBook, make_key_order_book}
use thorchain_v.Exchange.Message.{MsgCreateLimitOrder, parse_kind, validate_basic}
use thorchain_v.Exchange.Client.{ClientEnv, OrderFlags, orderbook_of, kind_of}

abbrev pub or_crashed : Option OrderBook → Command OrderBook
or_crashed none = crashed
or_crashed (some orderbook) = ran orderbook

module _ (E : ClientEnv) where
  -- `query-orderbook` with its three flags, and the text that it prints.
  unfoldable pub query_orderbook : String → String → String → Command String
  query_orderbook kind_text amount_denom price_denom = do
    kind ← or_stop (kind_of E (parse_kind kind_text))
    res ← or_stop (E.query_store (make_key_order_book kind amount_denom price_denom))
    orderbook ← or_crashed (orderbook_of E kind amount_denom price_denom res)
    or_stop (E.marshal_json_indent orderbook)

  -- The message of `create-limit-order`; `now` stands for `time.Now()`.
  unfoldable pub limit_order_msg : Time → OrderFlags → Command MsgCreateLimitOrder
  limit_order_msg now flags = do
    sender ← or_stop E.get_from_address
    kind ← or_stop (kind_of E (parse_kind flags.kind))
    amount ← or_stop (E.parse_coin flags.amount)
    price ← or_stop (E.parse_coin flags.price)
    expires_at ← or_stop (E.parse_time flags.expires_at)
    let msg : MsgCreateLimitOrder = record {
      sender = sender;
      kind = kind;
      amount = amount;
      price = price;
      expires_at = expires_at;
    }
    check E.error_text (validate_basic now msg)
    ran msg

  abbrev pub sent : Option String × E.State → Command (Unit {0}) × E.State
  sent (none, s) = (ran tt, s)
  sent (some text, s) = (stopped text, s)

  abbrev pub send : Command MsgCreateLimitOrder → E.State → Command (Unit {0}) × E.State
  send (ran msg) s = sent (E.send_tx (msg ∷ []) s)
  send (stopped text) s = (stopped text, s)
  send crashed s = (crashed, s)

  unfoldable pub create_limit_order : Time → OrderFlags → E.State → Command (Unit {0}) × E.State
  unfolding limit_order_msg
  create_limit_order now flags s = send (limit_order_msg now flags) s
