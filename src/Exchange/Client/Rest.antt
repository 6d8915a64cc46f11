-- ===== src/Exchange/Client/Rest.antt =====
-- x/exchange/client/rest/query_orderbook.go.
use thorchain_v.Base.{String, Option, none, some, str_eq}
use thorchain_v.Sdk.Web.{Web, value, crash, refuse_if, or_refuse, ◌>>=◌, ◌>>◌}
use thorchain_v.Exchange.Book.{OrderBook, make_key_order_book}
use thorchain_v.Exchange.Message.{parse_kind}
use thorchain_v.Exchange.Client.{ClientEnv, orderbook_of, kind_of}

abbrev pub or_crash : Option OrderBook → Web OrderBook
or_crash none = crash
or_crash (some orderbook) = value orderbook

module _ (E : ClientEnv) where
  -- `handleQueryOrderbook`, up to the body of an answer with status 200. The error of reading the
  -- request is not looked at.
  unfoldable pub handle_query_orderbook : E.Body → Web String
  handle_query_orderbook r = do
    m ← or_refuse 400 (E.unmarshal_body r)
    kind ← or_refuse 400 (kind_of E (parse_kind m.kind))
    refuse_if (str_eq m.amount_denom "") 400 "amount_denom must not be empty"
    refuse_if (str_eq m.price_denom "") 400 "price_denom must not be empty"
    res ← or_refuse 500 (E.query_store (make_key_order_book kind m.amount_denom m.price_denom))
    orderbook ← or_crash (orderbook_of E kind m.amount_denom m.price_denom res)
    or_refuse 500 (E.marshal_json_indent orderbook)
