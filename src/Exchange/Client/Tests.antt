-- ===== src/Exchange/Client/Tests.antt =====
-- The clients over a small node with one order book.
use thorchain_v.Base.{◌≡◌, ◌≢◌, ◌↔◌, refl, none, false, List, [], ◌++◌}
use thorchain_v.Base.Int.{pos}
use thorchain_v.Sdk.Web.{value, done}
use thorchain_v.Sdk.Command.{ran}
use thorchain_v.Exchange.Samples.{sample_env}
use thorchain_v.Exchange.Message.{MsgCreateLimitOrder}
use thorchain_v.Exchange.Client.{ClientEnv, QueryOrderbookBody, OrderFlags}
use thorchain_v.Exchange.Client.Rest.{handle_query_orderbook}
use thorchain_v.Exchange.Client.Cli.{query_orderbook, create_limit_order}
use thorchain_v.Exchange.Client.Shown.{IsServed, Shows, clients-Shows}
use thorchain_v.Exchange.Client.Sent.{Sending, create_limit_order-Sending}

-- The node has nothing stored; the state is the list of the orders sent.
abbrev sample_client : ClientEnv
sample_client = record {
  exchange = sample_env;
  query_store = λ k. done none;
  is_empty = λ bz. false;
  marshal_json_indent = λ b. done b.key;
  error_text = λ e. "error";
  Body = QueryOrderbookBody;
  unmarshal_body = λ r. done r;
  get_from_address = done "ann";
  parse_coin = λ s. done (record { denom = s; amount = pos 8 });
  parse_time = λ s. done 9;
  State = List MsgCreateLimitOrder;
  send_tx = λ msgs s. (none, s ++ msgs);
}

nothing-IsServed : IsServed sample_client []
nothing-IsServed = record { reads = λ k. refl; decodable = λ kind ad pd bz e. cc e }

abbrev eth_sales : QueryOrderbookBody
eth_sales = record { kind = "sell"; amount_denom = "ETH"; price_denom = "RUNE" }

clients-Shows_example :
    ((query_orderbook sample_client "sell" "ETH" "RUNE" ≡ ran "orderBook:2:ETH:RUNE")
      ↔ Shows sample_client [] "sell" "ETH" "RUNE" "orderBook:2:ETH:RUNE")
    × ((handle_query_orderbook sample_client eth_sales ≡ value "orderBook:2:ETH:RUNE") ↔ (
        Shows sample_client [] "sell" "ETH" "RUNE" "orderBook:2:ETH:RUNE"
        × (eth_sales.amount_denom ≢ "")
        × (eth_sales.price_denom ≢ "")))
clients-Shows_example =
    clients-Shows sample_client [] eth_sales eth_sales "orderBook:2:ETH:RUNE" nothing-IsServed refl

abbrev selling : OrderFlags
selling = record { kind = "sell"; amount = "ETH"; price = "RUNE"; expires_at = "tomorrow" }

create_limit_order-Sending_example :
    Sending sample_client 5 selling [] (create_limit_order sample_client 5 selling [])
create_limit_order-Sending_example = create_limit_order-Sending sample_client 5 selling []
