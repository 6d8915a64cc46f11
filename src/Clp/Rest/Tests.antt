-- ===== src/Clp/Rest/Tests.antt =====
-- Requests to a small node with one pool.
use thorchain_v.Base.{◌≡◌, ◌↔◌, refl, String, ◌<>◌, true, false, some, List, [], ◌∷◌, ◌++◌}
use thorchain_v.Base.Int.{ℤ, pos}
use thorchain_v.Sdk.Web.{value, Call, done, error}
use thorchain_v.Sdk.Samples.Coins.{plain_coins}
use thorchain_v.Sdk.Samples.Bank.{journal_bank}
use thorchain_v.Sdk.Samples.Store.{list_store}
use thorchain_v.Clp.{Clp, validate_create, validate_trade, new_clp, new_clp_address}
use thorchain_v.Clp.Env.{ClpEnv}
use thorchain_v.Clp.Rest.{
  ClpCreateBody, ClpTradeBody, ClpMsg, create, trade, RestEnv, post_clp, post_clp_trade,
}
use thorchain_v.Clp.Rest.Posted.{Posted, create_of, trade_of, post_clp-Posted}
use thorchain_v.Clp.Rest.Query.{QueryEnv, query_clps, write_outputs}
use thorchain_v.Clp.Rest.Query.Listed.{Single, query_clps-query_clp}

-- A body is a request for a pool or for a trade, and the node keeps the messages.
data Request : Type 0 where
  for_pool : ClpCreateBody → Request
  for_trade : ClpTradeBody → Request

abbrev read_pool : Request → Call ClpCreateBody
read_pool (for_pool b) = done b
read_pool (for_trade b) = error "no pool"

abbrev read_trade : Request → Call ClpTradeBody
read_trade (for_pool b) = error "no trade"
read_trade (for_trade b) = done b

abbrev sample_rest : RestEnv
sample_rest = record {
  Body = Request;
  Bytes = Request;
  read_all = λ r. done r;
  unmarshal_create = read_pool;
  unmarshal_trade = read_trade;
  key_address = λ name. done name;
  error_text = λ e. "invalid";
  State = List ClpMsg;
  Tx = List ClpMsg;
  Result = Unit {0};
  build_and_sign = λ ctx name pass msgs. done msgs;
  broadcast_tx = λ tx s. (done tt, s ++ tx);
  marshal_json_indent = λ r. done "{}";
}

abbrev ann_creates : ClpCreateBody
ann_creates = record {
  base_req = record {
    name = "ann";
    password = "12345678";
    chain_id = "test";
    account_number = pos 0;
    sequence = pos 3;
    gas = pos 0;
  };
  ticker = "ETH";
  token_name = "Ether";
  decimals = 18;
  reserve_ratio = pos 50;
  initial_supply = pos 1000;
  initial_rune_amount = pos 40;
}

post_clp-Posted_example :
    Posted sample_rest read_pool
      (λ b. b.base_req)
      (create_of sample_rest)
      validate_create
      create
      (for_pool ann_creates)
      []
      (post_clp sample_rest (for_pool ann_creates) [])
    × Posted sample_rest read_trade
        (λ b. b.base_req)
        (trade_of sample_rest)
        validate_trade
        trade
        (for_pool ann_creates)
        []
        (post_clp_trade sample_rest (for_pool ann_creates) [])
post_clp-Posted_example = post_clp-Posted sample_rest (for_pool ann_creates) []

abbrev eth_pool : Clp
eth_pool = new_clp "ann" "ETH" "Ether" 18 (pos 50) (pos 1000) (new_clp_address "ETH")

abbrev one_pool : ClpEnv
one_pool = record {
  coins = plain_coins;
  bank = journal_bank;
  store = list_store Clp;
  pools = record { marshal = λ c. some c; unmarshal = λ c d. (true, c) };
  floats = record {
    Float = ℤ;
    of_int64 = λ n. n;
    plus = λ a b. a;
    minus = λ a b. a;
    times = λ a b. a;
    over = λ a b. a;
    pow = λ a b. a;
    round_to_int64 = λ a. a;
  };
  base_coin_ticker = "RUNE";
}

abbrev sample_query : QueryEnv
sample_query = record {
  clp = one_pool;
  query_store = λ k. done (some eth_pool);
  query_subspace = λ p. done (some (("clp:ETH", eth_pool) ∷ []));
  is_empty = λ bz. false;
  AccountBytes = Unit {0};
  query_account = λ a. done tt;
  decode_account = λ bz. done (λ d. pos 7);
  marshal_json = λ c. done ("{\"ticker\":\"" <> (c.ticker <> "\"}"));
  show_int = λ n. "7";
  show_float = λ x. "1";
  not_parsed = λ bz. "";
}

abbrev listed : String
listed = "[{\"clp\":{\"ticker\":\"ETH\"},\"account\": {\"RUNE\":7,\"ETH\":7,\"price\":1}}]"

query_clps-query_clp_example : (query_clps sample_query ≡ value listed) ↔ (
    (os : List String) × Single sample_query (("ETH", eth_pool) ∷ []) os
    × (listed ≡ "[" <> (write_outputs sample_query os <> "]")))
query_clps-query_clp_example =
    query_clps-query_clp sample_query (("ETH", eth_pool) ∷ []) listed refl ((refl, refl), tt)

-- The list of one pool.
lists_one : query_clps sample_query ≡ value listed
unfolding query_clps
lists_one = refl
