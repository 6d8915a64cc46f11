-- ===== src/Clp/Rest/Query.antt =====
-- x/clp/client/rest/query.go: the requests for one pool and for all pools. The node is asked at one
-- height, so its answers are functions.
pub mod Listed
use thorchain_v.Base.{
  ℕ, String, ◌<>◌, Bool, true, false, Option, none, some, List, [], ◌∷◌, if◌then◌else◌,
}
use thorchain_v.Base.Int.{ℤ, pos}
use thorchain_v.Sdk.Types.{Address}
use thorchain_v.Sdk.Web.{
  Response, refusal, Web, value, answer, crash, ◌>>=◌, ◌>>◌, Call, done, error, or_refuse,
}
use thorchain_v.Clp.{Clp}
use thorchain_v.Clp.Env.{ClpEnv}
use thorchain_v.Clp.Keeper.{make_clp_store_key, calculate_clp_price, zero_clp}

-- The node and the texts of values.
pub record QueryEnv : Type 1 where
  pub clp : ClpEnv
  -- `QueryStore` of the pools, and `QuerySubspace`; `none` is a nil slice
  pub query_store : String → Call (Option clp.store.Bytes)
  pub query_subspace : String → Call (Option (List (String × clp.store.Bytes)))
  pub is_empty : clp.store.Bytes → Bool
  -- `QueryStore` of an account and its decoder, with `GetCoins().AmountOf`
  pub AccountBytes : Type 0
  pub query_account : Address → Call AccountBytes
  pub decode_account : AccountBytes → Call (String → ℤ)
  pub marshal_json : Clp → Call String
  pub show_int : ℤ → String
  pub show_float : clp.floats.Float → String
  -- the texts about bytes that are no pool
  pub not_parsed : clp.store.Bytes → String

module _ (E : QueryEnv) where
  -- Nothing stored, or an empty value.
  abbrev pub present : Option E.clp.store.Bytes → Web E.clp.store.Bytes → Web E.clp.store.Bytes
  present none missing = missing
  present (some res) missing = if E.is_empty res then missing else value res

  abbrev pub found : String → Call (Option E.clp.store.Bytes) → Web E.clp.store.Bytes
  found ticker (error text) =
      answer (refusal 404 ("clp for ticker [" <> (ticker <> "] does not exist")))
  found ticker (done res) =
      present res (answer (refusal 404 ("clp for ticker [" <> (ticker <> "] does not exist"))))

  abbrev pub parsed : E.clp.store.Bytes → Web Clp
  parsed res =
      let (fine, clp) = E.clp.pools.unmarshal res zero_clp in
      if fine then value clp else answer (refusal 500 (E.not_parsed res))

  -- The balances and the price of a pool; the panic of `Int64` out of range is a crash.
  abbrev pub balances : Clp → (String → ℤ) → Option ℤ → Web (Call String)
  balances clp amount_of none = crash
  balances clp amount_of (some base_coin_balance) =
      let base = E.clp.base_coin_ticker in
      let price = calculate_clp_price E.clp clp base_coin_balance (pos 1) in
      value (
        done (
          "{\""
          <> (base
              <> ("\":"
                  <> (E.show_int (amount_of base)
                      <> (",\""
                          <> (clp.ticker
                              <> ("\":"
                                  <> (E.show_int (amount_of clp.ticker)
                                      <> (",\"price\":" <> (E.show_float price <> "}")))))))))))

  abbrev pub decoded_account : Clp → Call (String → ℤ) → Web (Call String)
  decoded_account clp (error text) =
      value (error ("couldn't parse query result for clp token balances. Error: " <> text))
  decoded_account clp (done amount_of) =
      balances clp amount_of (E.clp.coins.int64 (amount_of E.clp.base_coin_ticker))

  abbrev pub queried_account : Clp → Call E.AccountBytes → Web (Call String)
  queried_account clp (error text) =
      value (error ("couldn't query clp token balances. Error: " <> text))
  queried_account clp (done res) = decoded_account clp (E.decode_account res)

  unfoldable pub get_clp_account_output : Clp → Web (Call String)
  get_clp_account_output clp = queried_account clp (E.query_account clp.account_address)

  abbrev pub marshalled : Call String → Web String
  marshalled (error text) = answer (refusal 500 ("couldn't marshall query result. Error: " <> text))
  marshalled (done output) = value output

  unfoldable pub clp_to_json_output : Clp → Web String
  unfolding get_clp_account_output
  clp_to_json_output clp = do
    output ← marshalled (E.marshal_json clp)
    account ← get_clp_account_output clp
    account_output ← or_refuse 500 account
    value ("{\"clp\":" <> (output <> (",\"account\": " <> (account_output <> "}"))))

  -- `queryClpRequestHandlerFn`: the body of an answer with status 200, if it comes to that.
  unfoldable pub query_clp : String → Web String
  unfolding clp_to_json_output
  query_clp ticker = do
    res ← found ticker (E.query_store (make_clp_store_key ticker))
    clp ← parsed res
    clp_to_json_output clp

  -- The first loop of `queryClpsRequestHandlerFn`, which decodes, and the second one, which makes the
  -- outputs.
  unfoldable pub parse_all : List (String × E.clp.store.Bytes) → Web (List Clp)
  parse_all [] = value []
  parse_all ((key, bz) ∷ res) = do clp ← parsed bz; clps ← parse_all res; value (clp ∷ clps)

  unfoldable pub output_all : List Clp → Web (List String)
  unfolding clp_to_json_output
  output_all [] = value []
  output_all (clp ∷ clps) = do
    output ← clp_to_json_output clp
    outputs ← output_all clps
    value (output ∷ outputs)

  -- The third loop: a comma after each output but the last.
  abbrev pub write_outputs : List String → String
  write_outputs [] = ""
  write_outputs (output ∷ []) = output
  write_outputs (output ∷ (next ∷ outputs)) = output <> ("," <> write_outputs (next ∷ outputs))

  abbrev pub subspace :
      Call (Option (List (String × E.clp.store.Bytes))) → Web (List (String × E.clp.store.Bytes))
  subspace (error text) = answer (refusal 500 "")
  subspace (done none) = answer (refusal 404 "")
  subspace (done (some res)) = value res

  unfoldable pub query_clps : Web String
  unfolding parse_all output_all
  query_clps = do
    res ← subspace (E.query_subspace "clp:")
    clps ← parse_all res
    outputs ← output_all clps
    value ("[" <> (write_outputs outputs <> "]"))
