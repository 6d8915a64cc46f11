-- ===== src/Clp/Cli.antt =====
-- x/clp/client/cli/tx.go: the commands that create a pool, trade, and show pools.
pub mod Sent
mod Tests
use thorchain_v.Base.{
  ℕ, String, Bool, true, false, Option, none, some, List, [], ◌∷◌, ◌||◌, map, if◌then◌else◌,
}
use thorchain_v.Base.Int.{ℤ, pos, pos_part, ltb_ℤ}
use thorchain_v.Base.Chars.{chars}
use thorchain_v.Base.Atoi.{atoi_value}
use thorchain_v.Sdk.Types.{Address, SdkError, new_error}
use thorchain_v.Sdk.Web.{Call, done, error}
use thorchain_v.Sdk.Command.{Command, ran, stopped, crashed, or_stop, ◌>>=◌, ◌>>◌}
use thorchain_v.Clp.{Clp, MsgCreate, MsgTrade, clp_codespace}
use thorchain_v.Clp.Rest.{ClpMsg, create, trade}
use thorchain_v.Clp.Env.{ClpEnv}
use thorchain_v.Clp.Keeper.{make_clp_store_key, zero_clp}

abbrev pub err_invalid_decimals : ℕ → SdkError
err_invalid_decimals codespace = new_error codespace 151 "decimals need to be between 0 and 255"

-- The SDK's client, and the texts that are printed.
pub record CliEnv : Type 1 where
  pub clp : ClpEnv
  pub get_from_address : Call Address
  pub error_text : SdkError → String
  pub State : Type 0
  -- `utils.SendTx`, with the error, if there is one
  pub send_tx : List ClpMsg → State → Option String × State
  -- `QueryStore` and `QuerySubspace`, of a node at one height; `none` is a nil slice
  pub query_store : String → Call (Option clp.store.Bytes)
  pub query_subspace : String → Call (Option (List (String × clp.store.Bytes)))
  -- the text of the error of `UnmarshalBinary`, and the lines about a pool
  pub not_parsed : clp.store.Bytes → String
  pub describe : Clp → String

-- The six arguments of `create` and the three of `trade`.
pub record CreateArgs : Type 0 where
  pub ticker : String
  pub name : String
  pub decimals : String
  pub reserve_ratio : String
  pub initial_supply : String
  pub initial_rune_amount : String

pub record TradeArgs : Type 0 where
  pub from_ticker : String
  pub to_ticker : String
  pub from_amount : String

-- `n, _ := strconv.Atoi(arg)`
abbrev pub number : String → ℤ
number arg = atoi_value (chars arg)

module _ (E : CliEnv) where
  unfoldable pub create_msg : CreateArgs → Command MsgCreate
  create_msg args = do
    sender ← or_stop E.get_from_address
    let decimals_int = number args.decimals
    if ltb_ℤ decimals_int (pos 0) || ltb_ℤ (pos 255) decimals_int
        then stopped (E.error_text (err_invalid_decimals clp_codespace))
        else ran (record {
          sender = sender;
          ticker = args.ticker;
          name = args.name;
          decimals = pos_part decimals_int;
          reserve_ratio = number args.reserve_ratio;
          initial_supply = number args.initial_supply;
          initial_base_coin_amount = number args.initial_rune_amount;
        })

  unfoldable pub trade_msg : TradeArgs → Command MsgTrade
  trade_msg args = do
    sender ← or_stop E.get_from_address
    ran (record {
      sender = sender;
      from_ticker = args.from_ticker;
      to_ticker = args.to_ticker;
      from_amount = number args.from_amount;
    })

  abbrev pub sent : Option String × E.State → Command (Unit {0}) × E.State
  sent (none, s) = (ran tt, s)
  sent (some text, s) = (stopped text, s)

  abbrev pub send : {M : Type 0} → (M → ClpMsg) → Command M → E.State → Command (Unit {0}) × E.State
  send make (ran msg) s = sent (E.send_tx (make msg ∷ []) s)
  send make (stopped text) s = (stopped text, s)
  send make crashed s = (crashed, s)

  unfoldable pub create_tx_cmd : CreateArgs → E.State → Command (Unit {0}) × E.State
  unfolding create_msg
  create_tx_cmd args s = send create (create_msg args) s

  unfoldable pub trade_base_tx_cmd : TradeArgs → E.State → Command (Unit {0}) × E.State
  unfolding trade_msg
  trade_base_tx_cmd args s = send trade (trade_msg args) s

  abbrev pub parsed : E.clp.store.Bytes → Command Clp
  parsed res =
      let (fine, clp) = E.clp.pools.unmarshal res zero_clp in
      if fine then ran clp else stopped (E.not_parsed res)

  abbrev shown : Option E.clp.store.Bytes → Command String
  shown none = ran "No CLP for given ticker \n"
  shown (some res) = parsed res >>= λ clp. ran (E.describe clp)

  -- What is printed about one pool.
  unfoldable pub get_cmd : String → Command String
  get_cmd ticker = do res ← or_stop (E.query_store (make_clp_store_key ticker)); shown res

  unfoldable pub parse_pools : List (String × E.clp.store.Bytes) → Command (List Clp)
  parse_pools [] = ran []
  parse_pools ((key, bz) ∷ res) = do clp ← parsed bz; clps ← parse_pools res; ran (clp ∷ clps)

  abbrev all_shown : Option (List (String × E.clp.store.Bytes)) → Command (List String)
  all_shown none = ran ("No CLPs \n" ∷ [])
  all_shown (some res) = parse_pools res >>= λ clps. ran ("CLP details \n\n" ∷ map E.describe clps)

  -- What is printed about all pools, one text after the other.
  unfoldable pub get_all_cmd : Command (List String)
  unfolding parse_pools
  get_all_cmd = do res ← or_stop (E.query_subspace "clp:"); all_shown res
