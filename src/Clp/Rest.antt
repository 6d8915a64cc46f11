-- ===== src/Clp/Rest.antt =====
-- x/clp/client/rest: util.go and tx.go, the requests that make a pool or a trade.
pub mod Steps
pub mod Posted
pub mod Query
mod Tests
use thorchain_v.Base.{ℕ, String, Bool, true, false, Option, none, some, List, [], ◌∷◌, str_eq}
use thorchain_v.Base.Int.{ℤ, pos, ltb_ℤ}
use thorchain_v.Sdk.Types.{Address, SdkError}
use thorchain_v.Sdk.Web.{
  Response, plain, refusal, Web, value, answer, crash, ◌>>=◌, ◌>>◌, refuse_if, Call, done, error,
  or_refuse,
}
use thorchain_v.Spam.Broadcast.{TxContext}
use thorchain_v.Clp.{MsgCreate, MsgTrade, validate_create, validate_trade}

pub record BaseReq : Type 0 where
  pub name : String
  pub password : String
  pub chain_id : String
  pub account_number : ℤ
  pub sequence : ℤ
  pub gas : ℤ

pub record ClpCreateBody : Type 0 where
  pub base_req : BaseReq
  pub ticker : String
  pub token_name : String
  pub decimals : ℕ
  pub reserve_ratio : ℤ
  pub initial_supply : ℤ
  pub initial_rune_amount : ℤ

pub record ClpTradeBody : Type 0 where
  pub base_req : BaseReq
  pub from_ticker : String
  pub to_ticker : String
  pub from_amount : ℤ

-- `sdk.Msg`, as far as the client makes them.
pub data ClpMsg : Type 0 where
  create : MsgCreate → ClpMsg
  trade : MsgTrade → ClpMsg

-- The request, the key base, the signing and the node.
pub record RestEnv : Type 1 where
  -- `ioutil.ReadAll` of a body, and `UnmarshalJSON` of the two requests
  pub Body : Type 0
  pub Bytes : Type 0
  pub read_all : Body → Call Bytes
  pub unmarshal_create : Bytes → Call ClpCreateBody
  pub unmarshal_trade : Bytes → Call ClpTradeBody
  -- the address of the public key of `Keybase.Get`
  pub key_address : String → Call Address
  pub error_text : SdkError → String
  -- `TxContext.BuildAndSign` with a name and a password, `BroadcastTx`, and the JSON of its result
  pub State : Type 0
  pub Tx : Type 0
  pub Result : Type 0
  pub build_and_sign : TxContext → String → String → List ClpMsg → Call Tx
  pub broadcast_tx : Tx → State → Call Result × State
  pub marshal_json_indent : Result → Call String

-- `baseReqValidate`: it has written an answer where the source gives false.
unfoldable pub base_req_validate : BaseReq → Web (Unit {0})
base_req_validate req = do
  refuse_if (str_eq req.name "") 401 "Name required but not specified"
  refuse_if (str_eq req.password "") 401 "Password required but not specified"
  refuse_if (str_eq req.chain_id "") 401 "ChainID required but not specified"
  refuse_if (ltb_ℤ req.account_number (pos 0)) 401 "Account Number required but not specified"
  refuse_if (ltb_ℤ req.sequence (pos 0)) 401 "Sequence required but not specified"

module _ (E : RestEnv) where
  unfoldable pub build_req : {A : Type 0} → (E.Bytes → Call A) → E.Body → Web A
  build_req unmarshal r = do body ← or_refuse 400 (E.read_all r); or_refuse 400 (unmarshal body)

  -- The answer to what the node has returned.
  abbrev pub json_answer : Call String → Response
  json_answer (error text) = refusal 500 text
  json_answer (done text) = plain text

  abbrev pub node_answer : Call E.Result → Response
  node_answer (error text) = refusal 500 text
  node_answer (done res) = json_answer (E.marshal_json_indent res)

  abbrev pub tx_context : BaseReq → TxContext
  tx_context req = record {
    account_number = req.account_number;
    sequence = req.sequence;
    gas = req.gas;
    chain_id = req.chain_id;
  }

  abbrev pub broadcast : Call E.Tx → E.State → Response × E.State
  broadcast (error text) s = (refusal 401 text, s)
  broadcast (done tx_bytes) s = let (res, s') = E.broadcast_tx tx_bytes s in (node_answer res, s')

  unfoldable pub sign_and_build : BaseReq → ClpMsg → E.State → Response × E.State
  sign_and_build req msg s =
      broadcast (E.build_and_sign (tx_context req) req.name req.password (msg ∷ [])) s

  -- `err = msg.ValidateBasic()`, an error being a bad request.
  abbrev pub validated : Option SdkError → Web (Unit {0})
  validated none = value tt
  validated (some e) = answer (refusal 400 (E.error_text e))

  -- The handlers up to `signAndBuild`.
  unfoldable pub prepare_create : E.Body → Web (BaseReq × MsgCreate)
  unfolding build_req base_req_validate
  prepare_create r = do
    req ← build_req E.unmarshal_create r
    base_req_validate req.base_req
    sender ← or_refuse 401 (E.key_address req.base_req.name)
    let msg : MsgCreate = record {
      sender = sender;
      ticker = req.ticker;
      name = req.token_name;
      decimals = req.decimals;
      reserve_ratio = req.reserve_ratio;
      initial_supply = req.initial_supply;
      initial_base_coin_amount = req.initial_rune_amount;
    }
    validated (validate_create msg)
    value (req.base_req, msg)

  unfoldable pub prepare_trade : E.Body → Web (BaseReq × MsgTrade)
  unfolding build_req base_req_validate
  prepare_trade r = do
    req ← build_req E.unmarshal_trade r
    base_req_validate req.base_req
    sender ← or_refuse 401 (E.key_address req.base_req.name)
    let msg : MsgTrade = record {
      sender = sender;
      from_ticker = req.from_ticker;
      to_ticker = req.to_ticker;
      from_amount = req.from_amount;
    }
    validated (validate_trade msg)
    value (req.base_req, msg)

  -- A handler ends with `signAndBuild`. It does not panic by itself; 500 stands for a panic, which
  -- the server catches.
  abbrev pub finish : {M : Type 0} → (M → ClpMsg) → Web (BaseReq × M) → E.State → Response × E.State
  finish make (value (req, msg)) s = sign_and_build req (make msg) s
  finish make (answer r) s = (r, s)
  finish make crash s = (refusal 500 "", s)

  unfoldable pub post_clp : E.Body → E.State → Response × E.State
  unfolding prepare_create
  post_clp r s = finish create (prepare_create r) s

  unfoldable pub post_clp_trade : E.Body → E.State → Response × E.State
  unfolding prepare_trade
  post_clp_trade r s = finish trade (prepare_trade r) s
