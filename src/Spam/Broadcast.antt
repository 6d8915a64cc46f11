-- ===== src/Spam/Broadcast.antt =====
-- cmd/thorchainspam/helpers/TransactionHelpers.go: build, sign, send. The transaction context, the
-- keys, the codec and the node are parameters; `none` is an error.
use thorchain_v.Base.{Option, none, some, List, [], ◌∷◌, String}
use thorchain_v.Base.Int.{ℤ}
use thorchain_v.Sdk.Types.{Address, Coin}

-- `authctx.TxContext`, as far as the tool sets it.
pub record TxContext : Type 0 where
  pub account_number : ℤ
  pub sequence : ℤ
  pub gas : ℤ
  pub chain_id : String

pub record Account : Type 0 where
  pub account_number : ℤ
  pub sequence : ℤ
  pub coins : List Coin

pub record Network (M : Type 0) : Type 1 where
  pub State : Type 0
  pub StdSignMsg : Type 0
  pub PrivKey : Type 0
  pub PubKey : Type 0
  pub Signature : Type 0
  pub Bytes : Type 0
  pub Result : Type 0
  pub Fee : Type 0
  -- `TxContext.Build` and `BuildAndSign`, with the messages
  pub build : TxContext → List M → Option StdSignMsg
  pub build_and_sign : TxContext → String → String → List M → State → Option Bytes × State
  pub sign_bytes : StdSignMsg → Bytes
  pub sign : PrivKey → Bytes → Option Signature
  pub pub_key : PrivKey → PubKey
  -- the fields of the message to sign
  pub account_number : StdSignMsg → ℤ
  pub sequence : StdSignMsg → ℤ
  pub msgs : StdSignMsg → List M
  pub fee : StdSignMsg → Fee
  pub memo : StdSignMsg → String
  -- `BroadcastTxAsync`, and `MarshalJSONIndent` of its result
  pub broadcast_tx_async : Bytes → State → Option Result × State
  pub marshal_json : Result → Option Bytes
  -- `GetAccount`
  pub get_account : Address → State → Option Account × State
  -- `GetAccountSequence`, which gives a number with an error too
  pub get_account_sequence : Address → State → (ℤ × Option String) × State

module _ {M : Type 0} (N : Network M) where
  pub record StdSignature : Type 0 where
    pub account_number : ℤ
    pub sequence : ℤ
    pub pub_key : N.PubKey
    pub signature : N.Signature

  pub record StdTx : Type 0 where
    pub msgs : List M
    pub fee : N.Fee
    pub signatures : List StdSignature
    pub memo : String

module _ {M : Type 0} (N : Network M) (marshal_binary : StdTx N → Option N.Bytes) where
  unfoldable pub priv_sign : N.PrivKey → N.StdSignMsg → Option N.Bytes
  priv_sign priv msg = elim (N.sign priv (N.sign_bytes msg)) [
    | none ↦ none
    | some sig ↦ marshal_binary (record {
      msgs = N.msgs msg;
      fee = N.fee msg;
      signatures =
          record {
            account_number = N.account_number msg;
            sequence = N.sequence msg;
            pub_key = N.pub_key priv;
            signature = sig;
          }
          ∷ [];
      memo = N.memo msg;
    })
  ]

  -- The answer of the node, as JSON.
  abbrev output : Option N.Result × N.State → Option N.Bytes × N.State
  output (none, s) = (none, s)
  output (some res, s) = (N.marshal_json res, s)

  abbrev broadcast : Option N.Bytes → N.State → Option N.Bytes × N.State
  broadcast none s = (none, s)
  broadcast (some tx_bytes) s = output (N.broadcast_tx_async tx_bytes s)

  unfoldable pub build_sign_and_broadcast_msg :
      TxContext → String → String → M → N.State → Option N.Bytes × N.State
  build_sign_and_broadcast_msg tx_ctx account_name password msg s =
      let (tx_bytes, s') = N.build_and_sign tx_ctx account_name password (msg ∷ []) s in
      broadcast tx_bytes s'

  unfoldable pub priv_build_sign_and_broadcast_msg :
      TxContext → N.PrivKey → M → N.State → Option N.Bytes × N.State
  priv_build_sign_and_broadcast_msg tx_ctx priv msg s = elim (N.build tx_ctx (msg ∷ [])) [
    | none ↦ (none, s)
    | some std_sign_msg ↦ broadcast (priv_sign priv std_sign_msg) s
  ]
