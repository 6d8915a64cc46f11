-- ===== src/App/Chain.antt =====
-- app/app.go: what runs when the chain begins, when a block begins and ends, and the export of the
-- state.
pub mod Export
pub mod Steps
pub mod Life
use thorchain_v.Base.{ℕ, Option, none, some, List, [], ◌∷◌, map, String}
use thorchain_v.Base.Int.{ℤ, pos}
use thorchain_v.Sdk.Types.{Time, SdkError}
use thorchain_v.Sdk.Coins.{CoinOps}
use thorchain_v.Sdk.Bank.{Bank}
use thorchain_v.Sdk.Store.{KvStore, Codec}
use thorchain_v.Sdk.Keeper.{Keeper, Outcome, ok, err, panic, pure, check, gets, ◌>>=◌, ◌>>◌}
use thorchain_v.Exchange.Book.{OrderBook}
use thorchain_v.Clp.{Clp}
use thorchain_v.Clp.Handler
use thorchain_v.Clp.Env.{ClpEnv, Floats, Pools}
use thorchain_v.Exchange.Env.{Env, World}
use thorchain_v.Exchange.Message
use thorchain_v.Exchange.Message.{init_genesis, write_genesis, begin_blocker}
use thorchain_v.App.Staking.{Staking, BaseAccount, StakeGenesis, PoolOps}
use thorchain_v.App.Genesis.{GenesisState, GenesisAccount, to_account, new_genesis_account_i}

-- What `ThorchainApp` holds and calls, beside the modules of the repository. `Others` is the state
-- of the SDK's modules; their calls may change it and the accounts, and `none` stands for a call that
-- panics, or whose error makes the caller panic.
pub record AppEnv : Type 1 where
  pub staking : Staking
  pub pool_ops : PoolOps staking
  pub exchange : Env
  -- the store of x/clp, its codec, and `float64`
  pub pools : KvStore
  pub pool_codec : Codec pools.Bytes Clp
  pub floats : Floats
  pub Others : Type 0
  -- `auth.AccountMapper`, over the accounts that the bank keeper changes too
  pub get_next_account_number : exchange.bank.State → ℤ × exchange.bank.State
  pub set_account : BaseAccount → exchange.bank.State → exchange.bank.State
  -- the accounts in the order of `IterateAccounts`
  pub accounts : exchange.bank.State → List BaseAccount
  pub Validators : Type 0
  pub Tags : Type 0
  -- `stake.InitGenesis`, and those of slashing and gov
  pub stake_init_genesis :
      StakeGenesis staking
      → exchange.bank.State × Others
      → Option Validators × (exchange.bank.State × Others)
  pub slashing_init_genesis :
      StakeGenesis staking
      → exchange.bank.State × Others
      → Option (Unit {0}) × (exchange.bank.State × Others)
  pub gov_init_genesis :
      exchange.bank.State × Others → Option (Unit {0}) × (exchange.bank.State × Others)
  pub stake_write_genesis : exchange.bank.State × Others → StakeGenesis staking
  pub stake_write_validators : exchange.bank.State × Others → Validators
  -- the handlers of the SDK's modules
  pub SdkMsg : Type 0
  pub sdk_handler :
      SdkMsg
      → exchange.bank.State × Others
      → Option (Option SdkError) × (exchange.bank.State × Others)
  -- `slashing.BeginBlocker`, `gov.EndBlocker`, `stake.EndBlocker` and `AddValidators`
  pub RequestBeginBlock : Type 0
  pub slashing_begin_blocker :
      RequestBeginBlock
      → exchange.bank.State × Others
      → Option Tags × (exchange.bank.State × Others)
  pub gov_end_blocker : exchange.bank.State × Others → Option Tags × (exchange.bank.State × Others)
  pub stake_end_blocker :
      exchange.bank.State × Others → Option Validators × (exchange.bank.State × Others)
  pub slashing_add_validators :
      Validators → exchange.bank.State × Others → Option (Unit {0}) × (exchange.bank.State × Others)
  -- the codec at the application's state: `MarshalJSONIndent` and `UnmarshalJSON`
  pub StateJson : Type 0
  pub marshal_state : GenesisState staking pool_ops → Option StateJson
  pub unmarshal_state : StateJson → Option (GenesisState staking pool_ops)

module _ (A : AppEnv) where
  -- The stores of the application.
  pub record Stores : Type 0 where
    pub bank : A.exchange.bank.State
    pub others : A.Others
    pub exchange : A.exchange.store.State
    pub pools : A.pools.State

  abbrev pub or_panic : {R : Type 0} → Option R → Keeper Stores R
  or_panic none s = (panic, s)
  or_panic (some r) s = (ok r, s)

  abbrev pub sdk_call :
      {R : Type 0}
      → (A.exchange.bank.State × A.Others → Option R × (A.exchange.bank.State × A.Others))
      → Keeper Stores R
  sdk_call f s =
      let (r, (b, o)) = f (s.bank, s.others) in or_panic r (record s { bank = b; others = o })

  -- A method of the exchange keeper, over its stores.
  abbrev pub exchange_call : {R : Type 0} → Keeper (World A.exchange) R → Keeper Stores R
  exchange_call f s =
      let (r, w) = f (record { bank = s.bank; store = s.exchange }) in
      (r, record s { bank = w.bank; exchange = w.store })

  -- The keeper of x/clp shares the bank keeper with the exchange.
  abbrev pub clp_env : ClpEnv
  clp_env = record {
    coins = A.exchange.coins;
    bank = A.exchange.bank;
    store = A.pools;
    pools = A.pool_codec;
    floats = A.floats;
    base_coin_ticker = "RUNE";
  }

  abbrev pub clp_call : {R : Type 0} → Keeper (Pools clp_env) R → Keeper Stores R
  clp_call f s =
      let (r, w) = f (record { bank = s.bank; store = s.pools }) in
      (r, record s { bank = w.bank; pools = w.store })

  -- The loop of `initChainer` over the accounts.
  unfoldable pub load_accounts : List GenesisAccount → A.exchange.bank.State → A.exchange.bank.State
  load_accounts [] b = b
  load_accounts (gacc ∷ gaccs) b =
      let (number, b') = A.get_next_account_number b in
      let acc = record (to_account A.staking A.pool_ops gacc) { account_number = number } in
      load_accounts gaccs (A.set_account acc b')

  -- `InitGenesis` and `WriteGenesis` of x/clp/keeper.go, which keep nothing: their genesis has no
  -- fields.
  abbrev pub clp_init_genesis : Unit {0} → Keeper Stores (Unit {0})
  clp_init_genesis genesis = pure tt

  abbrev pub clp_write_genesis : Stores → Unit {0}
  clp_write_genesis s = tt

  -- `initChainer` from the initialisation of slashing on.
  unfoldable pub start_modules :
      GenesisState A.staking A.pool_ops → A.Validators → Keeper Stores A.Validators
  start_modules genesis_state validators = do
    sdk_call (A.slashing_init_genesis genesis_state.stake_data)
    sdk_call A.gov_init_genesis
    clp_init_genesis tt
    exchange_call (init_genesis A.exchange genesis_state.exchange_data)
    pure validators

  -- `initChainer` after the decoding.
  unfoldable pub init_state : GenesisState A.staking A.pool_ops → Keeper Stores A.Validators
  unfolding load_accounts start_modules
  init_state genesis_state = do
    (λ s. (ok tt, record s { bank = load_accounts genesis_state.accounts s.bank }))
    validators ← sdk_call (A.stake_init_genesis genesis_state.stake_data)
    start_modules genesis_state validators

  unfoldable pub init_chainer : A.StateJson → Keeper Stores A.Validators
  unfolding init_state
  init_chainer state_json = do
    genesis_state ← or_panic (A.unmarshal_state state_json)
    init_state genesis_state

  -- The `BeginBlocker` and `EndBlocker` of the application; `now` stands for `time.Now()`.
  unfoldable pub app_begin_blocker : Time → A.RequestBeginBlock → Keeper Stores A.Tags
  app_begin_blocker now req = do
    tags ← sdk_call (A.slashing_begin_blocker req)
    exchange_call (begin_blocker A.exchange now)
    pure tags

  unfoldable pub app_end_blocker : Keeper Stores (A.Validators × A.Tags)
  app_end_blocker = do
    tags ← sdk_call A.gov_end_blocker
    validator_updates ← sdk_call A.stake_end_blocker
    sdk_call (A.slashing_add_validators validator_updates)
    pure (validator_updates, tags)

  -- `none` stands for the error of the codec.
  unfoldable pub export_app_state_and_validators :
      Keeper Stores (Option (A.StateJson × A.Validators))
  export_app_state_and_validators = do
    accounts ← gets (λ s. map new_genesis_account_i (A.accounts s.bank))
    stake_data ← gets (λ s. A.stake_write_genesis (s.bank, s.others))
    exchange_data ← exchange_call (write_genesis A.exchange)
    let gen_state : GenesisState A.staking A.pool_ops = record {
      accounts = accounts;
      stake_data = stake_data;
      exchange_data = exchange_data;
    }
    validators ← gets (λ s. A.stake_write_validators (s.bank, s.others))
    pure (with_validators validators (A.marshal_state gen_state))
    where
      with_validators : A.Validators → Option A.StateJson → Option (A.StateJson × A.Validators)
      with_validators v none = none
      with_validators v (some app_state) = some (app_state, v)

  -- The messages of the routes that `NewThorchainApp` registers: those of x/exchange and x/clp, and
  -- those of the SDK's modules.
  pub data AppMsg : Type 0 where
    exchange_msg : Message.RoutedMsg → AppMsg
    clp_msg : Handler.RoutedMsg → AppMsg
    sdk_msg : A.SdkMsg → AppMsg

  abbrev sdk_result : Keeper Stores (Option SdkError) → Keeper Stores (Unit {0})
  sdk_result f = f >>= λ e. check e

  -- The handler of a message; its result, a log, is left out.
  unfoldable pub deliver : Time → AppMsg → Keeper Stores (Unit {0})
  deliver now (exchange_msg msg) =
      exchange_call (Message.new_handler A.exchange now msg) >>= λ answers. pure tt
  deliver now (clp_msg msg) = clp_call (Handler.new_handler clp_env msg) >>= λ amounts. pure tt
  deliver now (sdk_msg msg) = sdk_result (sdk_call (A.sdk_handler msg))
