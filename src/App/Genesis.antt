-- ===== src/App/Genesis.antt =====
-- app/genesis.go: genesis accounts, genesis transactions, and the genesis state made of them.
pub mod Supply
pub mod Network
use Prim.Native.String.{len}
use thorchain_v.Base.{
  String, ◌<>◌, Bool, true, false, Option, none, some, List, [], ◌∷◌, ◌++◌, ltb, if◌then◌else◌,
  str_eq, not, ◌&&◌,
}
use thorchain_v.Base.Int.{ℤ, pos}
use thorchain_v.Sdk.Types.{Address, Coin}
use thorchain_v.Exchange.Message
use thorchain_v.Exchange.Message.{default_genesis_state}
use thorchain_v.App.Staking.{
  Staking, BaseAccount, ThorchainGenTx, Pool, Delegation, StakeGenesis, PoolOps,
}

abbrev pub free_fermion_val : ℤ
free_fermion_val = pos 100

abbrev pub free_fermions_acc : ℤ
free_fermions_acc = pos 50000000000

pub record GenesisAccount : Type 0 where
  pub address : Address
  pub coins : List Coin

abbrev pub new_genesis_account : BaseAccount → GenesisAccount
new_genesis_account acc = record { address = acc.address; coins = acc.coins }

-- The same, of an `auth.Account`, through its getters.
abbrev pub new_genesis_account_i : BaseAccount → GenesisAccount
new_genesis_account_i acc = record { address = acc.address; coins = acc.coins }

-- A result, an `error` or a panic.
pub data Made (A : Type 0) : Type 0 where
  made : A → Made A
  failed : Made A
  panicked : Made A

infixl 5 ◌>>=◌
abbrev pub ◌>>=◌ : {A B : Type 0} → Made A → (A → Made B) → Made B
made a >>= f = f a
failed >>= f = failed
panicked >>= f = panicked

abbrev pub or_failed : {A : Type 0} → Option A → Made A
or_failed none = failed
or_failed (some a) = made a

abbrev pub or_panicked : {A : Type 0} → Option A → Made A
or_panicked none = panicked
or_panicked (some a) = made a

module _ (S : Staking) (P : PoolOps S) where
  pub record GenesisState : Type 0 where
    pub accounts : List GenesisAccount
    pub stake_data : StakeGenesis S
    pub exchange_data : Message.GenesisState

  -- `ToAccount`
  abbrev pub to_account : GenesisAccount → BaseAccount
  to_account ga = record {
    address = ga.address;
    coins = S.sort ga.coins;
    account_number = pos 0;
    sequence = pos 0;
  }

  -- `auth.NewBaseAccountWithAddress`, with the coins that are set next.
  abbrev pub account_of : ThorchainGenTx → BaseAccount
  account_of gen_tx = record {
    address = gen_tx.address;
    coins =
        record { denom = gen_tx.name <> "Token"; amount = pos 1000 }
        ∷ record { denom = "RUNE"; amount = free_fermions_acc }
        ∷ [];
    account_number = pos 0;
    sequence = pos 0;
  }

  abbrev pub increase_supply : ℤ → StakeGenesis S → StakeGenesis S
  increase_supply n stake_data = record stake_data {
    pool = record (stake_data.pool) {
      loose_tokens = S.add stake_data.pool.loose_tokens (S.new_rat n);
    };
  }

  -- The validator of a genesis transaction, and its delegation to itself.
  abbrev pub with_validator : ThorchainGenTx → S.PubKey → StakeGenesis S → StakeGenesis S
  with_validator gen_tx pub_key stake_data =
      let increased = increase_supply free_fermion_val stake_data in
      let validator = S.new_validator gen_tx.address pub_key gen_tx.name in
      let (delegated, pool, issued_del_shares) =
        P.add_tokens_from_del validator increased.pool free_fermion_val in
      let delegation : Delegation S = record {
        delegator_addr = S.owner delegated;
        validator_addr = S.owner delegated;
        shares = issued_del_shares;
        height = pos 0;
      } in
      record increased {
        pool = pool;
        validators = increased.validators ++ delegated ∷ [];
        bonds = increased.bonds ++ delegation ∷ [];
      }

  unfoldable pub add_validator : ThorchainGenTx → StakeGenesis S → Made (StakeGenesis S)
  add_validator gen_tx stake_data = do
    pub_key ← or_panicked (S.get_acc_pub_key gen_tx.pub_key)
    made (with_validator gen_tx pub_key stake_data)

  -- One round of the loop of `ThorchainAppGenState`.
  unfoldable pub add_gen_tx : ThorchainGenTx → StakeGenesis S → Made (StakeGenesis S)
  unfolding add_validator
  add_gen_tx gen_tx stake_data =
      let increased = increase_supply free_fermions_acc stake_data in
      if ltb 0 (len gen_tx.name) then add_validator gen_tx increased else made increased

  unfoldable pub add_gen_txs :
      List S.Json → StakeGenesis S → Made (List GenesisAccount × StakeGenesis S)
  unfolding add_gen_tx
  add_gen_txs [] stake_data = made ([], stake_data)
  add_gen_txs (app_gen_tx ∷ app_gen_txs) stake_data = do
    gen_tx ← or_failed (S.unmarshal_gen_tx app_gen_tx)
    stake_data' ← add_gen_tx gen_tx stake_data
    (genaccs, stake_data'') ← add_gen_txs app_gen_txs stake_data'
    made (new_genesis_account (account_of gen_tx) ∷ genaccs, stake_data'')

  unfoldable pub thorchain_app_gen_state : List S.Json → Made GenesisState
  unfolding add_gen_txs
  thorchain_app_gen_state [] = failed
  thorchain_app_gen_state (app_gen_tx ∷ app_gen_txs) = do
    (genaccs, stake_data) ← add_gen_txs (app_gen_tx ∷ app_gen_txs) P.default_genesis_state
    made (record {
      accounts = genaccs;
      stake_data = stake_data;
      exchange_data = default_genesis_state;
    })

  -- `ThorchainAppGenStateJSON`
  abbrev pub app_gen_state_json : {J : Type 0} → (GenesisState → Option J) → List S.Json → Made J
  app_gen_state_json marshal app_gen_txs =
      thorchain_app_gen_state app_gen_txs >>= λ genesis_state. or_failed (marshal genesis_state)

  -- `ThorchainAppGenTxNF`: the transaction, and the power of the validator, whose key is the one
  -- given.
  unfoldable pub thorchain_app_gen_tx_nf :
      S.PubKey → Address → String → Made (S.Json × S.PubKey × ℤ)
  thorchain_app_gen_tx_nf pk addr name = do
    pub_key ← or_panicked (S.bech32ify_acc_pub pk)
    bz ← or_failed (S.marshal_gen_tx (record { name = name; address = addr; pub_key = pub_key }))
    made (bz, pk, free_fermion_val)

  -- The password for a new key: what the prompt gave, and whether an error came with it.
  abbrev pub default_key_pass : String
  default_key_pass = "12345678"

  abbrev pub key_password : String → Bool → Option String
  key_password key_pass bad =
      if bad && not (str_eq key_pass "")
      then none
      else some (if str_eq key_pass "" then default_key_pass else key_pass)

  module _ {Keys Printed : Type 0}
      -- `server.GenerateSaveCoinKey`, with the address and the secret
      (generate_save_coin_key : String → String → Bool → Keys → Option (Address × String) × Keys)
      -- `MarshalJSON` of the map with the secret
      (marshal_secret : String → Option Printed) where
    abbrev print_and_make :
        S.PubKey
        → String
        → Option (Address × String) × Keys
        → Made ((S.Json × S.PubKey × ℤ) × Printed) × Keys
    print_and_make pk name (none, keys) = (failed, keys)
    print_and_make pk name (some (addr, secret), keys) = (
      or_failed (marshal_secret secret) >>= λ cli_print.
          thorchain_app_gen_tx_nf pk addr name >>= λ gen_tx. made (gen_tx, cli_print),
      keys,
    )

    abbrev with_password :
        S.PubKey
        → String
        → Bool
        → Option String
        → Keys
        → Made ((S.Json × S.PubKey × ℤ) × Printed) × Keys
    with_password pk name overwrite none keys = (failed, keys)
    with_password pk name overwrite (some key_pass) keys =
        print_and_make pk name (generate_save_coin_key name key_pass overwrite keys)

    -- `ThorchainAppGenTx`, with the name and the flag for overwriting, and what the prompt gave.
    unfoldable pub thorchain_app_gen_tx :
        S.PubKey
        → String
        → Bool
        → String × Bool
        → Keys
        → Made ((S.Json × S.PubKey × ℤ) × Printed) × Keys
    unfolding thorchain_app_gen_tx_nf
    thorchain_app_gen_tx pk name overwrite (key_pass, bad) keys =
        let made_tx = with_password pk name overwrite (key_password key_pass bad) keys in
        if str_eq name "" then (failed, keys) else made_tx
