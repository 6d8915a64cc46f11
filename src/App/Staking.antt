-- ===== src/App/Staking.antt =====
-- What app/genesis.go and app/app.go use of the SDK's auth and stake modules and of the codec.
use thorchain_v.Base.{◌≡◌, Option, some, List, String}
use thorchain_v.Base.Int.{ℤ, pos, ◌+ℤ◌}
use thorchain_v.Sdk.Types.{Address, Coin}

-- `auth.BaseAccount`, less the public key, which the source does not set.
pub record BaseAccount : Type 0 where
  pub address : Address
  pub coins : List Coin
  pub account_number : ℤ
  pub sequence : ℤ

-- `ThorchainGenTx`: the simple genesis transaction.
pub record ThorchainGenTx : Type 0 where
  pub name : String
  pub address : Address
  pub pub_key : String

pub record Staking : Type 1 where
  -- `sdk.Rat`, with `NewRat` and `Add`
  pub Rat : Type 0
  pub new_rat : ℤ → Rat
  pub add : Rat → Rat → Rat
  -- the fields of a `stake.Pool` other than the loose tokens, and those of a `stake.GenesisState`
  -- other than pool, validators and bonds
  pub PoolRest : Type 0
  pub GenesisRest : Type 0
  pub Validator : Type 0
  pub PubKey : Type 0
  -- `NewValidator`, with a description of the name alone, and the field `Owner`
  pub new_validator : Address → PubKey → String → Validator
  pub owner : Validator → Address
  -- `sdk.GetAccPubKeyBech32`, which `MustGetAccPubKeyBech32` panics without, and its inverse
  pub get_acc_pub_key : String → Option PubKey
  pub bech32ify_acc_pub : PubKey → Option String
  -- `Coins.Sort`
  pub sort : List Coin → List Coin
  -- the codec at a genesis transaction: `UnmarshalJSON` and `MarshalJSONIndent`
  pub Json : Type 0
  pub unmarshal_gen_tx : Json → Option ThorchainGenTx
  pub marshal_gen_tx : ThorchainGenTx → Option Json

module _ (S : Staking) where
  pub record Pool : Type 0 where
    pub loose_tokens : S.Rat
    pub others : S.PoolRest

  -- `stake.Delegation`
  pub record Delegation : Type 0 where
    pub delegator_addr : Address
    pub validator_addr : Address
    pub shares : S.Rat
    pub height : ℤ

  -- `stake.GenesisState`
  pub record StakeGenesis : Type 0 where
    pub pool : Pool
    pub validators : List S.Validator
    pub bonds : List Delegation
    pub others : S.GenesisRest

  -- The calls whose types name the pool.
  pub record PoolOps : Type 0 where
    -- `stake.DefaultGenesisState`
    pub default_genesis_state : StakeGenesis
    -- `Validator.AddTokensFromDel`, with the shares issued
    pub add_tokens_from_del : S.Validator → Pool → ℤ → S.Validator × Pool × S.Rat

  -- Sums of whole numbers are those of rationals, `token_supply` is `Pool.TokenSupply`, the loose and
  -- the bonded tokens, between which a delegation moves tokens, and what is written is read back.
  pub record IsLawful (P : PoolOps) : Type 0 where
    pub add_assoc : (a b c : S.Rat) → S.add (S.add a b) c ≡ S.add a (S.add b c)
    pub add-new_rat : (m n : ℤ) → S.add (S.new_rat m) (S.new_rat n) ≡ S.new_rat (m +ℤ n)
    pub add-zero : (a : S.Rat) → S.add a (S.new_rat (pos 0)) ≡ a
    pub token_supply : Pool → S.Rat
    pub token_supply-add :
        (p : Pool) (r : S.Rat)
        → token_supply (record p { loose_tokens = S.add p.loose_tokens r })
          ≡ S.add (token_supply p) r
    pub token_supply-delegate :
        (v : S.Validator) (p : Pool) (n : ℤ)
        → token_supply (P.add_tokens_from_del v p n).1 ≡ token_supply p
    pub owner-new_validator :
        (a : Address) (k : S.PubKey) (name : String) → S.owner (S.new_validator a k name) ≡ a
    pub owner-delegate :
        (v : S.Validator) (p : Pool) (n : ℤ) → S.owner (P.add_tokens_from_del v p n).0 ≡ S.owner v
    pub acc_pub_key : S.PubKey → String
    pub bech32ify_lem : (k : S.PubKey) → S.bech32ify_acc_pub k ≡ some (acc_pub_key k)
    pub get_acc_pub_key_lem : (k : S.PubKey) → S.get_acc_pub_key (acc_pub_key k) ≡ some k
    pub gen_tx_json : ThorchainGenTx → S.Json
    pub marshal_gen_tx_lem : (g : ThorchainGenTx) → S.marshal_gen_tx g ≡ some (gen_tx_json g)
    pub unmarshal_gen_tx_lem : (g : ThorchainGenTx) → S.unmarshal_gen_tx (gen_tx_json g) ≡ some g
