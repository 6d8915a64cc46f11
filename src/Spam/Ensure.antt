-- ===== src/Spam/Ensure.antt =====
-- cmd/thorchainspam/account/ensure.go and helpers/CountSpamAccounts.go: the command that makes
-- accounts until there are k of them. The key base, the node and the flags are parameters.
mod Steps
pub mod Made
pub mod Accounts
use thorchain_v.Base.{
  ℕ, zero, suc, ◌+◌, ◌-◌, String, ◌<>◌, Bool, true, false, not, List, [], ◌∷◌, str_eq, starts_with,
  leb, if◌then◌else◌, Option, none, some, ◌⊎◌, inl, inr, ◌≡◌, ◌≢◌, ◌++◌, All,
}
use thorchain_v.Base.Int.{ℤ, pos, pos_part, ◌+ℤ◌, ◌-ℤ◌, leb_ℤ}
use thorchain_v.Base.Decimals.{show_ℕ}
use thorchain_v.Sdk.Types.{Coin, Address}
use thorchain_v.Spam.Random.{ListOps}
use thorchain_v.Spam.Broadcast.{Network, TxContext, Account, StdTx, build_sign_and_broadcast_msg}

-- `keys.Keybase`: `List`, by the names of the keys, `CreateMnemonic` with English words and
-- secp256k1, and `Bech32KeyOutput`; `none` is an error.
pub record KeyBase : Type 1 where
  pub State : Type 0
  pub Info : Type 0
  pub list : State → Option (List String)
  pub create_mnemonic : String → String → State → Option Info × State
  pub bech32_key_output : Info → Option Address

pub record IsLawful (B : KeyBase) : Type 0 where
  pub names : B.State → List String
  pub list_lem : (s : B.State) (ns : List String) → B.list s ≡ some ns → ns ≡ names s
  -- A new name is put in its place among the others.
  pub names-create_mnemonic :
      (name pass : String) (s t : B.State) (info : B.Info)
      → B.create_mnemonic name pass s ≡ (some info, t)
      → All (λ n. n ≢ name) (names s)
      → (l : List String) × (r : List String) × (names s ≡ l ++ r) × (names t ≡ l ++ name ∷ r)

pub data EnsureError : Type 0 where
  spam_password_required sign_password_required : EnsureError
  no_key_base no_from_address no_coins : EnsureError
  no_account account_error not_enough_coins : EnsureError
  no_key not_sent : EnsureError

pub data Ended (A : Type 0) : Type 0 where
  done : A → Ended A
  failed : EnsureError → Ended A
  panic : Ended A

unfoldable pub count_spam_accounts : List String → String → ℕ
count_spam_accounts [] spam_prefix = 0
count_spam_accounts (name ∷ names) spam_prefix =
    let rest = count_spam_accounts names spam_prefix in
    if starts_with name spam_prefix then suc rest else rest

-- `%v-%v`
abbrev pub account_name : String → ℕ → String
account_name spam_prefix i = spam_prefix <> ("-" <> show_ℕ i)

pub record Tool : Type 1 where
  pub SendMsg : Type 0
  pub network : Network SendMsg
  pub marshal_binary : StdTx network → Option network.Bytes
  pub key_base : KeyBase
  pub lists : ListOps
  -- `client.BuildMsg`, `sdk.ParseCoins`, and `GetFromAddress` and `EnsureAccountExistsFromAddr`
  pub build_msg : Address → Address → List Coin → SendMsg
  pub parse_coins : String → Option (List Coin)
  pub from_address : Option Address
  pub from_address_name : String
  pub account_exists : Address → network.State → Bool × network.State
  -- `NewTxContextFromCLI`
  pub tx_context : TxContext

pub record Flags : Type 0 where
  pub spam_prefix : String
  pub spam_password : String
  pub sign_password : String
  pub k : ℤ
  pub amount : String

module _ (T : Tool) where
  pub record World : Type 0 where
    pub keys : T.key_base.State
    pub node : T.network.State

  abbrev pub Step : Type 0 → Type 0
  Step A = World → Ended A × World

  abbrev pub continue : {A B : Type 0} → (A → Step B) → Ended A × World → Ended B × World
  continue f (done a, w) = f a w
  continue f (failed e, w) = (failed e, w)
  continue f (panic, w) = (panic, w)

  infixl 5 ◌>>=◌ ◌>>◌
  abbrev ◌>>=◌ : {A B : Type 0} → Step A → (A → Step B) → Step B
  ◌>>=◌ m f w = continue f (m w)

  abbrev ◌>>◌ : {A : Type 0} → Step (Unit {0}) → Step A → Step A
  m >> k = m >>= λ _. k

  abbrev pure : {A : Type 0} → A → Step A
  pure a w = (done a, w)

  abbrev expect : {A : Type 0} → EnsureError → Option A → Ended A
  expect e none = failed e
  expect e (some a) = done a

  abbrev known : {A : Type 0} → Ended A → Step A
  known r w = (r, w)

  abbrev fail_if : Bool → EnsureError → Step (Unit {0})
  fail_if c e = if c then known (failed e) else pure tt

  abbrev or_panic : {A : Type 0} → Option A → Ended A
  or_panic none = panic
  or_panic (some a) = done a

  -- A call of the node, whose missing answer is the error `e`.
  abbrev ask : {A : Type 0} → EnsureError → (T.network.State → Option A × T.network.State) → Step A
  ask e f w = let (r, s) = f w.node in (expect e r, record w { node = s })

  unfoldable pub create_spam_account_key : String → String → Step Address
  create_spam_account_key name pass w =
      let (r, s) = T.key_base.create_mnemonic name pass w.keys in
      continue (λ info. known (expect no_key (T.key_base.bech32_key_output info)))
        (expect no_key r, record w { keys = s })

  -- `MulRaw` is a panic out of range.
  unfoldable pub multiply_coins : List Coin → ℤ → Step (List Coin)
  multiply_coins [] multiply_by = pure []
  multiply_coins (coin ∷ coins) multiply_by = do
    amount ← known (or_panic (T.lists.mul_raw coin.amount multiply_by))
    rest ← multiply_coins coins multiply_by
    pure (record { denom = coin.denom; amount = amount } ∷ rest)

  abbrev ask_exists : Address → Step Bool
  ask_exists from w =
      let (exists, s) = T.account_exists from w.node in (done exists, record w { node = s })

  unfoldable pub ensure_from_acc_has_enough_coins : Address → List Coin → Step (Unit {0})
  ensure_from_acc_has_enough_coins from coins = do
    exists ← ask_exists from
    fail_if (not exists) no_account
    account ← ask account_error (T.network.get_account from)
    fail_if (not (T.lists.is_gte account.coins coins)) not_enough_coins

  -- The loop of `sendCoins`, with `left` accounts to make, the next one with the number `i`.
  unfoldable pub send_loop :
      Flags → TxContext → Address → List Coin → ℕ → ℕ → ℕ → ℤ → Step (Unit {0})
  unfolding create_spam_account_key
  send_loop flags tx_ctx from coins existing zero i sequence = pure tt
  send_loop flags tx_ctx from coins existing (suc left) i sequence = do
    to ← create_spam_account_key (account_name flags.spam_prefix (i + existing)) flags.spam_password
    let msg = T.build_msg from to coins
    let tx_ctx' = record tx_ctx { sequence = sequence }
    bz ← ask not_sent (
        build_sign_and_broadcast_msg T.network T.marshal_binary tx_ctx' T.from_address_name
          flags.sign_password msg)
    send_loop flags tx_ctx' from coins existing left (suc i) (sequence +ℤ pos 1)

  unfoldable pub send_coins : Flags → ℕ → ℕ → Address → List Coin → Step (Unit {0})
  unfolding send_loop
  send_coins flags num_accs_to_create existing from coins = do
    account ← ask account_error (T.network.get_account from)
    let tx_ctx = record T.tx_context { account_number = account.account_number; gas = pos 20000 }
    send_loop flags tx_ctx from coins existing num_accs_to_create 0 account.sequence

  abbrev make_accounts : Flags → ℕ → ℤ → Step (Unit {0})
  make_accounts flags existing num_accs_to_create = do
    from ← known (expect no_from_address T.from_address)
    coins ← known (expect no_coins (T.parse_coins flags.amount))
    total_coins_needed ← multiply_coins coins num_accs_to_create
    ensure_from_acc_has_enough_coins from total_coins_needed
    send_coins flags (pos_part num_accs_to_create) existing from coins

  -- Nothing is to be done when there are enough accounts.
  abbrev make_missing : Flags → ℕ → ℤ → Step (Unit {0})
  make_missing flags existing num_accs_to_create =
      if leb_ℤ num_accs_to_create (pos 0)
      then pure tt
      else make_accounts flags existing num_accs_to_create

  abbrev list_keys : Step (List String)
  list_keys w = (expect no_key_base (T.key_base.list w.keys), w)

  abbrev ensure_listed : Flags → Step (Unit {0})
  ensure_listed flags = do
    infos ← list_keys
    let existing = count_spam_accounts infos flags.spam_prefix
    let num_accs_to_create = flags.k -ℤ pos existing
    make_missing flags existing num_accs_to_create

  unfoldable pub account_ensure : Flags → Step (Unit {0})
  unfolding multiply_coins ensure_from_acc_has_enough_coins send_coins count_spam_accounts
  account_ensure flags = do
    fail_if (str_eq flags.spam_password "") spam_password_required
    fail_if (str_eq flags.sign_password "") sign_password_required
    ensure_listed flags
